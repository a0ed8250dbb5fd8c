-- ===== src/RbTree/Erase/Order.antt =====
-- The entries that `erase` (src/utils/mempool/src/RBtree.cpp) leaves, in order.
use my_vm_os.Base.{
  ◌≡◌, refl, ap, sym, subst, ◌∙◌, List, [], ◌∷◌, ◌++◌, Option, none, some, if_cases,
}
use mathlib.Core.List.{append_assoc}
use my_vm_os.RbTree.{
  Color, red, black, Tree, leaf, node, Side, at_left, at_right, Frame, is_red, set_color, join,
  plug,
}
use my_vm_os.RbTree.Order.{
  inorder, beside, around, Reads, inorder-set_color, inorder-join, inorder-plug, beside-set_color,
  Reads-rotate_left, Reads-rotate_right, Reads-finish,
}
use my_vm_os.RbTree.Erase.{
  leftmost, drop_leftmost, rotate_up, rotate_down, near, far, turn_sibling, far_black, turn_parent,
  rebalance, with_sibling, erase_fixup, splice, erase,
}

module _ {A : Type 0} where
  inorder-leftmost :
      (c : Color) (l : Tree A) (e : A) (r : Tree A) (d : A)
      → leftmost d (node c l e r) ∷ inorder (drop_leftmost (node c l e r)) ≡ inorder (node c l e r)
  unfolding leftmost drop_leftmost
  inorder-leftmost c leaf e r d = refl
  inorder-leftmost c (node b l f m) e r d =
      ap (λ xs. xs ++ (e ∷ inorder r)) (inorder-leftmost b l f m e)

  Reads-rotate_up : (side : Side) (t : Tree A) → Reads (inorder t) (rotate_up side t)
  Reads-rotate_up at_left t = Reads-rotate_right t
  Reads-rotate_up at_right t = Reads-rotate_left t

  Reads-rotate_down : (side : Side) (t : Tree A) → Reads (inorder t) (rotate_down side t)
  Reads-rotate_down at_left t = Reads-rotate_left t
  Reads-rotate_down at_right t = Reads-rotate_right t

  inorder-sibling :
      (side : Side) (l : Tree A) (e : A) (r : Tree A)
      → inorder (join side red (set_color black (near side l r)) e (far side l r))
        ≡ inorder l ++ (e ∷ inorder r)
  inorder-sibling at_left l e r = ap (λ xs. xs ++ (e ∷ inorder r)) (inorder-set_color black l)
  inorder-sibling at_right l e r = ap (λ xs. inorder l ++ (e ∷ xs)) (inorder-set_color black r)

  Reads-turn_sibling :
      (side : Side) (l : Tree A) (e : A) (r : Tree A)
      → Reads (inorder l ++ (e ∷ inorder r)) (turn_sibling side l e r)
  Reads-turn_sibling side l e r =
      let sibling = join side red (set_color black (near side l r)) e (far side l r) in
      if_cases (Reads (inorder l ++ (e ∷ inorder r))) (is_red (far side l r))
        (some (node black l e r)) (rotate_up side sibling) (λ z. refl)
        (λ z.
          subst (λ xs. Reads xs (rotate_up side sibling)) (inorder-sibling side l e r)
            (Reads-rotate_up side sibling))

  inorder-far_black :
      (side : Side) (c : Color) (t : Tree A) → inorder (far_black side c t) ≡ inorder t
  inorder-far_black at_left c leaf = refl
  inorder-far_black at_right c leaf = refl
  inorder-far_black at_left c (node d l e r) =
      ap (λ xs. inorder l ++ (e ∷ xs)) (inorder-set_color black r)
  inorder-far_black at_right c (node d l e r) =
      ap (λ xs. xs ++ (e ∷ inorder r)) (inorder-set_color black l)

  beside-cong :
      (side : Side) (e : A) (s t : Tree A) (xs : List A)
      → inorder s ≡ inorder t
      → beside side e s xs ≡ beside side e t xs
  beside-cong at_left e s t xs h = ap (λ l. xs ++ (e ∷ l)) h
  beside-cong at_right e s t xs h = ap (λ l. l ++ (e ∷ xs)) h

  Reads-turn_parent :
      (side : Side) (c : Color) (t : Tree A) (e : A) (o : Option (Tree A)) (other : Tree A)
      → Reads (inorder other) o
      → Reads (beside side e other (inorder t)) (turn_parent side c t e o)
  Reads-turn_parent side c t e none other h = tt
  Reads-turn_parent side c t e (some s) other h =
      let turned = join side black t e (far_black side c s) in
      subst (λ xs. Reads xs (rotate_down side turned))
        (inorder-join side black t e (far_black side c s)
          ∙ beside-cong side e (far_black side c s) other (inorder t)
              (inorder-far_black side c s ∙ h))
        (Reads-rotate_down side turned)

  Reads-rebalance :
      (recolored : Option (Tree A)) (side : Side) (c : Color) (t : Tree A) (e : A)
      (sibling : Tree A) (path : List (Frame A))
      → Reads (around path (beside side e sibling (inorder t))) recolored
      → Reads
          (around path (beside side e sibling (inorder t)))
          (rebalance recolored side c t e sibling path)
  Reads-rebalance recolored side c t e leaf path h = tt
  Reads-rebalance recolored side c t e (node d l f r) path h =
      let done =
        Reads-finish (turn_parent side c t e (turn_sibling side l f r))
          (beside side e (node d l f r) (inorder t)) path
          (Reads-turn_parent side c t e (turn_sibling side l f r) (node d l f r)
            (Reads-turn_sibling side l f r)) in
      if_cases (Reads (around path (beside side e (node d l f r) (inorder t)))) (is_red l) _ _
        (λ z. done)
        (λ z.
          if_cases (Reads (around path (beside side e (node d l f r) (inorder t)))) (is_red r) _
            recolored (λ y. done) (λ y. h))

  beside-turn :
      (side : Side) (e : A) (c : Color) (l : Tree A) (f : A) (r : Tree A) (xs : List A)
      → beside side f (far side l r) (beside side e (near side l r) xs)
        ≡ beside side e (node c l f r) xs
  beside-turn at_left e c l f r xs = append_assoc xs (e ∷ inorder l) (f ∷ inorder r)
  beside-turn at_right e c l f r xs = sym (append_assoc (inorder l) (f ∷ inorder r) (e ∷ xs))

  Reads-with_sibling :
      (recolored : Option (Tree A)) (side : Side) (c : Color) (t : Tree A) (e : A)
      (sibling : Tree A) (path : List (Frame A))
      → Reads (around path (beside side e sibling (inorder t))) recolored
      → Reads
          (around path (beside side e sibling (inorder t)))
          (with_sibling recolored side c t e sibling path)
  Reads-with_sibling recolored side c t e leaf path h =
      Reads-rebalance recolored side c t e leaf path h
  Reads-with_sibling recolored side c t e (node black l f r) path h =
      Reads-rebalance recolored side c t e (node black l f r) path h
  Reads-with_sibling recolored side c t e (node red l f r) path h =
      let above : List (Frame A) =
        record { side = side; color = black; entry = f; other = far side l r } ∷ path in
      let parent = join side black t e (set_color red (near side l r)) in
      subst (λ xs. Reads (around path xs) (with_sibling recolored side c t e (node red l f r) path))
        (beside-turn side e red l f r (inorder t))
        (Reads-rebalance (some (plug above parent)) side red t e (near side l r) above (
          inorder-plug above parent
          ∙ ap (around above) (
              inorder-join side black t e (set_color red (near side l r))
              ∙ beside-set_color side red e (near side l r) (inorder t))))

  Reads-erase_fixup :
      (path : List (Frame A)) (t : Tree A) → Reads (around path (inorder t)) (erase_fixup path t)
  unfolding erase_fixup
  Reads-erase_fixup [] t = inorder-set_color black t
  Reads-erase_fixup (f ∷ path) t =
      let parent = join f.side f.color t f.entry (set_color red f.other) in
      if_cases (Reads (around (f ∷ path) (inorder t))) (is_red t) _ _
        (λ z.
          inorder-plug (f ∷ path) (set_color black t)
          ∙ ap (around (f ∷ path)) (inorder-set_color black t))
        (λ z. Reads-with_sibling (erase_fixup path parent) f.side f.color t f.entry f.other path (
          subst (λ xs. Reads (around path xs) (erase_fixup path parent))
            (inorder-join f.side f.color t f.entry (set_color red f.other)
              ∙ beside-set_color f.side red f.entry f.other (inorder t))
            (Reads-erase_fixup path parent)))

  Reads-splice :
      (c : Color) (child : Tree A) (path : List (Frame A))
      → Reads (around path (inorder child)) (splice c child path)
  Reads-splice red child path = inorder-plug path child
  Reads-splice black leaf path = inorder-plug path leaf
  Reads-splice black (node d l e r) path = Reads-erase_fixup path (node d l e r)

  pub append_nil : (xs : List A) → xs ++ [] ≡ xs
  append_nil [] = refl
  append_nil (x ∷ xs) = ap (λ ys. x ∷ ys) (append_nil xs)

  pub Reads-erase :
      (path : List (Frame A)) (c : Color) (l : Tree A) (e : A) (r : Tree A)
      → Reads (around path (inorder l ++ inorder r)) (erase path c l e r)
  unfolding erase
  Reads-erase path c leaf e r = Reads-splice c r path
  Reads-erase path c (node d k f m) e leaf =
      subst (λ xs. Reads (around path xs) (splice c (node d k f m) path))
        (sym (append_nil (inorder (node d k f m)))) (Reads-splice c (node d k f m) path)
  Reads-erase path c (node d k f m) e (node b p g q) =
      inorder-plug path
        (node c (node d k f m) (leftmost e (node b p g q)) (drop_leftmost (node b p g q)))
      ∙ ap (λ xs. around path (inorder (node d k f m) ++ xs)) (inorder-leftmost b p g q e)
