-- ===== src/RbTree/Order.antt =====
-- The order of the entries in the trees that `insert_with_compare` (src/utils/mempool/src/RBtree.cpp) makes.
use my_vm_os.Base.{
  if_cases, ◌≡◌, refl, ap, sym, subst, ◌∙◌, List, [], ◌∷◌, ◌++◌, Option, none, some,
}
use mathlib.Core.List.{append_assoc}
use my_vm_os.RbTree.{
  Color, red, black, Tree, leaf, node, Side, at_left, at_right, Frame, color_red, is_red, set_color,
  join, up, plug, rotate_left, rotate_right, finish, straighten, turn_left, turn_right, lift_left,
  lift_right, insert_fixup,
}

module _ {A : Type 0} where
  abbrev pub inorder : Tree A → List A
  inorder leaf = []
  inorder (node c l e r) = inorder l ++ (e ∷ inorder r)

  -- The entries in order, with those of a path around them.
  abbrev pub beside : Side → A → Tree A → List A → List A
  beside at_left e other xs = xs ++ (e ∷ inorder other)
  beside at_right e other xs = inorder other ++ (e ∷ xs)

  abbrev pub around : List (Frame A) → List A → List A
  around [] xs = xs
  around (f ∷ path) xs = around path (beside f.side f.entry f.other xs)

  -- Where there is a tree, its entries in order are `xs`.
  abbrev pub Reads : List A → Option (Tree A) → Type 0
  Reads xs none = Unit
  Reads xs (some t) = inorder t ≡ xs

  pub inorder-set_color : (c : Color) (t : Tree A) → inorder (set_color c t) ≡ inorder t
  inorder-set_color c leaf = refl
  inorder-set_color c (node d l e r) = refl

  pub inorder-join :
      (side : Side) (c : Color) (t : Tree A) (e : A) (other : Tree A)
      → inorder (join side c t e other) ≡ beside side e other (inorder t)
  inorder-join at_left c t e other = refl
  inorder-join at_right c t e other = refl

  pub inorder-plug :
      (path : List (Frame A)) (t : Tree A) → inorder (plug path t) ≡ around path (inorder t)
  inorder-plug [] t = refl
  inorder-plug (f ∷ path) t =
      inorder-plug path (up t f) ∙ ap (around path) (inorder-join f.side f.color t f.entry f.other)

  pub beside-set_color :
      (side : Side) (c : Color) (e : A) (other : Tree A) (xs : List A)
      → beside side e (set_color c other) xs ≡ beside side e other xs
  beside-set_color at_left c e other xs = ap (λ l. xs ++ (e ∷ l)) (inorder-set_color c other)
  beside-set_color at_right c e other xs = ap (λ l. l ++ (e ∷ xs)) (inorder-set_color c other)

  pub Reads-rotate_left : (t : Tree A) → Reads (inorder t) (rotate_left t)
  unfolding rotate_left
  Reads-rotate_left leaf = tt
  Reads-rotate_left (node c l e leaf) = tt
  Reads-rotate_left (node c l e (node d m f r)) =
      append_assoc (inorder l) (e ∷ inorder m) (f ∷ inorder r)

  pub Reads-rotate_right : (t : Tree A) → Reads (inorder t) (rotate_right t)
  unfolding rotate_right
  Reads-rotate_right leaf = tt
  Reads-rotate_right (node c leaf e r) = tt
  Reads-rotate_right (node c (node d l e m) f r) =
      sym (append_assoc (inorder l) (e ∷ inorder m) (f ∷ inorder r))

  Reads-lift_left : (side : Side) (t : Tree A) → Reads (inorder t) (lift_left side t)
  Reads-lift_left at_left t = refl
  Reads-lift_left at_right t = Reads-rotate_left t

  Reads-lift_right : (side : Side) (t : Tree A) → Reads (inorder t) (lift_right side t)
  Reads-lift_right at_left t = Reads-rotate_right t
  Reads-lift_right at_right t = refl

  Reads-turn_right :
      (o : Option (Tree A)) (xs : List A) (e : A) (uncle : Tree A)
      → Reads xs o
      → Reads (xs ++ (e ∷ inorder uncle)) (turn_right o e uncle)
  Reads-turn_right none xs e uncle h = tt
  Reads-turn_right (some t) xs e uncle h =
      subst
        (λ ys.
          Reads (ys ++ (e ∷ inorder uncle)) (rotate_right (node red (set_color black t) e uncle)))
        (inorder-set_color black t ∙ h) (Reads-rotate_right (node red (set_color black t) e uncle))

  Reads-turn_left :
      (o : Option (Tree A)) (xs : List A) (e : A) (uncle : Tree A)
      → Reads xs o
      → Reads (inorder uncle ++ (e ∷ xs)) (turn_left o e uncle)
  Reads-turn_left none xs e uncle h = tt
  Reads-turn_left (some t) xs e uncle h =
      subst
        (λ ys.
          Reads (inorder uncle ++ (e ∷ ys)) (rotate_left (node red uncle e (set_color black t))))
        (inorder-set_color black t ∙ h) (Reads-rotate_left (node red uncle e (set_color black t)))

  Reads-straighten :
      (gside side : Side) (t : Tree A) (e : A) (uncle : Tree A)
      → Reads (beside gside e uncle (inorder t)) (straighten gside side t e uncle)
  Reads-straighten at_left side t e uncle =
      Reads-turn_right (lift_left side t) (inorder t) e uncle (Reads-lift_left side t)
  Reads-straighten at_right side t e uncle =
      Reads-turn_left (lift_right side t) (inorder t) e uncle (Reads-lift_right side t)

  pub Reads-finish :
      (o : Option (Tree A)) (xs : List A) (path : List (Frame A))
      → Reads xs o
      → Reads (around path xs) (finish o path)
  Reads-finish none xs path h = tt
  Reads-finish (some t) xs path h =
      inorder-set_color black (plug path t) ∙ inorder-plug path t ∙ ap (around path) h

  pub Reads-insert_fixup :
      (path : List (Frame A)) (t : Tree A) → Reads (around path (inorder t)) (insert_fixup path t)
  unfolding insert_fixup
  Reads-insert_fixup [] t = inorder-set_color black t
  Reads-insert_fixup (f ∷ []) t =
      if_cases (Reads (around (f ∷ []) (inorder t))) (color_red f.color) none _ (λ is. tt)
        (λ not. inorder-set_color black (up t f) ∙ inorder-join f.side f.color t f.entry f.other)
  Reads-insert_fixup (f ∷ g ∷ path) t =
      let parent = inorder-join f.side f.color t f.entry f.other in
      if_cases (Reads (around (f ∷ g ∷ path) (inorder t))) (color_red f.color) _ _
        (λ is.
          if_cases (Reads (around (f ∷ g ∷ path) (inorder t))) (is_red g.other) _ _
            (λ ur.
              subst
                (λ xs. Reads (around path xs) (
                  insert_fixup path
                    (join g.side red (set_color black (up t f)) g.entry (set_color black g.other))))
                (inorder-join g.side red (set_color black (up t f)) g.entry
                    (set_color black g.other)
                  ∙ beside-set_color g.side black g.entry g.other
                      (inorder (set_color black (up t f)))
                  ∙ ap (beside g.side g.entry g.other) (inorder-set_color black (up t f) ∙ parent))
                (Reads-insert_fixup path
                  (join g.side red (set_color black (up t f)) g.entry (set_color black g.other))))
            (λ ur.
              Reads-finish (straighten g.side f.side (up t f) g.entry g.other)
                (beside g.side g.entry g.other (beside f.side f.entry f.other (inorder t))) path
                (subst
                  (λ xs.
                    Reads (beside g.side g.entry g.other xs)
                      (straighten g.side f.side (up t f) g.entry g.other))
                  parent (Reads-straighten g.side f.side (up t f) g.entry g.other))))
        (λ not. inorder-set_color black (plug (f ∷ g ∷ path) t) ∙ inorder-plug (f ∷ g ∷ path) t)
