-- ===== src/RbTree/Insert.antt =====
-- Insertion (`insert_with_compare`, `insert_fixup` of src/utils/mempool/src/RBtree.cpp) in red-black trees.
use my_vm_os.Base.{
  if_cases, ℕ, zero, suc, ◌≡◌, refl, ap, sym, subst, ◌∙◌, Bool, true, false, List, [], ◌∷◌, Option,
  none, some, arith,
}
use my_vm_os.RbTree.{
  red, black, Tree, leaf, node, at_left, at_right, Frame, color_red, is_red, set_color, join, up,
  plug, finish, insert_fixup, descend, insert_with_compare,
}
use my_vm_os.RbTree.Balance.{
  raise, raise_red, raise_black, IsProper, IsRedBlack, top_red, has_top, Awaits, join-IsProper,
  is_red-join, plug-IsRedBlack, set_color-black-IsProper, straighten-IsTurned, set_black-join,
  is_red-set_black,
}

module _ {A : Type 0} where
  -- The result of an insertion.
  pub record Keeps (o : Option (Tree A)) : Type 0 where
    pub tree : Tree A
    pub result : o ≡ some tree
    pub valid : IsRedBlack tree

  plug-Keeps :
      (path : List (Frame A)) (n : ℕ) (t : Tree A)
      → Awaits n path
      → IsProper n t
      → (top_red path ≡ true → is_red t ≡ false)
      → Keeps (some (set_color black (plug path t)))
  plug-Keeps path n t a p ok = record {
    tree = set_color black (plug path t);
    result = refl;
    valid = plug-IsRedBlack path n t a p ok;
  }

  insert_fixup-Keeps :
      (path : List (Frame A)) (n : ℕ) (t : Tree A)
      → Awaits n path
      → IsProper n t
      → is_red t ≡ true
      → Keeps (insert_fixup path t)
  unfolding insert_fixup
  insert_fixup-Keeps [] n t a p tr = plug-Keeps [] n t a p (λ z. ground arith)
  insert_fixup-Keeps (f ∷ []) n t a p tr =
      if_cases Keeps (color_red f.color) none _
        (λ is. let b = a.1.0 is in let c = b.1.0 in ground arith)
        (λ not. plug-Keeps (f ∷ []) n t a p (λ z. ground arith))
  insert_fixup-Keeps (f ∷ g ∷ path) n t a p tr =
      if_cases Keeps (color_red f.color) _ _
        (λ is.
          let b = a.1.0 is in
          let u : IsProper n g.other =
            subst (λ m. IsProper m g.other) (raise_red f.color n is) a.1.1.0 in
          let above : Awaits (suc n) path =
            subst (λ m. Awaits m path)
              (raise_black g.color (raise f.color n) b.1.1 ∙ ap suc (raise_red f.color n is))
              a.1.1.1.1 in
          if_cases Keeps (is_red g.other) _ _
            (λ ur.
              let parent = set_black-join f.side f.color n t f.entry f.other p a.0 in
              insert_fixup-Keeps path (suc n)
                (join g.side red (set_color black (up t f)) g.entry (set_color black g.other)) above
                (join-IsProper g.side red (suc n) (set_color black (up t f)) g.entry
                  (set_color black g.other) parent.0 (set_color-black-IsProper n g.other u ur)
                  (λ z. (parent.1, is_red-set_black g.other)))
                (is_red-join g.side red (set_color black (up t f)) g.entry
                  (set_color black g.other)))
            (λ ur.
              let turn =
                straighten-IsTurned g.side f.side f.color n t f.entry f.other g.entry g.other is tr
                  p a.0 b.0 u ur in
              subst (λ o. Keeps (finish o path)) (sym turn.result)
                (plug-Keeps path (suc n) turn.turned above turn.proper (λ z. turn.root))))
        (λ not. plug-Keeps (f ∷ g ∷ path) n t a p (λ z. ground arith))

  descend-Awaits :
      (before : A → A → Bool) (x : A) (t : Tree A) (path : List (Frame A)) (n : ℕ)
      → IsProper n t
      → Awaits n path
      → (is_red t ≡ true → (has_top path ≡ true) × (top_red path ≡ false))
      → Awaits 0 (descend before x t path)
  descend-Awaits before x leaf path n p a ok = subst (λ m. Awaits m path) p a
  descend-Awaits before x (node red l e r) path n p a ok =
      let at_l =
        descend-Awaits before x l
          (record { side = at_left; color = red; entry = e; other = r } ∷ path) n p.1.0
          (p.1.1, ((λ z. (p.0.1, ok refl)), a)) (λ z. let b = p.0.0 in ground arith) in
      let at_r =
        descend-Awaits before x r
          (record { side = at_right; color = red; entry = e; other = l } ∷ path) n p.1.1
          (p.1.0, ((λ z. (p.0.0, ok refl)), a)) (λ z. let b = p.0.1 in ground arith) in
      if_cases (Awaits 0) (before x e) _ _ (λ z. at_l) (λ z. at_r)
  descend-Awaits before x (node black l e r) path zero p a ok = absurd p
  descend-Awaits before x (node black l e r) path (suc n) p a ok =
      let at_l =
        descend-Awaits before x l
          (record { side = at_left; color = black; entry = e; other = r } ∷ path) n p.0
          (p.1, ((λ z. ground arith), a)) (λ z. (refl, refl)) in
      let at_r =
        descend-Awaits before x r
          (record { side = at_right; color = black; entry = e; other = l } ∷ path) n p.1
          (p.0, ((λ z. ground arith), a)) (λ z. (refl, refl)) in
      if_cases (Awaits 0) (before x e) _ _ (λ z. at_l) (λ z. at_r)

  pub insert_with_compare-Keeps :
      (before : A → A → Bool) (x : A) (t : Tree A)
      → IsRedBlack t
      → Keeps (insert_with_compare before x t)
  unfolding insert_with_compare
  insert_with_compare-Keeps before x t v =
      insert_fixup-Keeps (descend before x t []) 0 (node red leaf x leaf)
        (descend-Awaits before x t [] v.blacks v.proper tt (λ z. let b = v.root in ground arith))
        ((refl, refl), (refl, refl)) refl
