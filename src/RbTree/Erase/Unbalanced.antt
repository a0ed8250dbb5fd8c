-- ===== src/RbTree/Erase/Unbalanced.antt =====
-- What `erase` (src/utils/mempool/src/RBtree.cpp) does to the balance of a red-black tree.
use my_vm_os.Base.{ℕ, zero, suc, ◌≡◌, refl, ap, sym, subst, ◌∙◌, List, [], ◌∷◌, some, arith}
use my_vm_os.RbTree.{
  Color, red, black, Tree, leaf, node, Side, at_left, at_right, Frame, join, up, plug,
}
use my_vm_os.RbTree.Balance.{IsProper, IsRedBlack}
use my_vm_os.RbTree.Erase.{erase}

module _ {A : Type 0} where
  IsProper-unique : (n m : ℕ) (t : Tree A) → IsProper n t → IsProper m t → n ≡ m
  IsProper-unique n m leaf p q = p ∙ sym q
  IsProper-unique n m (node red l e r) p q = IsProper-unique n m l p.1.0 q.1.0
  IsProper-unique zero m (node black l e r) p q = absurd p
  IsProper-unique (suc n) zero (node black l e r) p q = absurd q
  IsProper-unique (suc n) (suc m) (node black l e r) p q = ap suc (IsProper-unique n m l p.0 q.0)

  children :
      (side : Side) (c : Color) (n : ℕ) (t : Tree A) (e : A) (other : Tree A)
      → IsProper n (join side c t e other)
      → (m : ℕ) × (IsProper m t × IsProper m other)
  children at_left red n t e other p = (n, p.1)
  children at_right red n t e other p = (n, (p.1.1, p.1.0))
  children at_left black zero t e other p = absurd p
  children at_right black zero t e other p = absurd p
  children at_left black (suc n) t e other p = (n, p)
  children at_right black (suc n) t e other p = (n, (p.1, p.0))

  pub below_path :
      (path : List (Frame A)) (n : ℕ) (t : Tree A)
      → IsProper n (plug path t)
      → (m : ℕ) × IsProper m t
  below_path [] n t p = (n, p)
  below_path (f ∷ path) n t p =
      let b = below_path path n (up t f) p in
      let c = children f.side f.color b.0 t f.entry f.other b.1 in (c.0, c.1.0)

  same_blacks :
      (f : Frame A) (path : List (Frame A)) (t u : Tree A)
      → IsRedBlack (plug (f ∷ path) t)
      → IsRedBlack (plug (f ∷ path) u)
      → (n : ℕ) × (IsProper n t × IsProper n u)
  same_blacks f path t u v w =
      let a = below_path path v.blacks (up t f) v.proper in
      let b = below_path path w.blacks (up u f) w.proper in
      let c = children f.side f.color a.0 t f.entry f.other a.1 in
      let d = children f.side f.color b.0 u f.entry f.other b.1 in
      (c.0, (c.1.0, subst (λ n. IsProper n u) (IsProper-unique d.0 c.0 f.other d.1.1 c.1.1) d.1.0))

  no_blacks : (n : ℕ) (e : A) → IsProper n (node black leaf e leaf) → n ≡ 0 → ⊥
  no_blacks zero e p q = p
  no_blacks (suc n) e p q = ground arith

  -- Where erase takes a black node without children, other than the root, out of a red-black tree,
  -- it returns a tree that is not red-black.
  pub erase-unbalanced :
      (f : Frame A) (path : List (Frame A)) (e : A)
      → IsRedBlack (plug (f ∷ path) (node black leaf e leaf))
      → (t : Tree A) × ((erase (f ∷ path) black leaf e leaf ≡ some t) × ¬ IsRedBlack t)
  unfolding erase
  erase-unbalanced f path e v = (
    plug (f ∷ path) leaf,
    (
      refl,
      λ w.
          let s = same_blacks f path (node black leaf e leaf) leaf v w in
          no_blacks s.0 e s.1.0 s.1.1,
    ),
  )
