-- ===== src/RbTree/Balance.antt =====
-- Red-black trees, paths that await one, and the rotations of `insert_fixup`
-- (src/utils/mempool/src/RBtree.cpp).
use my_vm_os.Base.{
  ℕ, zero, suc, ◌≡◌, refl, ◌∙◌, inl, inr, Bool, true, false, not, List, [], ◌∷◌, Option, some,
  Bool-cases, arith,
}
use my_vm_os.RbTree.{
  Color, red, black, Tree, leaf, node, Side, at_left, at_right, Frame, color_red, is_red, set_color,
  join, up, plug, rotate_left, rotate_right, straighten,
}

abbrev pub raise : Color → ℕ → ℕ
raise red n = n
raise black n = suc n

pub raise_red : (c : Color) (n : ℕ) → color_red c ≡ true → raise c n ≡ n
raise_red red n is = refl
raise_red black n is = ground arith

pub raise_black : (c : Color) (n : ℕ) → color_red c ≡ false → raise c n ≡ suc n
raise_black red n is = ground arith
raise_black black n is = refl

module _ {A : Type 0} where
  -- No red node has a red child, and there are `n` black nodes on every way down.
  abbrev pub IsProper : ℕ → Tree A → Type 0
  IsProper n leaf = n ≡ 0
  IsProper n (node red l e r) =
      ((is_red l ≡ false) × (is_red r ≡ false)) × (IsProper n l × IsProper n r)
  IsProper zero (node black l e r) = ⊥
  IsProper (suc n) (node black l e r) = IsProper n l × IsProper n r

  pub record IsRedBlack (t : Tree A) : Type 0 where
    pub blacks : ℕ
    pub proper : IsProper blacks t
    pub root : is_red t ≡ false

  abbrev pub top_red : List (Frame A) → Bool
  top_red [] = false
  top_red (f ∷ path) = color_red f.color

  abbrev pub has_top : List (Frame A) → Bool
  has_top [] = false
  has_top (f ∷ path) = true

  -- What a path asks of the tree at its end: `n` blacks, and a root that is not red below a red one.
  abbrev pub Awaits : ℕ → List (Frame A) → Type 0
  Awaits n [] = Unit
  Awaits n (f ∷ path) =
      IsProper n f.other
      × ((color_red f.color ≡ true
            → (is_red f.other ≡ false) × ((has_top path ≡ true) × (top_red path ≡ false)))
          × Awaits (raise f.color n) path)

  pub join-IsProper :
      (side : Side) (c : Color) (n : ℕ) (t : Tree A) (e : A) (other : Tree A)
      → IsProper n t
      → IsProper n other
      → (color_red c ≡ true → (is_red t ≡ false) × (is_red other ≡ false))
      → IsProper (raise c n) (join side c t e other)
  join-IsProper at_left red n t e other p q ok = (ok refl, (p, q))
  join-IsProper at_left black n t e other p q ok = (p, q)
  join-IsProper at_right red n t e other p q ok = let b = ok refl in ((b.1, b.0), (q, p))
  join-IsProper at_right black n t e other p q ok = (q, p)

  pub is_red-join :
      (side : Side) (c : Color) (t : Tree A) (e : A) (other : Tree A)
      → is_red (join side c t e other) ≡ color_red c
  is_red-join at_left c t e other = refl
  is_red-join at_right c t e other = refl

  pub set_black-IsRedBlack : (n : ℕ) (t : Tree A) → IsProper n t → IsRedBlack (set_color black t)
  set_black-IsRedBlack n leaf p = record { blacks = n; proper = p; root = refl }
  set_black-IsRedBlack n (node red l e r) p = record { blacks = suc n; proper = p.1; root = refl }
  set_black-IsRedBlack zero (node black l e r) p = absurd p
  set_black-IsRedBlack (suc n) (node black l e r) p = record {
    blacks = suc n;
    proper = p;
    root = refl;
  }

  pub plug-IsRedBlack :
      (path : List (Frame A)) (n : ℕ) (t : Tree A)
      → Awaits n path
      → IsProper n t
      → (top_red path ≡ true → is_red t ≡ false)
      → IsRedBlack (set_color black (plug path t))
  plug-IsRedBlack [] n t a p ok = set_black-IsRedBlack n t p
  plug-IsRedBlack (f ∷ path) n t a p ok =
      plug-IsRedBlack path (raise f.color n) (up t f) a.1.1
        (join-IsProper f.side f.color n t f.entry f.other p a.0
          (λ is. (ok is, let b = a.1.0 is in b.0)))
        (λ top. elim (Bool-cases (color_red f.color)) [
          | inl is ↦ (let b = a.1.0 is in let c = b.1.1 in ground arith)
          | inr not ↦ is_red-join f.side f.color t f.entry f.other ∙ not
        ])

  pub set_color-black-IsProper :
      (n : ℕ) (t : Tree A) → IsProper n t → is_red t ≡ true → IsProper (suc n) (set_color black t)
  set_color-black-IsProper n leaf p is = ground arith
  set_color-black-IsProper n (node red l e r) p is = p.1
  set_color-black-IsProper n (node black l e r) p is = ground arith

  -- The rotation of the cases 1.2 to 2.3: the node is red below a red parent.
  pub record IsTurned (n : ℕ) (o : Option (Tree A)) : Type 0 where
    pub turned : Tree A
    pub result : o ≡ some turned
    pub proper : IsProper (suc n) turned
    pub root : is_red turned ≡ false

  pub straighten_node-IsTurned :
      (gside side : Side) (n : ℕ) (l : Tree A) (e : A) (r : Tree A) (pe : A) (other : Tree A)
      (ge : A) (uncle : Tree A)
      → IsProper n (node red l e r)
      → IsProper n other
      → is_red other ≡ false
      → IsProper n uncle
      → is_red uncle ≡ false
      → IsTurned n (straighten gside side (join side red (node red l e r) pe other) ge uncle)
  unfolding rotate_left rotate_right
  straighten_node-IsTurned at_left at_left n l e r pe other ge uncle p q qr u ur = record {
    turned = node black (node red l e r) pe (node red other ge uncle);
    result = refl;
    proper = (p, ((qr, ur), (q, u)));
    root = refl;
  }
  straighten_node-IsTurned at_left at_right n l e r pe other ge uncle p q qr u ur = record {
    turned = node black (node red other pe l) e (node red r ge uncle);
    result = refl;
    proper = (((qr, p.0.0), (q, p.1.0)), ((p.0.1, ur), (p.1.1, u)));
    root = refl;
  }
  straighten_node-IsTurned at_right at_left n l e r pe other ge uncle p q qr u ur = record {
    turned = node black (node red uncle ge l) e (node red r pe other);
    result = refl;
    proper = (((ur, p.0.0), (u, p.1.0)), ((p.0.1, qr), (p.1.1, q)));
    root = refl;
  }
  straighten_node-IsTurned at_right at_right n l e r pe other ge uncle p q qr u ur = record {
    turned = node black (node red uncle ge other) pe (node red l e r);
    result = refl;
    proper = (((ur, qr), (u, q)), p);
    root = refl;
  }

  pub straighten-IsTurned :
      (gside side : Side) (c : Color) (n : ℕ) (t : Tree A) (pe : A) (other : Tree A) (ge : A)
      (uncle : Tree A)
      → color_red c ≡ true
      → is_red t ≡ true
      → IsProper n t
      → IsProper n other
      → is_red other ≡ false
      → IsProper n uncle
      → is_red uncle ≡ false
      → IsTurned n (straighten gside side (join side c t pe other) ge uncle)
  straighten-IsTurned gside side c n leaf pe other ge uncle cr tr p q qr u ur = ground arith
  straighten-IsTurned gside side c n (node black l e r) pe other ge uncle cr tr p q qr u ur =
      ground arith
  straighten-IsTurned gside side black n (node red l e r) pe other ge uncle cr tr p q qr u ur =
      ground arith
  straighten-IsTurned gside side red n (node red l e r) pe other ge uncle cr tr p q qr u ur =
      straighten_node-IsTurned gside side n l e r pe other ge uncle p q qr u ur

  pub set_black-join :
      (side : Side) (c : Color) (n : ℕ) (t : Tree A) (e : A) (other : Tree A)
      → IsProper n t
      → IsProper n other
      → IsProper (suc n) (set_color black (join side c t e other))
        × (is_red (set_color black (join side c t e other)) ≡ false)
  set_black-join at_left c n t e other p q = ((p, q), refl)
  set_black-join at_right c n t e other p q = ((q, p), refl)

  pub is_red-set_black : (t : Tree A) → is_red (set_color black t) ≡ false
  is_red-set_black leaf = refl
  is_red-set_black (node c l e r) = refl
