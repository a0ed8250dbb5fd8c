-- ===== src/RbTree/Erase/Entries.antt =====
-- `erase` (src/utils/mempool/src/RBtree.cpp) in a red-black tree: it returns, and takes one entry out.
use my_vm_os.Base.{ℕ, zero, suc, ◌≡◌, refl, ap, sym, subst, ◌∙◌, List, [], ◌∷◌, ◌++◌, some}
use mathlib.Core.List.{append_assoc}
use my_vm_os.RbTree.{Color, red, black, Tree, leaf, node, Side, at_left, at_right, Frame, plug}
use my_vm_os.RbTree.Balance.{IsProper, IsRedBlack}
use my_vm_os.RbTree.Order.{inorder, beside, around, Reads, inorder-plug}
use my_vm_os.RbTree.Erase.{leftmost, drop_leftmost, erase_fixup, splice, erase}
use my_vm_os.RbTree.Erase.Order.{append_nil, Reads-erase}
use my_vm_os.RbTree.Erase.Unbalanced.{below_path}

module _ {A : Type 0} where
  -- What a frame adds before and after what is below it.
  abbrev pub passed : Side → A → Tree A → List A
  passed at_left e other = []
  passed at_right e other = inorder other ++ (e ∷ [])

  abbrev pub coming : Side → A → Tree A → List A
  coming at_left e other = e ∷ inorder other
  coming at_right e other = []

  beside_lem :
      (side : Side) (e : A) (other : Tree A) (before xs after : List A)
      → before ++ (beside side e other xs ++ after)
        ≡ (before ++ passed side e other) ++ (xs ++ (coming side e other ++ after))
  beside_lem at_left e other before xs after =
      ap (λ ys. before ++ ys) (append_assoc xs (e ∷ inorder other) after)
      ∙ ap (λ ys. ys ++ (xs ++ ((e ∷ inorder other) ++ after))) (sym (append_nil before))
  beside_lem at_right e other before xs after =
      ap (λ ys. before ++ ys) (append_assoc (inorder other) (e ∷ xs) after)
      ∙ sym (
          append_assoc before (inorder other ++ (e ∷ [])) (xs ++ after)
          ∙ ap (λ ys. before ++ ys) (append_assoc (inorder other) (e ∷ []) (xs ++ after)))

  -- The entries before and after the node at the end of a path.
  abbrev pub ahead : List (Frame A) → List A
  ahead [] = []
  ahead (f ∷ path) = ahead path ++ passed f.side f.entry f.other

  abbrev pub behind : List (Frame A) → List A
  behind [] = []
  behind (f ∷ path) = coming f.side f.entry f.other ++ behind path

  around_lem :
      (path : List (Frame A)) (xs : List A) → around path xs ≡ ahead path ++ (xs ++ behind path)
  around_lem [] xs = sym (append_nil xs)
  around_lem (f ∷ path) xs =
      around_lem path (beside f.side f.entry f.other xs)
      ∙ beside_lem f.side f.entry f.other (ahead path) xs (behind path)

  middle_lem :
      (path : List (Frame A)) (l r : List A)
      → around path (l ++ r) ≡ (ahead path ++ l) ++ (r ++ behind path)
  middle_lem path l r =
      around_lem path (l ++ r)
      ∙ ap (λ xs. ahead path ++ xs) (append_assoc l r (behind path))
      ∙ sym (append_assoc (ahead path) l (r ++ behind path))

  splice_returns :
      (c : Color) (child : Tree A) (path : List (Frame A))
      → IsProper 0 child
      → (t : Tree A) × (splice c child path ≡ some t)
  unfolding erase_fixup
  splice_returns red child path p = (plug path child, refl)
  splice_returns black leaf path p = (plug path leaf, refl)
  splice_returns black (node red l e r) [] p = (node black l e r, refl)
  splice_returns black (node red l e r) (f ∷ path) p = (plug (f ∷ path) (node black l e r), refl)
  splice_returns black (node black l e r) path p = absurd p

  only_child :
      (c : Color) (n : ℕ) (l : Tree A) (e : A) (r : Tree A)
      → IsProper n (node c l e r)
      → (l ≡ leaf → IsProper 0 r) × (r ≡ leaf → IsProper 0 l)
  only_child red n l e r p = (
    λ z. subst (λ m. IsProper m r) (subst (IsProper n) z p.1.0) p.1.1,
    λ z. subst (λ m. IsProper m l) (subst (IsProper n) z p.1.1) p.1.0,
  )
  only_child black zero l e r p = absurd p
  only_child black (suc n) l e r p = (
    λ z. subst (λ m. IsProper m r) (subst (IsProper n) z p.0) p.1,
    λ z. subst (λ m. IsProper m l) (subst (IsProper n) z p.1) p.0,
  )

  erase_returns :
      (path : List (Frame A)) (c : Color) (n : ℕ) (l : Tree A) (e : A) (r : Tree A)
      → IsProper n (node c l e r)
      → (t : Tree A) × (erase path c l e r ≡ some t)
  unfolding erase
  erase_returns path c n leaf e r p =
      let child = only_child c n leaf e r p in splice_returns c r path (child.0 refl)
  erase_returns path c n (node d k f m) e leaf p =
      let child = only_child c n (node d k f m) e leaf p in
      splice_returns c (node d k f m) path (child.1 refl)
  erase_returns path c n (node d k f m) e (node b v g w) p = (
    plug path (node c (node d k f m) (leftmost e (node b v g w)) (drop_leftmost (node b v g w))),
    refl,
  )

  -- In a red-black tree, erase of the node at the end of any path reads through no null pointer and
  -- returns a tree whose entries in order are those before the node and those after it.
  pub inorder-erase :
      (path : List (Frame A)) (c : Color) (l : Tree A) (e : A) (r : Tree A)
      → IsRedBlack (plug path (node c l e r))
      → (inorder (plug path (node c l e r))
          ≡ (ahead path ++ inorder l) ++ (e ∷ (inorder r ++ behind path)))
        × ((t : Tree A) × ((erase path c l e r ≡ some t)
              × (inorder t ≡ (ahead path ++ inorder l) ++ (inorder r ++ behind path))))
  inorder-erase path c l e r v =
      let below = below_path path v.blacks (node c l e r) v.proper in
      let result = erase_returns path c below.0 l e r below.1 in
      (
        inorder-plug path (node c l e r) ∙ middle_lem path (inorder l) (e ∷ inorder r),
        (
          result.0,
          (
            result.1,
            subst (Reads (around path (inorder l ++ inorder r))) result.1 (Reads-erase path c l e r)
                ∙ middle_lem path (inorder l) (inorder r),
          ),
        ),
      )
