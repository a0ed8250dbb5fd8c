-- ===== src/RbTree/Sort.antt =====
-- Trees made by `insert_with_compare` (src/utils/mempool/src/RBtree.cpp) with the comparison of
-- `insert_vma_rb` (src/utils/mempool/include/MemoryManager.h), which looks at one number of the entry.
use my_vm_os.Base.{
  if_cases, ℕ, ◌≤◌, ◌≡◌, refl, ap, sym, subst, ◌∙◌, Bool, true, false, List, [], ◌∷◌, ◌++◌, Option,
  none, some, if◌then◌else◌, arith, ltb, All, All-map,
}
use my_vm_os.RbTree.{red, Tree, leaf, node, at_left, at_right, Frame, descend, insert_with_compare}
use my_vm_os.RbTree.Balance.{IsRedBlack}
use my_vm_os.RbTree.Insert.{insert_with_compare-Keeps}
use my_vm_os.RbTree.Order.{inorder, around, Reads, Reads-insert_fixup}

module _ {A : Type 0} (key : A → ℕ) where
  abbrev pub by_key : A → A → Bool
  by_key x e = ltb (key x) (key e)

  -- `x` before the first entry with a larger key.
  abbrev pub place : A → List A → List A
  place x [] = x ∷ []
  place x (e ∷ es) = if by_key x e then x ∷ e ∷ es else e ∷ place x es

  abbrev pub sort : List A → List A → List A
  sort [] acc = acc
  sort (x ∷ xs) acc = sort xs (place x acc)

  abbrev pub IsOrdered : List A → Type 0
  IsOrdered [] = Unit
  IsOrdered (x ∷ xs) = All (λ y. key x ≤ key y) xs × IsOrdered xs

  -- The insertions of a list, one after the other.
  abbrev pub insert_all : List A → Option (Tree A) → Option (Tree A)
  insert_all xs none = none
  insert_all [] (some t) = some t
  insert_all (x ∷ xs) (some t) = insert_all xs (insert_with_compare by_key x t)

  All-place : (P : A → Type 0) (x : A) (xs : List A) → P x → All P xs → All P (place x xs)
  All-place P x [] p h = (p, tt)
  All-place P x (e ∷ es) p h =
      if_cases (All P) (by_key x e) _ _ (λ z. (p, h)) (λ z. (h.0, All-place P x es p h.1))

  place-IsOrdered : (x : A) (xs : List A) → IsOrdered xs → IsOrdered (place x xs)
  place-IsOrdered x [] o = (tt, tt)
  place-IsOrdered x (e ∷ es) o =
      if_cases IsOrdered (by_key x e) _ _
        (λ less.
          let below : key x ≤ key e = ground arith in
          ((below, All-map es (λ y h. omega (arith, below, h)) o.0), o))
        (λ more.
          let above : key e ≤ key x = ground arith in
          (All-place (λ y. key e ≤ key y) x es above o.0, place-IsOrdered x es o.1))

  All-append_left : (P : A → Type 0) (xs ys : List A) → All P (xs ++ ys) → All P xs
  All-append_left P [] ys h = tt
  All-append_left P (x ∷ xs) ys h = (h.0, All-append_left P xs ys h.1)

  IsOrdered-left : (xs ys : List A) → IsOrdered (xs ++ ys) → IsOrdered xs
  IsOrdered-left [] ys o = tt
  IsOrdered-left (x ∷ xs) ys o =
      (All-append_left (λ y. key x ≤ key y) xs ys o.0, IsOrdered-left xs ys o.1)

  IsOrdered-right : (xs ys : List A) → IsOrdered (xs ++ ys) → IsOrdered ys
  IsOrdered-right [] ys o = o
  IsOrdered-right (x ∷ xs) ys o = IsOrdered-right xs ys o.1

  All-middle : (P : A → Type 0) (xs : List A) (e : A) (ys : List A) → All P (xs ++ (e ∷ ys)) → P e
  All-middle P [] e ys h = h.0
  All-middle P (x ∷ xs) e ys h = All-middle P xs e ys h.1

  below_middle :
      (xs : List A) (e : A) (ys : List A) → IsOrdered (xs ++ (e ∷ ys)) → All (λ a. key a ≤ key e) xs
  below_middle [] e ys o = tt
  below_middle (x ∷ xs) e ys o =
      (All-middle (λ y. key x ≤ key y) xs e ys o.0, below_middle xs e ys o.1)

  if-append :
      (b : Bool) (x a : A) (xs zs p q : List A)
      → p ≡ q ++ zs
      → (if b then x ∷ a ∷ (xs ++ zs) else a ∷ p) ≡ (if b then x ∷ a ∷ xs else a ∷ q) ++ zs
  if-append true x a xs zs p q h = refl
  if-append false x a xs zs p q h = ap (λ l. a ∷ l) h

  place_left :
      (x : A) (xs : List A) (e : A) (ys : List A)
      → by_key x e ≡ true
      → place x (xs ++ (e ∷ ys)) ≡ place x xs ++ (e ∷ ys)
  place_left x [] e ys less = ap (λ b. if b then x ∷ e ∷ ys else e ∷ place x ys) less
  place_left x (a ∷ xs) e ys less =
      if-append (by_key x a) x a xs (e ∷ ys) _ _ (place_left x xs e ys less)

  place_right :
      (x : A) (xs ys : List A) → All (λ a. key a ≤ key x) xs → place x (xs ++ ys) ≡ xs ++ place x ys
  place_right x [] ys h = refl
  place_right x (a ∷ xs) ys h =
      let more : by_key x a ≡ false = (let b = h.0 in ground arith) in
      ap (λ b. if b then x ∷ a ∷ (xs ++ ys) else a ∷ place x (xs ++ ys)) more
      ∙ ap (λ l. a ∷ l) (place_right x xs ys h.1)

  around-descend :
      (x : A) (t : Tree A) (path : List (Frame A))
      → IsOrdered (inorder t)
      → around (descend by_key x t path) (x ∷ []) ≡ around path (place x (inorder t))
  around-descend x leaf path o = refl
  around-descend x (node c l e r) path o =
      if_cases (λ p. around p (x ∷ []) ≡ around path (place x (inorder l ++ (e ∷ inorder r))))
        (by_key x e) _ _
        (λ less.
          around-descend x l (record { side = at_left; color = c; entry = e; other = r } ∷ path)
            (IsOrdered-left (inorder l) (e ∷ inorder r) o)
          ∙ ap (around path) (sym (place_left x (inorder l) e (inorder r) less)))
        (λ more.
          let above : key e ≤ key x = ground arith in
          let right = IsOrdered-right (inorder l) (e ∷ inorder r) o in
          around-descend x r (record { side = at_right; color = c; entry = e; other = l } ∷ path)
            right.1
          ∙ ap (around path) (
              sym (
                place_right x (inorder l) (e ∷ inorder r) (
                  All-map (inorder l) (λ a h. omega (arith, above, h))
                    (below_middle (inorder l) e (inorder r) o))
                ∙ ap (λ b. inorder l ++ (if b then x ∷ e ∷ inorder r else e ∷ place x (inorder r)))
                    more)))

  -- The tree that the insertions make.
  pub record Sorts (xs : List A) (o : Option (Tree A)) : Type 0 where
    pub tree : Tree A
    pub result : o ≡ some tree
    pub valid : IsRedBlack tree
    pub entries : inorder tree ≡ xs
    pub ordered : IsOrdered xs

  insert-Sorts :
      (x : A) (t : Tree A)
      → IsRedBlack t
      → IsOrdered (inorder t)
      → Sorts (place x (inorder t)) (insert_with_compare by_key x t)
  unfolding insert_with_compare
  insert-Sorts x t v o =
      let kept = insert_with_compare-Keeps by_key x t v in
      let reads = Reads-insert_fixup (descend by_key x t []) (node red leaf x leaf) in
      record {
        tree = kept.tree;
        result = kept.result;
        valid = kept.valid;
        entries =
            subst (Reads (around (descend by_key x t []) (x ∷ []))) kept.result reads
            ∙ around-descend x t [] o;
        ordered = place-IsOrdered x (inorder t) o;
      }

  insert_all-Sorts :
      (xs : List A) (t : Tree A)
      → IsRedBlack t
      → IsOrdered (inorder t)
      → Sorts (sort xs (inorder t)) (insert_all xs (some t))
  insert_all-Sorts [] t v o = record {
    tree = t;
    result = refl;
    valid = v;
    entries = refl;
    ordered = o;
  }
  insert_all-Sorts (x ∷ xs) t v o =
      let one = insert-Sorts x t v o in
      subst (λ p. Sorts (sort xs (place x (inorder t))) (insert_all xs p)) (sym one.result)
        (subst (λ es. Sorts (sort xs es) (insert_all xs (some one.tree))) one.entries
          (insert_all-Sorts xs one.tree one.valid (subst IsOrdered (sym one.entries) one.ordered)))

  -- Entries that insert_with_compare inserts one after the other in an empty tree, compared by a
  -- number, never read through a null pointer; the tree is red-black (a black root, no red node with
  -- a red child, as many black nodes on every way down), and its entries in order are those of an
  -- insertion sort, which puts each before the first with a larger number.
  pub insert_all-sort : (xs : List A) → Sorts (sort xs []) (insert_all xs (some leaf))
  insert_all-sort xs =
      insert_all-Sorts xs leaf (record { blacks = 0; proper = refl; root = refl }) tt
