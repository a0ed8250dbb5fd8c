-- ===== src/Sched/OrderedSet/Laws.antt =====
-- The ordered set of the schedulers keeps its order, for any strict weak order.
use my_vm_os.Base.{
  ◌≡◌, ◌⊎◌, inl, inr, Bool, true, false, List, [], ◌∷◌, All, All-map, Bool-cases, arith,
}
use my_vm_os.Sched.OrderedSet.{insert_key, erase_key, has_key}

-- What `std::set` asks of `operator<`.
pub record StrictWeakOrder {A : Type 0} (lt : A → A → Bool) : Type 0 where
  pub irrefl : (x : A) → lt x x ≡ false
  pub trans : (x y z : A) → lt x y ≡ true → lt y z ≡ true → lt x z ≡ true
  -- Equivalent keys stand below the same keys.
  pub left : (x y z : A) → lt x y ≡ false → lt y x ≡ false → lt y z ≡ true → lt x z ≡ true

abbrev pub IsSorted : {A : Type 0} → (A → A → Bool) → List A → Type 0
IsSorted lt [] = Unit
IsSorted lt (x ∷ xs) = All (λ y. lt x y ≡ true) xs × IsSorted lt xs

-- `x` and `y` are different keys.
abbrev pub IsApart : {A : Type 0} → (A → A → Bool) → A → A → Type 0
IsApart lt x y = (lt x y ≡ true) ⊎ (lt y x ≡ true)

module _ {A : Type 0} (lt : A → A → Bool) where
  pub All-insert_key :
      (P : A → Type 0) (x : A) (xs : List A) → P x → All P xs → All P (insert_key lt x xs)
  unfolding insert_key
  All-insert_key P x [] px h = (px, tt)
  All-insert_key P x (y ∷ ys) px h =
      let rest = All-insert_key P x ys px h.1 in
      elim (Bool-cases (lt x y)) [
        | inl e ↦ rw e ((px, h))
        | inr e ↦ rw e (elim (Bool-cases (lt y x)) [ inl d ↦ rw d ((h.0, rest)) | inr d ↦ rw d h ])
      ]

  pub All-erase_key : (P : A → Type 0) (x : A) (xs : List A) → All P xs → All P (erase_key lt x xs)
  unfolding erase_key
  All-erase_key P x [] h = tt
  All-erase_key P x (y ∷ ys) h =
      let rest = All-erase_key P x ys h.1 in
      elim (Bool-cases (lt x y)) [
        | inl e ↦ rw e h
        | inr e ↦
            rw e (elim (Bool-cases (lt y x)) [ inl d ↦ rw d ((h.0, rest)) | inr d ↦ rw d h.1 ])
      ]

module _ {A : Type 0} (lt : A → A → Bool) (order : StrictWeakOrder lt) where
  pub insert_key-IsSorted :
      (x : A) (xs : List A) → IsSorted lt xs → IsSorted lt (insert_key lt x xs)
  unfolding insert_key
  insert_key-IsSorted x [] h = (tt, tt)
  insert_key-IsSorted x (y ∷ ys) h = elim (Bool-cases (lt x y)) [
    | inl e ↦ rw e (((e, All-map ys (λ z. order.trans x y z e) h.0), h))
    | inr e ↦ rw e (elim (Bool-cases (lt y x)) [
      | inl d ↦
          rw d ((All-insert_key lt (λ z. lt y z ≡ true) x ys d h.0, insert_key-IsSorted x ys h.1))
      | inr d ↦ rw d h
    ])
  ]

  pub erase_key-IsSorted : (x : A) (xs : List A) → IsSorted lt xs → IsSorted lt (erase_key lt x xs)
  unfolding erase_key
  erase_key-IsSorted x [] h = tt
  erase_key-IsSorted x (y ∷ ys) h = elim (Bool-cases (lt x y)) [
    | inl e ↦ rw e h
    | inr e ↦ rw e (elim (Bool-cases (lt y x)) [
      | inl d ↦ rw d ((All-erase_key lt (λ z. lt y z ≡ true) x ys h.0, erase_key-IsSorted x ys h.1))
      | inr d ↦ rw d h.1
    ])
  ]

  -- No key that is equivalent to the erased one is left.
  pub erase_key-IsApart :
      (x : A) (xs : List A) → IsSorted lt xs → All (IsApart lt x) (erase_key lt x xs)
  unfolding erase_key
  erase_key-IsApart x [] h = tt
  erase_key-IsApart x (y ∷ ys) h = elim (Bool-cases (lt x y)) [
    | inl e ↦ rw e ((inl e, All-map ys (λ z k. inl (order.trans x y z e k)) h.0))
    | inr e ↦ rw e (elim (Bool-cases (lt y x)) [
      | inl d ↦ rw d ((inr d, erase_key-IsApart x ys h.1))
      | inr d ↦ rw d (All-map ys (λ z k. inl (order.left x y z e d k)) h.0)
    ])
  ]

-- An equivalent key that is there already stays, and the new one is dropped.
pub insert_key_same :
    {A : Type 0} (lt : A → A → Bool) (x : A) (xs : List A)
    → has_key lt x xs ≡ true
    → insert_key lt x xs ≡ xs
unfolding insert_key has_key
insert_key_same lt x [] h = cc
insert_key_same lt x (y ∷ ys) h = let rest = insert_key_same lt x ys in ground arith
