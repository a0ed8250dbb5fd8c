-- ===== src/Timeout/Queue.antt =====
-- The entries of a timeout queue by their ids (src/utils/TimeoutManager.cpp).
use my_vm_os.Base.{
  ℕ, ◌≤◌, ◌≡◌, refl, inl, inr, false, List, [], ◌∷◌, Option, none, some, ltb, ◌==◌, if◌then◌else◌,
  arith, All, All-map, Bool-cases,
}
use my_vm_os.Timeout.{TimeoutEntry, push_entry}

module _ {C : Type 0} where
  -- The first entry with the id.
  unfoldable pub queued : ℕ → List (TimeoutEntry C) → Option (TimeoutEntry C)
  queued id [] = none
  queued id (e ∷ q) = if e.id == id then some e else queued id q

  abbrev pub IsSorted : List (TimeoutEntry C) → Type 0
  IsSorted [] = Unit
  IsSorted (e ∷ q) = All (λ u. e.expire_time ≤ u.expire_time) q × IsSorted q

  -- No two entries have the same id.
  abbrev pub IsApart : List (TimeoutEntry C) → Type 0
  IsApart [] = Unit
  IsApart (e ∷ q) = (queued e.id q ≡ none) × IsApart q

  -- The first of two optional values that is there.
  abbrev pub or_else : Option (TimeoutEntry C) → Option (TimeoutEntry C) → Option (TimeoutEntry C)
  or_else none b = b
  or_else (some a) b = some a

  pub queued-id :
      (id : ℕ) (q : List (TimeoutEntry C)) {e : TimeoutEntry C} → queued id q ≡ some e → e.id ≡ id
  unfolding queued
  queued-id id [] h = ground arith
  queued-id id (u ∷ q) {e} h = elim (Bool-cases (u.id == id)) [
    | inl b ↦ ground arith
    | inr b ↦ queued-id id q {e = e} (ground arith)
  ]

  pub All-queued :
      (P : TimeoutEntry C → Type 0) (id : ℕ) (q : List (TimeoutEntry C)) {e : TimeoutEntry C}
      → All P q
      → queued id q ≡ some e
      → P e
  unfolding queued
  All-queued P id [] h e = ground arith
  All-queued P id (u ∷ q) {e} h k = elim (Bool-cases (u.id == id)) [
    | inl b ↦ let i : u ≡ e = ground arith in rw (← i) h.0
    | inr b ↦ All-queued P id q {e = e} h.1 (ground arith)
  ]

  pub queued-push_entry :
      (e : TimeoutEntry C) (j : ℕ) (q : List (TimeoutEntry C))
      → queued e.id q ≡ none
      → queued j (push_entry e q) ≡ (if e.id == j then some e else queued j q)
  unfolding queued push_entry
  queued-push_entry e j [] h = refl
  queued-push_entry e j (u ∷ q) h = let later = queued-push_entry e j q in ground arith

  pub All-push_entry :
      (P : TimeoutEntry C → Type 0) (e : TimeoutEntry C) (q : List (TimeoutEntry C))
      → P e
      → All P q
      → All P (push_entry e q)
  unfolding push_entry
  All-push_entry P e [] p h = (p, tt)
  All-push_entry P e (u ∷ q) p h = elim (Bool-cases (ltb e.expire_time u.expire_time)) [
    | inl b ↦ rw b ((p, h))
    | inr b ↦ rw b ((h.0, All-push_entry P e q p h.1))
  ]

  pub push_entry-IsSorted :
      (e : TimeoutEntry C) (q : List (TimeoutEntry C)) → IsSorted q → IsSorted (push_entry e q)
  unfolding push_entry
  push_entry-IsSorted e [] h = (tt, tt)
  push_entry-IsSorted e (u ∷ q) h = elim (Bool-cases (ltb e.expire_time u.expire_time)) [
    | inl b ↦ rw b (((ground arith, All-map q (λ v k. ground arith) h.0), h))
    | inr b ↦ rw b (
        (
          All-push_entry (λ v. u.expire_time ≤ v.expire_time) e q (ground arith) h.0,
          push_entry-IsSorted e q h.1,
        ))
  ]

  pub push_entry-IsApart :
      (e : TimeoutEntry C) (q : List (TimeoutEntry C))
      → queued e.id q ≡ none
      → IsApart q
      → IsApart (push_entry e q)
  unfolding push_entry queued
  push_entry-IsApart e [] n h = (refl, tt)
  push_entry-IsApart e (u ∷ q) n h = elim (Bool-cases (u.id == e.id)) [
    | inl b ↦ ground arith
    | inr b ↦
        let n' : queued e.id q ≡ none = ground arith in
        let later = queued-push_entry e u.id q n' in
        elim (Bool-cases (ltb e.expire_time u.expire_time)) [
          | inl c ↦ rw c ((n, h))
          | inr c ↦ rw c ((ground arith, push_entry-IsApart e q n' h.1))
        ]
  ]

  -- The entries of `es` are apart from each other and from the queue.
  abbrev pub AreNew : List (TimeoutEntry C) → List (TimeoutEntry C) → Type 0
  AreNew es q = IsApart es × All (λ e. queued e.id q ≡ none) es

  All-ne :
      (e : TimeoutEntry C) (es q : List (TimeoutEntry C))
      → queued e.id es ≡ none
      → queued e.id q ≡ none
      → All (λ u. queued u.id q ≡ none) es
      → All (λ u. queued u.id (push_entry e q) ≡ none) es
  unfolding queued
  All-ne e [] q n k h = tt
  All-ne e (u ∷ es) q n k h =
      let pushed = queued-push_entry e u.id q k in
      let apart : (e.id == u.id) ≡ false = ground arith in
      (rw (pushed, apart) (h.0), All-ne e es q (ground arith) k h.1)

  pub put_back-next :
      (e : TimeoutEntry C) (es q : List (TimeoutEntry C))
      → AreNew (e ∷ es) q
      → AreNew es (push_entry e q)
  put_back-next e es q h = (h.0.1, All-ne e es q h.0.0 h.1.0 h.1.1)
