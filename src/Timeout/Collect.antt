-- ===== src/Timeout/Collect.antt =====
-- What `process_timeouts` takes out and puts back (src/utils/TimeoutManager.cpp).
use my_vm_os.Base.{
  ℕ, ◌≤◌, ◌≡◌, refl, inl, inr, Bool, true, false, List, [], ◌∷◌, Option, none, some, ltb, leb, ◌&&◌,
  not, if◌then◌else◌, arith, Bool-cases, Option-cases, lookup, insert, erase, same_or_ne,
  lookup-insert, lookup-erase, Map,
}
use my_vm_os.Timeout.{TimeoutEntry, push_entry, put_back, collect, trigger, is_live, renew}
use my_vm_os.Timeout.Queue.{
  queued, IsSorted, IsApart, AreNew, or_else, All-queued, queued-push_entry, push_entry-IsSorted,
  push_entry-IsApart, put_back-next,
}

module _ {C : Type 0} where
  pub queued-put_back :
      (j : ℕ) (es q : List (TimeoutEntry C)) (m : Map (TimeoutEntry C))
      → AreNew es q
      → queued j (put_back es (q, m)).0 ≡ or_else (queued j es) (queued j q)
  unfolding put_back queued
  queued-put_back j [] q m h = refl
  queued-put_back j (e ∷ es) q m h =
      let pushed = queued-push_entry e j q h.1.0 in
      let later =
        queued-put_back j es (push_entry e q) (insert e.id e m) (put_back-next e es q h) in
      elim (same_or_ne e.id j) [ inl i ↦ ground arith | inr i ↦ ground arith ]

  pub lookup-put_back :
      (j : ℕ) (es q : List (TimeoutEntry C)) (m : Map (TimeoutEntry C))
      → IsApart es
      → lookup j (put_back es (q, m)).1 ≡ or_else (queued j es) (lookup j m)
  unfolding put_back queued
  lookup-put_back j [] q m h = refl
  lookup-put_back j (e ∷ es) q m h =
      let inserted = lookup-insert e.id j e m in
      let later = lookup-put_back j es (push_entry e q) (insert e.id e m) h.1 in
      elim (same_or_ne e.id j) [ inl i ↦ ground arith | inr i ↦ ground arith ]

  pub put_back-IsSorted :
      (es q : List (TimeoutEntry C)) (m : Map (TimeoutEntry C))
      → IsSorted q
      → IsSorted (put_back es (q, m)).0
  unfolding put_back
  put_back-IsSorted [] q m h = h
  put_back-IsSorted (e ∷ es) q m h =
      put_back-IsSorted es (push_entry e q) (insert e.id e m) (push_entry-IsSorted e q h)

  pub put_back-IsApart :
      (es q : List (TimeoutEntry C)) (m : Map (TimeoutEntry C))
      → AreNew es q
      → IsApart q
      → IsApart (put_back es (q, m)).0
  unfolding put_back
  put_back-IsApart [] q m n h = h
  put_back-IsApart (e ∷ es) q m n h =
      put_back-IsApart es (push_entry e q) (insert e.id e m) (put_back-next e es q n)
        (push_entry-IsApart e q n.1.0 h)

  -- The part of an optional entry that passes a test.
  abbrev pub only : Bool → Option (TimeoutEntry C) → Option (TimeoutEntry C)
  only true o = o
  only false o = none

  abbrev pub is_due : ℕ → Option (TimeoutEntry C) → Bool
  is_due now none = false
  is_due now (some e) = leb e.expire_time now

  module _ (now j : ℕ) where
    head_due :
        (e : TimeoutEntry C) (q : List (TimeoutEntry C))
        → IsSorted (e ∷ q)
        → ltb now e.expire_time ≡ true
        → is_due now (queued j (e ∷ q)) ≡ false
    unfolding queued
    head_due e q h b = elim (Option-cases (queued j (e ∷ q))) [
      | inl n ↦ rw n refl
      | inr (u, n) ↦
          let later : e.expire_time ≤ u.expire_time =
            All-queued (λ v. e.expire_time ≤ v.expire_time) j (e ∷ q) {e = u} (omega arith, h.0)
              n in
          rw n (ground arith)
    ]

    -- An entry that is due leaves the queue and the map; it is triggered where it is live.
    pub queued-collect :
        (q : List (TimeoutEntry C)) (m : Map (TimeoutEntry C))
        → IsSorted q
        → IsApart q
        → let due = is_due now (queued j q) in
          let c = collect now q m in
          (queued j c.rest ≡ only (not due) (queued j q))
          × (lookup j c.left ≡ only (not due) (lookup j m))
          × (queued j c.triggered ≡ only (due && is_live (lookup j m)) (queued j q))
    unfolding collect queued trigger
    queued-collect [] m s a = (refl, refl, refl)
    queued-collect (e ∷ q) m s a =
        let later = queued-collect q (erase e.id m) s.1 a.1 in
        let erased = lookup-erase e.id j m in
        elim (Bool-cases (ltb now e.expire_time)) [
          | inl b ↦ let h = head_due e q s b in ground arith
          | inr b ↦ elim (same_or_ne e.id j) [ inl i ↦ ground arith | inr i ↦ ground arith ]
        ]

  -- What a triggered entry is put back as.
  abbrev pub again : ℕ → Option (TimeoutEntry C) → Option (TimeoutEntry C)
  again now none = none
  again now (some e) = if e.config.is_periodic then some (renew now e) else none

  module _ (now : ℕ) where
    pub queued-reschedule :
        (j : ℕ) (q : List (TimeoutEntry C)) (m : Map (TimeoutEntry C))
        → IsSorted q
        → IsApart q
        → let c = collect now q m in queued j c.reschedule ≡ again now (queued j c.triggered)
    unfolding collect queued trigger renew
    queued-reschedule j [] m s a = refl
    queued-reschedule j (e ∷ q) m s a =
        let later = queued-reschedule j q (erase e.id m) s.1 a.1 in
        let gone = queued-collect now j q (erase e.id m) s.1 a.1 in
        elim (Bool-cases (ltb now e.expire_time)) [
          | inl b ↦ ground arith
          | inr b ↦ elim (same_or_ne e.id j) [
            | inl i ↦ let none_left : queued j q ≡ none = rw (← i) a.0 in ground arith
            | inr i ↦ ground arith
          ]
        ]

    pub collect-IsSorted :
        (q : List (TimeoutEntry C)) (m : Map (TimeoutEntry C))
        → IsSorted q
        → IsSorted (collect now q m).rest
    unfolding collect trigger
    collect-IsSorted [] m s = tt
    collect-IsSorted (e ∷ q) m s =
        let later = collect-IsSorted q (erase e.id m) s.1 in
        elim (Bool-cases (ltb now e.expire_time)) [
          | inl b ↦ rw b s
          | inr b ↦ elim (Bool-cases (is_live (lookup e.id m))) [
            | inl l ↦ rw (b, l) later
            | inr l ↦ rw (b, l) later
          ]
        ]

    pub collect-IsApart :
        (q : List (TimeoutEntry C)) (m : Map (TimeoutEntry C))
        → IsApart q
        → IsApart (collect now q m).rest
    unfolding collect trigger
    collect-IsApart [] m a = tt
    collect-IsApart (e ∷ q) m a =
        let later = collect-IsApart q (erase e.id m) a.1 in
        elim (Bool-cases (ltb now e.expire_time)) [
          | inl b ↦ rw b a
          | inr b ↦ elim (Bool-cases (is_live (lookup e.id m))) [
            | inl l ↦ rw (b, l) later
            | inr l ↦ rw (b, l) later
          ]
        ]

    pub collect-AreNew :
        (q : List (TimeoutEntry C)) (m : Map (TimeoutEntry C))
        → IsSorted q
        → IsApart q
        → let c = collect now q m in AreNew c.reschedule c.rest
    unfolding collect trigger renew
    collect-AreNew [] m s a = (tt, tt)
    collect-AreNew (e ∷ q) m s a =
        let later = collect-AreNew q (erase e.id m) s.1 a.1 in
        let gone = queued-collect now e.id q (erase e.id m) s.1 a.1 in
        let back = queued-reschedule e.id q (erase e.id m) s.1 a.1 in
        let none_left = a.0 in
        elim (Bool-cases (ltb now e.expire_time)) [
          | inl b ↦ rw b ((tt, tt))
          | inr b ↦ elim (Bool-cases (is_live (lookup e.id m))) [
            | inr l ↦ rw (b, l) later
            | inl l ↦ elim (Bool-cases e.config.is_periodic) [
              | inr p ↦ rw (b, l, p) later
              | inl p ↦ rw (b, l, p) (((ground arith, later.0), (ground arith, later.1)))
            ]
          ]
        ]
