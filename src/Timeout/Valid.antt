-- ===== src/Timeout/Valid.antt =====
-- The states of `TimeoutManager` (src/utils/TimeoutManager.cpp) that its calls reach.
use my_vm_os.Base.{
  ℕ, ◌+◌, ◌≤◌, ◌<◌, ◌≡◌, refl, inl, inr, true, false, List, [], Option, none, some, ◌==◌, ◌&&◌, not,
  arith, Bool-cases, Option-cases, lookup, same_or_ne, lookup-insert, u64_mod,
}
use my_vm_os.Base.Int.{ℤ, pos, leb_ℤ}
use my_vm_os.Timeout.{
  TimeoutConfig, TimeoutEntry, TimeoutManager, construct, add_entry, register_timeout,
  register_periodic_timeout, cancel_timeout, is_live, renew, collect, take_due, clear_all, after_ms,
}
use my_vm_os.Timeout.Queue.{
  queued, IsSorted, IsApart, or_else, queued-push_entry, push_entry-IsSorted, push_entry-IsApart,
}
use my_vm_os.Timeout.Collect.{
  queued-put_back, lookup-put_back, put_back-IsSorted, put_back-IsApart, only, is_due,
  queued-collect, again, queued-reschedule, collect-IsSorted, collect-IsApart, collect-AreNew,
}

-- The calls of the interface that change the entries.
pub data Call (C : Type 0) : Type 0 where
  register : (now : ℕ) (timeout_ms : ℤ) (callback : Option C) → Call C
  register_periodic : (now : ℕ) (period_ms : ℤ) (callback : Option C) → Call C
  cancel : (timeout_id : ℕ) → Call C
  process : (now : ℕ) → Call C
  clear : Call C

module _ {C : Type 0} where
  -- The entries that a call triggers, and the manager after it.
  unfoldable pub step : Call C → TimeoutManager C → List (TimeoutEntry C) × TimeoutManager C
  step (register now ms cb) m = ([], (register_timeout now ms cb m).1)
  step (register_periodic now ms cb) m = ([], (register_periodic_timeout now ms cb m).1)
  step (cancel id) m = ([], (cancel_timeout id m).1)
  step (process now) m = take_due now m
  step clear m = ([], clear_all m)

  abbrev pub unmarked : Option (TimeoutEntry C) → Option (TimeoutEntry C)
  unmarked none = none
  unmarked (some e) = some (record e { is_cancelled = false })

  -- The queue is by expiry and has no id twice; the map and the queue hold the same entries, up to
  -- the mark of a cancelled one; ids are below `next_id` and are not 0.
  pub record IsValid (m : TimeoutManager C) : Type 0 where
    pub sorted : IsSorted m.timeout_queue
    pub apart : IsApart m.timeout_queue
    pub agree : (j : ℕ) → unmarked (lookup j m.timeout_map) ≡ queued j m.timeout_queue
    pub fresh : (j : ℕ) → m.next_id ≤ j → queued j m.timeout_queue ≡ none
    pub nonzero : queued 0 m.timeout_queue ≡ none
    pub next : 1 ≤ m.next_id

  pub construct-IsValid : IsValid construct
  unfolding construct queued lookup
  construct-IsValid = record {
    sorted = tt;
    apart = tt;
    agree = λ j. refl;
    fresh = λ j h. refl;
    nonzero = refl;
    next = omega arith;
  }

  pub add_entry-IsValid :
      (now : ℕ) (config : TimeoutConfig C) (m : TimeoutManager C)
      → IsValid m
      → m.next_id + 1 < u64_mod
      → IsValid (add_entry now config m)
  unfolding add_entry
  add_entry-IsValid now config m v bound =
      let entry : TimeoutEntry C = record {
        id = m.next_id;
        expire_time = after_ms now config.timeout_ms;
        config = config;
        is_cancelled = false;
      } in
      let new = v.fresh m.next_id (omega arith) in
      let at = λ (j : ℕ). queued-push_entry entry j m.timeout_queue new in
      record {
        sorted = push_entry-IsSorted entry m.timeout_queue v.sorted;
        apart = push_entry-IsApart entry m.timeout_queue new v.apart;
        agree = λ j.
            let old = v.agree j in
            let here = at j in
            let inserted = lookup-insert m.next_id j entry m.timeout_map in
            elim (same_or_ne m.next_id j) [ inl i ↦ ground arith | inr i ↦ ground arith ];
        fresh = λ j h.
            let old = v.fresh j in
            let here = at j in
            let n = v.next in
            elim (same_or_ne m.next_id j) [ inl i ↦ ground arith | inr i ↦ ground arith ];
        nonzero = let old = v.nonzero in let n = v.next in let here = at 0 in ground arith;
        next = let n = v.next in omega arith;
      }

  register-IsValid :
      (now : ℕ) (ms : ℤ) (cb : Option C) (m : TimeoutManager C)
      → IsValid m
      → m.next_id + 1 < u64_mod
      → IsValid (register_timeout now ms cb m).1
  unfolding register_timeout
  register-IsValid now ms none m v bound = v
  register-IsValid now ms (some cb) m v bound = elim (Bool-cases (leb_ℤ ms (pos 0))) [
    | inl b ↦ rw b v
    | inr b ↦ rw b (add_entry-IsValid now _ m v bound)
  ]

  register_periodic-IsValid :
      (now : ℕ) (ms : ℤ) (cb : Option C) (m : TimeoutManager C)
      → IsValid m
      → m.next_id + 1 < u64_mod
      → IsValid (register_periodic_timeout now ms cb m).1
  unfolding register_periodic_timeout
  register_periodic-IsValid now ms none m v bound = v
  register_periodic-IsValid now ms (some cb) m v bound = elim (Bool-cases (leb_ℤ ms (pos 0))) [
    | inl b ↦ rw b v
    | inr b ↦ rw b (add_entry-IsValid now _ m v bound)
  ]

  pub cancel_timeout-IsValid :
      (id : ℕ) (m : TimeoutManager C) → IsValid m → IsValid (cancel_timeout id m).1
  unfolding cancel_timeout
  cancel_timeout-IsValid id m v = elim (Bool-cases (id == 0)) [
    | inl z ↦ rw z v
    | inr z ↦ elim (Option-cases (lookup id m.timeout_map)) [
      | inl n ↦ rw (z, n) v
      | inr (e, n) ↦
          rw (z, n)
            (record {
              sorted = v.sorted;
              apart = v.apart;
              agree = λ j.
                  let old = v.agree j in
                  let marked =
                    lookup-insert id j (record e { is_cancelled = true }) m.timeout_map in
                  elim (same_or_ne id j) [ inl i ↦ ground arith | inr i ↦ ground arith ];
              fresh = v.fresh;
              nonzero = v.nonzero;
              next = v.next;
            })
    ]
  ]

  module _ (now : ℕ) (m : TimeoutManager C) (v : IsValid m) (j : ℕ) where
    -- What stands under the id after `process_timeouts`, by what stood under it before.
    pub take_due-entry :
        let o = lookup j m.timeout_map in
        let q = queued j m.timeout_queue in
        let fired = only (is_due now q && is_live o) q in
        let after = take_due now m in
        (queued j after.1.timeout_queue ≡ or_else (again now fired) (only (not (is_due now q)) q))
        × (lookup j after.1.timeout_map ≡ or_else (again now fired) (only (not (is_due now q)) o))
        × (queued j after.0 ≡ fired)
    unfolding take_due
    take_due-entry =
        let c = collect now m.timeout_queue m.timeout_map in
        let new = collect-AreNew now m.timeout_queue m.timeout_map v.sorted v.apart in
        let taken = queued-collect now j m.timeout_queue m.timeout_map v.sorted v.apart in
        let back = queued-reschedule now j m.timeout_queue m.timeout_map v.sorted v.apart in
        let by_queue = queued-put_back j c.reschedule c.rest c.left new in
        let by_map = lookup-put_back j c.reschedule c.rest c.left new.0 in
        (
          rw (by_queue, back, taken.0, taken.2) refl,
          rw (by_map, back, taken.1, taken.2) refl,
          taken.2,
        )

    take_due-agree :
        let after = (take_due now m).1 in
        unmarked (lookup j after.timeout_map) ≡ queued j after.timeout_queue
    unfolding renew
    take_due-agree =
        let old = v.agree j in
        let entry = take_due-entry in
        elim (Option-cases (lookup j m.timeout_map)) [
          | inl n ↦ ground arith
          | inr (e, n) ↦ ground arith
        ]

    take_due-absent :
        queued j m.timeout_queue ≡ none → queued j (take_due now m).1.timeout_queue ≡ none
    take_due-absent n = let entry = take_due-entry in ground arith

  pub take_due-IsValid : (now : ℕ) (m : TimeoutManager C) → IsValid m → IsValid (take_due now m).1
  unfolding take_due
  take_due-IsValid now m v =
      let c = collect now m.timeout_queue m.timeout_map in
      record {
        sorted =
            put_back-IsSorted c.reschedule c.rest c.left
              (collect-IsSorted now m.timeout_queue m.timeout_map v.sorted);
        apart =
            put_back-IsApart c.reschedule c.rest c.left
              (collect-AreNew now m.timeout_queue m.timeout_map v.sorted v.apart)
              (collect-IsApart now m.timeout_queue m.timeout_map v.apart);
        agree = take_due-agree now m v;
        fresh = λ j h. take_due-absent now m v j (v.fresh j h);
        nonzero = take_due-absent now m v 0 v.nonzero;
        next = v.next;
      }

  clear_all-IsValid : (m : TimeoutManager C) → IsValid m → IsValid (clear_all m)
  unfolding clear_all queued lookup
  clear_all-IsValid m v = record {
    sorted = tt;
    apart = tt;
    agree = λ j. refl;
    fresh = λ j h. refl;
    nonzero = refl;
    next = v.next;
  }

  pub step-IsValid :
      (call : Call C) (m : TimeoutManager C)
      → IsValid m
      → m.next_id + 1 < u64_mod
      → IsValid (step call m).1
  unfolding step
  step-IsValid (register now ms cb) m v bound = register-IsValid now ms cb m v bound
  step-IsValid (register_periodic now ms cb) m v bound =
      register_periodic-IsValid now ms cb m v bound
  step-IsValid (cancel id) m v bound = cancel_timeout-IsValid id m v
  step-IsValid (process now) m v bound = take_due-IsValid now m v
  step-IsValid clear m v bound = clear_all-IsValid m v
