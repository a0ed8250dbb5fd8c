-- ===== src/Timeout/Timers.antt =====
-- `TimeoutManager` (src/utils/TimeoutManager.cpp) against what it promises: a set of timers under
-- their ids, each with its expiry, that forgets the queue and the cancelled entries.
use my_vm_os.Base.{
  ℕ, ◌+◌, ◌≤◌, ◌<◌, ◌≡◌, ◌∙◌, refl, inl, inr, Bool, true, false, List, [], ◌∷◌, Option, none, some,
  leb, ◌==◌, if◌then◌else◌, arith, Bool-cases, Option-cases, lookup, same_or_ne, lookup-insert,
  u64_mod, length,
}
use my_vm_os.Base.Int.{pos, leb_ℤ}
use my_vm_os.Timeout.{
  TimeoutConfig, TimeoutEntry, TimeoutManager, construct, add_entry, register_timeout,
  register_periodic_timeout, cancel_timeout, is_live, renew, take_due, clear_all, after_ms,
}
use my_vm_os.Timeout.Queue.{queued}
use my_vm_os.Timeout.Valid.{
  Call, register, register_periodic, cancel, process, clear, step, IsValid, construct-IsValid,
  step-IsValid, take_due-entry,
}

pub record Timer (C : Type 0) : Type 0 where
  pub expire_time : ℕ
  pub config : TimeoutConfig C

-- The timers that are set, and the id of the next one.
pub record Timers (C : Type 0) : Type 0 where
  pub set : ℕ → Option (Timer C)
  pub next_id : ℕ

module _ {C : Type 0} where
  -- The timer of an entry that is not cancelled.
  abbrev pub timer_of : Option (TimeoutEntry C) → Option (Timer C)
  timer_of none = none
  timer_of (some e) =
      if e.is_cancelled
      then none
      else some (record { expire_time = e.expire_time; config = e.config })

  abbrev pub timer : ℕ → TimeoutManager C → Option (Timer C)
  timer id m = timer_of (lookup id m.timeout_map)

  abbrev pub expired : ℕ → Option (Timer C) → Bool
  expired now none = false
  expired now (some t) = leb t.expire_time now

  -- A timer when the time is `now`: it stays, or goes, or starts its next period.
  abbrev pub at_time : ℕ → Option (Timer C) → Option (Timer C)
  at_time now none = none
  at_time now (some t) =
      if leb t.expire_time now
      then (if t.config.is_periodic
          then some (record t { expire_time = after_ms now t.config.period_ms })
          else none)
      else some t

  abbrev pub set_timer : ℕ → TimeoutConfig C → Timers C → Timers C
  set_timer now config s = record {
    set = λ j.
        if s.next_id == j
        then some (record { expire_time = after_ms now config.timeout_ms; config = config })
        else s.set j;
    next_id = s.next_id + 1;
  }

  -- What each call means for the timers.
  unfoldable pub spec_step : Call C → Timers C → Timers C
  spec_step (register now ms none) s = s
  spec_step (register now ms (some cb)) s =
      if leb_ℤ ms (pos 0)
      then s
      else set_timer now
          (record { timeout_ms = ms; callback = cb; is_periodic = false; period_ms = pos 0 }) s
  spec_step (register_periodic now ms none) s = s
  spec_step (register_periodic now ms (some cb)) s =
      if leb_ℤ ms (pos 0)
      then s
      else set_timer now
          (record { timeout_ms = ms; callback = cb; is_periodic = true; period_ms = ms }) s
  spec_step (cancel id) s = record s { set = λ j. if id == j then none else s.set j }
  spec_step (process now) s = record s { set = λ j. at_time now (s.set j) }
  spec_step clear s = record s { set = λ j. none }

  -- The manager and the timers agree.
  pub record Refines (m : TimeoutManager C) (s : Timers C) : Type 0 where
    pub same_timers : (j : ℕ) → timer j m ≡ s.set j
    pub same_next : m.next_id ≡ s.next_id

  add_entry-Refines :
      (now : ℕ) (config : TimeoutConfig C) (m : TimeoutManager C) (s : Timers C)
      → Refines m s
      → m.next_id + 1 < u64_mod
      → Refines (add_entry now config m) (set_timer now config s)
  unfolding add_entry
  add_entry-Refines now config m s h bound =
      let next = h.same_next in
      let entry : TimeoutEntry C = record {
        id = m.next_id;
        expire_time = after_ms now config.timeout_ms;
        config = config;
        is_cancelled = false;
      } in
      record {
        same_timers = λ j.
            let old = h.same_timers j in
            let inserted = lookup-insert m.next_id j entry m.timeout_map in
            elim (same_or_ne m.next_id j) [ inl i ↦ ground arith | inr i ↦ ground arith ];
        same_next = omega arith;
      }

  cancel-Refines :
      (id : ℕ) (m : TimeoutManager C) (s : Timers C)
      → IsValid m
      → Refines m s
      → Refines (cancel_timeout id m).1 (spec_step (cancel id) s)
  unfolding cancel_timeout spec_step
  cancel-Refines id m s v h = record {
    same_timers = λ j.
        let old = h.same_timers j in
        let none_at = v.agree 0 in
        let zero = v.nonzero in
        elim (Option-cases (lookup id m.timeout_map)) [
          | inl n ↦ elim (same_or_ne id j) [
            | inl i ↦ let gone : lookup j m.timeout_map ≡ none = rw (← i) n in ground arith
            | inr i ↦ ground arith
          ]
          | inr (e, n) ↦
              let marked = lookup-insert id j (record e { is_cancelled = true }) m.timeout_map in
              elim (same_or_ne id j) [
                | inl i ↦ elim (same_or_ne id 0) [
                  | inl z ↦ let there : lookup 0 m.timeout_map ≡ some e = rw (← z) n in ground arith
                  | inr z ↦ ground arith
                ]
                | inr i ↦ ground arith
              ]
        ];
    same_next = let next = h.same_next in ground arith;
  }

  -- process_timeouts of a TimeoutManager in a valid state triggers, with the entry as it was set,
  -- the timers that are set and have expired, and no other.
  pub take_due-fires :
      (now : ℕ) (m : TimeoutManager C) (j : ℕ)
      → IsValid m
      → timer_of (queued j (take_due now m).0)
        ≡ (if expired now (timer j m) then timer j m else none)
  unfolding is_live
  take_due-fires now m j v =
      let old = v.agree j in
      let entry = take_due-entry now m v j in
      elim (Option-cases (lookup j m.timeout_map)) [
        | inl n ↦ ground arith
        | inr (e, n) ↦ ground arith
      ]

  pub take_due-next_id : (now : ℕ) (m : TimeoutManager C) → (take_due now m).1.next_id ≡ m.next_id
  unfolding take_due
  take_due-next_id now m = refl

  process-Refines :
      (now : ℕ) (m : TimeoutManager C) (s : Timers C)
      → IsValid m
      → Refines m s
      → Refines (take_due now m).1 (spec_step (process now) s)
  unfolding spec_step renew is_live
  process-Refines now m s v h = record {
    same_timers = λ j.
        let old = v.agree j in
        let now_set = h.same_timers j in
        let entry = take_due-entry now m v j in
        elim (Option-cases (lookup j m.timeout_map)) [
          | inl n ↦ ground arith
          | inr (e, n) ↦ ground arith
        ];
    same_next = take_due-next_id now m ∙ h.same_next;
  }

  pub step-Refines :
      (call : Call C) (m : TimeoutManager C) (s : Timers C)
      → IsValid m
      → Refines m s
      → m.next_id + 1 < u64_mod
      → Refines (step call m).1 (spec_step call s)
  unfolding step spec_step register_timeout register_periodic_timeout clear_all lookup
  step-Refines (register now ms none) m s v h bound = h
  step-Refines (register now ms (some cb)) m s v h bound = elim (Bool-cases (leb_ℤ ms (pos 0))) [
    | inl b ↦ rw b h
    | inr b ↦ rw b (add_entry-Refines now _ m s h bound)
  ]
  step-Refines (register_periodic now ms none) m s v h bound = h
  step-Refines (register_periodic now ms (some cb)) m s v h bound =
      elim (Bool-cases (leb_ℤ ms (pos 0))) [
        | inl b ↦ rw b h
        | inr b ↦ rw b (add_entry-Refines now _ m s h bound)
      ]
  step-Refines (cancel id) m s v h bound = cancel-Refines id m s v h
  step-Refines (process now) m s v h bound = process-Refines now m s v h
  step-Refines clear m s v h bound = record { same_timers = λ j. refl; same_next = h.same_next }

  -- The calls of a history, in order.
  abbrev pub run : List (Call C) → TimeoutManager C → TimeoutManager C
  run [] m = m
  run (call ∷ calls) m = run calls (step call m).1

  abbrev pub spec_run : List (Call C) → Timers C → Timers C
  spec_run [] s = s
  spec_run (call ∷ calls) s = spec_run calls (spec_step call s)

  abbrev pub no_timers : Timers C
  no_timers = record { set = λ j. none; next_id = 1 }

  pub step-next_id :
      (call : Call C) (m : TimeoutManager C)
      → m.next_id + 1 < u64_mod
      → (step call m).1.next_id ≤ m.next_id + 1
  unfolding step register_timeout register_periodic_timeout add_entry cancel_timeout take_due
      clear_all
  step-next_id (register now ms none) m bound = omega arith
  step-next_id (register now ms (some cb)) m bound = ground arith
  step-next_id (register_periodic now ms none) m bound = omega arith
  step-next_id (register_periodic now ms (some cb)) m bound = ground arith
  step-next_id (cancel id) m bound = ground arith
  step-next_id (process now) m bound = omega arith
  step-next_id clear m bound = omega arith

  run-Refines :
      (calls : List (Call C)) (m : TimeoutManager C) (s : Timers C)
      → IsValid m
      → Refines m s
      → m.next_id + length calls < u64_mod
      → IsValid (run calls m) × Refines (run calls m) (spec_run calls s)
  run-Refines [] m s v h bound = (v, h)
  run-Refines (call ∷ calls) m s v h bound =
      let grows = step-next_id call m (omega arith) in
      run-Refines calls (step call m).1 (spec_step call s) (step-IsValid call m v (omega arith))
        (step-Refines call m s v h (omega arith)) (omega arith)

  -- After any history of fewer than 2^64 - 1 calls on a new TimeoutManager, its queue is in order
  -- and agrees with its map, and the entries that are not cancelled are exactly the timers of a set
  -- of timers that forgets the queue: each call sets, drops or renews there what it promises.
  pub construct-run-Refines :
      (calls : List (Call C))
      → 1 + length calls < u64_mod
      → IsValid (run calls construct) × Refines (run calls construct) (spec_run calls no_timers)
  unfolding construct lookup
  construct-run-Refines calls bound =
      run-Refines calls construct no_timers construct-IsValid
        (record { same_timers = λ j. refl; same_next = refl }) (omega arith)
