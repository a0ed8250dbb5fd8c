-- ===== src/Timeout/Cancel.antt =====
-- Registering and cancelling (`register_timeout`, `cancel_timeout` of src/utils/TimeoutManager.cpp).
use my_vm_os.Base.{
  ℕ, ◌+◌, ◌≤◌, ◌<◌, ◌≡◌, ◌≢◌, ◌⊎◌, refl, sym, inl, inr, true, false, List, [], ◌∷◌, ◌++◌, Option,
  none, some, ltb, ◌==◌, arith, Bool-cases, Option-cases, lookup, lookup-insert, lookup-insert_self,
  ap, u64_mod, length,
}
use my_vm_os.Base.Int.{ℤ, pos, leb_ℤ}
use my_vm_os.Timeout.{
  TimeoutConfig, TimeoutEntry, TimeoutManager, add_entry, register_timeout,
  register_periodic_timeout, cancel_timeout, is_live, take_due, clear_all, after_ms,
}
use my_vm_os.Timeout.Queue.{queued}
use my_vm_os.Timeout.Valid.{
  Call, register, register_periodic, cancel, process, clear, step, IsValid, step-IsValid,
  cancel_timeout-IsValid, take_due-entry,
}
use my_vm_os.Timeout.Timers.{
  timer_of, Timer, Timers, timer, spec_step, Refines, step-Refines, step-next_id,
}

module _ {C : Type 0} where
  -- The entries that a history triggers.
  abbrev pub fired : List (Call C) → TimeoutManager C → List (TimeoutEntry C)
  fired [] m = []
  fired (call ∷ calls) m = (step call m).0 ++ fired calls (step call m).1

  queued-append :
      (j : ℕ) (xs ys : List (TimeoutEntry C))
      → queued j xs ≡ none
      → queued j (xs ++ ys) ≡ queued j ys
  unfolding queued
  queued-append j [] ys h = refl
  queued-append j (e ∷ xs) ys h = elim (Bool-cases (e.id == j)) [
    | inl b ↦ ground arith
    | inr b ↦ let later = queued-append j xs ys in ground arith
  ]

  abbrev timers_of : TimeoutManager C → Timers C
  timers_of m = record { set = λ j. timer j m; next_id = m.next_id }

  -- No timer stands under the id, and none ever will.
  abbrev IsSpent : ℕ → TimeoutManager C → Type 0
  IsSpent j m = (timer j m ≡ none) × (j < m.next_id)

  spec_step-none :
      (call : Call C) (s : Timers C) (j : ℕ)
      → s.set j ≡ none
      → j < s.next_id
      → (spec_step call s).set j ≡ none
  unfolding spec_step
  spec_step-none (register now ms none) s j h l = h
  spec_step-none (register now ms (some cb)) s j h l = ground arith
  spec_step-none (register_periodic now ms none) s j h l = h
  spec_step-none (register_periodic now ms (some cb)) s j h l = ground arith
  spec_step-none (cancel id) s j h l = ground arith
  spec_step-none (process now) s j h l = rw h refl
  spec_step-none clear s j h l = refl

  step-next_grows :
      (call : Call C) (m : TimeoutManager C)
      → m.next_id + 1 < u64_mod
      → m.next_id ≤ (step call m).1.next_id
  unfolding step register_timeout register_periodic_timeout add_entry cancel_timeout take_due
      clear_all
  step-next_grows call m bound = ground arith

  step-IsSpent :
      (call : Call C) (m : TimeoutManager C) (j : ℕ)
      → IsValid m
      → m.next_id + 1 < u64_mod
      → IsSpent j m
      → IsSpent j (step call m).1
  step-IsSpent call m j v bound h =
      let same : Refines m (timers_of m) = record { same_timers = λ i. refl; same_next = refl } in
      let after = step-Refines call m (timers_of m) v same bound in
      let grows = step-next_grows call m bound in
      (rw (after.same_timers j) (spec_step-none call (timers_of m) j h.0 h.1), omega arith)

  step-silent :
      (call : Call C) (m : TimeoutManager C) (j : ℕ)
      → IsValid m
      → IsSpent j m
      → queued j (step call m).0 ≡ none
  unfolding step queued is_live
  step-silent (register now ms cb) m j v h = refl
  step-silent (register_periodic now ms cb) m j v h = refl
  step-silent (cancel id) m j v h = refl
  step-silent clear m j v h = refl
  step-silent (process now) m j v h =
      let entry = take_due-entry now m v j in
      let old = v.agree j in
      elim (Option-cases (lookup j m.timeout_map)) [
        | inl n ↦ ground arith
        | inr (e, n) ↦ ground arith
      ]

  fired-silent :
      (calls : List (Call C)) (m : TimeoutManager C) (j : ℕ)
      → IsValid m
      → IsSpent j m
      → m.next_id + length calls < u64_mod
      → queued j (fired calls m) ≡ none
  unfolding queued
  fired-silent [] m j v h bound = refl
  fired-silent (call ∷ calls) m j v h bound =
      let grows = step-next_id call m (omega arith) in
      rw (queued-append j (step call m).0 (fired calls (step call m).1) (step-silent call m j v h))
        (fired-silent calls (step call m).1 j (step-IsValid call m v (omega arith))
          (step-IsSpent call m j v (omega arith) h) (omega arith))

  cancel_timeout-next_id :
      (id : ℕ) (m : TimeoutManager C) → (cancel_timeout id m).1.next_id ≡ m.next_id
  unfolding cancel_timeout
  cancel_timeout-next_id id m = ground arith

  cancel_timeout-IsSpent :
      (id : ℕ) (m : TimeoutManager C)
      → IsValid m
      → (cancel_timeout id m).0 ≡ true
      → IsSpent id (cancel_timeout id m).1
  unfolding cancel_timeout
  cancel_timeout-IsSpent id m v h = elim (Bool-cases (id == 0)) [
    | inl z ↦ ground arith
    | inr z ↦ elim (Option-cases (lookup id m.timeout_map)) [
      | inl n ↦ ground arith
      | inr (e, n) ↦
          let marked = lookup-insert id id (record e { is_cancelled = true }) m.timeout_map in
          let old = v.agree id in
          let new = v.fresh id in
          rw (z, n)
            (
              ground arith,
              elim (Bool-cases (ltb id m.next_id)) [ inl b ↦ ground arith | inr b ↦ ground arith ],
            )
    ]
  ]

  -- Once cancel_timeout has returned true, no history of calls, short enough for the ids not to
  -- wrap, triggers that timer.
  pub cancel_timeout-fired :
      (id : ℕ) (m : TimeoutManager C) (calls : List (Call C))
      → IsValid m
      → m.next_id + length calls < u64_mod
      → (cancel_timeout id m).0 ≡ true
      → queued id (fired calls (cancel_timeout id m).1) ≡ none
  cancel_timeout-fired id m calls v bound h =
      fired-silent calls (cancel_timeout id m).1 id (cancel_timeout-IsValid id m v)
        (cancel_timeout-IsSpent id m v h) (rw (cancel_timeout-next_id id m) bound)

  -- A call that registers: it fails and changes nothing where the time is not positive or there is no
  -- callback; else its id, new and not 0, stands for a timer that expires in time.
  abbrev pub IsRegistered : ℕ → ℤ → Option C → TimeoutManager C → ℕ × TimeoutManager C → Type 0
  IsRegistered now ms cb m r =
      ((r ≡ (0, m)) × ((cb ≡ none) ⊎ (leb_ℤ ms (pos 0) ≡ true)))
      ⊎ ((r.0 ≢ 0)
          × (timer r.0 m ≡ none)
          × ((t : Timer C) × (timer r.0 r.1 ≡ some t)
              × (t.expire_time ≡ after_ms now ms)
              × (cb ≡ some t.config.callback)))

  added :
      (now : ℕ) (config : TimeoutConfig C) (m : TimeoutManager C)
      → IsValid m
      → (m.next_id ≢ 0)
        × (timer m.next_id m ≡ none)
        × ((t : Timer C) × (timer m.next_id (add_entry now config m) ≡ some t)
            × (t.expire_time ≡ after_ms now config.timeout_ms)
            × (t.config ≡ config))
  unfolding add_entry
  added now config m v =
      let n = v.next in
      let free = v.fresh m.next_id (omega arith) in
      let old = v.agree m.next_id in
      let entry : TimeoutEntry C = record {
        id = m.next_id;
        expire_time = after_ms now config.timeout_ms;
        config = config;
        is_cancelled = false;
      } in
      let inserted = lookup-insert_self m.next_id entry m.timeout_map in
      (ground arith, ground arith, (_, ap timer_of inserted, refl, refl))

  register_timeout-IsRegistered :
      (now : ℕ) (ms : ℤ) (cb : Option C) (m : TimeoutManager C)
      → IsValid m
      → IsRegistered now ms cb m (register_timeout now ms cb m)
  unfolding register_timeout
  register_timeout-IsRegistered now ms none m v = inl (refl, inl refl)
  register_timeout-IsRegistered now ms (some cb) m v = elim (Bool-cases (leb_ℤ ms (pos 0))) [
    | inl b ↦ rw b (inl (refl, inr refl))
    | inr b ↦
        let (new, free, (t, set, expires, same)) =
          added now
            (record { timeout_ms = ms; callback = cb; is_periodic = false; period_ms = pos 0 }) m
            v in
        rw b (inr (new, free, (t, set, expires, ap (λ c. some c.callback) (sym same))))
  ]

  register_periodic-IsRegistered :
      (now : ℕ) (ms : ℤ) (cb : Option C) (m : TimeoutManager C)
      → IsValid m
      → IsRegistered now ms cb m (register_periodic_timeout now ms cb m)
  unfolding register_periodic_timeout
  register_periodic-IsRegistered now ms none m v = inl (refl, inl refl)
  register_periodic-IsRegistered now ms (some cb) m v = elim (Bool-cases (leb_ℤ ms (pos 0))) [
    | inl b ↦ rw b (inl (refl, inr refl))
    | inr b ↦
        let (new, free, (t, set, expires, same)) =
          added now (record { timeout_ms = ms; callback = cb; is_periodic = true; period_ms = ms })
            m v in
        rw b (inr (new, free, (t, set, expires, ap (λ c. some c.callback) (sym same))))
  ]

  -- In a valid state, register_timeout and register_periodic_timeout either return 0 and change
  -- nothing, where the time is not positive or the callback is empty, or return a new id that is not
  -- 0 and set its timer with the callback, to expire at the sum of the time now and the given time,
  -- as int64 nanoseconds, which wrap.
  pub register-errors :
      (now : ℕ) (ms : ℤ) (cb : Option C) (m : TimeoutManager C)
      → IsValid m
      → IsRegistered now ms cb m (register_timeout now ms cb m)
        × IsRegistered now ms cb m (register_periodic_timeout now ms cb m)
  register-errors now ms cb m v =
      (register_timeout-IsRegistered now ms cb m v, register_periodic-IsRegistered now ms cb m v)
