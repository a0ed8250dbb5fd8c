-- ===== src/Timeout/Single.antt =====
-- A `TimeoutManager` (src/utils/TimeoutManager.cpp) with one timer: set, cancelled or fired.
use my_vm_os.Base.{
  ℕ, ◌≡◌, ◌∙◌, refl, ap, inl, inr, Bool, true, false, List, [], ◌∷◌, some, ltb, if◌then◌else◌,
  Bool-cases, ==_self, ==_ne, ◌≢◌, lookup, insert, erase, add64,
}
use my_vm_os.Base.Int.{ℤ, pos, leb_ℤ}
use my_vm_os.Timeout.{
  TimeoutEntry, TimeoutManager, Stats, Collected, after_ms, add_entry, push_entry, register_timeout,
  cancel_timeout, collect, put_back, trigger, is_live, take_due, run_callbacks, process_timeouts,
  count_trigger,
}

-- A map of one key.
module _ {V : Type 0} (k : ℕ) where
  pub lookup-one : (v : V) → lookup k ((k, v) ∷ []) ≡ some v
  unfolding lookup
  lookup-one v = rw (==_self k) refl

  pub insert-one : (v u : V) → insert k u ((k, v) ∷ []) ≡ (k, u) ∷ []
  unfolding insert
  insert-one v u = rw (==_self k) refl

  pub erase-one : (v : V) → erase k ((k, v) ∷ []) ≡ []
  unfolding erase
  erase-one v = rw (==_self k) refl

module _ {C : Type 0} where
  abbrev pub no_timer : ℕ → Stats → TimeoutManager C
  no_timer next_id stats = record {
    timeout_queue = [];
    timeout_map = [];
    next_id = next_id;
    stats = stats;
  }

  -- The entry `e` in the queue, and `in_map` under its id.
  abbrev pub one_timer : TimeoutEntry C → TimeoutEntry C → ℕ → Stats → TimeoutManager C
  one_timer e in_map next_id stats = record {
    timeout_queue = e ∷ [];
    timeout_map = (e.id, in_map) ∷ [];
    next_id = next_id;
    stats = stats;
  }

  abbrev pub once : ℕ → ℕ → ℤ → C → TimeoutEntry C
  once id now ms c = record {
    id = id;
    expire_time = after_ms now ms;
    config = record { timeout_ms = ms; callback = c; is_periodic = false; period_ms = pos 0 };
    is_cancelled = false;
  }

  pub register_timeout-one :
      (now : ℕ) (ms : ℤ) (c : C) (next_id : ℕ) (stats : Stats)
      → leb_ℤ ms (pos 0) ≡ false
      → register_timeout now ms (some c) (no_timer next_id stats) ≡ (
        next_id,
        one_timer
            (once next_id now ms c)
            (once next_id now ms c)
            (add64 next_id 1)
            (record stats { total_registered = add64 stats.total_registered 1 }),
      )
  unfolding register_timeout add_entry push_entry insert
  register_timeout-one now ms c next_id stats h =
      ap
        (λ failed. if failed then (0, no_timer next_id stats) else (
          next_id,
          one_timer (once next_id now ms c) (once next_id now ms c) (add64 next_id 1)
              (record stats { total_registered = add64 stats.total_registered 1 }),
        ))
        h

  -- No timer will fire.
  pub data Silent : TimeoutManager C → Type 0 where
    nothing : (next_id : ℕ) (stats : Stats) → Silent (no_timer next_id stats)
    cancelled :
        (e : TimeoutEntry C) (next_id : ℕ) (stats : Stats)
        → Silent (one_timer e (record e { is_cancelled = true }) next_id stats)

  pub cancel_timeout-Silent :
      (e : TimeoutEntry C) (next_id : ℕ) (stats : Stats)
      → e.id ≢ 0
      → Silent (cancel_timeout e.id (one_timer e e next_id stats)).1
  unfolding cancel_timeout
  cancel_timeout-Silent e next_id stats h =
      let found = lookup-one e.id e in
      let marked = insert-one e.id e (record e { is_cancelled = true }) in
      let nonzero = ==_ne e.id 0 h in
      rw (nonzero, found, marked, cancel_timeout)
        (cancelled e next_id (record stats { cancelled_count = add64 stats.cancelled_count 1 }))

  -- What `take_due` makes of what it collects.
  abbrev finish : TimeoutManager C → Collected C → List (TimeoutEntry C) × TimeoutManager C
  finish m c =
      let back = put_back c.reschedule (c.rest, c.left) in
      (c.triggered, record m { timeout_queue = back.0; timeout_map = back.1 })

  take_due-collect :
      (now : ℕ) (m : TimeoutManager C) (c : Collected C)
      → collect now m.timeout_queue m.timeout_map ≡ c
      → take_due now m ≡ finish m c
  unfolding take_due
  take_due-collect now m c h = ap (finish m) h

  module _ (now : ℕ) (e in_map : TimeoutEntry C) where
    collect-early :
        ltb now e.expire_time ≡ true
        → collect now (e ∷ []) ((e.id, in_map) ∷ [])
          ≡ record { rest = e ∷ []; left = (e.id, in_map) ∷ []; triggered = []; reschedule = [] }
    unfolding collect
    collect-early b = rw b refl

    collect-cancelled :
        ltb now e.expire_time ≡ false
        → in_map.is_cancelled ≡ true
        → collect now (e ∷ []) ((e.id, in_map) ∷ [])
          ≡ record { rest = []; left = []; triggered = []; reschedule = [] }
    unfolding collect is_live
    collect-cancelled b marked = rw (b, lookup-one e.id in_map, erase-one e.id in_map, marked) refl

    collect-fired :
        ltb now e.expire_time ≡ false
        → in_map.is_cancelled ≡ false
        → e.config.is_periodic ≡ false
        → collect now (e ∷ []) ((e.id, in_map) ∷ [])
          ≡ record { rest = []; left = []; triggered = e ∷ []; reschedule = [] }
    unfolding collect is_live trigger
    collect-fired b live one_shot =
        rw (b, lookup-one e.id in_map, erase-one e.id in_map, live, one_shot) refl

  Silent-take_due :
      (now : ℕ) (t : TimeoutManager C)
      → Silent t
      → ((take_due now t).0 ≡ []) × Silent (take_due now t).1
  unfolding put_back collect
  Silent-take_due now _ (nothing next_id stats) =
      let e = take_due-collect now (no_timer next_id stats) _ refl in
      rw e ((refl, nothing next_id stats))
  Silent-take_due now _ (cancelled e next_id stats) =
      let marked = record e { is_cancelled = true } in
      let m = one_timer e marked next_id stats in
      elim (Bool-cases (ltb now e.expire_time)) [
        | inl b ↦
            let c = take_due-collect now m _ (collect-early now e marked b) in
            rw c ((refl, cancelled e next_id stats))
        | inr b ↦
            let c = take_due-collect now m _ (collect-cancelled now e marked b refl) in
            rw c ((refl, nothing next_id stats))
      ]

  pub Silent-process_timeouts :
      {W : Type 0} (run : C → TimeoutManager C × W → Bool × (TimeoutManager C × W)) (now : ℕ)
      (t : TimeoutManager C) (w : W)
      → Silent t
      → let r = process_timeouts run now (t, w) in (r.1.1 ≡ w) × Silent r.1.0
  unfolding process_timeouts run_callbacks
  Silent-process_timeouts run now t w s =
      let due = Silent-take_due now t s in rw due.0 ((refl, due.1))

  pub take_due-one :
      (now : ℕ) (id set_at : ℕ) (ms : ℤ) (c : C) (next_id : ℕ) (stats : Stats)
      → ltb now (after_ms set_at ms) ≡ false
      → take_due now (one_timer (once id set_at ms c) (once id set_at ms c) next_id stats)
        ≡ (once id set_at ms c ∷ [], no_timer next_id stats)
  unfolding put_back
  take_due-one now id set_at ms c next_id stats due =
      let e = once id set_at ms c in
      take_due-collect now (one_timer e e next_id stats) _ (collect-fired now e e due refl refl)

  -- One callback that returns.
  pub process_timeouts-one :
      {W : Type 0} (run : C → TimeoutManager C × W → Bool × (TimeoutManager C × W))
      (now id set_at : ℕ) (ms : ℤ) (c : C) (next_id : ℕ) (stats : Stats) (w : W)
      (after : TimeoutManager C × W)
      → ltb now (after_ms set_at ms) ≡ false
      → run c (no_timer next_id stats, w) ≡ (true, after)
      → let e = once id set_at ms c in
        (process_timeouts run now (one_timer e e next_id stats, w)).1
        ≡ (count_trigger e after.0, after.1)
  unfolding process_timeouts run_callbacks
  process_timeouts-one run now id set_at ms c next_id stats w after due ran =
      ap (λ taken. (run_callbacks run taken.0 (taken.1, w)).1)
        (take_due-one now id set_at ms c next_id stats due)
      ∙ ap
          (λ (r : Bool × (TimeoutManager C × _)).
            if r.0 then (count_trigger (once id set_at ms c) r.1.0, r.1.1) else r.1)
          ran
