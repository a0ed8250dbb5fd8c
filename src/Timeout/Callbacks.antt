-- ===== src/Timeout/Callbacks.antt =====
-- The callbacks of `process_timeouts` (src/utils/TimeoutManager.cpp) and what they are counted as.
use my_vm_os.Base.{ℕ, ◌<◌, ◌≡◌, inl, inr, Bool, List, [], ◌∷◌, arith, Bool-cases, u64_mod, add64}
use my_vm_os.Timeout.{
  TimeoutEntry, TimeoutManager, run_callbacks, process_timeouts, count_trigger, take_due,
}

module _ {C : Type 0} {W : Type 0} (run : C → TimeoutManager C × W → Bool × (TimeoutManager C × W))
    (keeps : (c : C) (s : TimeoutManager C × W)
      → (run c s).1.0.stats.triggered_count ≡ s.0.stats.triggered_count) where
  run_callbacks-triggered_count :
      (es : List (TimeoutEntry C)) (s : TimeoutManager C × W)
      → s.0.stats.triggered_count < u64_mod
      → let r = run_callbacks run es s in
        r.1.0.stats.triggered_count ≡ add64 s.0.stats.triggered_count r.0
  unfolding run_callbacks count_trigger
  run_callbacks-triggered_count [] s b = omega arith
  run_callbacks-triggered_count (e ∷ es) s b =
      let r = run e.config.callback s in
      let same = keeps e.config.callback s in
      elim (Bool-cases r.0) [
        | inl returned ↦
            let later =
              run_callbacks-triggered_count es (count_trigger e r.1.0, r.1.1) (omega arith) in
            rw returned (omega arith)
        | inr thrown ↦
            let later = run_callbacks-triggered_count es r.1 (omega arith) in
            rw thrown (omega arith)
      ]

  -- Where the callbacks leave the triggered count alone, process_timeouts adds to it, modulo 2^64,
  -- the number that it returns: the callbacks that did not throw.
  pub process_timeouts-triggered_count :
      (now : ℕ) (s : TimeoutManager C × W)
      → s.0.stats.triggered_count < u64_mod
      → let r = process_timeouts run now s in
        r.1.0.stats.triggered_count ≡ add64 s.0.stats.triggered_count r.0
  unfolding process_timeouts take_due
  process_timeouts-triggered_count now (m, w) b =
      let due = take_due now m in run_callbacks-triggered_count due.0 (due.1, w) b
