-- ===== src/Tests/Timers.antt =====
-- The theorems on timeouts (src/utils/TimeoutManager.cpp), run with three timers.
use my_vm_os.Base.{ℕ, ◌+◌, ◌≡◌, refl, Bool, true, List, [], ◌∷◌, none, some, arith, lookup, insert}
use my_vm_os.Base.Int.{pos, negsuc}
use my_vm_os.Timeout.{
  TimeoutManager, construct, register_timeout, register_periodic_timeout, cancel_timeout, add_entry,
  push_entry,
}
use my_vm_os.Timeout.Queue.{queued}
use my_vm_os.Timeout.Valid.{
  Call, register, register_periodic, cancel, process, clear, step, IsValid,
}
use my_vm_os.Timeout.Timers.{Refines, run, spec_run, no_timers, construct-run-Refines}
use my_vm_os.Timeout.Cancel.{IsRegistered, fired, register-errors, cancel_timeout-fired}

abbrev two_timers : List (Call ℕ)
two_timers = register 0 (pos 5) (some 7) ∷ register_periodic 0 (pos 2) (some 8) ∷ []

abbrev history : List (Call ℕ)
history =
    register 0 (pos 5) (some 7)
    ∷ register_periodic 0 (pos 2) (some 8)
    ∷ register 0 (negsuc 0) (some 9)
    ∷ cancel 1
    ∷ process 3000000
    ∷ clear
    ∷ []

construct-run-Refines_example :
    IsValid (run history construct) × Refines (run history construct) (spec_run history no_timers)
construct-run-Refines_example = construct-run-Refines history (omega arith)

m : TimeoutManager ℕ
m = run two_timers construct

m-IsValid : IsValid m
unfolding m
m-IsValid = let h = construct-run-Refines two_timers (omega arith) in h.0

cancel_timeout-fired_example :
    queued 1 (fired (process 3000000 ∷ process 9000000 ∷ []) (cancel_timeout 1 m).1) ≡ none
unfolding m construct step register_timeout register_periodic_timeout add_entry push_entry
    cancel_timeout lookup insert
cancel_timeout-fired_example =
    cancel_timeout-fired 1 m (process 3000000 ∷ process 9000000 ∷ []) m-IsValid (omega arith) refl

register-errors_example :
    IsRegistered 4000000 (pos 3) (some 9) m (register_timeout 4000000 (pos 3) (some 9) m)
    × IsRegistered 4000000 (pos 3) (some 9) m (register_periodic_timeout 4000000 (pos 3) (some 9) m)
register-errors_example = register-errors 4000000 (pos 3) (some 9) m m-IsValid

abbrev add_to : ℕ → TimeoutManager ℕ × ℕ → Bool × (TimeoutManager ℕ × ℕ)
add_to c (t, total) = (true, (t, total + c))
