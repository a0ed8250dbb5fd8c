-- ===== src/Tests/Threads.antt =====
-- The theorems on `mVM` (src/vm/mVM.cpp), run on a program that reads one number and halts.
use my_vm_os.Base.{ℕ, ◌+◌, ◌*◌, ◌≡◌, refl, false, List, [], ◌∷◌, none, some, length, arith}
use my_vm_os.Sched.Vm.{terminated}
use my_vm_os.Mvm.{
  Mvm, construct, load_program, start, grant_quota, execute, execute_instruction, handle_interrupt,
  suspend, send_interrupt_request, is_suspended,
}
use my_vm_os.Mvm.Loop.{
  Place, at_top, after_execute, left, run_instruction, enter, thread_step, serve,
}
use my_vm_os.Mvm.Loop.Safety.{IsInside, by_start, by_grant, by_step, Reachable-IsSafe}
use my_vm_os.Mvm.Loop.Input.{AtInput, serve-input, thread_step-interrupted}

-- INPUT to register 1; HALT.
abbrev program : List ℕ
program = (2 + 256 * 1) ∷ 4 ∷ []

ready : Mvm
ready = grant_quota (start (load_program program (construct 1)))

ready-AtInput : AtInput (2 + 256 * 1) ready
unfolding ready construct load_program start grant_quota
ready-AtInput = record {
  runs = refl;
  quota = refl;
  awake = refl;
  inside = ground arith;
  word = refl;
  input = refl;
}

suspended : Place × Mvm
unfolding ready
suspended = elim (thread_step (at_top, ready)) [ none ↦ (left, ready) | some t ↦ t ]

suspended_run : thread_step (at_top, ready) ≡ some suspended
unfolding suspended ready construct load_program start grant_quota thread_step enter run_instruction
    execute_instruction execute suspend send_interrupt_request is_suspended
suspended_run = refl

Reachable-IsSafe_example :
    IsInside suspended × ((t' : Place × Mvm) × (thread_step suspended ≡ some t'))
unfolding ready
Reachable-IsSafe_example =
    Reachable-IsSafe suspended (by_step suspended_run (by_grant (by_start 1 program)))

abbrev answers : List ℕ
answers = 7 ∷ 8 ∷ 9 ∷ []

serve-input_example :
    (m' : Mvm) × (serve answers ready ≡ some m')
    × (m'.pc ≡ ready.pc)
    × AtInput (2 + 256 * 1) m'
    × (length m'.sent ≡ length ready.sent + length answers)
serve-input_example = serve-input answers (2 + 256 * 1) ready ready-AtInput

thread_step-interrupted_example :
    (m1 m2 : Mvm) × (thread_step (at_top, ready) ≡ some (after_execute false, m1))
    × (thread_step (after_execute false, handle_interrupt false 7 m1) ≡ some (left, m2))
    × (m2.state ≡ terminated)
thread_step-interrupted_example = thread_step-interrupted (2 + 256 * 1) 7 ready ready-AtInput
