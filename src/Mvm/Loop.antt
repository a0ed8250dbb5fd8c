-- ===== src/Mvm/Loop.antt =====
-- `run_loop` of `mVM` (src/vm/mVM.cpp) as the steps of its thread: up to the call of
-- `execute_instruction`, and the test of the state after it. Another thread may come in between.
pub mod Safety
pub mod Input
use my_vm_os.Base.{
  ℕ, ◌+◌, ◌-◌, Bool, true, false, not, Option, none, some, List, [], ◌∷◌, leb, if◌then◌else◌,
  length,
}
use my_vm_os.Cpu.State.{update}
use my_vm_os.Sched.Vm.{VmState, terminated}
use my_vm_os.Mvm.{Mvm, u32_mod, execute_instruction, handle_interrupt, is_suspended}

-- Where the thread stands.
pub data Place : Type 0 where
  at_top : Place
  after_execute : (executed : Bool) → Place
  left : Place

-- What follows the loop.
unfoldable pub leave : Mvm → Place × Mvm
leave m = (left, if is_suspended m.state then m else record m { state = terminated })

-- `if (!execute_instruction())`, from the read of the instruction on.
unfoldable pub run_instruction : Mvm → Option (Place × Mvm)
run_instruction m = elim (execute_instruction (record m { pc = m.pc + 1 })) [
  | none ↦ none
  | some (b, m') ↦ some (after_execute b, m')
]

-- The top of the loop. A machine without a quota, or a suspended one, goes round.
unfoldable pub enter : Mvm → Option (Place × Mvm)
unfolding leave run_instruction
enter m =
    if not m.is_running
    then some (leave m)
    else if not m.has_quota
    then some (at_top, m)
    else if is_suspended m.state
    then some (at_top, m)
    else if leb (length m.memory) m.pc
    then some (leave (record m { registers = update m.registers 0 (u32_mod - 2) }))
    else run_instruction m

-- A suspended machine takes its `pc_` back.
unfoldable pub thread_step : Place × Mvm → Option (Place × Mvm)
unfolding leave enter
thread_step (at_top, m) = enter m
thread_step (after_execute true, m) = some (at_top, m)
thread_step (after_execute false, m) =
    some (if is_suspended m.state then (at_top, record m { pc = m.pc - 1 }) else leave m)
thread_step (left, m) = some (left, m)

-- Rounds of the loop in which the thread takes two steps and then the result `value` is delivered.
unfoldable pub serve : (values : List ℕ) → Mvm → Option Mvm
serve [] m = some m
serve (value ∷ values) m = elim (thread_step (at_top, m)) [
  | none ↦ none
  | some t ↦ elim (thread_step t) [
    | none ↦ none
    | some (w, m') ↦ serve values (handle_interrupt false value m')
  ]
]
