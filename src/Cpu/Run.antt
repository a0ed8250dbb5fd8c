-- ===== src/Cpu/Run.antt =====
-- `execute_instruction`, `execute_basic_block` and `run_loop` (src/vm/X86CPU.cpp). Logging and the
-- debug callback are left out.
pub mod Step
use my_vm_os.Base.{
  ℕ, zero, suc, ◌+◌, Bool, true, false, not, ◌&&◌, ◌||◌, List, [], ◌∷◌, Option, none, some, ◌==◌,
  ltb, if◌then◌else◌, add64,
}
use my_vm_os.Cpu.Flag.{intf}
use my_vm_os.Cpu.Block.{Instruction, BasicBlock, get_block, is_branch}
use my_vm_os.Cpu.State.{Cpu, is_running_state, get_flag, get_rip, set_rip, start}
use my_vm_os.Cpu.Machine.{M, ◌>>=◌, ◌>>◌, gets, modify, done}
use my_vm_os.Cpu.Interrupt.{trigger_interrupt}
use my_vm_os.Cpu.Decode.{int_max, decode_and_execute}

-- The loop over the instructions of a block, which stops where RIP has left the block's order, and
-- after a branch of a terminated block. `executed_count` is an `int`, and undefined once it overflows.
unfoldable pub run_block : Bool → List Instruction → ℕ → M ℕ
run_block is_terminated [] executed_count c = done executed_count c
run_block is_terminated (insn ∷ rest) executed_count c =
    let branch = is_branch insn.mnemonic in
    let next : M ℕ = run_block is_terminated rest (executed_count + 1) in
    let body : M ℕ = do
      instr_len ← decode_and_execute
      let after : M ℕ =
          if not branch
          then (λ c. next (set_rip (add64 (get_rip c) instr_len) c))
          else if is_terminated
          then done (executed_count + 1)
          else next
      let fits : M ℕ = if ltb executed_count int_max then after else (λ c. none)
      if instr_len == 0 then done executed_count else fits
    in if get_rip c == insn.address then body c else done executed_count c

unfoldable pub current_block : Cpu → Option BasicBlock
current_block c = elim c.cfg [ none ↦ none | some blocks ↦ get_block (get_rip c) blocks ]

-- `none` stands for -1, the result outside every block.
unfoldable pub execute_basic_block : M (Option ℕ)
unfolding current_block
execute_basic_block c = elim (current_block c) [
  | none ↦ done none c
  | some block ↦ (run_block block.is_terminated block.instructions 0 >>= λ n. done (some n)) c
]

unfoldable pub deliver_interrupt : M (Unit {0})
deliver_interrupt c =
    let serve : M (Unit {0}) = do
      trigger_interrupt c.pending_interrupt_vector
      modify (λ c. record c { interrupt_pending = false })
    in if c.interrupt_pending && get_flag intf c then serve c else done tt c

unfoldable pub count_block : ℕ → Cpu → Cpu
count_block n c = record c {
  total_instructions = add64 c.total_instructions n;
  total_cycles = add64 c.total_cycles n;
}

-- One instruction outside the blocks: RIP is moved on unless the instruction changed it.
unfoldable pub single_step : M Bool
single_step = do
  old_rip ← gets get_rip
  instruction_length ← decode_and_execute
  let account : Cpu → Cpu = λ c. record c {
    total_instructions = add64 c.total_instructions 1;
    total_cycles = add64 c.total_cycles instruction_length;
  }
  let advance : Cpu → Cpu =
      λ c. if get_rip c == old_rip then set_rip (add64 (get_rip c) instruction_length) c else c
  if instruction_length == 0 then done false else (modify (λ c. advance (account c)) >> done true)

unfoldable pub step_block : Option ℕ → M Bool
unfolding count_block
step_block none = single_step
step_block (some executed) =
    if ltb 0 executed then (modify (count_block executed) >> done true) else single_step

-- The result is whether an instruction was executed.
unfoldable pub execute_instruction : M Bool
unfolding deliver_interrupt step_block
execute_instruction c =
    let work : M Bool = do deliver_interrupt; executed ← execute_basic_block; step_block executed
    in if not c.is_running || not (is_running_state c.state) then done false c else work c

-- The loop of `run_loop`, at most `fuel` rounds; the result is whether it came to its end.
unfoldable pub run_rounds : ℕ → M Bool
run_rounds zero c = done false c
run_rounds (suc fuel) c =
    let again : M Bool = run_rounds fuel in
    let round : M Bool = do
      executed ← execute_instruction
      going ← gets (λ c. is_running_state c.state)
      if not executed || not going then done true else again
    in if c.is_running && is_running_state c.state then round c else done true c

unfoldable pub run_loop : ℕ → M Bool
run_loop fuel c = run_rounds fuel (if c.is_running then c else start c)
