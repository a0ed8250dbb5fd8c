-- ===== src/Cpu/Valid/Step.antt =====
-- `decode_and_execute` (src/vm/X86_decode.cpp) and `execute_instruction` (src/vm/X86CPU.cpp) keep the
-- state well-formed, and every instruction has a positive length.
use my_vm_os.Base.{ℕ, ◌+◌, ◌<◌, Option, none, some, leb, arith}
use my_vm_os.Cpu.Reg
use my_vm_os.Cpu.State.{Cpu, get_rip}
use my_vm_os.Cpu.Machine.{M, done}
use my_vm_os.Cpu.Memory.{read_byte}
use my_vm_os.Cpu.Decode.{
  int_max, add_int, counted, halt, syscall, Handler, mov, push_pop, arithmetic, logical, branch,
  call_ret, stack_ops, flag_ops, interrupt, string_ops, nop, hlt, syscall_op, unknown, dispatch,
  handler_of, read_prefixes, decode_and_execute,
}
use my_vm_os.Cpu.Valid.{
  IsValid, After, After-if, Keeps, IsPositive, Keeps-bind, Keeps-seq, Keeps-modify,
}
use my_vm_os.Cpu.Valid.Operand.{reg-Keeps, len-Keeps}
use my_vm_os.Cpu.Valid.Mov.{execute_mov-Keeps, execute_push_pop-Keeps}
use my_vm_os.Cpu.Valid.Integer.{execute_arithmetic-Keeps}
use my_vm_os.Cpu.Valid.Logical.{execute_logical-Keeps}
use my_vm_os.Cpu.Valid.Control.{
  trigger_interrupt-Keeps, trigger_syscall-Keeps, execute_branch-Keeps, execute_call_ret-Keeps,
  execute_stack_ops-Keeps, execute_flag_ops-Keeps, execute_interrupt-Keeps,
  execute_string_ops-Keeps,
}

add_int-Keeps : (n len : ℕ) → 0 < len → Keeps IsPositive (add_int n len)
unfolding add_int After
add_int-Keeps n len p = record {
  at = λ c v.
      After-if IsPositive (leb (n + len) int_max) (done (n + len) c) none
        ((len-Keeps (n + len) (omega arith)).at c v) tt;
}

counted-Keeps : (n : ℕ) {m : M ℕ} → Keeps IsPositive m → Keeps IsPositive (counted n m)
unfolding counted
counted-Keeps n h = Keeps-bind h λ len p. add_int-Keeps n len p

halt-IsValid : (c : Cpu) → IsValid c → IsValid (halt c)
unfolding halt
halt-IsValid c v = record {
  words = v.words;
  bytes = v.bytes;
  size = v.size;
  vector = v.vector;
  entry = v.entry;
  stack = v.stack;
  instructions = v.instructions;
  cycles = v.cycles;
  live = λ e. cc;
}

syscall-Keeps : Keeps IsPositive syscall
unfolding syscall
syscall-Keeps =
    Keeps-bind (reg-Keeps Reg.rax)
      λ num _. Keeps-seq (trigger_syscall-Keeps num) (len-Keeps 1 (omega arith))

dispatch-Keeps :
    (h : Handler) (prefix_bytes rip : ℕ) → Keeps IsPositive (dispatch h prefix_bytes rip)
unfolding dispatch
dispatch-Keeps mov n rip = counted-Keeps n (execute_mov-Keeps rip)
dispatch-Keeps push_pop n rip = counted-Keeps n (execute_push_pop-Keeps rip)
dispatch-Keeps arithmetic n rip = counted-Keeps n (execute_arithmetic-Keeps rip)
dispatch-Keeps logical n rip = counted-Keeps n (execute_logical-Keeps rip)
dispatch-Keeps branch n rip = counted-Keeps n (execute_branch-Keeps rip)
dispatch-Keeps call_ret n rip = counted-Keeps n (execute_call_ret-Keeps rip)
dispatch-Keeps stack_ops n rip = counted-Keeps n (execute_stack_ops-Keeps rip)
dispatch-Keeps flag_ops n rip = counted-Keeps n (execute_flag_ops-Keeps rip)
dispatch-Keeps interrupt n rip = counted-Keeps n (execute_interrupt-Keeps rip)
dispatch-Keeps string_ops n rip = counted-Keeps n (execute_string_ops-Keeps rip)
dispatch-Keeps nop n rip = len-Keeps 1 (omega arith)
dispatch-Keeps hlt n rip = Keeps-seq (Keeps-modify halt halt-IsValid) (len-Keeps 1 (omega arith))
dispatch-Keeps syscall_op n rip = syscall-Keeps
dispatch-Keeps unknown n rip = Keeps-seq (trigger_interrupt-Keeps 6) (len-Keeps 1 (omega arith))

dispatched :
    (count : Option ℕ) (rip : ℕ) (c : Cpu)
    → IsValid c
    → After IsPositive
        (elim count [ none ↦ none | some n ↦ dispatch (handler_of (read_byte rip c)) n rip c ])
unfolding After
dispatched none rip c v = tt
dispatched (some n) rip c v = (dispatch-Keeps (handler_of (read_byte rip c)) n rip).at c v

-- Whatever bytes stand at RIP, decode_and_execute takes a well-formed machine to a well-formed
-- machine and returns a positive length, unless the instruction makes an undefined access or the
-- length, an int, overflows.
pub decode_and_execute-Keeps : Keeps IsPositive decode_and_execute
unfolding decode_and_execute
decode_and_execute-Keeps = record {
  at = λ c v. let r = read_prefixes c (get_rip c) in dispatched r.0 r.1 c v;
}
