-- ===== src/Cpu/Interrupt.antt =====
-- Interrupts and system calls of `X86CPUVM` (src/vm/X86CPU.cpp). The interrupt table stands at
-- address 0. `trigger_syscall` builds a `SyscallRequest` and logs it; nothing sends it, so it
-- leaves no trace in the state.
pub mod RoundTrip
use my_vm_os.Base.{ℕ, ◌+◌, ◌*◌, false, ◌==◌, if◌then◌else◌, ltb}
use my_vm_os.Cpu.Reg
use my_vm_os.Cpu.Flag.{intf}
use my_vm_os.Cpu.State.{
  Cpu, X86VmState, running, waiting_interrupt, get_register, set_register, get_rip, set_rip,
  get_rflags, set_flag,
}
use my_vm_os.Cpu.Machine.{M, ◌>>=◌, ◌>>◌, gets, modify, done}
use my_vm_os.Cpu.Memory.{push, pop, read_wide, read_qword}

unfoldable pub set_state : X86VmState → Cpu → Cpu
set_state s c = record c { state = s }

unfoldable pub trigger_interrupt : ℕ → M (Unit {0})
unfolding set_state
trigger_interrupt vector = do
  flags ← gets get_rflags
  push flags
  rip ← gets get_rip
  push rip
  handler_addr ← read_qword (0 + vector * 8)
  modify (set_rip handler_addr)
  modify (set_flag intf false)
  modify (set_state waiting_interrupt)

unfoldable pub trigger_syscall : ℕ → M (Unit {0})
unfolding set_state
trigger_syscall syscall_num = do
  rcx ← gets (get_register Reg.rcx)
  push rcx
  r11 ← gets (get_register Reg.r11)
  push r11
  ret_rip ← gets get_rip
  modify (set_state waiting_interrupt)
  syscall_handler ← read_qword (0 + 0x80 * 8)
  modify (set_rip (if syscall_handler == 0 then ret_rip else syscall_handler))
  modify (set_flag intf false)

-- `handle_interrupt`: `return_value` is an `int32_t` pattern that is not negative, or the call does
-- nothing.
unfoldable pub handle_interrupt : ℕ → M (Unit {0})
unfolding set_state
handle_interrupt return_value c =
    let restore : M (Unit {0}) = do
      modify (set_register Reg.rax return_value)
      ret_rip ← pop
      ret_rflags ← pop
      modify (set_rip ret_rip)
      modify (set_register Reg.rflags ret_rflags)
      modify (set_state running)
    in if ltb return_value 0x8000_0000 then restore c else done tt c
