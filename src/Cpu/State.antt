-- ===== src/Cpu/State.antt =====
-- The state of `X86CPUVM` (include/vm/X86CPU.h) and its control interface (src/vm/X86CPU.cpp).
-- Logging, the debug callback and the statistics' printing are left out.
pub mod Laws
use my_vm_os.Base.{ℕ, Bool, true, false, List, Option, none, ltb, ◌==◌, if◌then◌else◌}
use my_vm_os.Cpu.Reg.{X86Reg, num_x86_regs}
use my_vm_os.Cpu.Reg
use my_vm_os.Cpu.Flag.{Flag, intf, mask, has_flag, put_flag}
use my_vm_os.Cpu.Block.{BasicBlock}

-- `enum class X86VMState`
pub data X86VmState : Type 0 where
  created running halted waiting_interrupt terminated : X86VmState

-- `struct X86VMConfig`, the fields that the code reads.
pub record X86VmConfig : Type 0 where
  pub memory_size : ℕ
  pub entry_point : ℕ
  pub stack_pointer : ℕ

-- The registers and the physical memory are arrays: functions of the index, with the sizes
-- `num_x86_regs` and `memory_size`. `cfg` is the pointer `cfg_` with the blocks that it leads to.
pub record Cpu : Type 0 where
  pub vm_id : ℕ
  pub config : X86VmConfig
  pub registers : ℕ → ℕ
  pub physical_memory : ℕ → ℕ
  pub memory_size : ℕ
  pub state : X86VmState
  pub is_running : Bool
  pub pending_interrupt_vector : ℕ
  pub interrupt_pending : Bool
  pub total_instructions : ℕ
  pub total_cycles : ℕ
  pub cfg : Option (List BasicBlock)

-- `array[i] = v`
unfoldable pub update : (ℕ → ℕ) → ℕ → ℕ → ℕ → ℕ
update f i v j = if i == j then v else f j

unfoldable pub get_register : X86Reg → Cpu → ℕ
get_register r c = if ltb r num_x86_regs then c.registers r else 0

unfoldable pub set_register : X86Reg → ℕ → Cpu → Cpu
set_register r v c =
    if ltb r num_x86_regs then record c { registers = update c.registers r v } else c

-- `get_rip`, `get_rsp`, `get_rflags`, `set_rip` and `set_rsp` index the array with no test.
abbrev pub get_rip : Cpu → ℕ
get_rip c = c.registers Reg.rip

abbrev pub get_rsp : Cpu → ℕ
get_rsp c = c.registers Reg.rsp

abbrev pub get_rflags : Cpu → ℕ
get_rflags c = c.registers Reg.rflags

unfoldable pub set_rip : ℕ → Cpu → Cpu
set_rip v c = record c { registers = update c.registers Reg.rip v }

unfoldable pub set_rsp : ℕ → Cpu → Cpu
set_rsp v c = record c { registers = update c.registers Reg.rsp v }

unfoldable pub set_rbp : ℕ → Cpu → Cpu
set_rbp v c = record c { registers = update c.registers Reg.rbp v }

unfoldable pub get_flag : Flag → Cpu → Bool
get_flag f c = has_flag f (get_rflags c)

unfoldable pub set_flag : Flag → Bool → Cpu → Cpu
set_flag f b c = set_register Reg.rflags (put_flag f b (get_rflags c)) c

-- The constructor.
unfoldable pub construct : ℕ → X86VmConfig → Cpu
construct vm_id config =
    set_register Reg.rflags (mask intf)
      (set_rbp 0 (set_rsp config.stack_pointer (set_rip config.entry_point zeroed)))
  where
    zeroed : Cpu
    zeroed = record {
      vm_id = vm_id;
      config = config;
      registers = λ i. 0;
      physical_memory = λ i. 0;
      memory_size = config.memory_size;
      state = created;
      is_running = false;
      pending_interrupt_vector = 0;
      interrupt_pending = false;
      total_instructions = 0;
      total_cycles = 0;
      cfg = none;
    }

unfoldable pub is_running_state : X86VmState → Bool
is_running_state running = true
is_running_state _ = false

unfoldable pub start : Cpu → Cpu
start c = if is_running_state c.state then c else record c { state = running; is_running = true }

unfoldable pub stop : Cpu → Cpu
stop c = record c { is_running = false; state = terminated }

-- `interrupt_pending_` and `pending_interrupt_vector_` are not cleared.
unfoldable pub reset : Cpu → Cpu
reset c =
    record (set_register Reg.rflags (mask intf)
      (set_rsp c.config.stack_pointer (set_rip c.config.entry_point zeroed))) {
        state = created;
        is_running = false;
        total_instructions = 0;
        total_cycles = 0;
      }
  where
    zeroed : Cpu
    zeroed = record c { registers = λ i. 0; physical_memory = λ i. 0 }
