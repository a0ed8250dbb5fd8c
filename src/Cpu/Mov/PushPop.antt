-- ===== src/Cpu/Mov/PushPop.antt =====
-- The opcodes 0x50 to 0x5F of `execute_push_pop` (src/vm/X86_instructions.cpp).
use my_vm_os.Base.{ℕ, ◌-◌, ◌≤◌, ◌≡◌, some, true, ◌&&◌, leb, arith}
use my_vm_os.Cpu.State.{Cpu, get_register}
use my_vm_os.Cpu.Machine.{◌>>=◌, ◌>>◌, gets, done, >>=_some}
use my_vm_os.Cpu.Memory.{read_byte, push}
use my_vm_os.Cpu.Memory.Stack.{HasRoom, pushed, push_lem}
use my_vm_os.Cpu.Mov.{execute_push_pop}

in_group : (b : ℕ) → 0x50 ≤ b → b ≤ 0x5F → (leb 0x50 b && leb b 0x5F) ≡ true
in_group b h k = ground arith

-- Where the stack has room for eight bytes, each of the opcodes 0x50 to 0x5F pushes the register
-- whose number in the enumeration is the opcode less 0x50, and returns length 1.
pub execute_push_pop_lem :
    (rip : ℕ) (c : Cpu)
    → 0x50 ≤ read_byte rip c
    → read_byte rip c ≤ 0x5F
    → HasRoom 8 c
    → execute_push_pop rip c ≡ some (1, pushed (get_register (read_byte rip c - 0x50) c) c)
unfolding execute_push_pop ◌>>=◌ ◌>>◌ gets done
execute_push_pop_lem rip c h k room =
    rw (in_group (read_byte rip c) h k)
      (>>=_some (push (get_register (read_byte rip c - 0x50) c)) _ c (push_lem _ room))
