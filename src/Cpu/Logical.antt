-- ===== src/Cpu/Logical.antt =====
-- `execute_logical` (src/vm/X86_other_instructions.cpp). The lengths and the address of the
-- immediate count one byte more than the operand has.
use my_vm_os.Base.{
  ℕ, ◌+◌, ◌-◌, ◌%◌, true, false, ◌==◌, if◌then◌else◌, add64, not64, u64_mod, bit_and,
}
use my_vm_os.Cpu.Reg
use my_vm_os.Cpu.State.{get_register}
use my_vm_os.Cpu.Machine.{M, ◌>>=◌, ◌>>◌, gets, modify, done}
use my_vm_os.Cpu.Memory.{read_byte, read_dword, read_qword}
use my_vm_os.Cpu.ModRm.{decode_modrm, read_rm64, write_rm64}
use my_vm_os.Cpu.Alu.{update_flags_arithmetic}

-- 0xA9: TEST RAX, imm32.
unfoldable pub test_rax_imm32 : ℕ → M ℕ
test_rax_imm32 rip = do
  imm ← read_dword (add64 rip 1)
  rax ← gets (get_register Reg.rax)
  modify (update_flags_arithmetic (bit_and rax imm) rax imm false)
  done 5

-- `-a` of a `uint64_t`.
unfoldable pub neg64 : ℕ → ℕ
neg64 a = (u64_mod - a) % u64_mod

-- 0xF7: TEST, NOT and NEG r/m64; any other `reg` leaves the state and returns 1.
unfoldable pub group3 : ℕ → M ℕ
unfolding neg64
group3 rip = do
  (d, len) ← decode_modrm (add64 rip 1)
  let test : M ℕ = do
    imm ← read_qword (add64 rip (2 + len))
    dest_val ← read_rm64 d
    modify (update_flags_arithmetic (bit_and dest_val imm) dest_val imm false)
    done (2 + len + 8)
  let complement : M ℕ = do val ← read_rm64 d; write_rm64 d (not64 val); done (2 + len)
  let negate : M ℕ = do
    dest_val ← read_rm64 d
    modify (update_flags_arithmetic (neg64 dest_val) 0 dest_val true)
    write_rm64 d (neg64 dest_val)
    done (2 + len)
  if d.reg == 0
      then test
      else if d.reg == 2
      then complement
      else if d.reg == 3
      then negate
      else done 1

unfoldable pub execute_logical : ℕ → M ℕ
unfolding test_rax_imm32 group3
execute_logical rip c =
    let opcode = read_byte rip c in
    if opcode == 0xA9
    then test_rax_imm32 rip c
    else if opcode == 0xF7
    then group3 rip c
    else done 1 c
