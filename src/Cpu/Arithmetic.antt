-- ===== src/Cpu/Arithmetic.antt =====
-- `execute_arithmetic` (src/vm/X86_instructions.cpp).
use my_vm_os.Base.{
  ℕ, ◌+◌, Bool, true, false, not, ◌==◌, if◌then◌else◌, add64, sub64, add8, sub8, sext8,
}
use my_vm_os.Cpu.Reg.{X86Reg, x86_reg_encoding_to_enum}
use my_vm_os.Cpu.Flag.{cf}
use my_vm_os.Cpu.State.{Cpu, get_register, set_register, set_flag}
use my_vm_os.Cpu.Machine.{M, ◌>>=◌, ◌>>◌, gets, modify, done}
use my_vm_os.Cpu.Memory.{read_byte, write_byte}
use my_vm_os.Cpu.ModRm.{
  ModRmDecoding, decode_modrm, calculate_effective_address, read_rm64, write_rm64, low8, set_low8,
}
use my_vm_os.Cpu.Alu.{update_flags_arithmetic}

-- The 8-bit operand `r/m`: the low byte of the register `rm`, or the byte at the address.
unfoldable pub read_rm8 : ModRmDecoding → Cpu → ℕ
read_rm8 d c =
    if not d.is_memory_operand
    then low8 (x86_reg_encoding_to_enum d.rm) c
    else read_byte (calculate_effective_address d c) c

unfoldable pub write_rm8 : ModRmDecoding → ℕ → Cpu → Cpu
write_rm8 d v c =
    if not d.is_memory_operand
    then set_low8 (x86_reg_encoding_to_enum d.rm) v c
    else write_byte (calculate_effective_address d c) v c

-- 0x00 ADD r/m8, r8 and 0x28 SUB r/m8, r8.
unfoldable pub op_rm8_r8 : (ℕ → ℕ → ℕ) → ℕ → M ℕ
unfolding read_rm8 write_rm8
op_rm8_r8 op rip = do
  (d, len) ← decode_modrm (add64 rip 1)
  dest_val ← gets (read_rm8 d)
  src_val ← gets (low8 (x86_reg_encoding_to_enum d.reg))
  modify (write_rm8 d (op dest_val src_val))
  modify (update_flags_arithmetic (op dest_val src_val) dest_val src_val true)
  done (1 + len)

-- 0x01 ADD r/m64, r64 and 0x29 SUB r/m64, r64.
unfoldable pub op_rm64_r64 : (ℕ → ℕ → ℕ) → ℕ → M ℕ
op_rm64_r64 op rip = do
  (d, len) ← decode_modrm (add64 rip 1)
  dest_val ← read_rm64 d
  src_val ← gets (get_register (x86_reg_encoding_to_enum d.reg))
  write_rm64 d (op dest_val src_val)
  modify (update_flags_arithmetic (op dest_val src_val) dest_val src_val true)
  done (1 + len)

-- 0x02 ADD r8, r/m8 and 0x2A SUB r8, r/m8. The first operand of ADD is read by the number of the
-- enumeration `reg`, that of SUB by the encoding.
unfoldable pub op_r8_rm8 : (ℕ → ℕ → ℕ) → (ℕ → X86Reg) → ℕ → M ℕ
unfolding read_rm8
op_r8_rm8 op reg_cast rip = do
  (d, len) ← decode_modrm (add64 rip 1)
  dest_val ← gets (low8 (reg_cast d.reg))
  src_val ← gets (read_rm8 d)
  modify (set_low8 (x86_reg_encoding_to_enum d.reg) (op dest_val src_val))
  modify (update_flags_arithmetic (op dest_val src_val) dest_val src_val true)
  done (1 + len)

-- 0x03 ADD r64, r/m64 and 0x2B SUB r64, r/m64.
unfoldable pub op_r64_rm64 : (ℕ → ℕ → ℕ) → ℕ → M ℕ
op_r64_rm64 op rip = do
  (d, len) ← decode_modrm (add64 rip 1)
  dest_val ← gets (get_register (x86_reg_encoding_to_enum d.reg))
  src_val ← read_rm64 d
  modify (set_register (x86_reg_encoding_to_enum d.reg) (op dest_val src_val))
  modify (update_flags_arithmetic (op dest_val src_val) dest_val src_val true)
  done (1 + len)

-- 0x83: ADD, SUB and CMP r/m, imm8, told apart by the field `reg`.
unfoldable pub group1_imm8 : ℕ → M ℕ
group1_imm8 rip = do
  (d, len) ← decode_modrm (add64 rip 1)
  imm8 ← gets (read_byte (add64 rip (1 + len)))
  dest_val ← read_rm64 d
  let imm_val = sext8 imm8
  let sum = add64 dest_val imm_val
  let difference = sub64 dest_val imm_val
  let add : M (Unit {0}) =
      write_rm64 d sum >> modify (update_flags_arithmetic sum dest_val imm_val true)
  let cmp : M (Unit {0}) = modify (update_flags_arithmetic difference dest_val imm_val false)
  let sub : M (Unit {0}) = write_rm64 d difference >> cmp
  if d.reg == 0 then add else if d.reg == 5 then sub else if d.reg == 7 then cmp else done tt
  done (1 + (len + 1))

-- 0xFF: INC and DEC r/m64. Other values of `reg` are reported and skipped.
unfoldable pub group5 : ℕ → M ℕ
group5 rip = do
  (d, len) ← decode_modrm (add64 rip 1)
  let inc : M (Unit {0}) = do
    val ← read_rm64 d
    write_rm64 d (add64 val 1)
    modify (update_flags_arithmetic (add64 val 1) val 1 true)
  let dec : M (Unit {0}) = do
    val ← read_rm64 d
    write_rm64 d (sub64 val 1)
    modify (update_flags_arithmetic (sub64 val 1) val 1 false)
  if d.reg == 0 then inc else if d.reg == 1 then dec else done tt
  done (1 + len)

-- 0x39: CMP r/m64, r64.
unfoldable pub cmp_rm64_r64 : ℕ → M ℕ
cmp_rm64_r64 rip = do
  (d, len) ← decode_modrm (add64 rip 1)
  src_val ← gets (get_register (x86_reg_encoding_to_enum d.reg))
  dest_val ← read_rm64 d
  modify (update_flags_arithmetic (sub64 dest_val src_val) dest_val src_val false)
  done (1 + len)

-- 0x3B: CMP r64, r/m64.
unfoldable pub cmp_r64_rm64 : ℕ → M ℕ
cmp_r64_rm64 rip = do
  (d, len) ← decode_modrm (add64 rip 1)
  src_val ← read_rm64 d
  dest_val ← gets (get_register (x86_reg_encoding_to_enum d.reg))
  modify (update_flags_arithmetic (sub64 dest_val src_val) dest_val src_val false)
  done (1 + len)

unfoldable pub put_carry : Bool → M ℕ
put_carry b = do modify (set_flag cf b); done 1

unfoldable pub execute_arithmetic : ℕ → M ℕ
unfolding op_rm8_r8 op_rm64_r64 op_r8_rm8 op_r64_rm64 group1_imm8 group5 cmp_rm64_r64 cmp_r64_rm64
    put_carry
execute_arithmetic rip c =
    let opcode = read_byte rip c in
    if opcode == 0x00
    then op_rm8_r8 add8 rip c
    else if opcode == 0x01
    then op_rm64_r64 add64 rip c
    else if opcode == 0x83
    then group1_imm8 rip c
    else if opcode == 0x02
    then op_r8_rm8 add8 (λ r. r) rip c
    else if opcode == 0x03
    then op_r64_rm64 add64 rip c
    else if opcode == 0x28
    then op_rm8_r8 sub8 rip c
    else if opcode == 0x29
    then op_rm64_r64 sub64 rip c
    else if opcode == 0x2A
    then op_r8_rm8 sub8 x86_reg_encoding_to_enum rip c
    else if opcode == 0x2B
    then op_r64_rm64 sub64 rip c
    else if opcode == 0xF8
    then put_carry false c
    else if opcode == 0xF9
    then put_carry true c
    else if opcode == 0xFF
    then group5 rip c
    else if opcode == 0x39
    then cmp_rm64_r64 rip c
    else if opcode == 0x3B
    then cmp_r64_rm64 rip c
    else done 1 c
