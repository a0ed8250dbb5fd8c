-- ===== src/Cpu/ModRm.antt =====
-- The ModR/M and SIB bytes, displacements and effective addresses (src/vm/X86_decode.cpp), and the
-- access to the operand `r/m` that the instructions share.
use my_vm_os.Base.{
  ℕ, ◌+◌, ◌*◌, ◌/◌, ◌%◌, ◌^◌, Bool, true, false, not, ◌&&◌, ◌||◌, ◌==◌, if◌then◌else◌, add64, sext8,
}
use my_vm_os.Cpu.Reg.{x86_reg_encoding_to_enum}
use my_vm_os.Cpu.State.{Cpu, get_register, set_register}
use my_vm_os.Cpu.Machine.{M, ◌>>=◌, gets, modify, done}
use my_vm_os.Cpu.Memory.{read_byte, read_dword, read_qword, write_qword}

-- `struct ModRMDecoding`. `displacement_value` is the `int64_t` as its 64-bit pattern; the fields
-- `sib_byte`, read for the three fields after it only, and `memory_address`, never used, are left out.
pub record ModRmDecoding : Type 0 where
  pub mode : ℕ
  pub reg : ℕ
  pub rm : ℕ
  pub has_sib : Bool
  pub scale : ℕ
  pub index : ℕ
  pub base : ℕ
  pub has_displacement : Bool
  pub displacement_size : ℕ
  pub displacement_value : ℕ
  pub is_memory_operand : Bool

-- The fields of the ModR/M byte, and of the SIB byte where there is one, with the length so far.
unfoldable pub decode_fields : ℕ → ℕ → ModRmDecoding × ℕ
decode_fields modrm sib =
    let mode = modrm / 64 % 4 in
    let rm = modrm % 8 in
    let sib_used = not (mode == 3) && (rm == 4) in
    (
      record {
        mode = mode;
        reg = modrm / 8 % 8;
        rm = rm;
        has_sib = sib_used;
        scale = if sib_used then sib / 64 % 4 else 0;
        index = if sib_used then sib / 8 % 8 else 0;
        base = if sib_used then sib % 8 else 0;
        has_displacement = false;
        displacement_size = 0;
        displacement_value = 0;
        is_memory_operand = not (mode == 3);
      },
      if sib_used then 2 else 1,
    )

unfoldable pub displaced : ModRmDecoding → ℕ → ℕ → ModRmDecoding
displaced d size value = record d {
  has_displacement = true;
  displacement_size = size;
  displacement_value = value;
}

-- The 32-bit displacement is read as `uint32_t`, so it is not sign-extended.
unfoldable pub with_displacement : ℕ → ModRmDecoding × ℕ → M (ModRmDecoding × ℕ)
unfolding displaced
with_displacement rip (d, len) c =
    let disp32 : M (ModRmDecoding × ℕ) = do
      v ← read_dword (add64 rip len)
      done (displaced d 32 v, len + 4)
    in let disp8 : M (ModRmDecoding × ℕ) = do
      v ← gets (read_byte (add64 rip len))
      done (displaced d 8 (sext8 v), len + 1)
      in if d.mode == 0 && (d.rm == 5)
        then disp32 c
        else if d.mode == 1
        then disp8 c
        else if d.mode == 2
        then disp32 c
        else done (d, len) c

-- The decoding and `instruction_length`.
unfoldable pub decode_modrm : ℕ → M (ModRmDecoding × ℕ)
unfolding decode_fields with_displacement
decode_modrm rip = do
  modrm ← gets (read_byte rip)
  sib ← gets (read_byte (add64 rip 1))
  with_displacement rip (decode_fields modrm sib)

unfoldable pub base_register : ModRmDecoding → Cpu → ℕ
base_register d c =
    if not (d.base == 5) || not (d.mode == 0)
    then get_register (x86_reg_encoding_to_enum d.base) c
    else 0

unfoldable pub index_register : ModRmDecoding → Cpu → ℕ
index_register d c = if d.index == 4 then 0 else get_register (x86_reg_encoding_to_enum d.index) c

unfoldable pub scale_factor : ModRmDecoding → ℕ
scale_factor d = if d.index == 4 then 1 else 2 ^ d.scale

unfoldable pub displacement : ModRmDecoding → ℕ
displacement d = if d.has_displacement then d.displacement_value else 0

-- The second parameter of the source, `rip`, is not used there. A SIB operand with base 5 and mode 0
-- has no base, and no displacement is read for it.
unfoldable pub calculate_effective_address : ModRmDecoding → Cpu → ℕ
unfolding base_register index_register scale_factor displacement
calculate_effective_address d c =
    if not d.is_memory_operand
    then 0
    else if d.has_sib
    then add64 (add64 (base_register d c) (index_register d c * scale_factor d)) (displacement d)
    else if (d.rm == 5) && (d.mode == 0)
    then d.displacement_value
    else add64 (get_register (x86_reg_encoding_to_enum d.rm) c) (displacement d)

-- The 64-bit operand `r/m`: the register `rm`, or the memory at the effective address.
unfoldable pub read_rm64 : ModRmDecoding → M ℕ
read_rm64 d c =
    if not d.is_memory_operand
    then done (get_register (x86_reg_encoding_to_enum d.rm) c) c
    else read_qword (calculate_effective_address d c) c

unfoldable pub write_rm64 : ModRmDecoding → ℕ → M (Unit {0})
write_rm64 d v c =
    if not d.is_memory_operand
    then modify (set_register (x86_reg_encoding_to_enum d.rm) v) c
    else write_qword (calculate_effective_address d c) v c

-- `static_cast<uint8_t>` of a register, and `(old & ~0xFF) | result` put back.
unfoldable pub low8 : ℕ → Cpu → ℕ
low8 r c = get_register r c % 256

unfoldable pub set_low8 : ℕ → ℕ → Cpu → Cpu
set_low8 r v c = let old = get_register r c in set_register r (old / 256 * 256 + v) c
