-- ===== src/Cpu/Mov.antt =====
-- `execute_mov` and `execute_push_pop` (src/vm/X86_instructions.cpp).
pub mod PushPop
use my_vm_os.Base.{ℕ, ◌+◌, ◌-◌, ◌&&◌, ◌==◌, if◌then◌else◌, leb, add64, sext8}
use my_vm_os.Cpu.Reg.{x86_reg_encoding_to_enum}
use my_vm_os.Cpu.State.{get_register, set_register}
use my_vm_os.Cpu.Machine.{M, ◌>>=◌, ◌>>◌, gets, modify, done}
use my_vm_os.Cpu.Memory.{read_byte, read_wide, read_dword, push, pop}
use my_vm_os.Cpu.ModRm.{decode_modrm, read_rm64, write_rm64, set_low8}

-- 0xB0 to 0xB7: MOV r8, imm8.
unfoldable pub mov_r8_imm8 : ℕ → ℕ → M ℕ
mov_r8_imm8 rip opcode = do
  imm_val ← gets (read_byte (add64 rip 1))
  modify (set_low8 (x86_reg_encoding_to_enum (opcode - 0xB0)) imm_val)
  done (1 + 1)

-- 0xB8 to 0xBF: MOV r64, imm64, read as a 32-bit immediate.
unfoldable pub mov_r64_imm : ℕ → ℕ → M ℕ
mov_r64_imm rip opcode = do
  imm_val ← read_dword (add64 rip 1)
  modify (set_register (x86_reg_encoding_to_enum (opcode - 0xB8)) imm_val)
  done (1 + 4)

-- 0x8B: MOV r64, r/m64.
unfoldable pub mov_r64_rm64 : ℕ → M ℕ
mov_r64_rm64 rip = do
  (d, len) ← decode_modrm (add64 rip 1)
  src_val ← read_rm64 d
  modify (set_register (x86_reg_encoding_to_enum d.reg) src_val)
  done (1 + len)

-- 0x89: MOV r/m64, r64.
unfoldable pub mov_rm64_r64 : ℕ → M ℕ
mov_rm64_r64 rip = do
  (d, len) ← decode_modrm (add64 rip 1)
  src_val ← gets (get_register (x86_reg_encoding_to_enum d.reg))
  write_rm64 d src_val
  done (1 + len)

-- 0xC7: MOV r/m64, imm32, zero-extended.
unfoldable pub mov_rm64_imm32 : ℕ → M ℕ
mov_rm64_imm32 rip = do
  (d, len) ← decode_modrm (add64 rip 1)
  imm_val ← read_dword (add64 rip (1 + len))
  write_rm64 d imm_val
  done (1 + (len + 4))

unfoldable pub execute_mov : ℕ → M ℕ
unfolding mov_r8_imm8 mov_r64_imm mov_r64_rm64 mov_rm64_r64 mov_rm64_imm32
execute_mov rip c =
    let opcode = read_byte rip c in
    if leb 0xB0 opcode && leb opcode 0xB7
    then mov_r8_imm8 rip opcode c
    else if leb 0xB8 opcode && leb opcode 0xBF
    then mov_r64_imm rip opcode c
    else if opcode == 0x8B
    then mov_r64_rm64 rip c
    else if opcode == 0x89
    then mov_rm64_r64 rip c
    else if opcode == 0xC7
    then mov_rm64_imm32 rip c
    else done 1 c

-- The test of the second group comes after a first group that holds all of 0x50 to 0x5F, and the
-- cast takes the number of the enumeration, not the encoding.
unfoldable pub execute_push_pop : ℕ → M ℕ
execute_push_pop rip c =
    let opcode = read_byte rip c in
    let push_reg : M ℕ = do val ← gets (get_register (opcode - 0x50)); push val; done 1
    in let pop_reg : M ℕ = do val ← pop; modify (set_register (opcode - 0x58) val); done 1
      in let push_imm32 : M ℕ = do imm ← read_dword (add64 rip 1); push imm; done 5
        in let push_imm8 : M ℕ = do imm ← gets (read_byte (add64 rip 1)); push (sext8 imm); done 2
          in if leb 0x50 opcode && leb opcode 0x5F
            then push_reg c
            else if leb 0x58 opcode && leb opcode 0x5F
            then pop_reg c
            else if opcode == 0x68
            then push_imm32 c
            else if opcode == 0x6A
            then push_imm8 c
            else done 1 c
