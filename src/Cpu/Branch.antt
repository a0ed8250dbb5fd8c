-- ===== src/Cpu/Branch.antt =====
-- `execute_branch` and `execute_call_ret` (src/vm/X86_other_instructions.cpp).
use my_vm_os.Base.{
  ℕ, ◌+◌, ◌%◌, Bool, true, false, not, ◌&&◌, ◌||◌, List, [], ◌∷◌, ◌==◌, leb, same, if◌then◌else◌,
  get_or, add64, sub64, sext8, sext32,
}
use my_vm_os.Cpu.Reg.{x86_reg_encoding_to_enum}
use my_vm_os.Cpu.Reg
use my_vm_os.Cpu.Flag.{cf, pf, zf, sf, of}
use my_vm_os.Cpu.State.{Cpu, get_register, get_flag, get_rip, set_rip}
use my_vm_os.Cpu.Machine.{M, ◌>>=◌, ◌>>◌, gets, modify, done}
use my_vm_os.Cpu.Memory.{read_byte, read_dword, push, pop}
use my_vm_os.Cpu.ModRm.{decode_modrm, read_rm64, write_rm64}
use my_vm_os.Cpu.Alu.{update_flags_arithmetic}

-- The sixteen conditions, in the order of the low four bits of the opcode.
unfoldable pub conditions : (carry zero sign overflow parity : Bool) → List Bool
conditions carry zero sign overflow parity =
    overflow
    ∷ not overflow
    ∷ carry
    ∷ not carry
    ∷ zero
    ∷ not zero
    ∷ (carry || zero)
    ∷ not (carry || zero)
    ∷ sign
    ∷ not sign
    ∷ parity
    ∷ not parity
    ∷ not (same sign overflow)
    ∷ same sign overflow
    ∷ (zero || not (same sign overflow))
    ∷ (not zero && same sign overflow)
    ∷ []

unfoldable pub take_branch : ℕ → Cpu → Bool
unfolding conditions
take_branch condition c =
    get_or
      (conditions (get_flag cf c) (get_flag zf c) (get_flag sf c) (get_flag of c) (get_flag pf c))
      condition false

-- `set_rip(rip + 2 + offset)` for a signed byte at `rip + 1`.
unfoldable pub jump_rel8 : ℕ → Cpu → Cpu
jump_rel8 rip c = set_rip (add64 (add64 rip 2) (sext8 (read_byte (add64 rip 1) c))) c

unfoldable pub execute_branch : ℕ → M ℕ
unfolding jump_rel8
execute_branch rip c =
    let opcode = read_byte rip c in
    let jmp_rel32 : M ℕ = do
      offset ← read_dword (add64 rip 1)
      modify (set_rip (add64 (add64 rip 5) (sext32 offset)))
      done 5
    in if opcode == 0xEB
      then done 2 (jump_rel8 rip c)
      else if opcode == 0xE9
      then jmp_rel32 c
      else if leb 0x70 opcode && leb opcode 0x7F
      then done 2 (if take_branch (opcode % 16) c then jump_rel8 rip c else c)
      else if opcode == 0xE3
      then done 2 (if get_register Reg.rcx c % 0x1_0000_0000 == 0 then jump_rel8 rip c else c)
      else done 1 c

-- 0xFF in `execute_call_ret`: CALL, DEC, JMP and PUSH r/m64, and 1 for any other `reg`.
unfoldable pub call_group : ℕ → M ℕ
call_group rip = do
  (d, len) ← decode_modrm (add64 rip 1)
  let call : M ℕ = do
    target_addr ← read_rm64 d
    here ← gets get_rip
    push (add64 here (2 + len))
    modify (set_rip target_addr)
    done (2 + len)
  let dec : M ℕ = do
    dest_val ← read_rm64 d
    write_rm64 d (sub64 dest_val 1)
    modify (update_flags_arithmetic (sub64 dest_val 1) dest_val 1 true)
    done (2 + len)
  let jmp : M ℕ = do target_addr ← read_rm64 d; modify (set_rip target_addr); done (2 + len)
  let push_rm : M ℕ = do src_val ← read_rm64 d; push src_val; done (2 + len)
  if d.reg == 2
      then call
      else if d.reg == 1
      then dec
      else if d.reg == 4
      then jmp
      else if d.reg == 6
      then push_rm
      else done 1

unfoldable pub execute_call_ret : ℕ → M ℕ
unfolding call_group
execute_call_ret rip c =
    let opcode = read_byte rip c in
    let ret : M ℕ = do ret_addr ← pop; modify (set_rip ret_addr); done 1
    in let call_rel32 : M ℕ = do
      offset ← read_dword (add64 rip 1)
      push (add64 rip 5)
      modify (set_rip (add64 (add64 rip 5) (sext32 offset)))
      done 5
      in if opcode == 0xC3
        then ret c
        else if opcode == 0xE8
        then call_rel32 c
        else if opcode == 0xFF
        then call_group rip c
        else done 1 c
