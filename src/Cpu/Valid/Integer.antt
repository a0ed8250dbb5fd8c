-- ===== src/Cpu/Valid/Integer.antt =====
-- The data and arithmetic instructions (src/vm/X86_instructions.cpp, `execute_logical` of
-- src/vm/X86_other_instructions.cpp) keep the state well-formed.
use my_vm_os.Base.{ℕ, Bool, true, false, not, ◌==◌, arith, add64, sub64, add8, sub8}
use my_vm_os.Cpu.Reg.{x86_reg_encoding_to_enum}
use my_vm_os.Cpu.Flag.{cf}
use my_vm_os.Cpu.State.{Cpu, set_flag}
use my_vm_os.Cpu.Machine.{◌>>◌, modify}
use my_vm_os.Cpu.ModRm.{ModRmDecoding, write_rm64}
use my_vm_os.Cpu.Alu.{update_flags_arithmetic}
use my_vm_os.Cpu.Arithmetic.{
  write_rm8, op_rm8_r8, op_rm64_r64, op_r8_rm8, op_r64_rm64, group1_imm8, group5, cmp_rm64_r64,
  cmp_r64_rm64, put_carry, execute_arithmetic,
}
use my_vm_os.Cpu.Valid.{
  IsValid, Keeps, After-if, Any, IsWord, IsPositive, Keeps-if, Keeps-bind, Keeps-seq, Keeps-done,
  Keeps-gets, Keeps-modify,
}
use my_vm_os.Cpu.Valid.Basic.{
  write_byte-IsValid, set_flag-IsValid, update_flags-Keeps, IsValid-if, add64-lt, sub64-lt,
}
use my_vm_os.Cpu.Valid.Operand.{
  decode_modrm-Keeps, read_rm64-Keeps, write_rm64-Keeps, set_low8-IsValid, IsByte, reg-Keeps,
  set_reg-Keeps, IsByte-Keeps, set_low8-Keeps, len-Keeps,
}

write_rm8-IsValid :
    (d : ModRmDecoding) (b : ℕ) → IsByte b → (c : Cpu) → IsValid c → IsValid (write_rm8 d b c)
unfolding write_rm8
write_rm8-IsValid d b h c v =
    IsValid-if (not d.is_memory_operand) _ _ (set_low8-IsValid _ b c h v)
      (write_byte-IsValid _ b c h v)

op_rm8_r8-Keeps :
    (op : ℕ → ℕ → ℕ) (rip : ℕ) → ((a b : ℕ) → IsByte (op a b)) → Keeps IsPositive (op_rm8_r8 op rip)
unfolding op_rm8_r8
op_rm8_r8-Keeps op rip h = Keeps-bind (decode_modrm-Keeps _) λ r hr.
    Keeps-bind {P = Any} (Keeps-gets _ (λ c v. tt)) λ a _.
      Keeps-bind {P = Any} (Keeps-gets _ (λ c v. tt)) λ b _.
        Keeps-seq (Keeps-modify (write_rm8 r.0 (op a b)) (write_rm8-IsValid r.0 (op a b) (h a b)))
          (Keeps-seq (update_flags-Keeps _ a b true) (len-Keeps _ (omega arith)))

op_rm64_r64-Keeps :
    (op : ℕ → ℕ → ℕ) (rip : ℕ)
    → ((a b : ℕ) → IsWord (op a b))
    → Keeps IsPositive (op_rm64_r64 op rip)
unfolding op_rm64_r64
op_rm64_r64-Keeps op rip h = Keeps-bind (decode_modrm-Keeps _) λ r hr.
    Keeps-bind (read_rm64-Keeps r.0) λ a _. Keeps-bind (reg-Keeps _) λ b _.
      Keeps-seq (write_rm64-Keeps r.0 (op a b) (h a b))
        (Keeps-seq (update_flags-Keeps _ a b true) (len-Keeps _ (omega arith)))

op_r8_rm8-Keeps :
    (op : ℕ → ℕ → ℕ) (cast : ℕ → ℕ) (rip : ℕ)
    → ((a b : ℕ) → IsByte (op a b))
    → Keeps IsPositive (op_r8_rm8 op cast rip)
unfolding op_r8_rm8
op_r8_rm8-Keeps op cast rip h = Keeps-bind (decode_modrm-Keeps _) λ r hr.
    Keeps-bind {P = Any} (Keeps-gets _ (λ c v. tt)) λ a _.
      Keeps-bind {P = Any} (Keeps-gets _ (λ c v. tt)) λ b _.
        Keeps-seq (set_low8-Keeps _ (op a b) (h a b))
          (Keeps-seq (update_flags-Keeps _ a b true) (len-Keeps _ (omega arith)))

op_r64_rm64-Keeps :
    (op : ℕ → ℕ → ℕ) (rip : ℕ)
    → ((a b : ℕ) → IsWord (op a b))
    → Keeps IsPositive (op_r64_rm64 op rip)
unfolding op_r64_rm64
op_r64_rm64-Keeps op rip h = Keeps-bind (decode_modrm-Keeps _) λ r hr.
    Keeps-bind (reg-Keeps _) λ a _. Keeps-bind (read_rm64-Keeps r.0) λ b _.
      Keeps-seq (set_reg-Keeps _ (op a b) (h a b))
        (Keeps-seq (update_flags-Keeps _ a b true) (len-Keeps _ (omega arith)))

-- Writing a word to the operand and setting the flags.
write_flags-Keeps :
    (d : ModRmDecoding) (w x a b : ℕ) (s : Bool)
    → IsWord w
    → Keeps Any (write_rm64 d w >> modify (update_flags_arithmetic x a b s))
write_flags-Keeps d w x a b s h = Keeps-seq (write_rm64-Keeps d w h) (update_flags-Keeps x a b s)

group1_imm8-Keeps : (rip : ℕ) → Keeps IsPositive (group1_imm8 rip)
unfolding group1_imm8
group1_imm8-Keeps rip = Keeps-bind (decode_modrm-Keeps _) λ r hr. Keeps-bind (IsByte-Keeps _) λ b _.
    Keeps-bind (read_rm64-Keeps r.0) λ a _.
      Keeps-seq
        (Keeps-if (r.0.reg == 0) (write_flags-Keeps r.0 _ _ a _ true (add64-lt a _)) (
          Keeps-if (r.0.reg == 5) (write_flags-Keeps r.0 _ _ a _ false (sub64-lt a _))
            (Keeps-if (r.0.reg == 7) (update_flags-Keeps _ a _ false) (Keeps-done tt tt))))
        (len-Keeps _ (omega arith))

group5-Keeps : (rip : ℕ) → Keeps IsPositive (group5 rip)
unfolding group5
group5-Keeps rip = Keeps-bind (decode_modrm-Keeps _) λ r hr.
    Keeps-seq
      (Keeps-if (r.0.reg == 0)
        (Keeps-bind (read_rm64-Keeps r.0) λ a _. write_flags-Keeps r.0 _ _ a 1 true (add64-lt a 1))
        (Keeps-if (r.0.reg == 1)
          (Keeps-bind (read_rm64-Keeps r.0)
            λ a _. write_flags-Keeps r.0 _ _ a 1 false (sub64-lt a 1))
          (Keeps-done tt tt)))
      (len-Keeps _ (omega arith))

cmp_rm64_r64-Keeps : (rip : ℕ) → Keeps IsPositive (cmp_rm64_r64 rip)
unfolding cmp_rm64_r64
cmp_rm64_r64-Keeps rip = Keeps-bind (decode_modrm-Keeps _) λ r hr. Keeps-bind (reg-Keeps _) λ b _.
    Keeps-bind (read_rm64-Keeps r.0)
      λ a _. Keeps-seq (update_flags-Keeps _ a b false) (len-Keeps _ (omega arith))

cmp_r64_rm64-Keeps : (rip : ℕ) → Keeps IsPositive (cmp_r64_rm64 rip)
unfolding cmp_r64_rm64
cmp_r64_rm64-Keeps rip = Keeps-bind (decode_modrm-Keeps _) λ r hr.
    Keeps-bind (read_rm64-Keeps r.0) λ b _.
      Keeps-bind (reg-Keeps _)
        λ a _. Keeps-seq (update_flags-Keeps _ a b false) (len-Keeps _ (omega arith))

put_carry-Keeps : (b : Bool) → Keeps IsPositive (put_carry b)
unfolding put_carry
put_carry-Keeps b =
    Keeps-seq (Keeps-modify (set_flag cf b) (set_flag-IsValid cf b)) (len-Keeps 1 (omega arith))

add8-lt : (a b : ℕ) → IsByte (add8 a b)
add8-lt a b = omega arith

sub8-lt : (a b : ℕ) → IsByte (sub8 a b)
sub8-lt a b = omega arith

pub execute_arithmetic-Keeps : (rip : ℕ) → Keeps IsPositive (execute_arithmetic rip)
unfolding execute_arithmetic
execute_arithmetic-Keeps rip = record {
  at = λ c v. After-if _ _ _ _ ((op_rm8_r8-Keeps add8 rip add8-lt).at c v) (
      After-if _ _ _ _ ((op_rm64_r64-Keeps add64 rip add64-lt).at c v) (
        After-if _ _ _ _ ((group1_imm8-Keeps rip).at c v) (
          After-if _ _ _ _ ((op_r8_rm8-Keeps add8 (λ r. r) rip add8-lt).at c v) (
            After-if _ _ _ _ ((op_r64_rm64-Keeps add64 rip add64-lt).at c v) (
              After-if _ _ _ _ ((op_rm8_r8-Keeps sub8 rip sub8-lt).at c v) (
                After-if _ _ _ _ ((op_rm64_r64-Keeps sub64 rip sub64-lt).at c v) (
                  After-if _ _ _ _
                    ((op_r8_rm8-Keeps sub8 x86_reg_encoding_to_enum rip sub8-lt).at c v)
                    (After-if _ _ _ _ ((op_r64_rm64-Keeps sub64 rip sub64-lt).at c v) (
                      After-if _ _ _ _ ((put_carry-Keeps false).at c v) (
                        After-if _ _ _ _ ((put_carry-Keeps true).at c v) (
                          After-if _ _ _ _ ((group5-Keeps rip).at c v) (
                            After-if _ _ _ _ ((cmp_rm64_r64-Keeps rip).at c v) (
                              After-if _ _ _ _ ((cmp_r64_rm64-Keeps rip).at c v)
                                ((len-Keeps 1 (omega arith)).at c v))))))))))))));
}
