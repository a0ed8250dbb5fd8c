-- ===== src/Cpu/Valid/Logical.antt =====
-- `execute_logical` (src/vm/X86_other_instructions.cpp) keeps the state well-formed.
use my_vm_os.Base.{ℕ, true, false, ◌==◌, arith, not64}
use my_vm_os.Cpu.Reg.{x86_reg_encoding_to_enum}
use my_vm_os.Cpu.Reg
use my_vm_os.Cpu.Logical.{test_rax_imm32, neg64, group3, execute_logical}
use my_vm_os.Cpu.Valid.{Keeps, After-if, IsWord, IsPositive, Keeps-if, Keeps-bind, Keeps-seq}
use my_vm_os.Cpu.Valid.Basic.{read_wide-Keeps, update_flags-Keeps}
use my_vm_os.Cpu.Valid.Operand.{
  decode_modrm-Keeps, read_rm64-Keeps, write_rm64-Keeps, reg-Keeps, len-Keeps,
}

test_rax_imm32-Keeps : (rip : ℕ) → Keeps IsPositive (test_rax_imm32 rip)
unfolding test_rax_imm32
test_rax_imm32-Keeps rip = Keeps-bind (read_wide-Keeps 4 _) λ b _.
    Keeps-bind (reg-Keeps Reg.rax)
      λ a _. Keeps-seq (update_flags-Keeps _ a b false) (len-Keeps 5 (omega arith))

not64-lt : (a : ℕ) → IsWord (not64 a)
not64-lt a = omega arith

neg64-lt : (a : ℕ) → IsWord (neg64 a)
unfolding neg64
neg64-lt a = omega arith

group3-Keeps : (rip : ℕ) → Keeps IsPositive (group3 rip)
unfolding group3
group3-Keeps rip = Keeps-bind (decode_modrm-Keeps _) λ r hr.
    Keeps-if (r.0.reg == 0)
      (Keeps-bind (read_wide-Keeps 8 _) λ b _.
        Keeps-bind (read_rm64-Keeps r.0)
          λ a _. Keeps-seq (update_flags-Keeps _ a b false) (len-Keeps _ (omega arith)))
      (Keeps-if (r.0.reg == 2)
        (Keeps-bind (read_rm64-Keeps r.0) λ a _.
          Keeps-seq (write_rm64-Keeps r.0 (not64 a) (not64-lt a)) (len-Keeps _ (omega arith)))
        (Keeps-if (r.0.reg == 3)
          (Keeps-bind (read_rm64-Keeps r.0) λ a _.
            Keeps-seq (update_flags-Keeps _ 0 a true)
              (Keeps-seq (write_rm64-Keeps r.0 (neg64 a) (neg64-lt a)) (len-Keeps _ (omega arith))))
          (len-Keeps 1 (omega arith))))

pub execute_logical-Keeps : (rip : ℕ) → Keeps IsPositive (execute_logical rip)
unfolding execute_logical
execute_logical-Keeps rip = record {
  at = λ c v.
      After-if _ _ _ _ ((test_rax_imm32-Keeps rip).at c v)
        (After-if _ _ _ _ ((group3-Keeps rip).at c v) ((len-Keeps 1 (omega arith)).at c v));
}
