-- ===== src/Cpu/Valid/Mov.antt =====
-- MOV, PUSH and POP (src/vm/X86_instructions.cpp) keep the state well-formed.
use my_vm_os.Base.{ℕ, ◌-◌, ◌<◌, arith, sext8, add64}
use my_vm_os.Cpu.Machine.{◌>>◌, done}
use my_vm_os.Cpu.Memory.{read_byte, push}
use my_vm_os.Cpu.Mov.{
  mov_r8_imm8, mov_r64_imm, mov_r64_rm64, mov_rm64_r64, mov_rm64_imm32, execute_mov,
  execute_push_pop,
}
use my_vm_os.Cpu.Valid.{Keeps, After-if, IsPositive, Keeps-bind, Keeps-seq}
use my_vm_os.Cpu.Valid.Basic.{read_wide-Keeps, push-Keeps, pop-Keeps}
use my_vm_os.Cpu.Valid.Operand.{
  decode_modrm-Keeps, read_rm64-Keeps, write_rm64-Keeps, reg-Keeps, set_reg-Keeps, IsByte-Keeps,
  set_low8-Keeps, len-Keeps,
}

mov_r8_imm8-Keeps : (rip opcode : ℕ) → Keeps IsPositive (mov_r8_imm8 rip opcode)
unfolding mov_r8_imm8
mov_r8_imm8-Keeps rip opcode =
    Keeps-bind (IsByte-Keeps _)
      λ imm h. Keeps-seq (set_low8-Keeps _ imm h) (len-Keeps _ (omega arith))

mov_r64_imm-Keeps : (rip opcode : ℕ) → Keeps IsPositive (mov_r64_imm rip opcode)
unfolding mov_r64_imm
mov_r64_imm-Keeps rip opcode =
    Keeps-bind (read_wide-Keeps 4 _)
      λ imm h. Keeps-seq (set_reg-Keeps _ imm (omega arith)) (len-Keeps _ (omega arith))

mov_r64_rm64-Keeps : (rip : ℕ) → Keeps IsPositive (mov_r64_rm64 rip)
unfolding mov_r64_rm64
mov_r64_rm64-Keeps rip = Keeps-bind (decode_modrm-Keeps _) λ r hr.
    Keeps-bind (read_rm64-Keeps r.0)
      λ w h. Keeps-seq (set_reg-Keeps _ w h) (len-Keeps _ (omega arith))

mov_rm64_r64-Keeps : (rip : ℕ) → Keeps IsPositive (mov_rm64_r64 rip)
unfolding mov_rm64_r64
mov_rm64_r64-Keeps rip = Keeps-bind (decode_modrm-Keeps _) λ r hr.
    Keeps-bind (reg-Keeps _) λ w h. Keeps-seq (write_rm64-Keeps r.0 w h) (len-Keeps _ (omega arith))

mov_rm64_imm32-Keeps : (rip : ℕ) → Keeps IsPositive (mov_rm64_imm32 rip)
unfolding mov_rm64_imm32
mov_rm64_imm32-Keeps rip = Keeps-bind (decode_modrm-Keeps _) λ r hr.
    Keeps-bind (read_wide-Keeps 4 _)
      λ w h. Keeps-seq (write_rm64-Keeps r.0 w (omega arith)) (len-Keeps _ (omega arith))

pub execute_mov-Keeps : (rip : ℕ) → Keeps IsPositive (execute_mov rip)
unfolding execute_mov
execute_mov-Keeps rip = record {
  at = λ c v. After-if _ _ _ _ ((mov_r8_imm8-Keeps rip (read_byte rip c)).at c v) (
      After-if _ _ _ _ ((mov_r64_imm-Keeps rip (read_byte rip c)).at c v) (
        After-if _ _ _ _ ((mov_r64_rm64-Keeps rip).at c v) (
          After-if _ _ _ _ ((mov_rm64_r64-Keeps rip).at c v) (
            After-if _ _ _ _ ((mov_rm64_imm32-Keeps rip).at c v)
              ((len-Keeps 1 (omega arith)).at c v)))));
}

push_len-Keeps : (w len : ℕ) → 0 < len → Keeps IsPositive (push w >> done len)
push_len-Keeps w len h = Keeps-seq (push-Keeps w) (len-Keeps len h)

pub execute_push_pop-Keeps : (rip : ℕ) → Keeps IsPositive (execute_push_pop rip)
unfolding execute_push_pop
execute_push_pop-Keeps rip =
    let push_reg = λ (opcode : ℕ).
      Keeps-bind (reg-Keeps (opcode - 0x50)) λ w _. push_len-Keeps w 1 (omega arith) in
    let pop_reg = λ (opcode : ℕ).
      Keeps-bind pop-Keeps
        λ w h. Keeps-seq (set_reg-Keeps (opcode - 0x58) w h) (len-Keeps 1 (omega arith)) in
    let push_imm32 =
      Keeps-bind (read_wide-Keeps 4 (add64 rip 1)) λ w _. push_len-Keeps w 5 (omega arith) in
    let push_imm8 =
      Keeps-bind (IsByte-Keeps (add64 rip 1)) λ w _. push_len-Keeps (sext8 w) 2 (omega arith) in
    record {
      at = λ c v. After-if _ _ _ _ ((push_reg (read_byte rip c)).at c v) (
          After-if _ _ _ _ ((pop_reg (read_byte rip c)).at c v) (
            After-if _ _ _ _ (push_imm32.at c v)
              (After-if _ _ _ _ (push_imm8.at c v) ((len-Keeps 1 (omega arith)).at c v))));
    }
