-- ===== src/Cpu/System.antt =====
-- `execute_stack_ops`, `execute_flag_ops`, `execute_interrupt` and `execute_string_ops`
-- (src/vm/X86_other_instructions.cpp).
use my_vm_os.Base.{ℕ, ◌%◌, true, false, not, ◌==◌, if◌then◌else◌, add64, sub64}
use my_vm_os.Cpu.Reg.{X86Reg}
use my_vm_os.Cpu.Reg
use my_vm_os.Cpu.Flag.{cf, intf, df}
use my_vm_os.Cpu.State.{Cpu, get_register, set_register, get_flag, set_flag, get_rflags}
use my_vm_os.Cpu.Machine.{M, ◌>>=◌, ◌>>◌, gets, modify, done}
use my_vm_os.Cpu.Memory.{read_byte, write_byte, write_qword, push, pop}
use my_vm_os.Cpu.Interrupt.{trigger_interrupt}

unfoldable pub execute_stack_ops : ℕ → M ℕ
execute_stack_ops rip c =
    let opcode = read_byte rip c in
    let popf : M ℕ = do flags ← pop; modify (set_register Reg.rflags flags); done 1
    in let pushf : M ℕ = do flags ← gets get_rflags; push flags; done 1
      in if opcode == 0x9D then popf c else if opcode == 0x9C then pushf c else done 1 c

unfoldable pub execute_flag_ops : ℕ → M ℕ
execute_flag_ops rip c =
    let opcode = read_byte rip c in
    done 1 (
      if opcode == 0xF5
      then set_flag cf (not (get_flag cf c)) c
      else if opcode == 0xF8
      then set_flag cf false c
      else if opcode == 0xF9
      then set_flag cf true c
      else if opcode == 0xFA
      then set_flag intf false c
      else if opcode == 0xFB
      then set_flag intf true c
      else c)

unfoldable pub execute_interrupt : ℕ → M ℕ
execute_interrupt rip c =
    let opcode = read_byte rip c in
    if opcode == 0xCC
    then (trigger_interrupt 3 >> done 1) c
    else if opcode == 0xCD
    then (trigger_interrupt (read_byte (add64 rip 1) c) >> done 2) c
    else done 1 c

-- The pointer moves down if DF is set.
unfoldable pub advance : X86Reg → ℕ → Cpu → Cpu
advance r n c =
    set_register r
      (if get_flag df c then sub64 (get_register r c) n else add64 (get_register r c) n) c

-- 0xA4 MOVS and 0xAA, 0xAB STOS.
unfoldable pub execute_string_ops : ℕ → M ℕ
unfolding advance
execute_string_ops rip c =
    let opcode = read_byte rip c in
    let movs : M ℕ = do
      byte ← gets (λ c. read_byte (get_register Reg.rsi c) c)
      rdi ← gets (get_register Reg.rdi)
      modify (write_byte rdi byte)
      modify (advance Reg.rsi 1)
      modify (advance Reg.rdi 1)
      done 1
    in let stos8 : M ℕ = do
      rax ← gets (get_register Reg.rax)
      rdi ← gets (get_register Reg.rdi)
      modify (write_byte rdi (rax % 256))
      modify (advance Reg.rdi 1)
      done 1
      in let stos64 : M ℕ = do
        rdi ← gets (get_register Reg.rdi)
        rax ← gets (get_register Reg.rax)
        write_qword rdi rax
        modify (advance Reg.rdi 8)
        done 1
        in if opcode == 0xA4
          then movs c
          else if opcode == 0xAA
          then stos8 c
          else if opcode == 0xAB
          then stos64 c
          else done 1 c
