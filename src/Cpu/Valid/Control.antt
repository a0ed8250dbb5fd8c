-- ===== src/Cpu/Valid/Control.antt =====
-- Jumps, calls, flags, interrupts and string instructions (src/vm/X86_other_instructions.cpp) keep the
-- state well-formed.
use my_vm_os.Base.{
  ℕ, ◌+◌, ◌%◌, ◌<◌, Bool, true, false, not, ◌==◌, ltb, if◌then◌else◌, arith, add64, sub64, sext32,
  Bool-cases, inl, inr,
}
use my_vm_os.Cpu.Reg
use my_vm_os.Cpu.Flag.{Flag, cf, intf, df}
use my_vm_os.Cpu.State.{
  Cpu, X86VmState, running, waiting_interrupt, get_register, get_flag, set_flag, get_rip, set_rip,
  get_rflags,
}
use my_vm_os.Cpu.Machine.{gets, modify, done}
use my_vm_os.Cpu.Memory.{read_byte, write_byte}
use my_vm_os.Cpu.Interrupt.{set_state, trigger_interrupt, trigger_syscall, handle_interrupt}
use my_vm_os.Cpu.Branch.{jump_rel8, take_branch, execute_branch, call_group, execute_call_ret}
use my_vm_os.Cpu.System.{
  execute_stack_ops, execute_flag_ops, execute_interrupt, advance, execute_string_ops,
}
use my_vm_os.Cpu.Valid.{
  IsValid, IsLive, Keeps, After, After-if, Any, IsWord, IsPositive, Keeps-if, Keeps-bind, Keeps-seq,
  Keeps-done, Keeps-gets, Keeps-modify,
}
use my_vm_os.Cpu.Valid.Basic.{
  read_wide-Keeps, write_wide-Keeps, read_byte-lt, write_byte-IsValid, set_register-IsValid,
  set_rip-IsValid, set_flag-IsValid, update_flags-Keeps, push-Keeps, pop-Keeps, IsValid-if,
  add64-lt, sub64-lt,
}
use my_vm_os.Cpu.Valid.Operand.{
  IsByte, decode_modrm-Keeps, read_rm64-Keeps, write_rm64-Keeps, reg-Keeps, set_reg-Keeps,
  len-Keeps,
}

pub rip-Keeps : Keeps IsWord (gets get_rip)
rip-Keeps = Keeps-gets get_rip (λ c v. v.words Reg.rip)

pub rflags-Keeps : Keeps IsWord (gets get_rflags)
rflags-Keeps = Keeps-gets get_rflags (λ c v. v.words Reg.rflags)

pub set_rip-Keeps : (w : ℕ) → IsWord w → Keeps Any (modify (set_rip w))
set_rip-Keeps w h = Keeps-modify (set_rip w) λ c v. set_rip-IsValid w c h v

set_flag-Keeps : (f : Flag) (b : Bool) → Keeps Any (modify (set_flag f b))
set_flag-Keeps f b = Keeps-modify (set_flag f b) (set_flag-IsValid f b)

set_state-IsValid : (s : X86VmState) → IsLive s → (c : Cpu) → IsValid c → IsValid (set_state s c)
unfolding set_state
set_state-IsValid s h c v = record {
  words = v.words;
  bytes = v.bytes;
  size = v.size;
  vector = v.vector;
  entry = v.entry;
  stack = v.stack;
  instructions = v.instructions;
  cycles = v.cycles;
  live = λ _. h;
}

set_state-Keeps : (s : X86VmState) → IsLive s → Keeps Any (modify (set_state s))
set_state-Keeps s h = Keeps-modify (set_state s) (set_state-IsValid s h)

pub trigger_interrupt-Keeps : (vector : ℕ) → Keeps Any (trigger_interrupt vector)
unfolding trigger_interrupt
trigger_interrupt-Keeps vector = Keeps-bind rflags-Keeps λ flags _. Keeps-seq (push-Keeps flags) (
    Keeps-bind rip-Keeps λ rip _. Keeps-seq (push-Keeps rip) (
      Keeps-bind (read_wide-Keeps 8 _) λ handler h.
        Keeps-seq (set_rip-Keeps handler h)
          (Keeps-seq (set_flag-Keeps intf false) (set_state-Keeps waiting_interrupt tt))))

IsWord-if : (t : Bool) (a b : ℕ) → IsWord a → IsWord b → IsWord (if t then a else b)
IsWord-if true a b ha hb = ha
IsWord-if false a b ha hb = hb

pub trigger_syscall-Keeps : (num : ℕ) → Keeps Any (trigger_syscall num)
unfolding trigger_syscall
trigger_syscall-Keeps num = Keeps-bind (reg-Keeps Reg.rcx) λ a _. Keeps-seq (push-Keeps a) (
    Keeps-bind (reg-Keeps Reg.r11) λ b _. Keeps-seq (push-Keeps b) (
      Keeps-bind rip-Keeps λ ret_rip hr. Keeps-seq (set_state-Keeps waiting_interrupt tt) (
        Keeps-bind (read_wide-Keeps 8 _) λ handler h.
          Keeps-seq (set_rip-Keeps _ (IsWord-if (handler == 0) ret_rip handler hr h))
            (set_flag-Keeps intf false))))

pub handle_interrupt-Keeps : (value : ℕ) → Keeps Any (handle_interrupt value)
unfolding handle_interrupt
handle_interrupt-Keeps value =
    let restore = λ (h : IsWord value). Keeps-seq (set_reg-Keeps Reg.rax value h) (
      Keeps-bind pop-Keeps λ rip hr. Keeps-bind pop-Keeps λ flags hf.
        Keeps-seq (set_rip-Keeps rip hr)
          (Keeps-seq (set_reg-Keeps Reg.rflags flags hf) (set_state-Keeps running tt))) in
    elim (Bool-cases (ltb value 0x8000_0000)) [
      | inl e ↦ record { at = λ c v. rw e ((restore (ground arith)).at c v) }
      | inr e ↦ record { at = λ c v. rw e ((Keeps-done {Q = Any} tt tt).at c v) }
    ]

jump_rel8-IsValid : (rip : ℕ) (c : Cpu) → IsValid c → IsValid (jump_rel8 rip c)
unfolding jump_rel8
jump_rel8-IsValid rip c v = set_rip-IsValid _ c (add64-lt _ _) v

pub execute_branch-Keeps : (rip : ℕ) → Keeps IsPositive (execute_branch rip)
unfolding execute_branch
execute_branch-Keeps rip =
    let jmp_rel32 = Keeps-bind (read_wide-Keeps 4 (add64 rip 1)) λ w _.
      Keeps-seq (set_rip-Keeps (add64 (add64 rip 5) (sext32 w)) (add64-lt _ _))
        (len-Keeps 5 (omega arith)) in
    let two = len-Keeps 2 (omega arith) in
    let jump = jump_rel8-IsValid rip in
    let jump_if : (t : Cpu → Bool) (c : Cpu)
        → IsValid c
        → After IsPositive (done 2 (if t c then jump_rel8 rip c else c)) =
      λ t c v.
        two.at (if t c then jump_rel8 rip c else c)
          (IsValid-if (t c) (jump_rel8 rip c) c (jump c v) v) in
    record {
      at = λ c v. After-if _ _ _ _ (two.at (jump_rel8 rip c) (jump c v)) (
          After-if _ _ _ _ (jmp_rel32.at c v) (
            After-if _ _ _ _ (jump_if (take_branch (read_byte rip c % 16)) c v) (
              After-if _ _ _ _ (jump_if (λ c. get_register Reg.rcx c % 0x1_0000_0000 == 0) c v)
                ((len-Keeps 1 (omega arith)).at c v))));
    }

call_group-Keeps : (rip : ℕ) → Keeps IsPositive (call_group rip)
unfolding call_group
call_group-Keeps rip = Keeps-bind (decode_modrm-Keeps _) λ r hr.
    let len = len-Keeps (2 + r.1) (omega arith) in
    Keeps-if (r.0.reg == 2)
      (Keeps-bind (read_rm64-Keeps r.0) λ target h.
        Keeps-bind rip-Keeps
          λ here _. Keeps-seq (push-Keeps _) (Keeps-seq (set_rip-Keeps target h) len))
      (Keeps-if (r.0.reg == 1)
        (Keeps-bind (read_rm64-Keeps r.0) λ a _.
          Keeps-seq (write_rm64-Keeps r.0 (sub64 a 1) (sub64-lt a 1))
            (Keeps-seq (update_flags-Keeps _ a 1 true) len))
        (Keeps-if (r.0.reg == 4)
          (Keeps-bind (read_rm64-Keeps r.0) λ target h. Keeps-seq (set_rip-Keeps target h) len)
          (Keeps-if (r.0.reg == 6)
            (Keeps-bind (read_rm64-Keeps r.0) λ w _. Keeps-seq (push-Keeps w) len)
            (len-Keeps 1 (omega arith)))))

pub execute_call_ret-Keeps : (rip : ℕ) → Keeps IsPositive (execute_call_ret rip)
unfolding execute_call_ret
execute_call_ret-Keeps rip =
    let ret =
      Keeps-bind pop-Keeps λ w h. Keeps-seq (set_rip-Keeps w h) (len-Keeps 1 (omega arith)) in
    let call_rel32 = Keeps-bind (read_wide-Keeps 4 (add64 rip 1)) λ w _.
      Keeps-seq (push-Keeps (add64 rip 5)) (
        Keeps-seq (set_rip-Keeps (add64 (add64 rip 5) (sext32 w)) (add64-lt _ _))
          (len-Keeps 5 (omega arith))) in
    record {
      at = λ c v. After-if _ _ _ _ (ret.at c v) (
          After-if _ _ _ _ (call_rel32.at c v) (
            After-if _ _ _ _ ((call_group-Keeps rip).at c v) ((len-Keeps 1 (omega arith)).at c v)));
    }

pub execute_stack_ops-Keeps : (rip : ℕ) → Keeps IsPositive (execute_stack_ops rip)
unfolding execute_stack_ops
execute_stack_ops-Keeps rip =
    let len = len-Keeps 1 (omega arith) in
    let popf = Keeps-bind pop-Keeps λ w h. Keeps-seq (set_reg-Keeps Reg.rflags w h) len in
    let pushf = Keeps-bind rflags-Keeps λ w _. Keeps-seq (push-Keeps w) len in
    record {
      at = λ c v. After-if _ _ _ _ (popf.at c v) (After-if _ _ _ _ (pushf.at c v) (len.at c v));
    }

pub execute_flag_ops-Keeps : (rip : ℕ) → Keeps IsPositive (execute_flag_ops rip)
unfolding execute_flag_ops
execute_flag_ops-Keeps rip = record {
  at = λ c v.
      let on : ℕ → Flag → Bool → Cpu → Cpu =
        λ n f b d. if read_byte rip c == n then set_flag f b c else d in
      let keeps : (n : ℕ) (f : Flag) (b : Bool) (d : Cpu) → IsValid d → IsValid (on n f b d) =
        λ n f b d h.
          IsValid-if (read_byte rip c == n) (set_flag f b c) d (set_flag-IsValid f b c v) h in
      let sti = on 0xFB intf true c in
      let cli = on 0xFA intf false sti in
      let stc = on 0xF9 cf true cli in
      let clc = on 0xF8 cf false stc in
      (len-Keeps 1 (omega arith)).at (on 0xF5 cf (not (get_flag cf c)) clc) (
        keeps 0xF5 cf (not (get_flag cf c)) clc (
          keeps 0xF8 cf false stc
            (keeps 0xF9 cf true cli (keeps 0xFA intf false sti (keeps 0xFB intf true c v)))));
}

pub execute_interrupt-Keeps : (rip : ℕ) → Keeps IsPositive (execute_interrupt rip)
unfolding execute_interrupt
execute_interrupt-Keeps rip =
    let int = λ (vector len : ℕ) (h : 0 < len).
      Keeps-seq (trigger_interrupt-Keeps vector) (len-Keeps len h) in
    record {
      at = λ c v. After-if _ _ _ _ ((int 3 1 (omega arith)).at c v) (
          After-if _ _ _ _ ((int (read_byte (add64 rip 1) c) 2 (omega arith)).at c v)
            ((len-Keeps 1 (omega arith)).at c v));
    }

advance-Keeps : (r n : ℕ) → Keeps Any (modify (advance r n))
unfolding advance
advance-Keeps r n = Keeps-modify _ λ c v.
    set_register-IsValid r _ c (IsWord-if (get_flag df c) _ _ (sub64-lt _ _) (add64-lt _ _)) v

write_byte-Keeps : (addr b : ℕ) → IsByte b → Keeps Any (modify (write_byte addr b))
write_byte-Keeps addr b h = Keeps-modify (write_byte addr b) λ c v. write_byte-IsValid addr b c h v

pub execute_string_ops-Keeps : (rip : ℕ) → Keeps IsPositive (execute_string_ops rip)
unfolding execute_string_ops
execute_string_ops-Keeps rip =
    let len = len-Keeps 1 (omega arith) in
    let movs =
      Keeps-bind {P = IsByte}
        (Keeps-gets (λ c. read_byte (get_register Reg.rsi c) c) (λ c v. read_byte-lt _ c v))
        λ b h. Keeps-bind (reg-Keeps Reg.rdi) λ rdi _.
          Keeps-seq (write_byte-Keeps rdi b h)
            (Keeps-seq (advance-Keeps Reg.rsi 1) (Keeps-seq (advance-Keeps Reg.rdi 1) len)) in
    let stos8 = Keeps-bind (reg-Keeps Reg.rax) λ rax _. Keeps-bind (reg-Keeps Reg.rdi) λ rdi _.
      Keeps-seq (write_byte-Keeps rdi (rax % 256) (omega arith))
        (Keeps-seq (advance-Keeps Reg.rdi 1) len) in
    let stos64 = Keeps-bind (reg-Keeps Reg.rdi) λ rdi _.
      Keeps-bind (reg-Keeps Reg.rax)
        λ rax _. Keeps-seq (write_wide-Keeps 8 rdi rax) (Keeps-seq (advance-Keeps Reg.rdi 8) len) in
    record {
      at = λ c v.
          After-if _ _ _ _ (movs.at c v)
            (After-if _ _ _ _ (stos8.at c v) (After-if _ _ _ _ (stos64.at c v) (len.at c v)));
    }
