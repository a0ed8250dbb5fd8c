-- ===== src/Cpu/Interrupt/RoundTrip.antt =====
-- What `handle_interrupt` restores after `trigger_interrupt` and after `trigger_syscall`
-- (src/vm/X86CPU.cpp).
use my_vm_os.Base.{
  ℕ, ◌+◌, ◌-◌, ◌*◌, ◌<◌, ◌≤◌, ◌≡◌, refl, ◌∙◌, inr, some, false, lt→ltb, ◌==◌, if◌then◌else◌, arith,
  u64_mod,
}
use my_vm_os.Cpu.Reg
use my_vm_os.Cpu.Flag.{intf}
use my_vm_os.Cpu.State.{
  Cpu, running, waiting_interrupt, update, get_register, set_register, get_rip, set_rip, get_rsp,
  get_rflags, set_flag,
}
use my_vm_os.Cpu.Machine.{◌>>=◌, ◌>>◌, done, modify, gets, >>=_some}
use my_vm_os.Cpu.Memory.{load, push, pop, read_wide}
use my_vm_os.Cpu.Memory.Bytes.{load-store, load-store_disjoint}
use my_vm_os.Cpu.Memory.Stack.{HasRoom, pushed, push_lem, pop_top, read_wide_lem}
use my_vm_os.Cpu.Interrupt.{trigger_interrupt, trigger_syscall, handle_interrupt}

-- The state after a return from an interrupt: RAX, the two pops, RIP and RFLAGS.
abbrev resumed : (return_value ret_rip ret_rflags : ℕ) → Cpu → Cpu
resumed v x y c = record c {
  registers =
      update
        (update
          (update (update (update c.registers Reg.rax v) Reg.rsp (get_rsp c + 8)) Reg.rsp
            (get_rsp c + 16))
          Reg.rip x)
        Reg.rflags y;
  state = running;
}

-- `handle_interrupt` on a stack that holds the two saved words.
handle_interrupt_lem :
    (v x y : ℕ) (c : Cpu)
    → v < 0x8000_0000
    → get_rsp c + 16 ≤ c.memory_size
    → c.memory_size < u64_mod
    → load 8 c.physical_memory (get_rsp c) ≡ x
    → load 8 c.physical_memory (get_rsp c + 8) ≡ y
    → handle_interrupt v c ≡ some (tt, resumed v x y c)
unfolding handle_interrupt set_register set_rip update ◌>>=◌ ◌>>◌ gets modify done
handle_interrupt_lem v x y c hv room size hx hy =
    let c1 : Cpu = record c { registers = update c.registers Reg.rax v } in
    let c2 : Cpu = record c1 { registers = update c1.registers Reg.rsp (get_rsp c + 8) } in
    let e : get_rsp c + 8 + 8 ≡ get_rsp c + 16 = omega arith in
    rw (lt→ltb _ _ hv) (
      >>=_some pop _ c1 (pop_top x c1 (omega arith) size hx)
      ∙ >>=_some pop _ c2 (pop_top y c2 (omega arith) size hy)
      ∙ rw e)

-- Two words on the stack, one after the other.
abbrev saved : (first second : ℕ) → Cpu → Cpu
saved a b c = pushed b (pushed a c)

-- They are read back from where the stack pointer now stands.
saved_words :
    (a b : ℕ) (c : Cpu)
    → HasRoom 16 c
    → a < u64_mod
    → b < u64_mod
    → let s = saved a b c in
      (load 8 s.physical_memory (get_rsp s) ≡ b) × (load 8 s.physical_memory (get_rsp s + 8) ≡ a)
unfolding update
saved_words a b c h ha hb =
    let e : get_rsp c - 8 - 8 + 8 ≡ get_rsp c - 8 = omega arith in
    (
      load-store 8 _ (get_rsp c - 8 - 8) b hb,
      rw e (
          load-store_disjoint 8 8 _ (get_rsp c - 8) (get_rsp c - 8 - 8) b (inr (omega arith))
          ∙ load-store 8 _ (get_rsp c - 8) a ha),
    )

-- The state in which the handler starts: `handler` is its address.
abbrev entered : (handler : ℕ) → Cpu → Cpu
entered handler c = record (set_flag intf false (set_rip handler c)) { state = waiting_interrupt }

trigger_interrupt_lem :
    (vector : ℕ) (c : Cpu)
    → HasRoom 16 c
    → vector * 8 + 8 ≤ c.memory_size
    → let s = saved (get_rflags c) (get_rip c) c in
      trigger_interrupt vector c ≡ some (tt, entered (load 8 s.physical_memory (0 + vector * 8)) s)
unfolding trigger_interrupt set_rip set_flag set_register update ◌>>=◌ ◌>>◌ gets modify done
trigger_interrupt_lem vector c room table =
    let s1 = pushed (get_rflags c) c in
    let s = pushed (get_rip c) s1 in
    >>=_some (push (get_rflags c)) _ c (push_lem (get_rflags c) (omega arith))
    ∙ >>=_some (push (get_rip c)) _ s1 (push_lem (get_rip c) {c = s1} (omega arith))
    ∙ >>=_some (read_wide 8 (0 + vector * 8)) _ s (read_wide_lem 8 (0 + vector * 8) s (omega arith))

trigger_syscall_lem :
    (num : ℕ) (c : Cpu)
    → HasRoom 16 c
    → 0x80 * 8 + 8 ≤ c.memory_size
    → let s = saved (get_register Reg.rcx c) (get_register Reg.r11 c) c in
      let h = load 8 s.physical_memory (0x80 * 8) in
      trigger_syscall num c ≡ some (tt, entered (if h == 0 then get_rip c else h) s)
unfolding trigger_syscall get_register set_rip set_flag set_register update ◌>>=◌ ◌>>◌ gets modify
    done
trigger_syscall_lem num c room table =
    let a = get_register Reg.rcx c in
    let b = get_register Reg.r11 c in
    let s1 = pushed a c in
    let s : Cpu = record (pushed b s1) { state = waiting_interrupt } in
    >>=_some (push a) _ c (push_lem a (omega arith))
    ∙ >>=_some (push b) _ s1 (push_lem b {c = s1} (omega arith))
    ∙ >>=_some (read_wide 8 (0x80 * 8)) _ s (read_wide_lem 8 (0x80 * 8) s (omega arith))

-- The registers with which a program goes on after an interrupt.
pub record Restored (rip rflags rsp return_value : ℕ) (c : Cpu) : Type 0 where
  pub rip_is : get_rip c ≡ rip
  pub rflags_is : get_rflags c ≡ rflags
  pub rsp_is : get_rsp c ≡ rsp
  pub rax_is : get_register Reg.rax c ≡ return_value
  pub runs_again : c.state ≡ running

resume_saved :
    (a b handler v : ℕ) (c : Cpu)
    → HasRoom 16 c
    → c.memory_size < u64_mod
    → v < 0x8000_0000
    → a < u64_mod
    → b < u64_mod
    → (c' : Cpu) × (handle_interrupt v (entered handler (saved a b c)) ≡ some (tt, c'))
      × Restored b a (get_rsp c) v c'
unfolding set_rip set_flag set_register get_register update
resume_saved a b handler v c room size hv ha hb =
    let s = entered handler (saved a b c) in
    let words = saved_words a b c room ha hb in
    (
      resumed v b a s,
      handle_interrupt_lem v b a s hv (omega arith) size words.0 words.1,
      record {
        rip_is = refl;
        rflags_is = refl;
        rsp_is = omega arith;
        rax_is = refl;
        runs_again = refl;
      },
    )

module _ (c : Cpu) (room : HasRoom 16 c) (size : c.memory_size < u64_mod) (v : ℕ)
    (hv : v < 0x8000_0000) where
  -- On a machine whose RIP and RFLAGS are 64-bit words, trigger_interrupt and then handle_interrupt
  -- with a result that is not negative, with room for two words on a stack inside the memory and the
  -- vector's entry in memory, succeed and restore RIP, RFLAGS and RSP; RAX holds the result and the
  -- machine runs.
  pub handle-trigger_interrupt :
      (vector : ℕ)
      → vector * 8 + 8 ≤ c.memory_size
      → get_rip c < u64_mod
      → get_rflags c < u64_mod
      → (c' : Cpu) × ((trigger_interrupt vector >> handle_interrupt v) c ≡ some (tt, c'))
        × Restored (get_rip c) (get_rflags c) (get_rsp c) v c'
  unfolding ◌>>◌
  handle-trigger_interrupt vector table hip hfl =
      let (c', run, r) = resume_saved (get_rflags c) (get_rip c) _ v c room size hv hfl hip in
      (
        c',
        >>=_some (trigger_interrupt vector) _ c (trigger_interrupt_lem vector c room table) ∙ run,
        r,
      )

  -- On a machine whose RCX and R11 are 64-bit words, trigger_syscall and then handle_interrupt with
  -- a result that is not negative, with room for two words on the stack and the entry 0x80 in
  -- memory, succeed, but the program goes on at the address in R11 with the flags in RCX.
  pub handle-trigger_syscall :
      (num : ℕ)
      → 0x80 * 8 + 8 ≤ c.memory_size
      → get_register Reg.rcx c < u64_mod
      → get_register Reg.r11 c < u64_mod
      → (c' : Cpu) × ((trigger_syscall num >> handle_interrupt v) c ≡ some (tt, c'))
        × Restored (get_register Reg.r11 c) (get_register Reg.rcx c) (get_rsp c) v c'
  unfolding ◌>>◌
  handle-trigger_syscall num table hcx h11 =
      let (c', run, r) =
        resume_saved (get_register Reg.rcx c) (get_register Reg.r11 c) _ v c room size hv hcx h11 in
      (c', >>=_some (trigger_syscall num) _ c (trigger_syscall_lem num c room table) ∙ run, r)
