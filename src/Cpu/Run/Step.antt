-- ===== src/Cpu/Run/Step.antt =====
-- What `execute_instruction` (src/vm/X86CPU.cpp) does with RIP outside the basic blocks.
use my_vm_os.Base.{
  ℕ, zero, suc, ◌+◌, ◌/◌, ◌<◌, ◌≡◌, ◌≢◌, refl, ap, sym, subst, Option, none, ◌∙◌, inl, inr, some,
  true, false, ◌==◌, if◌then◌else◌, arith, add64, sext8, u64_mod, Bool-cases, ==_ne, ==_self,
  ==_iff,
}
use my_vm_os.Cpu.Reg
use my_vm_os.Cpu.State.{Cpu, get_rip, set_rip}
use my_vm_os.Cpu.State.Laws.{update_self, update_same}
use my_vm_os.Cpu.Machine.{◌>>=◌, ◌>>◌, gets, modify, done, >>=_some}
use my_vm_os.Cpu.Memory.{read_byte}
use my_vm_os.Cpu.Branch.{jump_rel8, execute_branch}
use my_vm_os.Cpu.Decode.{
  is_prefix, skip_prefixes, read_prefixes, add_int, counted, dispatch, handler_of,
  decode_and_execute,
}
use my_vm_os.Cpu.Run.{single_step}

-- The state after a single step: the counters, and RIP moved on if the instruction left it.
abbrev stepped : (old_rip len : ℕ) → Cpu → Cpu
stepped old_rip len c =
    let c' : Cpu = record c {
      total_instructions = add64 c.total_instructions 1;
      total_cycles = add64 c.total_cycles len;
    } in
    if get_rip c == old_rip then set_rip (add64 (get_rip c) len) c' else c'

single_step_lem :
    (len : ℕ) (c c1 : Cpu)
    → decode_and_execute c ≡ some (len, c1)
    → len ≢ 0
    → single_step c ≡ some (true, stepped (get_rip c) len c1)
unfolding single_step gets modify done ◌>>=◌ ◌>>◌
single_step_lem len c c1 e n = >>=_some decode_and_execute _ c e ∙ rw (==_ne len 0 n) refl

-- The counters and RIP after a single step.
single_step-rip :
    (len : ℕ) (c c1 : Cpu)
    → decode_and_execute c ≡ some (len, c1)
    → len ≢ 0
    → (c2 : Cpu) × (single_step c ≡ some (true, c2))
      × (get_rip c2 ≡ (if get_rip c1 == get_rip c then add64 (get_rip c) len else get_rip c1))
      × (c2.total_instructions ≡ add64 c1.total_instructions 1)
      × (c2.total_cycles ≡ add64 c1.total_cycles len)
unfolding set_rip
single_step-rip len c c1 e n =
    let step = single_step_lem len c c1 e n in
    elim (Bool-cases (get_rip c1 == get_rip c)) [
      | inl t ↦ (
        stepped (get_rip c) len c1,
        step,
        rw t (
            rw update_self (
              let q = ==_iff (get_rip c1) (get_rip c) in let p = q.0 t in ap (λ r. add64 r len) p)),
        rw t refl,
        rw t refl,
      )
      | inr f ↦ (stepped (get_rip c) len c1, step, rw f refl, rw f refl, rw f refl)
    ]

no_prefix :
    (fuel : ℕ) (c : Cpu) (rip : ℕ)
    → is_prefix (read_byte rip c) ≡ false
    → skip_prefixes fuel c (some 0) rip ≡ (some 0, rip)
unfolding skip_prefixes
no_prefix zero c rip h = refl
no_prefix (suc fuel) c rip h = rw h refl

unprefixed :
    (c : Cpu) (rip : ℕ)
    → is_prefix (read_byte rip c) ≡ false
    → (read_byte rip c / 16 == 4) ≡ false
    → read_prefixes c rip ≡ (some 0, rip)
unfolding read_prefixes
unprefixed c rip h k = rw (k, read_prefixes) (no_prefix (c.memory_size + 1) c rip h)

-- JMP rel8 with the displacement -2 leaves the state as it was.
jump_self :
    (c : Cpu)
    → get_rip c < u64_mod
    → read_byte (add64 (get_rip c) 1) c ≡ 0xFE
    → jump_rel8 (get_rip c) c ≡ c
unfolding jump_rel8 set_rip
jump_self c h b =
    let e : add64 (add64 (get_rip c) 2) (sext8 0xFE) ≡ get_rip c = omega arith in
    rw (b, e, update_same c.registers Reg.rip (get_rip c) refl) refl

branch-jump_self :
    (c : Cpu)
    → get_rip c < u64_mod
    → read_byte (get_rip c) c ≡ 0xEB
    → read_byte (add64 (get_rip c) 1) c ≡ 0xFE
    → execute_branch (get_rip c) c ≡ some (2, c)
unfolding execute_branch done
branch-jump_self c h a b = rw a (ap (λ d. some (2, d)) (jump_self c h b))

decode-jump_self :
    (c : Cpu)
    → get_rip c < u64_mod
    → read_byte (get_rip c) c ≡ 0xEB
    → read_byte (add64 (get_rip c) 1) c ≡ 0xFE
    → decode_and_execute c ≡ some (2, c)
unfolding decode_and_execute handler_of dispatch counted add_int execute_branch is_prefix ◌>>=◌ done
decode-jump_self c h a b =
    let r = unprefixed c (get_rip c) (rw a refl) (rw a refl) in
    let branched : (elim (some 0) [
      | none ↦ none
      | some n ↦ dispatch (handler_of (read_byte (get_rip c) c)) n (get_rip c) c
    ])
        ≡ some (2, c) =
      rw a (>>=_some (execute_branch (get_rip c)) _ c (branch-jump_self c h a b)) in
    subst
      (λ (p : Option ℕ × ℕ).
        (elim p.0 [ none ↦ none | some n ↦ dispatch (handler_of (read_byte p.1 c)) n p.1 c ])
        ≡ some (2, c))
      (sym r) branched

-- Where a jump to itself (the bytes EB FE) stands at a 64-bit RIP, execute_instruction outside the
-- blocks succeeds and RIP is two bytes past the jump.
pub single_step-jump_self :
    (c : Cpu)
    → get_rip c < u64_mod
    → read_byte (get_rip c) c ≡ 0xEB
    → read_byte (add64 (get_rip c) 1) c ≡ 0xFE
    → (c' : Cpu) × (single_step c ≡ some (true, c')) × (get_rip c' ≡ add64 (get_rip c) 2)
single_step-jump_self c h a b =
    let (c', step, rip, _, _) = single_step-rip 2 c c (decode-jump_self c h a b) (λ z. cc) in
    (c', step, rip ∙ rw (==_self (get_rip c)) refl)
