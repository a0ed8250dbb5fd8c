-- ===== src/Cpu/Alu/Compare.antt =====
-- What the conditional jumps see after CMP (`update_flags_arithmetic` of src/vm/X86CPU.cpp called as in
-- src/vm/X86_instructions.cpp, read by `execute_branch` of src/vm/X86_other_instructions.cpp).
use my_vm_os.Base.{
  ℕ, zero, suc, ◌+◌, ◌*◌, ◌%◌, ◌/◌, ◌<◌, ◌≡◌, ap, ◌∙◌, Bool, true, false, not, ◌==◌, ltb, leb,
  if◌then◌else◌, arith, u64_mod, add64, sub64,
}
use my_vm_os.Cpu.Flag.{cf, pf, zf, sf, of, intf, df}
use my_vm_os.Cpu.State.{Cpu, get_flag}
use my_vm_os.Cpu.State.Laws.{get_flag-set_flag}
use my_vm_os.Cpu.Alu.{update_flags_arithmetic, parity_of, signed_overflow}
use my_vm_os.Cpu.Branch.{take_branch}

-- update_flags_arithmetic sets ZF, SF and PF by the result; the signed form sets OF and leaves CF,
-- the other form sets CF to the carry of the sum of the operands and clears OF; IF and DF stay.
pub flags-update :
    (result op1 op2 : ℕ) (c : Cpu) (s : Bool)
    → let c' = update_flags_arithmetic result op1 op2 s c in
      (get_flag zf c' ≡ (result == 0))
      × (get_flag sf c' ≡ (result / 0x8000_0000_0000_0000 % 2 == 1))
      × (get_flag pf c' ≡ (parity_of (result % 256) == 0))
      × (get_flag of c' ≡ (if s then signed_overflow result op1 op2 else false))
      × (get_flag cf c' ≡ (if s then get_flag cf c else ltb (add64 op1 op2) op1))
      × (get_flag intf c' ≡ get_flag intf c)
      × (get_flag df c' ≡ get_flag df c)
unfolding update_flags_arithmetic
flags-update result op1 op2 c true = (
  simp get_flag-set_flag,
  simp get_flag-set_flag,
  simp get_flag-set_flag,
  simp get_flag-set_flag,
  simp get_flag-set_flag,
  simp get_flag-set_flag,
  simp get_flag-set_flag,
)
flags-update result op1 op2 c false = (
  simp get_flag-set_flag,
  simp get_flag-set_flag,
  simp get_flag-set_flag,
  simp get_flag-set_flag,
  simp get_flag-set_flag,
  simp get_flag-set_flag,
  simp get_flag-set_flag,
)

-- The state after CMP of `a` with `b`.
abbrev pub compared : ℕ → ℕ → Cpu → Cpu
compared a b c = update_flags_arithmetic (sub64 a b) a b false c

module _ (a b : ℕ) (c : Cpu) (ha : a < u64_mod) (hb : b < u64_mod) where
  -- After the flags of a CMP of two 64-bit values, JE is taken exactly when they are equal, and JNE
  -- exactly when not.
  pub cmp_je :
      (take_branch 0x4 (compared a b c) ≡ (a == b))
      × (take_branch 0x5 (compared a b c) ≡ not (a == b))
  unfolding take_branch
  cmp_je =
      let e = (flags-update (sub64 a b) a b c false).0 in
      (e ∙ ground arith, ap not e ∙ ground arith)

  -- After the flags of a CMP of two 64-bit values, JB is taken exactly when their sum does not fit
  -- in 64 bits, and JAE exactly when it fits.
  pub cmp_jb :
      (take_branch 0x2 (compared a b c) ≡ leb u64_mod (a + b))
      × (take_branch 0x3 (compared a b c) ≡ ltb (a + b) u64_mod)
  unfolding take_branch
  cmp_jb =
      let e = (flags-update (sub64 a b) a b c false).4 in
      (e ∙ ground arith, ap not e ∙ ground arith)

  -- After the flags of a CMP of two 64-bit values, JL is taken exactly when the wrapped difference
  -- has its top bit set.
  pub cmp_jl : take_branch 0xC (compared a b c) ≡ leb 0x8000_0000_0000_0000 (sub64 a b)
  unfolding take_branch
  cmp_jl =
      let f = flags-update (sub64 a b) a b c false in
      let s = f.1 in let o = f.3 in rw (s, o) (ground arith)

-- The sixteen conditions of the conditional jumps come in pairs: an odd one holds exactly when the
-- even one before it does not.
pub take_branch_pairs :
    (k : ℕ) (c : Cpu) → k < 8 → take_branch (2 * k + 1) c ≡ not (take_branch (2 * k) c)
unfolding take_branch
take_branch_pairs zero c h = ground arith
take_branch_pairs (suc zero) c h = ground arith
take_branch_pairs (suc (suc zero)) c h = ground arith
take_branch_pairs (suc (suc (suc zero))) c h = ground arith
take_branch_pairs (suc (suc (suc (suc zero)))) c h = ground arith
take_branch_pairs (suc (suc (suc (suc (suc zero))))) c h = ground arith
take_branch_pairs (suc (suc (suc (suc (suc (suc zero)))))) c h = ground arith
take_branch_pairs (suc (suc (suc (suc (suc (suc (suc zero))))))) c h = ground arith
take_branch_pairs (suc (suc (suc (suc (suc (suc (suc (suc k)))))))) c h = absurd (omega arith)
