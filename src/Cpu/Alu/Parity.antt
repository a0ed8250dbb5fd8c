-- ===== src/Cpu/Alu/Parity.antt =====
-- The parity loop of `update_flags_arithmetic` (src/vm/X86CPU.cpp) ends within eight rounds, with the
-- number of one bits modulo 2.
use my_vm_os.Base.{
  ℕ, zero, suc, ◌+◌, ◌/◌, ◌%◌, ◌^◌, ◌≤◌, ◌<◌, ◌≡◌, refl, Bool, true, ◌&&◌, ◌==◌, ==_iff, arith,
  bit_xor,
}
use native.Mathlib.Nat.{pow-suc}
use my_vm_os.Cpu.Alu.{parity_loop, parity_of}

-- The number of one bits among the low `n` bits.
abbrev pub count_ones : ℕ → ℕ → ℕ
count_ones zero w = 0
count_ones (suc n) w = w % 2 + count_ones n (w / 2)

-- A test that every number below a bound passes.
passes_below : (bound : ℕ) (test : ℕ → Bool) → Bool
passes_below zero test = true
passes_below (suc k) test = passes_below k test && test k

passes_below_lem :
    (bound i : ℕ) (test : ℕ → Bool) → i < bound → passes_below bound test ≡ true → test i ≡ true
unfolding passes_below
passes_below_lem zero i test lt passed = absurd (omega arith)
passes_below_lem (suc k) i test lt passed = let below = passes_below_lem k i test in ground arith

parity_table : passes_below 256 (λ b. parity_of b == count_ones 8 b % 2) ≡ true
unfolding passes_below parity_of parity_loop
parity_table = refl

-- The parity that the loop of update_flags_arithmetic computes for a byte is the number of its one
-- bits modulo 2.
pub parity_of-eq-count_ones : (b : ℕ) → b < 256 → parity_of b ≡ count_ones 8 b % 2
parity_of-eq-count_ones b h = (==_iff _ _).0 (passes_below_lem 256 b _ h parity_table)

parity_loop-zero : (m p : ℕ) → parity_loop m 0 p ≡ p
unfolding parity_loop
parity_loop-zero zero p = refl
parity_loop-zero (suc m) p = refl

-- Rounds of the parity loop past the bits of the value change nothing: n rounds are enough for a
-- value below 2^n.
pub parity_loop_stable : (n m b p : ℕ) → n ≤ m → b < 2 ^ n → parity_loop m b p ≡ parity_loop n b p
unfolding parity_loop
parity_loop_stable zero m b p le h = let e : b ≡ 0 = omega arith in rw e (parity_loop-zero m p)
parity_loop_stable (suc n) zero b p le h = absurd (omega arith)
parity_loop_stable (suc n) (suc m) b p le h =
    ground (arith, pow-suc 2 n, parity_loop_stable n m (b / 2) (bit_xor p (b % 2)))
