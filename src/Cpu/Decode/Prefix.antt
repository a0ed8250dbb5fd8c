-- ===== src/Cpu/Decode/Prefix.antt =====
-- The prefix loop and the dispatch table of `decode_and_execute` (src/vm/X86_decode.cpp).
use my_vm_os.Base.{
  ℕ, zero, suc, ◌+◌, ◌<◌, ◌≤◌, ◌≡◌, refl, ap, sym, subst, ltb, if◌then◌else◌, if_cases, Option,
  none, some, inl, inr, ◌↔◌, true, false, Bool-cases, arith, add64, u64_mod,
}
use my_vm_os.Cpu.State.{Cpu}
use my_vm_os.Cpu.Memory.{read_byte}
use my_vm_os.Cpu.Decode.{
  int_max, inc_int, is_prefix, skip_prefixes, read_prefixes, call_ret, handler_of,
}

prefix-lt : (rip : ℕ) (c : Cpu) → is_prefix (read_byte rip c) ≡ true → rip < c.memory_size
unfolding is_prefix read_byte
prefix-lt rip c h = ground arith

stops :
    (fuel : ℕ) (c : Cpu) (n : Option ℕ) (rip : ℕ)
    → c.memory_size < u64_mod
    → c.memory_size < fuel + rip
    → is_prefix (read_byte (skip_prefixes fuel c n rip).1 c) ≡ false
unfolding skip_prefixes
stops zero c n rip size h = elim (Bool-cases (is_prefix (read_byte rip c))) [
  | inl e ↦ let lt = prefix-lt rip c e in let no : ⊥ = omega arith in elim no [ ]
  | inr e ↦ e
]
stops (suc fuel) c n rip size h = elim (Bool-cases (is_prefix (read_byte rip c))) [
  | inl e ↦
      let lt = prefix-lt rip c e in rw e (stops fuel c (inc_int n) (add64 rip 1) size (omega arith))
  | inr e ↦ rw e e
]

-- The prefix loop of decode_and_execute comes to its end within the given rounds: the byte where it
-- stops is no prefix, whatever a memory of less than 2^64 bytes holds.
pub read_prefixes-end :
    (c : Cpu) (rip : ℕ)
    → c.memory_size < u64_mod
    → is_prefix (read_byte (read_prefixes c rip).1 c) ≡ false
unfolding read_prefixes
read_prefixes-end c rip size = stops (c.memory_size + 1) c _ _ size (omega arith)

-- What the loop has counted, and where it is.
record Counts (start most : ℕ) (r : Option ℕ × ℕ) : Type 0 where
  count : ℕ
  result : r.0 ≡ some count
  bound : count ≤ most
  moved : r.1 ≡ add64 start count

skip_prefixes-Counts :
    (fuel : ℕ) (c : Cpu) (start n most rip : ℕ)
    → rip ≡ add64 start n
    → n + fuel ≤ most
    → most ≤ int_max
    → Counts start most (skip_prefixes fuel c (some n) rip)
unfolding skip_prefixes inc_int
skip_prefixes-Counts zero c start n most rip h le top = record {
  count = n;
  result = refl;
  bound = omega (arith, le);
  moved = h;
}
skip_prefixes-Counts (suc fuel) c start n most rip h le top =
    let below : ltb n int_max ≡ true = ground arith in
    if_cases (Counts start most) (is_prefix (read_byte rip c)) _ _
      (λ e.
        subst (λ o. Counts start most (skip_prefixes fuel c o (add64 rip 1)))
          (sym (ap (λ b. if b then some (n + 1) else none) below))
          (skip_prefixes-Counts fuel c start (n + 1) most (add64 rip 1) (omega arith) (omega arith)
            top))
      (λ e. record { count = n; result = refl; bound = omega (arith, le); moved = h })

-- In a memory of fewer than 2^31 - 2 bytes the count of the prefixes, an int, does not overflow, and
-- from a 64-bit RIP the loop moves RIP on, modulo 2^64, by exactly the bytes that it counts.
pub read_prefixes-rip :
    (c : Cpu) (rip : ℕ)
    → rip < u64_mod
    → c.memory_size + 2 ≤ int_max
    → (n : ℕ) × (((read_prefixes c rip).0 ≡ some n) × ((read_prefixes c rip).1 ≡ add64 rip n))
unfolding read_prefixes
read_prefixes-rip c rip h small =
    let r =
      skip_prefixes-Counts (c.memory_size + 1) c rip _ (c.memory_size + 2) _ (ground arith)
        (ground arith) small in
    (r.count, (r.result, r.moved))

-- Of all opcodes, exactly 0xE8 is dispatched to execute_call_ret.
pub handler_of-call_ret : (b : ℕ) → (handler_of b ≡ call_ret) ↔ (b ≡ 0xE8)
unfolding handler_of
handler_of-call_ret b = ground arith
