-- ===== src/Cpu/Alu.antt =====
-- The flags that arithmetic sets, and the read-modify-write forms that `execute_arithmetic`
-- (src/vm/X86_instructions.cpp) is made of.
pub mod Parity
pub mod Compare
use my_vm_os.Base.{
  ℕ, zero, suc, ◌/◌, ◌%◌, Bool, true, false, not, ◌==◌, ltb, if◌then◌else◌, add64, not64, bit_and,
  bit_xor,
}
use my_vm_os.Cpu.Flag.{cf, pf, zf, sf, of}
use my_vm_os.Cpu.State.{Cpu, set_flag}

-- `parity ^= low_byte & 1; low_byte >>= 1` until the byte is 0, at most `fuel` times.
unfoldable pub parity_loop : ℕ → ℕ → ℕ → ℕ
parity_loop zero low_byte parity = parity
parity_loop (suc fuel) low_byte parity =
    let rest = parity_loop fuel (low_byte / 2) (bit_xor parity (low_byte % 2)) in
    if low_byte == 0 then parity else rest

-- A byte is 0 after eight shifts.
unfoldable pub parity_of : ℕ → ℕ
parity_of low_byte = parity_loop 8 low_byte 0

-- `((op1 ^ result) & ~(op1 ^ op2)) >> 63`
unfoldable pub signed_overflow : ℕ → ℕ → ℕ → Bool
signed_overflow result op1 op2 =
    not (bit_and (bit_xor op1 result) (not64 (bit_xor op1 op2)) / 0x8000_0000_0000_0000 == 0)

unfoldable pub overflow_flags : ℕ → ℕ → ℕ → Bool → Cpu → Cpu
overflow_flags result op1 op2 true c = set_flag of (signed_overflow result op1 op2) c
overflow_flags result op1 op2 false c = set_flag of false (set_flag cf (ltb (add64 op1 op2) op1) c)

unfoldable pub update_flags_arithmetic : ℕ → ℕ → ℕ → Bool → Cpu → Cpu
unfolding overflow_flags
update_flags_arithmetic result op1 op2 is_signed c = set_flag pf (parity_of (result % 256) == 0) (
    overflow_flags result op1 op2 is_signed
      (set_flag sf (result / 0x8000_0000_0000_0000 % 2 == 1) (set_flag zf (result == 0) c)))
