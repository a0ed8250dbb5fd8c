-- ===== src/Base/Words.antt =====
-- Machine words as native numbers, with their wrap-around written out.
use Prim.Native.Nat.{ℕ, ◌+◌, ◌-◌, ◌%◌}
use my_vm_os.Base.Tests.{ltb, if◌then◌else◌}

-- The number of values of `uint64_t`.
abbrev pub u64_mod : ℕ
u64_mod = 0x1_0000_0000_0000_0000

-- `a + b` of two `uint64_t`.
abbrev pub add64 : ℕ → ℕ → ℕ
add64 a b = (a + b) % u64_mod

-- `a - b` of two `uint64_t`, the subtrahend below `2 ^ 64`.
abbrev pub sub64 : ℕ → ℕ → ℕ
sub64 a b = (a + u64_mod - b) % u64_mod

-- `a + b` and `a - b` of two `uint8_t`, brought back to eight bits.
abbrev pub add8 : ℕ → ℕ → ℕ
add8 a b = (a + b) % 256

abbrev pub sub8 : ℕ → ℕ → ℕ
sub8 a b = (a + 256 - b) % 256

-- `~a` of a `uint64_t`.
abbrev pub not64 : ℕ → ℕ
not64 a = u64_mod - 1 - a

-- A byte read as `int8_t`, and four bytes read as `int32_t`, widened to 64 bits.
abbrev pub sext8 : ℕ → ℕ
sext8 b = if ltb b 128 then b else b + (u64_mod - 256)

abbrev pub sext32 : ℕ → ℕ
sext32 w = if ltb w 0x8000_0000 then w else w + (u64_mod - 0x1_0000_0000)
