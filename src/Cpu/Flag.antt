-- ===== src/Cpu/Flag.antt =====
-- The RFLAGS masks `FLAG_*` of include/vm/X86CPU.h. Each mask is one bit, so `|=`, `&= ~` and `&`
-- with a mask are written on that bit.
pub mod Laws
use my_vm_os.Base.{ℕ, ◌+◌, ◌-◌, ◌/◌, ◌%◌, Bool, true, false, ◌==◌, if◌then◌else◌}

pub data Flag : Type 0 where
  cf pf af zf sf tf intf df of : Flag

-- The masks' values.
abbrev pub mask : Flag → ℕ
mask cf = 0x1
mask pf = 0x4
mask af = 0x10
mask zf = 0x40
mask sf = 0x80
mask tf = 0x100
mask intf = 0x200
mask df = 0x400
mask of = 0x800

-- `(w & mask) != 0`
unfoldable pub has_flag : Flag → ℕ → Bool
has_flag f w = (w / mask f) % 2 == 1

-- `w | mask` and `w & ~mask`
unfoldable pub put_flag : Flag → Bool → ℕ → ℕ
put_flag f true w = if has_flag f w then w else w + mask f
put_flag f false w = if has_flag f w then w - mask f else w
