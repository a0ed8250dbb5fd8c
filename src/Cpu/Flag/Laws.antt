-- ===== src/Cpu/Flag/Laws.antt =====
-- A flag that is put is read back, and the other flags stay (the masks of include/vm/X86CPU.h).
use my_vm_os.Base.{ℕ, ◌<◌, ◌≡◌, Bool, true, false, ◌==◌, if◌then◌else◌, arith, u64_mod}
use my_vm_os.Cpu.Flag.{Flag, cf, pf, mask, has_flag, put_flag}

-- A flag that is put is read back, and the others stay.
pub has_flag-put :
    (f g : Flag) (b : Bool) (w : ℕ)
    → has_flag f (put_flag g b w) ≡ (if mask f == mask g then b else has_flag f w)
unfolding has_flag put_flag
has_flag-put cf cf true w = ground arith
has_flag-put _ cf true w = ground arith
has_flag-put _ pf true w = ground arith
has_flag-put _ _ true w = ground arith
has_flag-put _ _ false w = ground arith

pub put_flag-lt : (f : Flag) (b : Bool) (w : ℕ) → w < u64_mod → put_flag f b w < u64_mod
unfolding has_flag put_flag
put_flag-lt cf true w h = ground arith
put_flag-lt _ true w h = ground arith
put_flag-lt _ false w h = ground arith
