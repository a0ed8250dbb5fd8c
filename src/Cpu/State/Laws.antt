-- ===== src/Cpu/State/Laws.antt =====
-- Registers and flags of `X86CPUVM` are read back as they were written (src/vm/X86CPU.cpp).
use my_vm_os.Base.{ℕ, ◌≡◌, ◌≢◌, fun_ext, Bool, ◌==◌, if◌then◌else◌, arith}
use my_vm_os.Cpu.Reg.{num_x86_regs}
use my_vm_os.Cpu.Reg
use my_vm_os.Cpu.Flag.{Flag, mask}
use my_vm_os.Cpu.Flag.Laws.{has_flag-put}
use my_vm_os.Cpu.State.{Cpu, update, set_register, get_flag, set_flag}

pub update_self : (f : ℕ → ℕ) (i v : ℕ) → update f i v i ≡ v
unfolding update
update_self f i v = ground arith

pub update_ne : (f : ℕ → ℕ) (i v j : ℕ) → i ≢ j → update f i v j ≡ f j
unfolding update
update_ne f i v j h = ground arith

pub update-update : (f : ℕ → ℕ) (i v w : ℕ) → update (update f i v) i w ≡ update f i w
unfolding update
update-update f i v w = fun_ext (λ j. ground arith)

pub update_same : (f : ℕ → ℕ) (i v : ℕ) → f i ≡ v → update f i v ≡ f
unfolding update
update_same f i v h = fun_ext (λ j. ground arith)

-- After set_flag, that flag reads back the value and every other flag reads as before.
pub get_flag-set_flag :
    (f g : Flag) (b : Bool) (c : Cpu)
    → get_flag f (set_flag g b c) ≡ (if mask f == mask g then b else get_flag f c)
unfolding get_flag set_flag set_register update
get_flag-set_flag f g b c = has_flag-put f g b (c.registers Reg.rflags)
