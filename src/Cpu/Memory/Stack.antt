-- ===== src/Cpu/Memory/Stack.antt =====
-- The stack of `X86CPUVM` (`push` and `pop` of src/vm/X86CPU.cpp).
use my_vm_os.Base.{
  ℕ, ◌+◌, ◌-◌, ◌<◌, ◌≤◌, ◌≡◌, refl, ◌∙◌, some, true, leb, arith, u64_mod, sub64, add64,
}
use my_vm_os.Cpu.Reg
use my_vm_os.Cpu.State.{Cpu, update, set_rsp, get_rsp}
use my_vm_os.Cpu.State.Laws.{update_self, update-update, update_same}
use my_vm_os.Cpu.Machine.{◌>>=◌, ◌>>◌, gets, modify, done, >>=_some}
use my_vm_os.Cpu.Memory.{load, store, read_wide, write_wide, push, pop}
use my_vm_os.Cpu.Memory.Bytes.{load-store}

le→leb : (a b : ℕ) → a ≤ b → leb a b ≡ true
le→leb a b h = ground arith

pub write_wide_lem :
    (n addr v : ℕ) (c : Cpu)
    → addr + n ≤ c.memory_size
    → write_wide n addr v c
      ≡ some (tt, record c { physical_memory = store n c.physical_memory addr v })
unfolding write_wide
write_wide_lem n addr v c h = rw (le→leb _ _ h)

pub read_wide_lem :
    (n addr : ℕ) (c : Cpu)
    → addr + n ≤ c.memory_size
    → read_wide n addr c ≡ some (load n c.physical_memory addr, c)
unfolding read_wide
read_wide_lem n addr c h = rw (le→leb _ _ h)

-- The state after a push, where the stack pointer does not wrap.
abbrev pub pushed : ℕ → Cpu → Cpu
pushed v c = record c {
  registers = update c.registers Reg.rsp (get_rsp c - 8);
  physical_memory = store 8 c.physical_memory (get_rsp c - 8) v;
}

-- There is room for `n` bytes below the stack pointer, and memory reaches up to it.
pub record HasRoom (n : ℕ) (c : Cpu) : Type 0 where
  pub below : n ≤ get_rsp c
  pub within : get_rsp c ≤ c.memory_size
  pub word : get_rsp c < u64_mod

pub push_lem : (v : ℕ) {c : Cpu} → HasRoom 8 c → push v c ≡ some (tt, pushed v c)
unfolding push set_rsp update ◌>>=◌ ◌>>◌ gets modify done
push_lem v {c} h =
    let e : sub64 (get_rsp c) 8 ≡ get_rsp c - 8 = omega arith in
    rw e (write_wide_lem 8 (get_rsp c - 8) v _ (omega arith))

pub pop_lem :
    (c : Cpu)
    → get_rsp c + 8 ≤ c.memory_size
    → pop c
      ≡ some (
        load 8 c.physical_memory (get_rsp c),
        record c { registers = update c.registers Reg.rsp (add64 (get_rsp c) 8) },
      )
unfolding pop set_rsp update ◌>>=◌ ◌>>◌ gets modify done
pop_lem c h = >>=_some (read_wide 8 (get_rsp c)) _ c (read_wide_lem 8 (get_rsp c) c h)

-- Where the stack has room for eight bytes inside the memory, pop right after push of a 64-bit word
-- gives the word back and leaves all as it was but the eight bytes below the stack pointer.
pub pop-push :
    (v : ℕ) (c : Cpu)
    → HasRoom 8 c
    → v < u64_mod
    → (push v >>= λ _. pop) c
      ≡ some (v, record c { physical_memory = store 8 c.physical_memory (get_rsp c - 8) v })
pop-push v c h hv =
    let e : add64 (get_rsp c - 8) 8 ≡ get_rsp c = omega arith in
    >>=_some (push v) (λ _. pop) c (push_lem v h)
    ∙ pop_lem (pushed v c) (rw update_self (omega arith))
    ∙ rw (
      update_self,
      load-store 8 c.physical_memory (get_rsp c - 8) v hv,
      update-update,
      e,
      update_same c.registers Reg.rsp (get_rsp c) refl,
    )

-- A pop of the word `x` from a stack inside the memory.
pub pop_top :
    (x : ℕ) (c : Cpu)
    → get_rsp c + 8 ≤ c.memory_size
    → c.memory_size < u64_mod
    → load 8 c.physical_memory (get_rsp c) ≡ x
    → pop c ≡ some (x, record c { registers = update c.registers Reg.rsp (get_rsp c + 8) })
pop_top x c room size hx =
    let e : add64 (get_rsp c) 8 ≡ get_rsp c + 8 = omega arith in pop_lem c room ∙ rw (hx, e)
