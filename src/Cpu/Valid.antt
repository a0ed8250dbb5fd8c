-- ===== src/Cpu/Valid.antt =====
-- The well-formed states of `X86CPUVM` (include/vm/X86CPU.h) and the code that keeps them: registers
-- and counters are 64-bit words, memory holds bytes, and a machine with `running_` set is running or waits.
pub mod Basic
pub mod Operand
pub mod Mov
pub mod Integer
pub mod Logical
pub mod Control
pub mod Step
pub mod Run
pub mod Reach
use my_vm_os.Base.{ℕ, ◌<◌, ◌≡◌, refl, Bool, true, false, Option, none, some, if◌then◌else◌, u64_mod}
use my_vm_os.Cpu.State.{Cpu, X86VmState, created, running, halted, waiting_interrupt, terminated}
use my_vm_os.Cpu.Machine.{M, ◌>>=◌, ◌>>◌, gets, modify, done}

-- The states in which `running_` may be set.
abbrev pub IsLive : X86VmState → Type 0
IsLive created = ⊥
IsLive running = Unit
IsLive halted = ⊥
IsLive waiting_interrupt = Unit
IsLive terminated = ⊥

pub record IsValid (c : Cpu) : Type 0 where
  pub words : (i : ℕ) → c.registers i < u64_mod
  pub bytes : (i : ℕ) → c.physical_memory i < 256
  pub size : c.memory_size < u64_mod
  pub vector : c.pending_interrupt_vector < 256
  pub entry : c.config.entry_point < u64_mod
  pub stack : c.config.stack_pointer < u64_mod
  pub instructions : c.total_instructions < u64_mod
  pub cycles : c.total_cycles < u64_mod
  pub live : c.is_running ≡ true → IsLive c.state

-- What holds of a result and the state after it. An undefined access has no state after it.
unfoldable pub After : {A : Type 0} → (A → Type 0) → Option (A × Cpu) → Type 0
After Q none = Unit
After Q (some (a, c)) = Q a × IsValid c

-- From a valid state the code comes to a valid state, with a result that satisfies `Q`.
pub record Keeps {A : Type 0} (Q : A → Type 0) (m : M A) : Type 0 where
  pub at : (c : Cpu) → IsValid c → After Q (m c)

abbrev pub Any : {A : Type 0} → A → Type 0
Any a = Unit

abbrev pub IsWord : ℕ → Type 0
IsWord v = v < u64_mod

-- Every instruction has a positive length.
abbrev pub IsPositive : ℕ → Type 0
IsPositive len = 0 < len

pub After-if :
    {A : Type 0} (Q : A → Type 0) (t : Bool) (x y : Option (A × Cpu))
    → After Q x
    → After Q y
    → After Q (if t then x else y)
After-if Q true x y hx hy = hx
After-if Q false x y hx hy = hy

pub Keeps-if :
    {A : Type 0} {Q : A → Type 0} (t : Bool) {m k : M A}
    → Keeps Q m
    → Keeps Q k
    → Keeps Q (if t then m else k)
Keeps-if true hm hk = hm
Keeps-if false hm hk = hk

After-bind :
    {A B : Type 0} (P : A → Type 0) (Q : B → Type 0) (r : Option (A × Cpu)) (f : A → M B)
    → After P r
    → ((a : A) → P a → Keeps Q (f a))
    → After Q (elim r [ none ↦ none | some (a, c') ↦ f a c' ])
unfolding After
After-bind P Q none f h hf = tt
After-bind P Q (some (a, c)) f h hf = (hf a h.0).at c h.1

pub Keeps-bind :
    {A B : Type 0} {P : A → Type 0} {Q : B → Type 0} {m : M A} {f : A → M B}
    → Keeps P m
    → ((a : A) → P a → Keeps Q (f a))
    → Keeps Q (m >>= f)
unfolding ◌>>=◌
Keeps-bind {A} {B} {P} {Q} {m} {f} hm hf = record {
  at = λ c v. After-bind P Q (m c) f (hm.at c v) hf;
}

pub Keeps-seq :
    {B : Type 0} {P : Unit {0} → Type 0} {Q : B → Type 0} {m : M (Unit {0})} {k : M B}
    → Keeps P m
    → Keeps Q k
    → Keeps Q (m >> k)
unfolding ◌>>◌
Keeps-seq hm hk = Keeps-bind hm (λ _ _. hk)

pub Keeps-done : {A : Type 0} {Q : A → Type 0} (a : A) → Q a → Keeps Q (done a)
unfolding done After
Keeps-done a h = record { at = λ c v. (h, v) }

pub Keeps-gets :
    {A : Type 0} {Q : A → Type 0} (f : Cpu → A)
    → ((c : Cpu) → IsValid c → Q (f c))
    → Keeps Q (gets f)
unfolding gets After
Keeps-gets f h = record { at = λ c v. (h c v, v) }

pub Keeps-modify : (f : Cpu → Cpu) → ((c : Cpu) → IsValid c → IsValid (f c)) → Keeps Any (modify f)
unfolding modify After
Keeps-modify f h = record { at = λ c v. (tt, h c v) }
