-- ===== src/Cpu/Machine.antt =====
-- Code that reads and changes a `Cpu`. `none` is an access that C++ leaves undefined.
use my_vm_os.Base.{◌≡◌, Option, none, some}
use my_vm_os.Cpu.State.{Cpu}

abbrev pub M : Type 0 → Type 0
M A = Cpu → Option (A × Cpu)

infixl 5 ◌>>=◌ ◌>>◌
unfoldable pub ◌>>=◌ : {A B : Type 0} → M A → (A → M B) → M B
◌>>=◌ m f c = elim (m c) [ none ↦ none | some (a, c') ↦ f a c' ]

unfoldable pub ◌>>◌ : {B : Type 0} → M (Unit {0}) → M B → M B
unfolding ◌>>=◌
m >> k = m >>= λ _. k

unfoldable pub done : {A : Type 0} → A → M A
done a c = some (a, c)

-- A `const` method.
unfoldable pub gets : {A : Type 0} → (Cpu → A) → M A
gets f c = some (f c, c)

-- A method without a result.
unfoldable pub modify : (Cpu → Cpu) → M (Unit {0})
modify f c = some (tt, f c)

-- A step that succeeds, and what follows it.
pub >>=_some :
    {A B : Type 0} (m : M A) (f : A → M B) (c : Cpu) {a : A} {c' : Cpu}
    → m c ≡ some (a, c')
    → (m >>= f) c ≡ f a c'
unfolding ◌>>=◌
>>=_some m f c e = rw (e, ◌>>=◌)
