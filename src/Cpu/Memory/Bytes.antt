-- ===== src/Cpu/Memory/Bytes.antt =====
-- Little-endian loads and stores of src/vm/X86CPU.cpp: what is stored is loaded, the rest stays.
use native.Mathlib.Nat.{pow-suc}
use my_vm_os.Base.{ℕ, zero, suc, ◌+◌, ◌/◌, ◌%◌, ◌^◌, ◌<◌, ◌≤◌, ◌≡◌, ◌⊎◌, inl, inr, refl, ◌∙◌, arith}
use my_vm_os.Cpu.State.{update}
use my_vm_os.Cpu.State.Laws.{update_self, update_ne}
use my_vm_os.Cpu.Memory.{load, store}

-- A store leaves the bytes below and above it.
pub store_below : (n : ℕ) (mem : ℕ → ℕ) (addr v j : ℕ) → j < addr → store n mem addr v j ≡ mem j
unfolding store
store_below zero mem addr v j h = refl
store_below (suc n) mem addr v j h =
    store_below n (update mem addr (v % 256)) (addr + 1) (v / 256) j (omega arith)
    ∙ update_ne mem addr (v % 256) j (omega arith)

pub store_above : (n : ℕ) (mem : ℕ → ℕ) (addr v j : ℕ) → addr + n ≤ j → store n mem addr v j ≡ mem j
unfolding store
store_above zero mem addr v j h = refl
store_above (suc n) mem addr v j h =
    store_above n (update mem addr (v % 256)) (addr + 1) (v / 256) j (omega arith)
    ∙ update_ne mem addr (v % 256) j (omega arith)

-- A little-endian store of n bytes and a load of n bytes at the same address give back a value below
-- 256^n.
pub load-store :
    (n : ℕ) (mem : ℕ → ℕ) (addr v : ℕ) → v < 256 ^ n → load n (store n mem addr v) addr ≡ v
unfolding load store
load-store zero mem addr v h = omega arith
load-store (suc n) mem addr v h =
    let mem' = update mem addr (v % 256) in
    omega (
      arith,
      pow-suc 256 n,
      load-store n mem' (addr + 1) (v / 256) (omega (arith, pow-suc 256 n)),
      store_below n mem' (addr + 1) (v / 256) addr,
      update_self mem addr (v % 256),
    )

-- A load depends only on the bytes that it reads.
pub load_ext :
    (n : ℕ) (mem mem' : ℕ → ℕ) (addr : ℕ)
    → ((j : ℕ) → addr ≤ j → j < addr + n → mem j ≡ mem' j)
    → load n mem addr ≡ load n mem' addr
unfolding load
load_ext zero mem mem' addr h = refl
load_ext (suc n) mem mem' addr h =
    let first = h addr (omega arith) (omega arith) in
    let rest = load_ext n mem mem' (addr + 1) (λ j a b. h j (omega arith) (omega arith)) in
    omega arith

-- A store of k bytes that do not overlap the n bytes of a load leaves the load as it was.
pub load-store_disjoint :
    (n k : ℕ) (mem : ℕ → ℕ) (a b v : ℕ)
    → (a + n ≤ b) ⊎ (b + k ≤ a)
    → load n (store k mem b v) a ≡ load n mem a
load-store_disjoint n k mem a b v (inl h) =
    load_ext n _ _ a (λ j p q. store_below k mem b v j (omega arith))
load-store_disjoint n k mem a b v (inr h) =
    load_ext n _ _ a (λ j p q. store_above k mem b v j (omega arith))

-- Bytes make a number below `256 ^ n`, and a store of bytes keeps bytes.
pub load-lt : (n : ℕ) (mem : ℕ → ℕ) (addr : ℕ) → ((j : ℕ) → mem j < 256) → load n mem addr < 256 ^ n
unfolding load
load-lt zero mem addr h = omega arith
load-lt (suc n) mem addr h =
    let first = h addr in omega (arith, pow-suc 256 n, load-lt n mem (addr + 1) h)
