-- ===== src/Base/Maps.antt =====
-- `std::unordered_map` with a `uint64_t` key, as an association list.
use Prim.Native.Nat.{ℕ}
use mathlib.Core.Path.{◌≡◌, refl}
use mathlib.Core.Logic.{◌≢◌}
use mathlib.Core.List.{List, [], ◌∷◌}
use mathlib.Core.Option.{Option, none, some}
use native.Mathlib.Omega.{arith}
use my_vm_os.Base.Tests.{◌==◌, if◌then◌else◌}

abbrev pub Map {ℓ} : Type ℓ → Type ℓ
Map V = List (ℕ × V)

module _ {ℓ} {V : Type ℓ} where
  -- `m.find(key)`
  unfoldable pub lookup : (key : ℕ) → Map V → Option V
  lookup key [] = none
  lookup key (entry ∷ rest) = if entry.0 == key then some (entry.1) else lookup key rest

  -- `m[key] = value`
  unfoldable pub insert : (key : ℕ) (value : V) → Map V → Map V
  insert key value [] = (key, value) ∷ []
  insert key value (entry ∷ rest) =
      if entry.0 == key then (key, value) ∷ rest else entry ∷ insert key value rest

  -- `m.erase(key)`
  unfoldable pub erase : (key : ℕ) → Map V → Map V
  erase key [] = []
  erase key (entry ∷ rest) = if entry.0 == key then erase key rest else entry ∷ erase key rest

  pub lookup-insert :
      (key other : ℕ) (value : V) (entries : Map V)
      → lookup other (insert key value entries)
        ≡ (if key == other then some value else lookup other entries)
  unfolding lookup insert
  lookup-insert key other value [] = refl
  lookup-insert key other value (entry ∷ rest) =
      let later = lookup-insert key other value rest in ground arith

  pub lookup-erase :
      (key other : ℕ) (entries : Map V)
      → lookup other (erase key entries) ≡ (if key == other then none else lookup other entries)
  unfolding lookup erase
  lookup-erase key other [] = ground arith
  lookup-erase key other (entry ∷ rest) = let later = lookup-erase key other rest in ground arith

  pub lookup-insert_self : (k : ℕ) (v : V) (m : Map V) → lookup k (insert k v m) ≡ some v
  lookup-insert_self k v m = let e = lookup-insert k k v m in ground arith

  pub lookup-insert_ne :
      (k j : ℕ) (v : V) (m : Map V) → k ≢ j → lookup j (insert k v m) ≡ lookup j m
  lookup-insert_ne k j v m h = let e = lookup-insert k j v m in ground arith

  pub lookup-erase_self : (k : ℕ) (m : Map V) → lookup k (erase k m) ≡ none
  lookup-erase_self k m = let e = lookup-erase k k m in ground arith

  pub lookup-erase_ne : (k j : ℕ) (m : Map V) → k ≢ j → lookup j (erase k m) ≡ lookup j m
  lookup-erase_ne k j m h = let e = lookup-erase k j m in ground arith
