-- ===== src/Sched/OrderedSet.antt =====
-- `std::set` and the `tree` of PBDS: a list in the order of `operator<`. Two keys neither of which is
-- below the other are one key.
pub mod Laws
use my_vm_os.Base.{Bool, true, false, List, [], ◌∷◌, if◌then◌else◌}

module _ {A : Type 0} (lt : A → A → Bool) where
  -- `s.insert(x)`: an equivalent key that is there already stays.
  unfoldable pub insert_key : A → List A → List A
  insert_key x [] = x ∷ []
  insert_key x (y ∷ ys) =
      if lt x y then x ∷ y ∷ ys else if lt y x then y ∷ insert_key x ys else y ∷ ys

  -- `s.erase(x)`: the equivalent key goes.
  unfoldable pub erase_key : A → List A → List A
  erase_key x [] = []
  erase_key x (y ∷ ys) = if lt x y then y ∷ ys else if lt y x then y ∷ erase_key x ys else ys

  -- `s.find(x) != s.end()`
  unfoldable pub has_key : A → List A → Bool
  has_key x [] = false
  has_key x (y ∷ ys) = if lt x y then false else if lt y x then has_key x ys else true
