-- ===== src/Tests/Pools.antt =====
-- The theorems on `ObjectPool` (include/utils/ObjectPool.h), run with pools of numbers.
use my_vm_os.Base.{
  ℕ, ◌+◌, ◌≤◌, ◌≡◌, ◌↔◌, refl, false, List, [], ◌∷◌, none, length, arith, u64_mod, ◌%◌,
}
use my_vm_os.ObjectPool.{
  construct, acquire, acquire_from, create, release, give_back, clear, reserve, reserve_loop,
  add_free, at_capacity, get_allocated_count,
}
use my_vm_os.ObjectPool.Owned.{
  Use, acquire_one, release_at, change_at, clear_all, use_pool, run, start, get_allocated_count-run,
}
use my_vm_os.ObjectPool.Capacity.{run-acquire-none}
use my_vm_os.ObjectPool.Limit.{rounds, clear_exceeds}
use my_vm_os.ObjectPool.Clean.{acquire-IsClean}

abbrev zeroed : ℕ → ℕ
zeroed x = 0

-- One object is held at the `clear`, and is given back after it.
abbrev uses : List (Use ℕ)
uses =
    acquire_one
    ∷ acquire_one
    ∷ change_at 0 (λ x. x + 5)
    ∷ release_at 0
    ∷ clear_all
    ∷ release_at 0
    ∷ []

abbrev two_out : List (Use ℕ)
two_out = acquire_one ∷ acquire_one ∷ []

abbrev used : List (Use ℕ)
used = acquire_one ∷ change_at 0 (λ x. x + 5) ∷ release_at 0 ∷ []

get_allocated_count-run_example :
    (get_allocated_count (run 0 zeroed uses (start 0 zeroed 1 4 false)).pool + 1) % u64_mod ≡ 0
unfolding run use_pool construct reserve reserve_loop add_free at_capacity acquire acquire_from
    create release give_back clear
get_allocated_count-run_example = get_allocated_count-run 0 zeroed uses 1 4 false

run-acquire-none_example :
    let w = run 0 zeroed two_out (start 0 zeroed 1 2 false) in
    (length w.pool.free_pool + length w.held ≤ 2)
    × (((acquire 0 w.pool).0 ≡ none) ↔ (length w.held ≡ 2))
run-acquire-none_example =
    run-acquire-none 2 (omega arith) (omega arith) 0 zeroed 1 two_out (refl, (refl, tt))

clear_exceeds_example :
    length (run 0 zeroed (rounds 2 (omega arith) 0 zeroed 3) (start 0 zeroed 0 2 false)).held ≡ 6
clear_exceeds_example = clear_exceeds 2 (omega arith) 0 zeroed 3

acquire-IsClean_example : zeroed 5 ≡ 0
unfolding run use_pool construct reserve reserve_loop add_free at_capacity acquire acquire_from
    create release give_back clear
acquire-IsClean_example =
    acquire-IsClean {T = ℕ} (λ x. x ≡ 0) 0 zeroed refl (λ x. refl) used 0 4 false (zeroed 5) refl
