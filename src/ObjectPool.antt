-- ===== src/ObjectPool.antt =====
-- `ObjectPool<T>` (include/utils/ObjectPool.h). The free objects are a list, the back of the vector
-- first; a null pointer is `none`. `new_object` is what `std::make_unique<T>()` makes and `reset` is
-- `T::reset`, both code of the type that the pool is used at. Each operation that changes the pool
-- holds the mutex, so an operation is one step. That no memory is left (`std::bad_alloc`) and the log
-- are left out. The destructor is `clear`.
pub mod Owned
pub mod Capacity
pub mod Limit
pub mod Clean
use my_vm_os.Base.{
  ℕ, zero, suc, ◌+◌, ◌%◌, Bool, true, false, not, ◌&&◌, List, [], ◌∷◌, Option, none, some, ltb, leb,
  if◌then◌else◌, length, add64, sub64, u64_mod,
}

pub record ObjectPool (T : Type 0) : Type 0 where
  pub free_pool : List T
  pub max_size : ℕ
  pub auto_expand : Bool
  pub total_objects : ℕ
  pub total_allocations : ℕ
  pub reuse_count : ℕ

module _ {T : Type 0} where
  unfoldable pub get_free_count : ObjectPool T → ℕ
  get_free_count p = length p.free_pool % u64_mod

  unfoldable pub get_allocated_count : ObjectPool T → ℕ
  get_allocated_count p = sub64 p.total_objects (length p.free_pool % u64_mod)

  -- `max_size_ > 0 && total_objects_.load() >= max_size_`
  unfoldable pub at_capacity : ObjectPool T → Bool
  at_capacity p = ltb 0 p.max_size && leb p.max_size p.total_objects

  unfoldable pub clear : ObjectPool T → ObjectPool T
  clear p = record p { free_pool = []; total_objects = 0 }

  -- The members as the constructor starts them.
  abbrev pub empty_pool : (max_size : ℕ) (auto_expand : Bool) → ObjectPool T
  empty_pool max expand = record {
    free_pool = [];
    max_size = max;
    auto_expand = expand;
    total_objects = 0;
    total_allocations = 0;
    reuse_count = 0;
  }

  -- The object of `acquire`, and the pool after it.
  module _ (new_object : T) where
    unfoldable pub create : ObjectPool T → Option T × ObjectPool T
    create p = (
      some new_object,
      record p {
        total_objects = add64 p.total_objects 1;
        total_allocations = add64 p.total_allocations 1;
      },
    )

    unfoldable pub acquire_from : List T → ObjectPool T → Option T × ObjectPool T
    acquire_from (x ∷ xs) p =
        (some x, record p { free_pool = xs; reuse_count = add64 p.reuse_count 1 })
    acquire_from [] p =
        if at_capacity p then if p.auto_expand then create p else (none, p) else create p

    unfoldable pub acquire : ObjectPool T → Option T × ObjectPool T
    acquire p = acquire_from p.free_pool p

    -- The body of the loop of `reserve`.
    unfoldable pub add_free : ObjectPool T → ObjectPool T
    add_free p = record p {
      free_pool = new_object ∷ p.free_pool;
      total_objects = add64 p.total_objects 1;
    }

    -- The loop of `reserve`, for so many rounds.
    unfoldable pub reserve_loop : ℕ → ℕ → ObjectPool T → ObjectPool T
    reserve_loop zero count p = p
    reserve_loop (suc n) count p =
        let more = reserve_loop n count (add_free p) in
        if ltb (length p.free_pool) count then if at_capacity p then p else more else p

    unfoldable pub reserve : ℕ → ObjectPool T → ObjectPool T
    reserve count p = reserve_loop count count p

    unfoldable pub construct : (initial_size max_size : ℕ) (auto_expand : Bool) → ObjectPool T
    construct initial max expand =
        if ltb 0 initial then reserve initial (empty_pool max expand) else empty_pool max expand

  unfoldable pub give_back : T → ObjectPool T → ObjectPool T
  give_back x p =
      if ltb 0 p.max_size && ltb p.max_size (length p.free_pool % u64_mod + 1)
      then record p { total_objects = sub64 p.total_objects 1 }
      else record p { free_pool = x ∷ p.free_pool }

  unfoldable pub release : (reset : T → T) → Option T → ObjectPool T → ObjectPool T
  release reset none p = p
  release reset (some x) p = give_back (reset x) p
