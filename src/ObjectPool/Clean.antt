-- ===== src/ObjectPool/Clean.antt =====
-- What state the objects of an `ObjectPool` (include/utils/ObjectPool.h) are handed out in, and how
-- many of them `reserve` leaves free.
use my_vm_os.Base.{
  if_both, if_cases, ℕ, zero, suc, ◌+◌, ◌%◌, ◌≤◌, Bool, true, ◌≡◌, ◌⊎◌, refl, sym, subst, List, [],
  ◌∷◌, Option, none, some, inl, inr, ltb, ◌&&◌, if◌then◌else◌, length, get_elem?, arith,
  Option-cases, All, u64_mod,
}
use my_vm_os.ObjectPool.{
  ObjectPool, empty_pool, construct, acquire, acquire_from, create, release, give_back, clear,
  reserve, reserve_loop, add_free, at_capacity,
}
use my_vm_os.ObjectPool.Owned.{
  Use, acquire_one, release_at, change_at, reserve_to, clear_all, World, use_pool, run, start,
}

module _ {T : Type 0} where
  reserve_loop_ends :
      (new_object : T) (rounds count : ℕ) (p : ObjectPool T)
      → count ≤ length p.free_pool + rounds
      → let p' = reserve_loop new_object rounds count p in
        (count ≤ length p'.free_pool) ⊎ (at_capacity p' ≡ true)
  unfolding reserve_loop add_free
  reserve_loop_ends new_object zero count p fuel = inl (omega (arith, fuel))
  reserve_loop_ends new_object (suc n) count p fuel =
      let Ends : ObjectPool T → Type 0 =
        λ (q : ObjectPool T). (count ≤ length q.free_pool) ⊎ (at_capacity q ≡ true) in
      if_cases Ends (ltb (length p.free_pool) count) _ p
        (λ short.
          if_cases Ends (at_capacity p) p _ (λ full. inr full)
            (λ room.
              reserve_loop_ends new_object n count (add_free new_object p) (omega (arith, fuel))))
        (λ enough. inl (ground arith))

  -- reserve
  pub reserve_ends :
      (new_object : T) (count : ℕ) (p : ObjectPool T)
      → let p' = reserve new_object count p in
        (count ≤ length p'.free_pool) ⊎ (at_capacity p' ≡ true)
  unfolding reserve
  reserve_ends new_object count p = reserve_loop_ends new_object count count p (omega arith)

  module _ (P : T → Type 0) (new_object : T) (reset : T → T) where
    AreClean : ObjectPool T → Type 0
    AreClean p = All P p.free_pool

    abbrev IsClean : Option T → Type 0
    IsClean none = Unit
    IsClean (some x) = P x

    module _ (new_clean : P new_object) (reset_clean : (x : T) → P (reset x)) where
      acquire_from-AreClean :
          (xs : List T) (p : ObjectPool T)
          → p.free_pool ≡ xs
          → AreClean p
          → IsClean (acquire_from new_object xs p).0 × AreClean (acquire_from new_object xs p).1
      unfolding acquire_from create AreClean
      acquire_from-AreClean [] p e clean =
          let Good : Option T × ObjectPool T → Type 0 =
            λ (r : Option T × ObjectPool T). IsClean r.0 × All P r.1.free_pool in
          if_both Good (at_capacity p) (if p.auto_expand then create new_object p else (none, p))
            (create new_object p)
            (if_both Good p.auto_expand (create new_object p) (none, p) (new_clean, clean)
              (tt, clean))
            (new_clean, clean)
      acquire_from-AreClean (y ∷ xs) p e clean = subst (All P) e clean

      give_back-AreClean : (x : T) (p : ObjectPool T) → P x → AreClean p → AreClean (give_back x p)
      unfolding give_back AreClean
      give_back-AreClean x p px clean =
          if_both (λ (q : ObjectPool T). All P q.free_pool)
            (ltb 0 p.max_size && ltb p.max_size (length p.free_pool % u64_mod + 1)) _ _ clean
            (px, clean)

      reserve_loop-AreClean :
          (rounds count : ℕ) (p : ObjectPool T)
          → AreClean p
          → AreClean (reserve_loop new_object rounds count p)
      unfolding reserve_loop add_free AreClean
      reserve_loop-AreClean zero count p clean = clean
      reserve_loop-AreClean (suc n) count p clean =
          let more = reserve_loop-AreClean n count (add_free new_object p) (new_clean, clean) in
          if_both (λ (q : ObjectPool T). All P q.free_pool) (ltb (length p.free_pool) count) _ p
            (if_both (λ (q : ObjectPool T). All P q.free_pool) (at_capacity p) p _ clean more) clean

      use_pool-AreClean :
          (u : Use T) (w : World T)
          → AreClean w.pool
          → AreClean (use_pool new_object reset u w).pool
      unfolding use_pool acquire release reserve clear AreClean
      use_pool-AreClean acquire_one w clean =
          let r = acquire_from-AreClean w.pool.free_pool w.pool refl clean in r.1
      use_pool-AreClean (release_at i) w clean = elim (Option-cases (get_elem? w.held i)) [
        | inl e ↦ subst (λ o. All P (release reset o w.pool).free_pool) (sym e) clean
        | inr (x, e) ↦
            subst (λ o. All P (release reset o w.pool).free_pool) (sym e)
              (give_back-AreClean (reset x) w.pool (reset_clean x) clean)
      ]
      use_pool-AreClean (change_at i f) w clean = clean
      use_pool-AreClean (reserve_to count) w clean = reserve_loop-AreClean count count w.pool clean
      use_pool-AreClean clear_all w clean = tt

      run-AreClean :
          (us : List (Use T)) (w : World T)
          → AreClean w.pool
          → AreClean (run new_object reset us w).pool
      unfolding run
      run-AreClean [] w clean = clean
      run-AreClean (u ∷ us) w clean =
          run-AreClean us (use_pool new_object reset u w) (use_pool-AreClean u w clean)

      construct-AreClean :
          (initial max : ℕ) (expand : Bool) → AreClean (construct new_object initial max expand)
      unfolding construct reserve AreClean
      construct-AreClean initial max expand =
          if_both (λ (q : ObjectPool T). All P q.free_pool) (ltb 0 initial) _
            (empty_pool max expand)
            (reserve_loop-AreClean initial initial (empty_pool max expand) tt) tt

      -- Where a new object is in some state and reset brings every object into it, each object that
      -- acquire hands out after any history of the pool is in that state, whatever the users did to
      -- the objects.
      pub acquire-IsClean :
          (us : List (Use T)) (initial max : ℕ) (expand : Bool) (x : T)
          → (acquire new_object
              (run new_object reset us (start new_object reset initial max expand)).pool).0
            ≡ some x
          → P x
      unfolding acquire
      acquire-IsClean us initial max expand x handed =
          let w = run new_object reset us (start new_object reset initial max expand) in
          let r = acquire_from-AreClean w.pool.free_pool w.pool refl (
            run-AreClean us (start new_object reset initial max expand)
              (construct-AreClean initial max expand)) in
          subst IsClean handed r.0
