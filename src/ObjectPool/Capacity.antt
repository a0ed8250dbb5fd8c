-- ===== src/ObjectPool/Capacity.antt =====
-- How many objects an `ObjectPool` (include/utils/ObjectPool.h) with a maximum and without
-- `auto_expand` has and hands out.
use my_vm_os.Base.{
  if_cases, ℕ, zero, suc, ◌+◌, ◌%◌, ◌≤◌, ◌<◌, Bool, true, false, ◌≡◌, ◌↔◌, refl, ap, sym, subst,
  List, [], ◌∷◌, Option, none, inl, inr, ltb, ◌&&◌, length, get_elem?, arith, Option-cases, All,
  u64_mod,
}
use my_vm_os.ObjectPool.{
  ObjectPool, empty_pool, construct, acquire, acquire_from, create, release, give_back, reserve,
  reserve_loop, add_free, at_capacity,
}
use my_vm_os.ObjectPool.Owned.{
  Use, acquire_one, release_at, change_at, reserve_to, clear_all, World, without, hold, use_pool,
  run, start, length-without, without-none, length-change,
}

module _ {T : Type 0} where
  abbrev pub is_clear : Use T → Bool
  is_clear acquire_one = false
  is_clear (release_at i) = false
  is_clear (change_at i f) = false
  is_clear (reserve_to count) = false
  is_clear clear_all = true

  -- The counter is the number of objects free and held, which are `max` at most.
  pub record Fits (max held : ℕ) (p : ObjectPool T) : Type 0 where
    pub maximum : p.max_size ≡ max
    pub fixed : p.auto_expand ≡ false
    pub counted : p.total_objects ≡ length p.free_pool + held
    pub within : length p.free_pool + held ≤ max

  module _ (max : ℕ) (bound : max < u64_mod) (positive : 0 < max) where
    room_below :
        (held : ℕ) (p : ObjectPool T)
        → Fits max held p
        → at_capacity p ≡ false
        → p.total_objects < max
    unfolding at_capacity
    room_below held p f room = let same = f.maximum in ground arith

    full_above :
        (held : ℕ) (p : ObjectPool T)
        → Fits max held p
        → at_capacity p ≡ true
        → max ≤ p.total_objects
    unfolding at_capacity
    full_above held p f full = let same = f.maximum in ground arith

    acquire_from-Fits :
        (new_object : T) (xs held : List T) (p : ObjectPool T)
        → p.free_pool ≡ xs
        → Fits max (length held) p
        → Fits max
            (length (hold (acquire_from new_object xs p).0 held))
            (acquire_from new_object xs p).1
    unfolding acquire_from create
    acquire_from-Fits new_object [] held p e f =
        let Good : Option T × ObjectPool T → Type 0 =
          λ (r : Option T × ObjectPool T). Fits max (length (hold r.0 held)) r.1 in
        let made : p.total_objects < max → Good (create new_object p) =
          λ (less : p.total_objects < max). record {
            maximum = f.maximum;
            fixed = f.fixed;
            counted = omega (arith, f.counted, less, bound);
            within = omega (arith, f.counted, f.within, less);
          } in
        if_cases Good (at_capacity p) _ (create new_object p)
          (λ full.
            if_cases Good p.auto_expand (create new_object p) (none, p)
              (λ expands. let never = f.fixed in ground arith) (λ stays. f))
          (λ room. made (room_below (length held) p f room))
    acquire_from-Fits new_object (x ∷ xs) held p e f = record {
      maximum = f.maximum;
      fixed = f.fixed;
      counted = omega (arith, f.counted, ap length e);
      within = omega (arith, f.within, ap length e);
    }

    give_back-Fits :
        (x : T) (held : ℕ) (p : ObjectPool T)
        → Fits max (suc held) p
        → Fits max held (give_back x p)
    unfolding give_back
    give_back-Fits x held p f =
        if_cases (Fits max held)
          (ltb 0 p.max_size && ltb p.max_size (length p.free_pool % u64_mod + 1)) _ _
          (λ over. record {
            maximum = f.maximum;
            fixed = f.fixed;
            counted = omega (arith, f.counted, f.within, bound);
            within = omega (arith, f.within);
          })
          (λ room. record {
            maximum = f.maximum;
            fixed = f.fixed;
            counted = omega (arith, f.counted);
            within = omega (arith, f.within);
          })

    reserve_loop-Fits :
        (new_object : T) (rounds count held : ℕ) (p : ObjectPool T)
        → Fits max held p
        → Fits max held (reserve_loop new_object rounds count p)
    unfolding reserve_loop add_free
    reserve_loop-Fits new_object zero count held p f = f
    reserve_loop-Fits new_object (suc n) count held p f =
        if_cases (Fits max held) (ltb (length p.free_pool) count) _ p
          (λ short.
            if_cases (Fits max held) (at_capacity p) p _ (λ full. f)
              (λ room. reserve_loop-Fits new_object n count held (add_free new_object p) (record {
                maximum = f.maximum;
                fixed = f.fixed;
                counted = omega (arith, f.counted, room_below held p f room, bound);
                within = omega (arith, f.counted, f.within, room_below held p f room);
              })))
          (λ long. f)

    use_pool-Fits :
        (new_object : T) (reset : T → T) (u : Use T) (w : World T)
        → is_clear u ≡ false
        → Fits max (length w.held) w.pool
        → let w' = use_pool new_object reset u w in Fits max (length w'.held) w'.pool
    unfolding use_pool acquire release reserve
    use_pool-Fits new_object reset acquire_one w h f =
        acquire_from-Fits new_object w.pool.free_pool w.held w.pool refl f
    use_pool-Fits new_object reset (release_at i) w h f = elim (Option-cases (get_elem? w.held i)) [
      | inl e ↦
          subst (λ o. Fits max (length (without i w.held)) (release reset o w.pool)) (sym e)
            (subst (λ xs. Fits max (length xs) w.pool) (sym (without-none i w.held e)) f)
      | inr (x, e) ↦
          subst (λ o. Fits max (length (without i w.held)) (release reset o w.pool)) (sym e)
            (give_back-Fits (reset x) (length (without i w.held)) w.pool
              (subst (λ n. Fits max n w.pool) (sym (length-without i w.held x e)) f))
    ]
    use_pool-Fits new_object reset (change_at i g) w h f =
        subst (λ n. Fits max n w.pool) (sym (length-change i g w.held)) f
    use_pool-Fits new_object reset (reserve_to count) w h f =
        reserve_loop-Fits new_object count count (length w.held) w.pool f
    use_pool-Fits new_object reset clear_all w h f = ground arith

    run-Fits :
        (new_object : T) (reset : T → T) (us : List (Use T)) (w : World T)
        → All (λ u. is_clear u ≡ false) us
        → Fits max (length w.held) w.pool
        → let w' = run new_object reset us w in Fits max (length w'.held) w'.pool
    unfolding run
    run-Fits new_object reset [] w h f = f
    run-Fits new_object reset (u ∷ us) w h f =
        run-Fits new_object reset us (use_pool new_object reset u w) h.1
          (use_pool-Fits new_object reset u w h.0 f)

    acquire_from-none :
        (new_object : T) (xs : List T) (held : ℕ) (p : ObjectPool T)
        → p.free_pool ≡ xs
        → Fits max held p
        → ((acquire_from new_object xs p).0 ≡ none) ↔ (held ≡ max)
    unfolding acquire_from create
    acquire_from-none new_object [] held p e f =
        let Good : Option T × ObjectPool T → Type 0 =
          λ (r : Option T × ObjectPool T). (r.0 ≡ none) ↔ (held ≡ max) in
        if_cases Good (at_capacity p) _ (create new_object p)
          (λ full.
            if_cases Good p.auto_expand (create new_object p) (none, p)
              (λ expands. let never = f.fixed in ground arith)
              (λ stays. (
                λ h. omega (arith, f.counted, f.within, ap length e, full_above held p f full),
                λ h. refl,
              )))
          (λ room. (
            λ h. ground arith,
            λ h.
                let a = room_below held p f room in
                let b = f.counted in let c = ap length e in ground arith,
          ))
    acquire_from-none new_object (x ∷ xs) held p e f =
        (λ h. ground arith, λ h. let a = ap length e in let b = f.within in ground arith)

    construct-Fits :
        (new_object : T) (initial : ℕ) → Fits max 0 (construct new_object initial max false)
    unfolding construct reserve
    construct-Fits new_object initial =
        let begin : Fits max 0 (empty_pool max false) = record {
          maximum = refl;
          fixed = refl;
          counted = refl;
          within = omega arith;
        } in
        if_cases (Fits max 0) (ltb 0 initial) _ (empty_pool max false)
          (λ more. reserve_loop-Fits new_object initial initial 0 (empty_pool max false) begin)
          (λ no. begin)

    -- After any history without clear of a new ObjectPool with a positive maximum below 2^64 and
    -- without auto_expand, the objects free and held are at most the maximum, and acquire returns
    -- the null pointer exactly when as many objects as the maximum are held.
    pub run-acquire-none :
        (new_object : T) (reset : T → T) (initial : ℕ) (us : List (Use T))
        → All (λ u. is_clear u ≡ false) us
        → let w = run new_object reset us (start new_object reset initial max false) in
          (length w.pool.free_pool + length w.held ≤ max)
          × (((acquire new_object w.pool).0 ≡ none) ↔ (length w.held ≡ max))
    unfolding acquire
    run-acquire-none new_object reset initial us h =
        let w = run new_object reset us (start new_object reset initial max false) in
        let fits =
          run-Fits new_object reset us (start new_object reset initial max false) h
            (construct-Fits new_object initial) in
        (
          fits.within,
          acquire_from-none new_object w.pool.free_pool (length w.held) w.pool refl fits,
        )
