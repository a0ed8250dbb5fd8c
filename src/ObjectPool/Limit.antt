-- ===== src/ObjectPool/Limit.antt =====
-- What `clear` of an `ObjectPool` (include/utils/ObjectPool.h) does to the maximum, since it sets the
-- counter to 0 while objects are held.
use my_vm_os.Base.{
  ℕ, zero, suc, ◌+◌, ◌*◌, ◌≤◌, ◌<◌, false, ◌≡◌, refl, ap, sym, subst, List, [], ◌∷◌, ◌++◌, none,
  if◌then◌else◌, length, arith, u64_mod,
}
use my_vm_os.ObjectPool.{ObjectPool, construct, acquire, acquire_from, create, clear, at_capacity}
use my_vm_os.ObjectPool.Owned.{Use, acquire_one, clear_all, World, hold, use_pool, run, start}

-- How many objects the pool counts, with none free.
record Bare {T : Type 0} (max count : ℕ) (p : ObjectPool T) : Type 0 where
  bare : p.free_pool ≡ []
  maximum : p.max_size ≡ max
  counted : p.total_objects ≡ count

module _ {T : Type 0} where
  abbrev pub acquires : ℕ → List (Use T)
  acquires zero = []
  acquires (suc n) = acquire_one ∷ acquires n

  has_room :
      (max count : ℕ) (p : ObjectPool T) → Bare max count p → count < max → at_capacity p ≡ false
  unfolding at_capacity
  has_room max count p b less = let m = b.maximum in let c = b.counted in ground arith

  acquire-create :
      (max count : ℕ) (new_object : T) (p : ObjectPool T)
      → Bare max count p
      → count < max
      → acquire new_object p ≡ create new_object p
  unfolding acquire acquire_from
  acquire-create max count new_object p b less =
      subst (λ xs. acquire_from new_object xs p ≡ create new_object p) (sym b.bare)
        (ap
          (λ full.
            if full
            then if p.auto_expand then create new_object p else (none, p)
            else create new_object p)
          (has_room max count p b less))

  module _ (max : ℕ) (bound : max < u64_mod) (new_object : T) (reset : T → T) where
    use_pool-create :
        (count : ℕ) (w : World T)
        → Bare max count w.pool
        → count < max
        → use_pool new_object reset acquire_one w
          ≡ record w { pool = (create new_object w.pool).1; held = new_object ∷ w.held }
    unfolding use_pool create
    use_pool-create count w b less =
        ap (λ r. record w { pool = r.1; held = hold r.0 w.held })
          (acquire-create max count new_object w.pool b less)

    create-Bare :
        (count : ℕ) (p : ObjectPool T)
        → Bare max count p
        → count < max
        → Bare max (suc count) (create new_object p).1
    unfolding create
    create-Bare count p b less = record {
      bare = b.bare;
      maximum = b.maximum;
      counted = omega (arith, b.counted, less, bound);
    }

    run-acquires :
        (n count : ℕ) (w : World T)
        → Bare max count w.pool
        → count + n ≤ max
        → let w' = run new_object reset (acquires n) w in
          Bare max (count + n) w'.pool × (length w'.held ≡ length w.held + n)
    unfolding run
    run-acquires zero count w b fits = (subst (λ k. Bare max k w.pool) (omega arith) b, omega arith)
    run-acquires (suc n) count w b fits =
        let w' : World T = record w {
          pool = (create new_object w.pool).1;
          held = new_object ∷ w.held;
        } in
        subst
          (λ v.
            let end = run new_object reset (acquires n) v in
            Bare max (count + suc n) end.pool × (length end.held ≡ length w.held + suc n))
          (sym (use_pool-create count w b (omega (arith, fits))))
          (let r =
              run-acquires n (suc count) w' (create-Bare count w.pool b (omega (arith, fits)))
                (omega (arith, fits)) in
            (
              subst (λ k. Bare max k (run new_object reset (acquires n) w').pool) (omega arith) r.0,
              omega (arith, r.1),
            ))

    run_append :
        (us vs : List (Use T)) (w : World T)
        → run new_object reset (us ++ vs) w ≡ run new_object reset vs (run new_object reset us w)
    unfolding run
    run_append [] vs w = refl
    run_append (u ∷ us) vs w = run_append us vs (use_pool new_object reset u w)

    -- `n` times: `max` objects acquired, then `clear`.
    abbrev pub rounds : ℕ → List (Use T)
    rounds zero = []
    rounds (suc n) = acquires max ++ (clear_all ∷ rounds n)

    clear-Bare : (count : ℕ) (p : ObjectPool T) → Bare max count p → Bare max 0 (clear p)
    unfolding clear
    clear-Bare count p b = record { bare = refl; maximum = b.maximum; counted = refl }

    held-run-rounds :
        (n : ℕ) (w : World T)
        → Bare max 0 w.pool
        → length (run new_object reset (rounds n) w).held ≡ n * max + length w.held
    unfolding run use_pool
    held-run-rounds zero w b = omega arith
    held-run-rounds (suc n) w b =
        let full : World T = run new_object reset (acquires max) w in
        let all = run-acquires max 0 w b (omega arith) in
        subst (λ (v : World T). length v.held ≡ suc n * max + length w.held)
          (sym (run_append (acquires max) (clear_all ∷ rounds n) w))
          (let more =
              held-run-rounds n (record full { pool = clear full.pool; lost = length full.held })
                (clear-Bare (0 + max) full.pool all.0) in
            omega (arith, more, all.1))

    -- On an ObjectPool with a maximum below 2^64 and without auto_expand, the users that acquire as
    -- many objects as the maximum and call clear, n times, hold n times the maximum.
    pub clear_exceeds :
        (n : ℕ)
        → length (run new_object reset (rounds n) (start new_object reset 0 max false)).held
          ≡ n * max
    unfolding construct
    clear_exceeds n =
        let none_held =
          held-run-rounds n (start new_object reset 0 max false)
            (record { bare = refl; maximum = refl; counted = refl }) in
        omega (arith, none_held)
