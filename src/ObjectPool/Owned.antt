-- ===== src/ObjectPool/Owned.antt =====
-- The objects that the users of an `ObjectPool` (include/utils/ObjectPool.h) hold by `unique_ptr`,
-- and what `get_allocated_count` says of them.
use my_vm_os.Base.{
  if_both, ℕ, zero, suc, ◌+◌, ◌%◌, Bool, ◌≡◌, refl, ap, sym, subst, List, [], ◌∷◌, Option, none,
  some, inl, inr, ltb, ◌&&◌, if◌then◌else◌, length, get_elem?, arith, Option-cases, u64_mod, sub64,
}
use my_vm_os.ObjectPool.{
  empty_pool, ObjectPool, construct, acquire, acquire_from, create, release, give_back, clear,
  reserve, reserve_loop, add_free, at_capacity, get_allocated_count,
}

-- What the users of a pool do. An object is released by its place among those held; one that is
-- not held is the null pointer.
pub data Use (T : Type 0) : Type 0 where
  acquire_one : Use T
  release_at : (i : ℕ) → Use T
  change_at : (i : ℕ) (f : T → T) → Use T
  reserve_to : (count : ℕ) → Use T
  clear_all : Use T

-- The pool, the objects that its users hold, and how many they held at the last `clear`.
pub record World (T : Type 0) : Type 0 where
  pub pool : ObjectPool T
  pub held : List T
  pub lost : ℕ

module _ {T : Type 0} where
  abbrev pub without : ℕ → List T → List T
  without i [] = []
  without zero (x ∷ xs) = xs
  without (suc i) (x ∷ xs) = x ∷ without i xs

  abbrev pub change : ℕ → (T → T) → List T → List T
  change i f [] = []
  change zero f (x ∷ xs) = f x ∷ xs
  change (suc i) f (x ∷ xs) = x ∷ change i f xs

  abbrev pub hold : Option T → List T → List T
  hold none xs = xs
  hold (some x) xs = x ∷ xs

  module _ (new_object : T) (reset : T → T) where
    unfoldable pub use_pool : Use T → World T → World T
    use_pool acquire_one w =
        let r = acquire new_object w.pool in record w { pool = r.1; held = hold r.0 w.held }
    use_pool (release_at i) w = record w {
      pool = release reset (get_elem? w.held i) w.pool;
      held = without i w.held;
    }
    use_pool (change_at i f) w = record w { held = change i f w.held }
    use_pool (reserve_to count) w = record w { pool = reserve new_object count w.pool }
    use_pool clear_all w = record w { pool = clear w.pool; lost = length w.held }

    unfoldable pub run : List (Use T) → World T → World T
    run [] w = w
    run (u ∷ us) w = run us (use_pool u w)

    abbrev pub start : (initial_size max_size : ℕ) (auto_expand : Bool) → World T
    start initial max expand = record {
      pool = construct new_object initial max expand;
      held = [];
      lost = 0;
    }

  -- The counter is the number of the objects made since the last `clear` and not destroyed.
  abbrev pub Counts : ℕ → ℕ → ObjectPool T → Type 0
  Counts held lost p = (p.total_objects + lost) % u64_mod ≡ (length p.free_pool + held) % u64_mod

  pub length-without :
      (i : ℕ) (xs : List T) (x : T)
      → get_elem? xs i ≡ some x
      → suc (length (without i xs)) ≡ length xs
  length-without i [] x h = ground arith
  length-without zero (y ∷ xs) x h = refl
  length-without (suc i) (y ∷ xs) x h = ap suc (length-without i xs x h)

  pub without-none : (i : ℕ) (xs : List T) → get_elem? xs i ≡ none → without i xs ≡ xs
  without-none i [] h = refl
  without-none zero (y ∷ xs) h = ground arith
  without-none (suc i) (y ∷ xs) h = ap (λ ys. y ∷ ys) (without-none i xs h)

  pub length-change : (i : ℕ) (f : T → T) (xs : List T) → length (change i f xs) ≡ length xs
  length-change i f [] = refl
  length-change zero f (x ∷ xs) = refl
  length-change (suc i) f (x ∷ xs) = ap suc (length-change i f xs)

  acquire_from-Counts :
      (new_object : T) (xs held : List T) (lost : ℕ) (p : ObjectPool T)
      → p.free_pool ≡ xs
      → Counts (length held) lost p
      → Counts
          (length (hold (acquire_from new_object xs p).0 held))
          lost
          (acquire_from new_object xs p).1
  unfolding acquire_from create at_capacity
  acquire_from-Counts new_object [] held lost p e c =
      let Good : Option T × ObjectPool T → Type 0 =
        λ (r : Option T × ObjectPool T). Counts (length (hold r.0 held)) lost r.1 in
      let made : Good (create new_object p) = omega (arith, c) in
      let full : Good (if p.auto_expand then create new_object p else (none, p)) =
        if_both Good p.auto_expand (create new_object p) (none, p) made c in
      if_both Good (at_capacity p) _ (create new_object p) full made
  acquire_from-Counts new_object (x ∷ xs) held lost p e c = omega (arith, c, ap length e)

  give_back-Counts :
      (x : T) (held lost : ℕ) (p : ObjectPool T)
      → Counts (suc held) lost p
      → Counts held lost (give_back x p)
  unfolding give_back
  give_back-Counts x held lost p c =
      if_both (Counts held lost)
        (ltb 0 p.max_size && ltb p.max_size (length p.free_pool % u64_mod + 1))
        (record p { total_objects = sub64 p.total_objects 1 })
        (record p { free_pool = x ∷ p.free_pool }) (omega (arith, c)) (omega (arith, c))

  reserve_loop-Counts :
      (new_object : T) (rounds count held lost : ℕ) (p : ObjectPool T)
      → Counts held lost p
      → Counts held lost (reserve_loop new_object rounds count p)
  unfolding reserve_loop add_free
  reserve_loop-Counts new_object zero count held lost p c = c
  reserve_loop-Counts new_object (suc n) count held lost p c =
      let more =
        reserve_loop-Counts new_object n count held lost (add_free new_object p)
          (omega (arith, c)) in
      if_both (Counts held lost) (ltb (length p.free_pool) count) _ p
        (if_both (Counts held lost) (at_capacity p) p _ c more) c

  module _ (new_object : T) (reset : T → T) where
    use_pool-Counts :
        (u : Use T) (w : World T)
        → Counts (length w.held) w.lost w.pool
        → let w' = use_pool new_object reset u w in Counts (length w'.held) w'.lost w'.pool
    unfolding use_pool acquire release reserve clear
    use_pool-Counts acquire_one w c =
        acquire_from-Counts new_object w.pool.free_pool w.held w.lost w.pool refl c
    use_pool-Counts (release_at i) w c = elim (Option-cases (get_elem? w.held i)) [
      | inl e ↦
          subst (λ o. Counts (length (without i w.held)) w.lost (release reset o w.pool)) (sym e)
            (omega (arith, c, ap length (without-none i w.held e)))
      | inr (x, e) ↦
          subst (λ o. Counts (length (without i w.held)) w.lost (release reset o w.pool)) (sym e)
            (give_back-Counts (reset x) (length (without i w.held)) w.lost w.pool
              (omega (arith, c, length-without i w.held x e)))
    ]
    use_pool-Counts (change_at i f) w c = omega (arith, c, length-change i f w.held)
    use_pool-Counts (reserve_to count) w c =
        reserve_loop-Counts new_object count count (length w.held) w.lost w.pool c
    use_pool-Counts clear_all w c = refl

    run-Counts :
        (us : List (Use T)) (w : World T)
        → Counts (length w.held) w.lost w.pool
        → let w' = run new_object reset us w in Counts (length w'.held) w'.lost w'.pool
    unfolding run
    run-Counts [] w c = c
    run-Counts (u ∷ us) w c = run-Counts us (use_pool new_object reset u w) (use_pool-Counts u w c)

    -- After any history of a new ObjectPool, in which users acquire, change and release objects and
    -- call reserve and clear, get_allocated_count with the number of objects that were held at the
    -- last clear is, modulo 2^64, the number of objects held.
    pub get_allocated_count-run :
        (us : List (Use T)) (initial max : ℕ) (expand : Bool)
        → let w = run new_object reset us (start new_object reset initial max expand) in
          (get_allocated_count w.pool + w.lost) % u64_mod ≡ length w.held % u64_mod
    unfolding get_allocated_count construct reserve
    get_allocated_count-run us initial max expand =
        let w = run new_object reset us (start new_object reset initial max expand) in
        let begin : Counts 0 0 (construct new_object initial max expand) =
          if_both (Counts 0 0) (ltb 0 initial) _ (empty_pool max expand)
            (reserve_loop-Counts new_object initial initial 0 0 (empty_pool max expand) refl)
            refl in
        omega (arith, run-Counts us (start new_object reset initial max expand) begin)
