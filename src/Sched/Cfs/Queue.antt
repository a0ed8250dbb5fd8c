-- ===== src/Sched/Cfs/Queue.antt =====
-- The run queue of `CFSScheduler` (src/vm/Scheduler/CFS_Scheduler.cpp): its order, and its agreement
-- with the map of the tasks.
pub mod Reach
use my_vm_os.Base.{
  ℕ, ◌≡◌, ◌≢◌, sym, ◌∙◌, inl, inr, List, [], ◌∷◌, Option, none, some, arith, All, Map, lookup,
  insert, erase, lookup-insert_ne, lookup-insert_self, lookup-erase_ne,
}
use my_vm_os.Sched.OrderedSet.{insert_key, erase_key}
use my_vm_os.Sched.OrderedSet.Laws.{
  StrictWeakOrder, IsSorted, IsApart, All-insert_key, All-erase_key, insert_key-IsSorted,
  erase_key-IsSorted, erase_key-IsApart,
}
use my_vm_os.Sched.Keyed.{IsKeyed, insert-IsKeyed, erase-IsKeyed}
use my_vm_os.Sched.Cfs.{CfsTask, before, CfsScheduler}

pub before-StrictWeakOrder : StrictWeakOrder before
unfolding before
before-StrictWeakOrder = record {
  irrefl = λ x. ground arith;
  trans = λ x y z h k. ground arith;
  left = λ x y z h k l. ground arith;
}

abbrev pub id_of : CfsTask → ℕ
id_of t = t.vm_id

-- An entry of the queue is the task that the map holds for its machine.
abbrev pub IsStored : Map CfsTask → CfsTask → Type 0
IsStored m t = lookup t.vm_id m ≡ some t

-- The queue is in order, and its entries are tasks of the map, which stand under their own ids.
pub record IsQueue (m : Map CfsTask) (q : List CfsTask) : Type 0 where
  pub sorted : IsSorted before q
  pub keyed : IsKeyed id_of m
  pub stored : All (IsStored m) q

abbrev pub IsConsistent : CfsScheduler → Type 0
IsConsistent s = IsQueue s.vm_task_map s.run_queue

-- Different keys that the map holds are tasks of different machines.
apart-ne :
    (m : Map CfsTask) (k : ℕ) (t u : CfsTask)
    → lookup k m ≡ some t
    → IsStored m u
    → IsApart before t u
    → u.vm_id ≢ k
apart-ne m k t u ht hu a e =
    let i = before-StrictWeakOrder.irrefl t in elim a [ inl b ↦ cc | inr b ↦ cc ]

All-both :
    {A : Type 0} {P Q R : A → Type 0} (xs : List A)
    → ((a : A) → P a → Q a → R a)
    → All P xs
    → All Q xs
    → All R xs
All-both [] f h k = tt
All-both (x ∷ xs) f h k = (f x h.0 k.0, All-both xs f h.1 k.1)

module _ (m : Map CfsTask) (q : List CfsTask) (k : ℕ) (t : CfsTask) (h : IsQueue m q)
    (l : lookup k m ≡ some t) where
  -- No task of the machine is left in the queue once its task is erased.
  pub erase_key-ne : All (λ u. u.vm_id ≢ k) (erase_key before t q)
  erase_key-ne =
      All-both (erase_key before t q) (λ u hu a. apart-ne m k t u l hu a)
        (All-erase_key before (IsStored m) t q h.stored)
        (erase_key-IsApart before before-StrictWeakOrder t q h.sorted)

  pub erase_key-IsQueue : IsQueue m (erase_key before t q)
  erase_key-IsQueue = record {
    sorted = erase_key-IsSorted before before-StrictWeakOrder t q h.sorted;
    keyed = h.keyed;
    stored = All-erase_key before (IsStored m) t q h.stored;
  }

  -- The machine's task leaves the queue and the map.
  pub removed-IsQueue : IsQueue (erase k m) (erase_key before t q)
  removed-IsQueue = record {
    sorted = erase_key-IsQueue.sorted;
    keyed = erase-IsKeyed id_of k m h.keyed;
    stored =
        All-both (erase_key before t q)
          (λ u hu n. lookup-erase_ne k u.vm_id m (λ e. n (sym e)) ∙ hu) erase_key-IsQueue.stored
          erase_key-ne;
  }

  pub insert_key-IsQueue : IsQueue m (insert_key before t q)
  insert_key-IsQueue = record {
    sorted = insert_key-IsSorted before before-StrictWeakOrder t q h.sorted;
    keyed = h.keyed;
    stored = All-insert_key before (IsStored m) t q (let e = h.keyed.at k t l in cc) h.stored;
  }

-- A new task of a machine that has none in the queue.
pub added-IsQueue :
    (m : Map CfsTask) (q : List CfsTask) (k : ℕ) (t : CfsTask)
    → IsQueue m q
    → t.vm_id ≡ k
    → All (λ u. u.vm_id ≢ k) q
    → IsQueue (insert k t m) (insert_key before t q)
added-IsQueue m q k t h e ne = record {
  sorted = insert_key-IsSorted before before-StrictWeakOrder t q h.sorted;
  keyed = insert-IsKeyed id_of k t m e h.keyed;
  stored =
      All-insert_key before (IsStored (insert k t m)) t q
        (let self = lookup-insert_self k t m in cc)
        (All-both q (λ u hu n. lookup-insert_ne k u.vm_id t m (λ e. n (sym e)) ∙ hu) h.stored ne);
}

-- The machine's task is replaced in the queue and the map.
pub replaced-IsQueue :
    (m : Map CfsTask) (q : List CfsTask) (k : ℕ) (t t' : CfsTask)
    → IsQueue m q
    → lookup k m ≡ some t
    → t'.vm_id ≡ t.vm_id
    → IsQueue (insert k t' m) (insert_key before t' (erase_key before t q))
replaced-IsQueue m q k t t' h l e =
    added-IsQueue m (erase_key before t q) k t' (erase_key-IsQueue m q k t h l)
      (e ∙ h.keyed.at k t l) (erase_key-ne m q k t h l)

-- A machine without a task has no entry in the queue.
pub absent-ne :
    (m : Map CfsTask) (q : List CfsTask) (k : ℕ)
    → IsQueue m q
    → lookup k m ≡ none
    → All (λ u. u.vm_id ≢ k) q
absent-ne m q k h l = All-both q (λ u hu _ e. cc) h.stored h.stored
