-- ===== src/Sched/Cfs/Fair.antt =====
-- What `CFSScheduler` (src/vm/Scheduler/CFS_Scheduler.cpp) picks, what a time slice costs, and what
-- `has_quota` answers.
use my_vm_os.Base.{
  ℕ, ◌*◌, ◌/◌, ◌≡◌, ◌≢◌, ◌≤◌, ◌<◌, refl, subst, inl, inr, true, false, List, [], ◌∷◌, none, some,
  if◌then◌else◌, arith, All, All-map, Map, lookup, lookup-insert_self, Option-cases, ◌&&◌,
}
use my_vm_os.Base.Int.{ℤ, pos, negsuc, leb_ℤ}
use native.Mathlib.Nat.{mul-div-le, mul-le-mul_left, le-div_iff_mul-le}
use my_vm_os.Sched.OrderedSet.{has_key}
use my_vm_os.Sched.Cfs.{
  CfsTask, CfsScheduler, before, default_weight, weight_of, priority_of, scaled_delta, block_vm,
  set_vm_priority, get_vm_priority, get_vm_vruntime, first_vm, pick_next_task, has_quota,
}
use my_vm_os.Sched.Cfs.Queue.{IsStored, IsQueue, IsConsistent, erase_key-ne, absent-ne}

before-le : (t u : CfsTask) → before t u ≡ true → t.vruntime ≤ u.vruntime
unfolding before
before-le t u h = ground arith

least :
    (m : Map CfsTask) (q : List CfsTask)
    → IsQueue m q
    → All
        (λ t. (elim (lookup (first_vm q) m) [ none ↦ 0 | some task ↦ task.vruntime ]) ≤ t.vruntime)
        q
unfolding first_vm
least m [] h = tt
least m (t ∷ q) h = (
  rw h.stored.0 (omega arith),
  All-map q (λ u b. let le = before-le t u b in rw h.stored.0 le) h.sorted.0,
)

-- In a consistent CFSScheduler the machine that is picked has the smallest virtual runtime of those
-- in the queue.
pub pick_next_task-least :
    (s : CfsScheduler)
    → IsConsistent s
    → All (λ t. get_vm_vruntime (pick_next_task s) s ≤ t.vruntime) s.run_queue
unfolding pick_next_task get_vm_vruntime
pick_next_task-least s h = least s.vm_task_map s.run_queue h

-- After block_vm, no entry of the machine is in the queue of a consistent CFSScheduler.
pub block_vm-ne :
    (s : CfsScheduler) (k : ℕ) → IsConsistent s → All (λ t. t.vm_id ≢ k) (block_vm k s).run_queue
unfolding block_vm
block_vm-ne s k h = elim (Option-cases (lookup k s.vm_task_map)) [
  | inl e ↦ rw (e, block_vm) (absent-ne s.vm_task_map s.run_queue k h e)
  | inr (t, e) ↦ rw (e, block_vm) (erase_key-ne s.vm_task_map s.run_queue k t h e)
]

priority_of-weight_of :
    (p : ℤ)
    → priority_of (weight_of p) ≡ (if leb_ℤ (negsuc 1) p && leb_ℤ p (pos 2) then p else pos 0)
unfolding priority_of weight_of
priority_of-weight_of (pos n) = ground arith
priority_of-weight_of (negsuc n) = ground arith

-- For a machine with a task, CFSScheduler reads back a priority of the table after it is set, and
-- reads any other priority back as 0.
pub get_vm_priority-set_vm_priority :
    (s : CfsScheduler) (k : ℕ) (p : ℤ) (t : CfsTask)
    → lookup k s.vm_task_map ≡ some t
    → get_vm_priority k (set_vm_priority k p s)
      ≡ (if leb_ℤ (negsuc 1) p && leb_ℤ p (pos 2) then p else pos 0)
unfolding get_vm_priority set_vm_priority
get_vm_priority-set_vm_priority s k p t e =
    let li = lookup-insert_self k (record t { weight = weight_of p }) s.vm_task_map in
    rw (e, set_vm_priority, get_vm_priority) (rw li (priority_of-weight_of p))

charged-lt :
    (m : Map CfsTask) (k : ℕ) (t u : CfsTask)
    → IsStored m u
    → lookup k m ≡ some t
    → 0 < t.vruntime
    → u.vm_id ≡ k
    → 0 < u.vruntime
charged-lt m k t u hu e p l =
    let same : t ≡ u = cc in subst (λ (x : CfsTask). 0 < x.vruntime) same p

no_key :
    (m : Map CfsTask) (q : List CfsTask) (k : ℕ) (t : CfsTask)
    → All (IsStored m) q
    → lookup k m ≡ some t
    → 0 < t.vruntime
    → has_key before (record { vm_id = k; vruntime = 0; weight = 0 }) q ≡ false
unfolding has_key before
no_key m [] k t h e p = refl
no_key m (u ∷ q) k t h e p =
    let rest = no_key m q k t h.1 e p in let positive = charged-lt m k t u h.0 e p in ground arith

-- Once the task of a machine of a consistent CFSScheduler has a positive virtual runtime, has_quota
-- answers false for the machine, whether it is in the queue or not.
pub has_quota-charged :
    (s : CfsScheduler) (k : ℕ) (t : CfsTask)
    → IsConsistent s
    → lookup k s.vm_task_map ≡ some t
    → 0 < t.vruntime
    → has_quota k s ≡ false
unfolding has_quota
has_quota-charged s k t h e p = no_key s.vm_task_map s.run_queue k t h.stored e p

-- A time slice costs a machine of a larger weight no more virtual runtime than one of a smaller
-- positive weight.
pub scaled_delta-antitone : (ms w v : ℕ) → 0 < w → w ≤ v → scaled_delta ms v ≤ scaled_delta ms w
unfolding scaled_delta
scaled_delta-antitone ms w v p h =
    let y = ms * 100 * default_weight in
    let bound = mul-div-le y v in
    (le-div_iff_mul-le {k = w} {x = y / v} {y = y} p).1
      (let step = mul-le-mul_left (y / v) h in omega arith)
