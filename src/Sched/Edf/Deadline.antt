-- ===== src/Sched/Edf/Deadline.antt =====
-- The order and the picks of `EDFScheduler` (src/vm/Scheduler/EDF_Scheduler.cpp).
use my_vm_os.Base.{
  ℕ, ◌≡◌, ◌≢◌, refl, inl, inr, [], leb, ◌==◌, All, Bool-cases, Option-cases, lookup, insert,
}
use my_vm_os.Base.Int.{ℤ}
use my_vm_os.Sched.DeadlineQueue.{EdfTask, push_task}
use my_vm_os.Sched.DeadlineQueue.Laws.{IsSorted, push_task-IsSorted, rebuild-IsSorted, rebuild-ne}
use my_vm_os.Sched.Keyed.{IsKeyed, empty-IsKeyed, insert-IsKeyed, erase-IsKeyed}
use my_vm_os.Sched.Edf.{
  EdfScheduler, construct, start, stop, register_vm, unregister_vm, schedule_vm, block_vm, wake_vm,
  set_vm_priority, set_vm_deadline, pick_next_task, tick,
}

abbrev pub id_of : EdfTask → ℕ
id_of t = t.vm_id

-- The queue is in order, and a task stands under its machine's id.
pub record IsOrdered (s : EdfScheduler) : Type 0 where
  pub sorted : IsSorted s.edf_queue
  pub keyed : IsKeyed id_of s.vm_task_map

-- The states that the interface reaches from the constructor.
pub data Reachable : EdfScheduler → Type 0 where
  by_construct : Reachable construct
  by_start : {s : EdfScheduler} → Reachable s → Reachable (start s)
  by_stop : {s : EdfScheduler} → Reachable s → Reachable (stop s)
  by_register : {s : EdfScheduler} (now k vm : ℕ) → Reachable s → Reachable (register_vm now k vm s)
  by_unregister : {s : EdfScheduler} (k : ℕ) → Reachable s → Reachable (unregister_vm k s)
  by_schedule : {s : EdfScheduler} (now k : ℕ) → Reachable s → Reachable (schedule_vm now k s)
  by_block : {s : EdfScheduler} (k : ℕ) → Reachable s → Reachable (block_vm k s)
  by_wake : {s : EdfScheduler} (now k : ℕ) → Reachable s → Reachable (wake_vm now k s)
  by_priority : {s : EdfScheduler} (k : ℕ) (p : ℤ) → Reachable s → Reachable (set_vm_priority k p s)
  by_deadline :
      {s : EdfScheduler} (now k d : ℕ) → Reachable s → Reachable (set_vm_deadline now k d s)
  by_tick : {s : EdfScheduler} (now : ℕ) → Reachable s → Reachable (tick now s)

-- A new task of the machine `k` in the map and the queue.
pushed-IsOrdered :
    (s : EdfScheduler) (k : ℕ) (t : EdfTask)
    → IsOrdered s
    → t.vm_id ≡ k
    → IsOrdered
        (record s { vm_task_map = insert k t s.vm_task_map; edf_queue = push_task t s.edf_queue })
pushed-IsOrdered s k t h e = record {
  sorted = push_task-IsSorted t s.edf_queue h.sorted;
  keyed = insert-IsKeyed id_of k t s.vm_task_map e h.keyed;
}

module _ (s : EdfScheduler) (h : IsOrdered s) (k : ℕ) where
  register_vm-IsOrdered : (now vm : ℕ) → IsOrdered (register_vm now k vm s)
  unfolding register_vm
  register_vm-IsOrdered now vm = record {
    sorted = push_task-IsSorted _ s.edf_queue h.sorted;
    keyed = insert-IsKeyed id_of k _ s.vm_task_map refl h.keyed;
  }

  unregister_vm-IsOrdered : IsOrdered (unregister_vm k s)
  unfolding unregister_vm
  unregister_vm-IsOrdered = record {
    sorted = rebuild-IsSorted k s.edf_queue [] tt;
    keyed = erase-IsKeyed id_of k s.vm_task_map h.keyed;
  }

  schedule_vm-IsOrdered : (now : ℕ) → IsOrdered (schedule_vm now k s)
  unfolding schedule_vm
  schedule_vm-IsOrdered now = elim (Option-cases (lookup k s.vm_task_map)) [
    | inl e ↦ rw (e, schedule_vm) h
    | inr (t, e) ↦ rw (e, schedule_vm) (pushed-IsOrdered s k _ h (h.keyed.at k t e))
  ]

  block_vm-IsOrdered : IsOrdered (block_vm k s)
  unfolding block_vm
  block_vm-IsOrdered = elim (Option-cases (lookup k s.vm_task_map)) [
    | inl e ↦ rw (e, block_vm) h
    | inr (t, e) ↦ rw (e, block_vm) h
  ]

  wake_vm-IsOrdered : (now : ℕ) → IsOrdered (wake_vm now k s)
  unfolding wake_vm
  wake_vm-IsOrdered now = elim (Option-cases (lookup k s.vm_task_map)) [
    | inl e ↦ rw (e, wake_vm) h
    | inr (t, e) ↦
        rw (e, wake_vm)
          (pushed-IsOrdered s k _ h (
            let i = h.keyed.at k t e in
            elim (Bool-cases (leb t.deadline_ns now)) [ inl b ↦ rw b i | inr b ↦ rw b i ]))
  ]

  set_vm_priority-IsOrdered : (p : ℤ) → IsOrdered (set_vm_priority k p s)
  unfolding set_vm_priority
  set_vm_priority-IsOrdered p = elim (Option-cases (lookup k s.vm_task_map)) [
    | inl e ↦ rw (e, set_vm_priority) h
    | inr (t, e) ↦
        rw (e, set_vm_priority)
          (record {
            sorted = h.sorted;
            keyed = insert-IsKeyed id_of k _ s.vm_task_map (h.keyed.at k t e) h.keyed;
          })
  ]

  set_vm_deadline-IsOrdered : (now d : ℕ) → IsOrdered (set_vm_deadline now k d s)
  unfolding set_vm_deadline
  set_vm_deadline-IsOrdered now d = elim (Option-cases (lookup k s.vm_task_map)) [
    | inl e ↦ rw (e, set_vm_deadline) h
    | inr (t, e) ↦
        rw (e, set_vm_deadline)
          (record {
            sorted = h.sorted;
            keyed = insert-IsKeyed id_of k _ s.vm_task_map (h.keyed.at k t e) h.keyed;
          })
  ]

pub tick-IsOrdered : (s : EdfScheduler) (now : ℕ) → IsOrdered s → IsOrdered (tick now s)
unfolding tick
tick-IsOrdered s now h = elim (Bool-cases (pick_next_task s == 0)) [
  | inl e ↦ rw (e, tick) h
  | inr e ↦ rw (e, tick) (schedule_vm-IsOrdered s h (pick_next_task s) now)
]

-- In every state that the operations of EDFScheduler reach, the queue is in the order of the
-- deadlines and a task stands in the map under its machine's id.
pub Reachable-IsOrdered : (s : EdfScheduler) → Reachable s → IsOrdered s
unfolding construct start stop
Reachable-IsOrdered _ by_construct = record { sorted = tt; keyed = empty-IsKeyed id_of }
Reachable-IsOrdered _ (by_start {s} r) =
    let h = Reachable-IsOrdered s r in record { sorted = h.sorted; keyed = h.keyed }
Reachable-IsOrdered _ (by_stop {s} r) =
    let h = Reachable-IsOrdered s r in record { sorted = h.sorted; keyed = h.keyed }
Reachable-IsOrdered _ (by_register {s} now k vm r) =
    register_vm-IsOrdered s (Reachable-IsOrdered s r) k now vm
Reachable-IsOrdered _ (by_unregister {s} k r) =
    unregister_vm-IsOrdered s (Reachable-IsOrdered s r) k
Reachable-IsOrdered _ (by_schedule {s} now k r) =
    schedule_vm-IsOrdered s (Reachable-IsOrdered s r) k now
Reachable-IsOrdered _ (by_block {s} k r) = block_vm-IsOrdered s (Reachable-IsOrdered s r) k
Reachable-IsOrdered _ (by_wake {s} now k r) = wake_vm-IsOrdered s (Reachable-IsOrdered s r) k now
Reachable-IsOrdered _ (by_priority {s} k p r) =
    set_vm_priority-IsOrdered s (Reachable-IsOrdered s r) k p
Reachable-IsOrdered _ (by_deadline {s} now k d r) =
    set_vm_deadline-IsOrdered s (Reachable-IsOrdered s r) k now d
Reachable-IsOrdered _ (by_tick {s} now r) = tick-IsOrdered s now (Reachable-IsOrdered s r)

-- After unregister_vm of EDFScheduler, no entry of the machine is in the queue.
pub unregister_vm-ne :
    (s : EdfScheduler) (k : ℕ) → All (λ t. t.vm_id ≢ k) (unregister_vm k s).edf_queue
unfolding unregister_vm
unregister_vm-ne s k = rebuild-ne k s.edf_queue [] tt
