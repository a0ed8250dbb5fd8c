-- ===== src/Sched/Cfs/Queue/Reach.antt =====
-- The operations of `CFSScheduler` (src/vm/Scheduler/CFS_Scheduler.cpp) keep the run queue consistent.
use my_vm_os.Base.{ℕ, ◌≡◌, refl, inl, inr, none, ◌==◌, lookup, Option-cases, Bool-cases}
use my_vm_os.Base.Int.{ℤ}
use my_vm_os.Sched.Vm.{Heap}
use my_vm_os.Sched.Keyed.{empty-IsKeyed}
use my_vm_os.Sched.Cfs.{
  CfsScheduler, construct, start, stop, register_vm, unregister_vm, advance, update_vruntime,
  schedule_vm, block_vm, default_weight, weight_of, wake_vm, set_vm_priority, pick_next_task, tick,
}
use my_vm_os.Sched.Cfs.Queue.{
  id_of, IsConsistent, erase_key-IsQueue, removed-IsQueue, insert_key-IsQueue, added-IsQueue,
  replaced-IsQueue, absent-ne,
}

-- The states that the interface reaches from the constructor, where no machine is registered while
-- it has a task.
pub data Reachable : CfsScheduler → Type 0 where
  by_construct : Reachable construct
  by_start : {s : CfsScheduler} → Reachable s → Reachable (start s)
  by_stop : {s : CfsScheduler} → Reachable s → Reachable (stop s)
  by_register :
      {s : CfsScheduler} (k vm : ℕ)
      → lookup k s.vm_task_map ≡ none
      → Reachable s
      → Reachable (register_vm k vm s)
  by_unregister : {s : CfsScheduler} (k : ℕ) → Reachable s → Reachable (unregister_vm k s)
  by_schedule :
      {s : CfsScheduler} (k : ℕ) (heap : Heap) → Reachable s → Reachable (schedule_vm k s heap).0
  by_block : {s : CfsScheduler} (k : ℕ) → Reachable s → Reachable (block_vm k s)
  by_wake : {s : CfsScheduler} (k : ℕ) → Reachable s → Reachable (wake_vm k s)
  by_priority : {s : CfsScheduler} (k : ℕ) (p : ℤ) → Reachable s → Reachable (set_vm_priority k p s)
  by_tick : {s : CfsScheduler} (heap : Heap) → Reachable s → Reachable (tick s heap).0

module _ (s : CfsScheduler) (h : IsConsistent s) (k : ℕ) where
  register_vm-IsConsistent :
      (vm : ℕ) → lookup k s.vm_task_map ≡ none → IsConsistent (register_vm k vm s)
  unfolding register_vm
  register_vm-IsConsistent vm l =
      added-IsQueue s.vm_task_map s.run_queue k
        (record { vm_id = k; vruntime = 0; weight = default_weight }) h refl
        (absent-ne s.vm_task_map s.run_queue k h l)

  unregister_vm-IsConsistent : IsConsistent (unregister_vm k s)
  unfolding unregister_vm
  unregister_vm-IsConsistent = elim (Option-cases (lookup k s.vm_task_map)) [
    | inl e ↦ rw (e, unregister_vm) h
    | inr (t, e) ↦ rw (e, unregister_vm) (removed-IsQueue s.vm_task_map s.run_queue k t h e)
  ]

  update_vruntime-IsConsistent : (heap : Heap) → IsConsistent (update_vruntime k s heap).0
  unfolding update_vruntime advance
  update_vruntime-IsConsistent heap = elim (Option-cases (lookup k s.vm_task_map)) [
    | inl e ↦ rw (e, update_vruntime) h
    | inr (t, e) ↦
        rw (e, update_vruntime)
          (replaced-IsQueue s.vm_task_map s.run_queue k t (advance s.time_slice_ms t) h e refl)
  ]

  schedule_vm-IsConsistent : (heap : Heap) → IsConsistent (schedule_vm k s heap).0
  unfolding schedule_vm
  schedule_vm-IsConsistent heap = elim (Option-cases (lookup k s.vm_task_map)) [
    | inl e ↦ rw (e, schedule_vm) h
    | inr (t, e) ↦ rw (e, schedule_vm) (update_vruntime-IsConsistent heap)
  ]

  block_vm-IsConsistent : IsConsistent (block_vm k s)
  unfolding block_vm
  block_vm-IsConsistent = elim (Option-cases (lookup k s.vm_task_map)) [
    | inl e ↦ rw (e, block_vm) h
    | inr (t, e) ↦ rw (e, block_vm) (erase_key-IsQueue s.vm_task_map s.run_queue k t h e)
  ]

  wake_vm-IsConsistent : IsConsistent (wake_vm k s)
  unfolding wake_vm
  wake_vm-IsConsistent = elim (Option-cases (lookup k s.vm_task_map)) [
    | inl e ↦ rw (e, wake_vm) h
    | inr (t, e) ↦ rw (e, wake_vm) (insert_key-IsQueue s.vm_task_map s.run_queue k t h e)
  ]

  set_vm_priority-IsConsistent : (p : ℤ) → IsConsistent (set_vm_priority k p s)
  unfolding set_vm_priority
  set_vm_priority-IsConsistent p = elim (Option-cases (lookup k s.vm_task_map)) [
    | inl e ↦ rw (e, set_vm_priority) h
    | inr (t, e) ↦
        rw (e, set_vm_priority)
          (replaced-IsQueue s.vm_task_map s.run_queue k t (record t { weight = weight_of p }) h e
            refl)
  ]

tick-IsConsistent : (s : CfsScheduler) (heap : Heap) → IsConsistent s → IsConsistent (tick s heap).0
unfolding tick
tick-IsConsistent s heap h = elim (Bool-cases (pick_next_task s == 0)) [
  | inl e ↦ rw (e, tick) h
  | inr e ↦ rw (e, tick) (update_vruntime-IsConsistent s h (pick_next_task s) heap)
]

-- In every state that the operations of CFSScheduler reach, where no machine is registered while it
-- has a task, the run queue is in order without equal keys, a task stands in the map under its
-- machine's id, and every entry of the queue is the task that the map holds for its machine.
pub Reachable-IsConsistent : (s : CfsScheduler) → Reachable s → IsConsistent s
unfolding construct start stop
Reachable-IsConsistent _ by_construct = record {
  sorted = tt;
  keyed = empty-IsKeyed id_of;
  stored = tt;
}
Reachable-IsConsistent _ (by_start {s} r) = Reachable-IsConsistent s r
Reachable-IsConsistent _ (by_stop {s} r) = Reachable-IsConsistent s r
Reachable-IsConsistent _ (by_register {s} k vm l r) =
    register_vm-IsConsistent s (Reachable-IsConsistent s r) k vm l
Reachable-IsConsistent _ (by_unregister {s} k r) =
    unregister_vm-IsConsistent s (Reachable-IsConsistent s r) k
Reachable-IsConsistent _ (by_schedule {s} k heap r) =
    schedule_vm-IsConsistent s (Reachable-IsConsistent s r) k heap
Reachable-IsConsistent _ (by_block {s} k r) = block_vm-IsConsistent s (Reachable-IsConsistent s r) k
Reachable-IsConsistent _ (by_wake {s} k r) = wake_vm-IsConsistent s (Reachable-IsConsistent s r) k
Reachable-IsConsistent _ (by_priority {s} k p r) =
    set_vm_priority-IsConsistent s (Reachable-IsConsistent s r) k p
Reachable-IsConsistent _ (by_tick {s} heap r) =
    tick-IsConsistent s heap (Reachable-IsConsistent s r)
