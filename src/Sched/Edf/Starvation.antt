-- ===== src/Sched/Edf/Starvation.antt =====
-- The picks of the loop of `EDFScheduler` (src/vm/Scheduler/EDF_Scheduler.cpp), and what its rounds
-- leave in the queue.
use my_vm_os.Base.{
  ℕ, ◌+◌, ◌≡◌, ◌≢◌, refl, sym, ◌∙◌, ap, inl, inr, List, [], ◌∷◌, some, ◌==◌, arith, Bool-cases,
  Option-cases, ==_ne, length, lookup, lookup-insert_self, add64,
}
use my_vm_os.Sched.DeadlineQueue.{EdfTask, top_vm}
use my_vm_os.Sched.DeadlineQueue.Laws.{length-push_task, top_vm-push_task}
use my_vm_os.Sched.Edf.{EdfScheduler, schedule_vm, pick_next_task, tick, scheduler_loop}
use my_vm_os.Sched.Edf.Deadline.{IsOrdered, tick-IsOrdered}

pick_next_task-schedule_vm :
    (s : EdfScheduler) (now : ℕ)
    → IsOrdered s
    → pick_next_task (schedule_vm now (pick_next_task s) s) ≡ pick_next_task s
unfolding schedule_vm top_vm pick_next_task
pick_next_task-schedule_vm s now h = elim (Option-cases (lookup (pick_next_task s) s.vm_task_map)) [
  | inl e ↦ rw (e, schedule_vm) refl
  | inr (t, e) ↦
      rw (e, schedule_vm)
        (top_vm-push_task (record t { deadline_ns = add64 now t.period_ns }) s.edf_queue
          (sym (h.keyed.at (pick_next_task s) t e)))
]

pick_next_task-tick :
    (s : EdfScheduler) (now : ℕ) → IsOrdered s → pick_next_task (tick now s) ≡ pick_next_task s
unfolding tick
pick_next_task-tick s now h = elim (Bool-cases (pick_next_task s == 0)) [
  | inl e ↦ rw (e, tick) refl
  | inr e ↦ rw (e, tick) (pick_next_task-schedule_vm s now h)
]

-- However many rounds the loop of EDFScheduler runs from a state in order, and at whatever times,
-- the machine that is picked first is picked in every later round.
pub pick_next_task-scheduler_loop :
    (times : List ℕ) (s : EdfScheduler)
    → IsOrdered s
    → pick_next_task (scheduler_loop times s) ≡ pick_next_task s
unfolding scheduler_loop
pick_next_task-scheduler_loop [] s h = refl
pick_next_task-scheduler_loop (now ∷ times) s h =
    pick_next_task-scheduler_loop times (tick now s) (tick-IsOrdered s now h)
    ∙ pick_next_task-tick s now h

-- A round with a registered machine on top adds an entry, and the machine stays registered.
tick_lem :
    (s : EdfScheduler) (now : ℕ) (t : EdfTask)
    → pick_next_task s ≢ 0
    → lookup (pick_next_task s) s.vm_task_map ≡ some t
    → (length (tick now s).edf_queue ≡ length s.edf_queue + 1)
      × ((u : EdfTask) × (lookup (pick_next_task s) (tick now s).vm_task_map ≡ some u))
unfolding tick schedule_vm
tick_lem s now t n e =
    let t' : EdfTask = record t { deadline_ns = add64 now t.period_ns } in
    let l = lookup-insert_self (pick_next_task s) t' s.vm_task_map in
    rw (==_ne (pick_next_task s) 0 n, e, tick, schedule_vm)
      ((length-push_task t' s.edf_queue, (t', l)))

-- While the machine on top of a queue in order is registered, every round of the loop of
-- EDFScheduler leaves one more entry in the queue.
pub length-scheduler_loop :
    (times : List ℕ) (s : EdfScheduler) (t : EdfTask)
    → IsOrdered s
    → pick_next_task s ≢ 0
    → lookup (pick_next_task s) s.vm_task_map ≡ some t
    → length (scheduler_loop times s).edf_queue ≡ length s.edf_queue + length times
unfolding scheduler_loop
length-scheduler_loop [] s t h n e = omega arith
length-scheduler_loop (now ∷ times) s t h n e =
    let (longer, (u, l)) = tick_lem s now t n e in
    let p = pick_next_task-tick s now h in
    let rest =
      length-scheduler_loop times (tick now s) u (tick-IsOrdered s now h) (λ z. n (sym p ∙ z))
        (ap (λ k. lookup k (tick now s).vm_task_map) p ∙ l) in
    omega arith
