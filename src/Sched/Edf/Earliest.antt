-- ===== src/Sched/Edf/Earliest.antt =====
-- Whom `EDFScheduler` (src/vm/Scheduler/EDF_Scheduler.cpp) picks: the machine with the earliest deadline.
use my_vm_os.Base.{
  ℕ, ◌≤◌, ◌≡◌, ◌≢◌, refl, inl, inr, List, [], ◌∷◌, none, some, leb, ◌==◌, arith, All, IsIn,
  Option-cases, Map, lookup, if_both,
}
use my_vm_os.Base.Int.{ℤ}
use my_vm_os.Sched.DeadlineQueue.{EdfTask, top_vm}
use my_vm_os.Sched.DeadlineQueue.Laws.{IsSorted}
use my_vm_os.Sched.Edf.{
  EdfScheduler, construct, start, stop, register_vm, unregister_vm, schedule_vm, block_vm, wake_vm,
  set_vm_priority, pick_next_task, tick,
}
use my_vm_os.Sched.Edf.Deadline.{
  IsOrdered, Reachable, by_construct, by_start, by_stop, by_register, by_unregister, by_schedule,
  by_block, by_wake, by_priority, by_deadline, by_tick, Reachable-IsOrdered,
}
use my_vm_os.Sched.Edf.Served.{
  HasEntry, AllKnown, IsServed, pushed-IsServed, erased-IsServed, replaced-IsServed,
}

-- No call of `set_vm_deadline`, which leaves the entries of the queue as they are.
abbrev pub IsSteady : {s : EdfScheduler} → Reachable s → Type 0
IsSteady by_construct = Unit
IsSteady (by_start r) = IsSteady r
IsSteady (by_stop r) = IsSteady r
IsSteady (by_register now k vm r) = IsSteady r
IsSteady (by_unregister k r) = IsSteady r
IsSteady (by_schedule now k r) = IsSteady r
IsSteady (by_block k r) = IsSteady r
IsSteady (by_wake now k r) = IsSteady r
IsSteady (by_priority k p r) = IsSteady r
IsSteady (by_deadline now k d r) = ⊥
IsSteady (by_tick now r) = IsSteady r

abbrev Serves : EdfScheduler → Type 0
Serves s = IsServed s.vm_task_map s.edf_queue

module _ (s : EdfScheduler) (h : IsOrdered s) (v : Serves s) (k : ℕ) where
  register_vm-Serves : (now vm : ℕ) → Serves (register_vm now k vm s)
  unfolding register_vm
  register_vm-Serves now vm = pushed-IsServed s.vm_task_map s.edf_queue v k _ refl

  unregister_vm-Serves : Serves (unregister_vm k s)
  unfolding unregister_vm
  unregister_vm-Serves = erased-IsServed s.vm_task_map s.edf_queue v k

  schedule_vm-Serves : (now : ℕ) → Serves (schedule_vm now k s)
  unfolding schedule_vm
  schedule_vm-Serves now = elim (Option-cases (lookup k s.vm_task_map)) [
    | inl e ↦ rw (e, schedule_vm) v
    | inr (t, e) ↦
        rw (e, schedule_vm) (pushed-IsServed s.vm_task_map s.edf_queue v k _ (h.keyed.at k t e))
  ]

  block_vm-Serves : Serves (block_vm k s)
  unfolding block_vm
  block_vm-Serves = elim (Option-cases (lookup k s.vm_task_map)) [
    | inl e ↦ rw (e, block_vm) v
    | inr (t, e) ↦ rw (e, block_vm) v
  ]

  wake_vm-Serves : (now : ℕ) → Serves (wake_vm now k s)
  unfolding wake_vm
  wake_vm-Serves now = elim (Option-cases (lookup k s.vm_task_map)) [
    | inl e ↦ rw (e, wake_vm) v
    | inr (t, e) ↦
        let i = h.keyed.at k t e in
        rw (e, wake_vm)
          (pushed-IsServed s.vm_task_map s.edf_queue v k _
            (if_both (λ (u : EdfTask). u.vm_id ≡ k) (leb t.deadline_ns now) _ t i i))
  ]

  set_vm_priority-Serves : (p : ℤ) → Serves (set_vm_priority k p s)
  unfolding set_vm_priority
  set_vm_priority-Serves p = elim (Option-cases (lookup k s.vm_task_map)) [
    | inl e ↦ rw (e, set_vm_priority) v
    | inr (t, e) ↦
        rw (e, set_vm_priority)
          (replaced-IsServed s.vm_task_map s.edf_queue v k t (record t { priority = p }) e refl)
  ]

tick-Serves : (s : EdfScheduler) (now : ℕ) → IsOrdered s → Serves s → Serves (tick now s)
unfolding tick
tick-Serves s now h v =
    if_both Serves (pick_next_task s == 0) s (schedule_vm now (pick_next_task s) s) v
      (schedule_vm-Serves s h v (pick_next_task s) now)

Reachable-Serves : (s : EdfScheduler) (r : Reachable s) → IsSteady r → Serves s
unfolding construct start stop lookup
Reachable-Serves _ by_construct f = record { known = tt; queued = λ k t e. ground arith }
Reachable-Serves _ (by_start {s} r) f = Reachable-Serves s r f
Reachable-Serves _ (by_stop {s} r) f = Reachable-Serves s r f
Reachable-Serves _ (by_register {s} now k vm r) f =
    register_vm-Serves s (Reachable-IsOrdered s r) (Reachable-Serves s r f) k now vm
Reachable-Serves _ (by_unregister {s} k r) f =
    unregister_vm-Serves s (Reachable-IsOrdered s r) (Reachable-Serves s r f) k
Reachable-Serves _ (by_schedule {s} now k r) f =
    schedule_vm-Serves s (Reachable-IsOrdered s r) (Reachable-Serves s r f) k now
Reachable-Serves _ (by_block {s} k r) f =
    block_vm-Serves s (Reachable-IsOrdered s r) (Reachable-Serves s r f) k
Reachable-Serves _ (by_wake {s} now k r) f =
    wake_vm-Serves s (Reachable-IsOrdered s r) (Reachable-Serves s r f) k now
Reachable-Serves _ (by_priority {s} k p r) f =
    set_vm_priority-Serves s (Reachable-IsOrdered s r) (Reachable-Serves s r f) k p
Reachable-Serves _ (by_deadline {s} now k d r) f = absurd f
Reachable-Serves _ (by_tick {s} now r) f =
    tick-Serves s now (Reachable-IsOrdered s r) (Reachable-Serves s r f)

least-HasEntry :
    (u : EdfTask) (q : List EdfTask) (k d : ℕ)
    → All (λ w. u.deadline_ns ≤ w.deadline_ns) q
    → HasEntry k d q
    → u.deadline_ns ≤ d
least-HasEntry u [] k d h e = absurd e
least-HasEntry u (w ∷ q) k d h (inl e) = omega (arith, h.0, e.1)
least-HasEntry u (w ∷ q) k d h (inr e) = least-HasEntry u q k d h.1 e

top_lem :
    (m : Map EdfTask) (q : List EdfTask) (k d : ℕ)
    → IsSorted q
    → AllKnown m q
    → HasEntry k d q
    → (u : EdfTask) × (IsIn u q
        × ((u.vm_id ≡ top_vm q) × ((u.deadline_ns ≤ d) × (lookup (top_vm q) m ≢ none))))
unfolding top_vm
top_lem m [] k d o a e = absurd e
top_lem m (u ∷ q) k d o a (inl e) = (u, (inl refl, (refl, (omega (arith, e.1), a.0))))
top_lem m (u ∷ q) k d o a (inr e) = (u, (inl refl, (refl, (least-HasEntry u q k d o.0 e, a.0))))

-- In every state that the operations of EDFScheduler reach without a call of set_vm_deadline, while
-- a machine is registered, pick_next_task picks a registered machine, by an entry of the queue whose
-- deadline is no later than the deadline in the task of any registered machine.
pub pick_next_task_earliest :
    (s : EdfScheduler) (r : Reachable s) (k : ℕ) (t : EdfTask)
    → IsSteady r
    → lookup k s.vm_task_map ≡ some t
    → (u : EdfTask) × (IsIn u s.edf_queue
        × ((u.vm_id ≡ pick_next_task s)
            × ((u.deadline_ns ≤ t.deadline_ns) × (lookup (pick_next_task s) s.vm_task_map ≢ none))))
unfolding pick_next_task
pick_next_task_earliest s r k t f registered =
    let h = Reachable-IsOrdered s r in
    let v = Reachable-Serves s r f in
    top_lem s.vm_task_map s.edf_queue k t.deadline_ns h.sorted v.known (v.queued k t registered)
