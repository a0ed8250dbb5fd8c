-- ===== src/Sched/DeadlineQueue/Laws.antt =====
-- The order of the deadline queue (include/vm/Scheduler/EDF_Scheduler.h), and what a rebuild leaves.
use my_vm_os.Base.{
  ℕ, ◌+◌, ◌≤◌, ◌≡◌, ◌≢◌, sym, inl, inr, List, [], ◌∷◌, ltb, ◌==◌, arith, All, All-map, Bool-cases,
  length,
}
use my_vm_os.Sched.DeadlineQueue.{EdfTask, push_task, rebuild, top_vm}

-- Earliest deadline first.
abbrev pub IsSorted : List EdfTask → Type 0
IsSorted [] = Unit
IsSorted (t ∷ q) = All (λ u. t.deadline_ns ≤ u.deadline_ns) q × IsSorted q

pub All-push_task :
    (P : EdfTask → Type 0) (t : EdfTask) (q : List EdfTask) → P t → All P q → All P (push_task t q)
unfolding push_task
All-push_task P t [] p h = (p, tt)
All-push_task P t (u ∷ q) p h = elim (Bool-cases (ltb t.deadline_ns u.deadline_ns)) [
  | inl e ↦ rw e ((p, h))
  | inr e ↦ rw e ((h.0, All-push_task P t q p h.1))
]

pub push_task-IsSorted : (t : EdfTask) (q : List EdfTask) → IsSorted q → IsSorted (push_task t q)
unfolding push_task
push_task-IsSorted t [] h = (tt, tt)
push_task-IsSorted t (u ∷ q) h = elim (Bool-cases (ltb t.deadline_ns u.deadline_ns)) [
  | inl e ↦ rw e (((ground arith, All-map q (λ v k. ground arith) h.0), h))
  | inr e ↦ rw e (
      (
        All-push_task (λ v. u.deadline_ns ≤ v.deadline_ns) t q (ground arith) h.0,
        push_task-IsSorted t q h.1,
      ))
]

pub length-push_task : (t : EdfTask) (q : List EdfTask) → length (push_task t q) ≡ length q + 1
unfolding push_task
length-push_task t [] = omega arith
length-push_task t (u ∷ q) = ground (arith, length-push_task t q)

pub rebuild-IsSorted :
    (k : ℕ) (q new_queue : List EdfTask) → IsSorted new_queue → IsSorted (rebuild k q new_queue)
unfolding rebuild
rebuild-IsSorted k [] r h = h
rebuild-IsSorted k (t ∷ q) r h = elim (Bool-cases (t.vm_id == k)) [
  | inl e ↦ rw e (rebuild-IsSorted k q r h)
  | inr e ↦ rw e (rebuild-IsSorted k q (push_task t r) (push_task-IsSorted t r h))
]

pub rebuild-ne :
    (k : ℕ) (q new_queue : List EdfTask)
    → All (λ u. u.vm_id ≢ k) new_queue
    → All (λ u. u.vm_id ≢ k) (rebuild k q new_queue)
unfolding rebuild
rebuild-ne k [] r h = h
rebuild-ne k (t ∷ q) r h = elim (Bool-cases (t.vm_id == k)) [
  | inl e ↦ rw e (rebuild-ne k q r h)
  | inr e ↦
      rw e (
        rebuild-ne k q (push_task t r) (All-push_task (λ u. u.vm_id ≢ k) t r (λ p. ground arith) h))
]

-- A task of the machine on top, pushed again with whatever deadline, leaves the machine on top.
pub top_vm-push_task :
    (t : EdfTask) (q : List EdfTask) → top_vm q ≡ t.vm_id → top_vm (push_task t q) ≡ top_vm q
unfolding top_vm push_task
top_vm-push_task t [] e = sym e
top_vm-push_task t (u ∷ q) e = ground arith
