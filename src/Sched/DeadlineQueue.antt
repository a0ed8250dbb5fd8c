-- ===== src/Sched/DeadlineQueue.antt =====
-- `EDFTask` and its `std::priority_queue` (include/vm/Scheduler/EDF_Scheduler.h). The queue is a list
-- by deadline, earliest first. Which of several earliest tasks is on top is not specified by C++; here
-- it is the first that was pushed.
pub mod Laws
use my_vm_os.Base.{ℕ, Bool, List, [], ◌∷◌, Option, none, some, ltb, ◌==◌, if◌then◌else◌}
use my_vm_os.Base.Int.{ℤ}

pub record EdfTask : Type 0 where
  pub vm_id : ℕ
  pub deadline_ns : ℕ
  pub period_ns : ℕ
  pub vruntime : ℕ
  pub priority : ℤ

unfoldable pub push_task : EdfTask → List EdfTask → List EdfTask
push_task t [] = t ∷ []
push_task t (u ∷ q) = if ltb t.deadline_ns u.deadline_ns then t ∷ u ∷ q else u ∷ push_task t q

-- `while (!queue.empty())`: the tasks of other machines, pushed on a new queue.
unfoldable pub rebuild : ℕ → List EdfTask → List EdfTask → List EdfTask
rebuild vm_id [] new_queue = new_queue
rebuild vm_id (t ∷ q) new_queue =
    rebuild vm_id q (if t.vm_id == vm_id then new_queue else push_task t new_queue)

unfoldable pub top_vm : List EdfTask → ℕ
top_vm [] = 0
top_vm (t ∷ q) = t.vm_id
