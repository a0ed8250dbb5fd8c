-- ===== src/Sched/Edf.antt =====
-- `EDFScheduler` (include/vm/Scheduler/EDF_Scheduler.h, src/vm/Scheduler/EDF_Scheduler.cpp). The clock
-- `get_time_ns` is the argument `now`. One round of `scheduler_loop` is `tick`; threads, waiting and
-- logging are left out. `update_deadlines` does nothing.
pub mod Deadline
pub mod Starvation
pub mod Served
pub mod Earliest
use my_vm_os.Base.{
  ℕ, ◌+◌, ◌-◌, ◌%◌, Bool, true, false, List, [], ◌∷◌, Option, none, some, leb, ◌==◌, add64, u64_mod,
  if◌then◌else◌, Map, lookup, insert, erase,
}
use my_vm_os.Base.Int.{ℤ, pos}
use my_vm_os.Sched.DeadlineQueue.{EdfTask, push_task, rebuild, top_vm}

pub record EdfScheduler : Type 0 where
  pub edf_queue : List EdfTask
  pub vm_task_map : Map EdfTask
  pub vm_refs : Map ℕ
  pub running : Bool

abbrev pub default_period_ns : ℕ
default_period_ns = 10000000

abbrev pub default_deadline_ns : ℕ
default_deadline_ns = 10000000

unfoldable pub construct : EdfScheduler
construct = record { edf_queue = []; vm_task_map = []; vm_refs = []; running = false }

unfoldable pub start : EdfScheduler → EdfScheduler
start s = record s { running = true }

unfoldable pub stop : EdfScheduler → EdfScheduler
stop s = record s { running = false }

unfoldable pub register_vm : ℕ → ℕ → ℕ → EdfScheduler → EdfScheduler
register_vm now vm_id vm s =
    let task : EdfTask = record {
      vm_id = vm_id;
      deadline_ns = add64 now default_deadline_ns;
      period_ns = default_period_ns;
      vruntime = 0;
      priority = pos 0;
    } in
    record s {
      vm_refs = insert vm_id vm s.vm_refs;
      vm_task_map = insert vm_id task s.vm_task_map;
      edf_queue = push_task task s.edf_queue;
    }

unfoldable pub unregister_vm : ℕ → EdfScheduler → EdfScheduler
unregister_vm vm_id s = record s {
  vm_task_map = erase vm_id s.vm_task_map;
  vm_refs = erase vm_id s.vm_refs;
  edf_queue = rebuild vm_id s.edf_queue [];
}

-- The task with a new deadline is pushed; an older entry of the same machine stays in the queue.
unfoldable pub schedule_vm : ℕ → ℕ → EdfScheduler → EdfScheduler
schedule_vm now vm_id s = elim (lookup vm_id s.vm_task_map) [
  | none ↦ s
  | some task ↦
      let task' : EdfTask = record task { deadline_ns = add64 now task.period_ns } in
      record s {
        vm_task_map = insert vm_id task' s.vm_task_map;
        edf_queue = push_task task' s.edf_queue;
      }
]

-- `block_vm` changes nothing: the machine stays in the queue.
unfoldable pub block_vm : ℕ → EdfScheduler → EdfScheduler
block_vm vm_id s = elim (lookup vm_id s.vm_task_map) [ none ↦ s | some _ ↦ s ]

unfoldable pub wake_vm : ℕ → ℕ → EdfScheduler → EdfScheduler
wake_vm now vm_id s = elim (lookup vm_id s.vm_task_map) [
  | none ↦ s
  | some task ↦
      let task' : EdfTask =
        if leb task.deadline_ns now
        then record task { deadline_ns = add64 now task.period_ns }
        else task in
      record s {
        vm_task_map = insert vm_id task' s.vm_task_map;
        edf_queue = push_task task' s.edf_queue;
      }
]

unfoldable pub get_vm_priority : ℕ → EdfScheduler → ℤ
get_vm_priority vm_id s = elim (lookup vm_id s.vm_task_map) [
  | none ↦ pos 0
  | some task ↦ task.priority
]

unfoldable pub get_vm_vruntime : ℕ → EdfScheduler → ℕ
get_vm_vruntime vm_id s = elim (lookup vm_id s.vm_task_map) [ none ↦ 0 | some task ↦ task.vruntime ]

unfoldable pub has_quota : ℕ → EdfScheduler → Bool
has_quota vm_id s = elim (lookup vm_id s.vm_task_map) [ none ↦ false | some _ ↦ true ]

unfoldable pub set_vm_priority : ℕ → ℤ → EdfScheduler → EdfScheduler
set_vm_priority vm_id priority s = elim (lookup vm_id s.vm_task_map) [
  | none ↦ s
  | some task ↦ record s {
    vm_task_map = insert vm_id (record task { priority = priority }) s.vm_task_map;
  }
]

-- The deadline in the queue is not changed.
unfoldable pub set_vm_deadline : ℕ → ℕ → ℕ → EdfScheduler → EdfScheduler
set_vm_deadline now vm_id deadline_ns s = elim (lookup vm_id s.vm_task_map) [
  | none ↦ s
  | some task ↦
      let task' : EdfTask = record task {
        deadline_ns = add64 now deadline_ns;
        period_ns = deadline_ns;
      } in
      record s { vm_task_map = insert vm_id task' s.vm_task_map }
]

unfoldable pub get_remaining_deadline : ℕ → ℕ → EdfScheduler → ℕ
get_remaining_deadline now vm_id s = elim (lookup vm_id s.vm_task_map) [
  | none ↦ 0
  | some task ↦ if leb task.deadline_ns now then 0 else task.deadline_ns - now
]

unfoldable pub pick_next_task : EdfScheduler → ℕ
pick_next_task s = top_vm s.edf_queue

-- One round of `scheduler_loop` at the time `now`.
unfoldable pub tick : ℕ → EdfScheduler → EdfScheduler
tick now s = let next_vm = pick_next_task s in if next_vm == 0 then s else schedule_vm now next_vm s

-- `while (running_)`: the rounds at the times that the clock shows.
unfoldable pub scheduler_loop : List ℕ → EdfScheduler → EdfScheduler
scheduler_loop [] s = s
scheduler_loop (now ∷ times) s = scheduler_loop times (tick now s)
