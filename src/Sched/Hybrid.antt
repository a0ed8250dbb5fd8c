-- ===== src/Sched/Hybrid.antt =====
-- `HybridScheduler` (include/vm/Scheduler/Hybrid_Scheduler.h, src/vm/Scheduler/Hybrid_Scheduler.cpp).
-- The clock is the argument `now`; one round of `scheduler_loop` is `tick`. Its `CFSTask` and
-- `EDFTask` are those of the other two schedulers, field by field.
pub mod Classes
use my_vm_os.Base.{
  ℕ, ◌+◌, ◌*◌, ◌/◌, ◌%◌, Bool, true, false, not, ◌&&◌, List, [], ◌∷◌, Option, none, some, leb, ◌==◌,
  add64, u64_mod, if◌then◌else◌, Map, lookup, insert, erase,
}
use my_vm_os.Base.Int.{ℤ, pos, leb_ℤ}
use my_vm_os.Sched.OrderedSet.{insert_key, erase_key}
use my_vm_os.Sched.DeadlineQueue.{EdfTask, push_task, rebuild, top_vm}
use my_vm_os.Sched.Cfs.{CfsTask, before, scaled_delta, default_weight}

pub record HybridScheduler : Type 0 where
  pub edf_queue : List EdfTask
  pub edf_task_map : Map EdfTask
  pub cfs_queue : List CfsTask
  pub cfs_task_map : Map CfsTask
  pub vm_refs : Map ℕ
  pub vm_priorities : Map ℤ
  pub running : Bool
  pub time_slice_ms : ℕ

abbrev pub default_period_ns : ℕ
default_period_ns = 10000000

abbrev pub default_deadline_ns : ℕ
default_deadline_ns = 10000000

-- `priority >= kRealTimePriority`
abbrev pub is_real_time : ℤ → Bool
is_real_time priority = leb_ℤ (pos 1) priority

unfoldable pub construct : HybridScheduler
construct = record {
  edf_queue = [];
  edf_task_map = [];
  cfs_queue = [];
  cfs_task_map = [];
  vm_refs = [];
  vm_priorities = [];
  running = false;
  time_slice_ms = 10;
}

unfoldable pub start : HybridScheduler → HybridScheduler
start s = record s { running = true }

unfoldable pub stop : HybridScheduler → HybridScheduler
stop s = record s { running = false }

unfoldable pub add_edf : EdfTask → HybridScheduler → HybridScheduler
add_edf t s = record s {
  edf_task_map = insert t.vm_id t s.edf_task_map;
  edf_queue = push_task t s.edf_queue;
}

unfoldable pub add_cfs : CfsTask → HybridScheduler → HybridScheduler
add_cfs t s = record s {
  cfs_task_map = insert t.vm_id t s.cfs_task_map;
  cfs_queue = insert_key before t s.cfs_queue;
}

unfoldable pub drop_cfs : ℕ → CfsTask → HybridScheduler → HybridScheduler
drop_cfs vm_id t s = record s {
  cfs_queue = erase_key before t s.cfs_queue;
  cfs_task_map = erase vm_id s.cfs_task_map;
}

-- The priority is 0, so the test for a real-time task fails.
unfoldable pub register_vm : ℕ → ℕ → ℕ → HybridScheduler → HybridScheduler
register_vm now vm_id vm s =
    let priority = pos 0 in
    let s' : HybridScheduler = record s {
      vm_refs = insert vm_id vm s.vm_refs;
      vm_priorities = insert vm_id priority s.vm_priorities;
    } in
    if is_real_time priority
    then add_edf
        (record {
          vm_id = vm_id;
          deadline_ns = add64 now default_deadline_ns;
          period_ns = default_period_ns;
          vruntime = 0;
          priority = priority;
        })
        s'
    else add_cfs (record { vm_id = vm_id; vruntime = 0; weight = default_weight }) s'

unfoldable pub unregister_edf : ℕ → HybridScheduler → HybridScheduler
unregister_edf vm_id s = elim (lookup vm_id s.edf_task_map) [
  | none ↦ s
  | some _ ↦ record s {
    edf_task_map = erase vm_id s.edf_task_map;
    edf_queue = rebuild vm_id s.edf_queue [];
  }
]

unfoldable pub unregister_cfs : ℕ → HybridScheduler → HybridScheduler
unregister_cfs vm_id s = elim (lookup vm_id s.cfs_task_map) [
  | none ↦ s
  | some t ↦ drop_cfs vm_id t s
]

unfoldable pub unregister_vm : ℕ → HybridScheduler → HybridScheduler
unfolding unregister_edf unregister_cfs
unregister_vm vm_id s =
    let s' = unregister_cfs vm_id (unregister_edf vm_id s) in
    record s' { vm_refs = erase vm_id s'.vm_refs; vm_priorities = erase vm_id s'.vm_priorities }

unfoldable pub schedule_edf : ℕ → ℕ → HybridScheduler → HybridScheduler
schedule_edf now vm_id s = elim (lookup vm_id s.edf_task_map) [
  | none ↦ s
  | some t ↦
      let t' : EdfTask = record t { deadline_ns = add64 now t.period_ns } in
      record s {
        edf_task_map = insert vm_id t' s.edf_task_map;
        edf_queue = push_task t' s.edf_queue;
      }
]

-- The virtual runtime wraps; there is no upper bound as in `CFSScheduler`.
unfoldable pub schedule_cfs : ℕ → HybridScheduler → HybridScheduler
schedule_cfs vm_id s = elim (lookup vm_id s.cfs_task_map) [
  | none ↦ s
  | some t ↦
      let t' : CfsTask = record t {
        vruntime = add64 t.vruntime (scaled_delta s.time_slice_ms t.weight);
      } in
      record s {
        cfs_task_map = insert vm_id t' s.cfs_task_map;
        cfs_queue = insert_key before t' (erase_key before t s.cfs_queue);
      }
]

unfoldable pub schedule_vm : ℕ → ℕ → HybridScheduler → HybridScheduler
schedule_vm now vm_id s = elim (lookup vm_id s.vm_priorities) [
  | none ↦ s
  | some p ↦ if is_real_time p then schedule_edf now vm_id s else schedule_cfs vm_id s
]

unfoldable pub block_vm : ℕ → HybridScheduler → HybridScheduler
block_vm vm_id s = elim (lookup vm_id s.vm_priorities) [
  | none ↦ s
  | some p ↦ if is_real_time p then s else elim (lookup vm_id s.cfs_task_map) [
    | none ↦ s
    | some t ↦ record s { cfs_queue = erase_key before t s.cfs_queue }
  ]
]

unfoldable pub wake_edf : ℕ → ℕ → HybridScheduler → HybridScheduler
wake_edf now vm_id s = elim (lookup vm_id s.edf_task_map) [
  | none ↦ s
  | some t ↦
      let t' : EdfTask =
        if leb t.deadline_ns now then record t { deadline_ns = add64 now t.period_ns } else t in
      record s {
        edf_task_map = insert vm_id t' s.edf_task_map;
        edf_queue = push_task t' s.edf_queue;
      }
]

unfoldable pub wake_vm : ℕ → ℕ → HybridScheduler → HybridScheduler
unfolding wake_edf
wake_vm now vm_id s = elim (lookup vm_id s.vm_priorities) [
  | none ↦ s
  | some p ↦ if is_real_time p then wake_edf now vm_id s else elim (lookup vm_id s.cfs_task_map) [
    | none ↦ s
    | some t ↦ record s { cfs_queue = insert_key before t s.cfs_queue }
  ]
]

unfoldable pub get_vm_priority : ℕ → HybridScheduler → ℤ
get_vm_priority vm_id s = elim (lookup vm_id s.vm_priorities) [ none ↦ pos 0 | some p ↦ p ]

unfoldable pub get_vm_vruntime : ℕ → HybridScheduler → ℕ
get_vm_vruntime vm_id s = elim (lookup vm_id s.edf_task_map) [
  | some t ↦ t.vruntime
  | none ↦ elim (lookup vm_id s.cfs_task_map) [ none ↦ 0 | some t ↦ t.vruntime ]
]

unfoldable pub has_quota : ℕ → HybridScheduler → Bool
has_quota vm_id s = elim (lookup vm_id s.vm_priorities) [
  | none ↦ false
  | some p ↦
      if is_real_time p
      then elim (lookup vm_id s.edf_task_map) [ none ↦ false | some _ ↦ true ]
      else elim (lookup vm_id s.cfs_task_map) [ none ↦ false | some _ ↦ true ]
]

-- The task leaves the EDF map; its entries in the EDF queue stay.
unfoldable pub edf_to_cfs : ℕ → HybridScheduler → HybridScheduler
edf_to_cfs vm_id s = elim (lookup vm_id s.edf_task_map) [
  | none ↦ s
  | some t ↦
      let s' =
        add_cfs (record { vm_id = vm_id; vruntime = t.vruntime; weight = default_weight }) s in
      record s' { edf_task_map = erase vm_id s'.edf_task_map }
]

unfoldable pub cfs_to_edf : ℕ → ℕ → ℤ → HybridScheduler → HybridScheduler
cfs_to_edf now vm_id priority s = elim (lookup vm_id s.cfs_task_map) [
  | none ↦ s
  | some t ↦ drop_cfs vm_id t (
      add_edf
        (record {
          vm_id = vm_id;
          deadline_ns = add64 now default_deadline_ns;
          period_ns = default_period_ns;
          vruntime = t.vruntime;
          priority = priority;
        })
        s)
]

unfoldable pub set_vm_priority : ℕ → ℕ → ℤ → HybridScheduler → HybridScheduler
set_vm_priority now vm_id priority s = elim (lookup vm_id s.vm_priorities) [
  | none ↦ s
  | some old_priority ↦
      let was_edf = is_real_time old_priority in
      let is_edf = is_real_time priority in
      let s' : HybridScheduler = record s {
        vm_priorities = insert vm_id priority s.vm_priorities;
      } in
      if was_edf && not is_edf
      then edf_to_cfs vm_id s'
      else if not was_edf && is_edf
      then cfs_to_edf now vm_id priority s'
      else s'
]

unfoldable pub pick_cfs_task : HybridScheduler → ℕ
pick_cfs_task s = elim s.cfs_queue [ [] ↦ 0 | t ∷ q ↦ t.vm_id ]

unfoldable pub pick_edf_task : HybridScheduler → ℕ
pick_edf_task s = top_vm s.edf_queue

unfoldable pub pick_next_task : HybridScheduler → ℕ
pick_next_task s =
    let edf_vm = pick_edf_task s in if not (edf_vm == 0) then edf_vm else pick_cfs_task s

unfoldable pub tick : ℕ → HybridScheduler → HybridScheduler
tick now s = let next_vm = pick_next_task s in if next_vm == 0 then s else schedule_vm now next_vm s
