-- ===== src/Sched/Cfs.antt =====
-- `CFSScheduler` (include/vm/Scheduler/CFS_Scheduler.h, src/vm/Scheduler/CFS_Scheduler.cpp). One round
-- of `scheduler_loop` is `tick`; threads, waiting and logging are left out.
pub mod Queue
pub mod Fair
use my_vm_os.Base.{
  ℕ, ◌+◌, ◌*◌, ◌/◌, ◌%◌, Bool, true, false, List, [], ◌∷◌, Option, none, some, ltb, ◌==◌, u64_mod,
  add64, if◌then◌else◌, Map, lookup, insert, erase,
}
use my_vm_os.Base.Int.{ℤ, pos, negsuc}
use my_vm_os.Sched.Vm.{Vm, VmScheduleCtx, Heap, get_vm, set_ctx}
use my_vm_os.Sched.OrderedSet.{insert_key, erase_key, has_key}

pub record CfsTask : Type 0 where
  pub vm_id : ℕ
  pub vruntime : ℕ
  pub weight : ℕ

-- `operator<`: by virtual runtime, then by id.
unfoldable pub before : CfsTask → CfsTask → Bool
before a b = if a.vruntime == b.vruntime then ltb a.vm_id b.vm_id else ltb a.vruntime b.vruntime

pub record CfsScheduler : Type 0 where
  pub run_queue : List CfsTask
  pub vm_task_map : Map CfsTask
  pub vm_refs : Map ℕ
  pub running : Bool
  pub time_slice_ms : ℕ

abbrev pub default_weight : ℕ
default_weight = 1024

abbrev pub max_vruntime : ℕ
max_vruntime = 0x7fff_ffff_ffff_ffff

-- `priority_to_weight_`, with the default weight for a priority that is not in the table.
unfoldable pub weight_of : ℤ → ℕ
weight_of (negsuc n) = if n == 0 then 820 else if n == 1 then 512 else default_weight
weight_of (pos n) =
    if n == 0 then 1024 else if n == 1 then 1280 else if n == 2 then 2048 else default_weight

-- The priority whose weight this is, and 0 for a weight that is not in the table.
unfoldable pub priority_of : ℕ → ℤ
priority_of w =
    if w == 512
    then negsuc 1
    else if w == 820
    then negsuc 0
    else if w == 1280
    then pos 1
    else if w == 2048
    then pos 2
    else pos 0

unfoldable pub construct : CfsScheduler
construct = record {
  run_queue = [];
  vm_task_map = [];
  vm_refs = [];
  running = false;
  time_slice_ms = 10;
}

-- `running_.exchange(true)`, and the thread if it was false.
unfoldable pub start : CfsScheduler → CfsScheduler
start s = record s { running = true }

unfoldable pub stop : CfsScheduler → CfsScheduler
stop s = record s { running = false }

-- The task goes to the queue beside one that is there from an earlier registration.
unfoldable pub register_vm : ℕ → ℕ → CfsScheduler → CfsScheduler
register_vm vm_id vm s =
    let task : CfsTask = record { vm_id = vm_id; vruntime = 0; weight = default_weight } in
    record s {
      vm_refs = insert vm_id vm s.vm_refs;
      vm_task_map = insert vm_id task s.vm_task_map;
      run_queue = insert_key before task s.run_queue;
    }

unfoldable pub unregister_vm : ℕ → CfsScheduler → CfsScheduler
unregister_vm vm_id s =
    record (elim (lookup vm_id s.vm_task_map) [
      | none ↦ s
      | some task ↦ record s {
        run_queue = erase_key before task s.run_queue;
        vm_task_map = erase vm_id s.vm_task_map;
      }
    ]) { vm_refs = erase vm_id s.vm_refs }

-- The growth of the virtual runtime in one time slice.
unfoldable pub scaled_delta : ℕ → ℕ → ℕ
scaled_delta time_slice_ms weight = time_slice_ms * 100 * default_weight / weight

unfoldable pub advance : ℕ → CfsTask → CfsTask
advance time_slice_ms t =
    let sum = add64 t.vruntime (scaled_delta time_slice_ms t.weight) in
    record t { vruntime = if ltb max_vruntime sum then max_vruntime else sum }

unfoldable pub publish : Map ℕ → ℕ → ℕ → Heap → Heap
publish vm_refs vm_id vruntime heap = elim (get_vm vm_refs heap vm_id) [
  | none ↦ heap
  | some (p, vm) ↦ set_ctx (p, vm) (record (vm.sched_ctx) { vruntime = vruntime }) heap
]

-- The task is taken out, charged for a time slice and put back, and the machine is told.
unfoldable pub update_vruntime : ℕ → CfsScheduler → Heap → CfsScheduler × Heap
unfolding publish
update_vruntime vm_id s heap = elim (lookup vm_id s.vm_task_map) [
  | none ↦ (s, heap)
  | some task ↦
      let task' : CfsTask = advance s.time_slice_ms task in
      (
        record s {
          run_queue = insert_key before task' (erase_key before task s.run_queue);
          vm_task_map = insert vm_id task' s.vm_task_map;
        },
        publish s.vm_refs vm_id task'.vruntime heap,
      )
]

unfoldable pub schedule_vm : ℕ → CfsScheduler → Heap → CfsScheduler × Heap
schedule_vm vm_id s heap = elim (lookup vm_id s.vm_task_map) [
  | none ↦ (s, heap)
  | some _ ↦ update_vruntime vm_id s heap
]

unfoldable pub block_vm : ℕ → CfsScheduler → CfsScheduler
block_vm vm_id s = elim (lookup vm_id s.vm_task_map) [
  | none ↦ s
  | some task ↦ record s { run_queue = erase_key before task s.run_queue }
]

unfoldable pub wake_vm : ℕ → CfsScheduler → CfsScheduler
wake_vm vm_id s = elim (lookup vm_id s.vm_task_map) [
  | none ↦ s
  | some task ↦ record s { run_queue = insert_key before task s.run_queue }
]

unfoldable pub get_vm_priority : ℕ → CfsScheduler → ℤ
get_vm_priority vm_id s = elim (lookup vm_id s.vm_task_map) [
  | none ↦ pos 0
  | some task ↦ priority_of task.weight
]

unfoldable pub get_vm_vruntime : ℕ → CfsScheduler → ℕ
get_vm_vruntime vm_id s = elim (lookup vm_id s.vm_task_map) [ none ↦ 0 | some task ↦ task.vruntime ]

-- The key that is looked for has the virtual runtime 0.
unfoldable pub has_quota : ℕ → CfsScheduler → Bool
has_quota vm_id s = has_key before (record { vm_id = vm_id; vruntime = 0; weight = 0 }) s.run_queue

unfoldable pub set_vm_priority : ℕ → ℤ → CfsScheduler → CfsScheduler
set_vm_priority vm_id priority s = elim (lookup vm_id s.vm_task_map) [
  | none ↦ s
  | some task ↦
      let task' : CfsTask = record task { weight = weight_of priority } in
      record s {
        run_queue = insert_key before task' (erase_key before task s.run_queue);
        vm_task_map = insert vm_id task' s.vm_task_map;
      }
]

unfoldable pub first_vm : List CfsTask → ℕ
first_vm [] = 0
first_vm (t ∷ q) = t.vm_id

unfoldable pub pick_next_task : CfsScheduler → ℕ
unfolding first_vm
pick_next_task s = first_vm s.run_queue

-- One round of `scheduler_loop`.
unfoldable pub tick : CfsScheduler → Heap → CfsScheduler × Heap
tick s heap =
    let next_vm = pick_next_task s in
    if next_vm == 0 then (s, heap) else update_vruntime next_vm s heap
