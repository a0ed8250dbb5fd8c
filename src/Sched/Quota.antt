-- ===== src/Sched/Quota.antt =====
-- `QuotaScheduler` (include/vm/Scheduler/QuotaScheduler.h, src/vm/Scheduler/QuotaScheduler.cpp). One
-- round of `scheduler_loop` is `tick`; threads, waiting and logging are left out.
pub mod Grant
use my_vm_os.Base.{
  ℕ, ◌+◌, ◌%◌, Bool, true, false, ◌||◌, List, [], ◌∷◌, Option, none, some, ltb, add64, u64_mod,
  if◌then◌else◌, Map, lookup, insert, erase,
}
use my_vm_os.Base.Int.{ℤ, pos, ltb_ℤ, eqb_ℤ}
use my_vm_os.Sched.Vm.{
  VmState, created, running, suspended_waiting_interrupt, terminated, Vm, VmScheduleCtx, Heap,
  get_vm, set_ctx,
}
use my_vm_os.Sched.OrderedSet.{insert_key, erase_key}

pub record ScheduleTask : Type 0 where
  pub vm_id : ℕ
  pub priority : ℤ
  pub vruntime : ℕ

-- `operator<`: the higher priority, then the smaller virtual runtime. The id is not compared.
unfoldable pub before : ScheduleTask → ScheduleTask → Bool
before a b =
    if eqb_ℤ a.priority b.priority then ltb a.vruntime b.vruntime else ltb_ℤ b.priority a.priority

pub record QuotaScheduler : Type 0 where
  pub ready_queue : List ScheduleTask
  pub vm_task_map : Map ScheduleTask
  pub vm_refs : Map ℕ
  pub scheduler_running : Bool

abbrev pub max_instructions_per_slice : ℕ
max_instructions_per_slice = 50

unfoldable pub construct : QuotaScheduler
construct = record { ready_queue = []; vm_task_map = []; vm_refs = []; scheduler_running = false }

unfoldable pub start : QuotaScheduler → QuotaScheduler
start s = record s { scheduler_running = true }

unfoldable pub stop : QuotaScheduler → QuotaScheduler
stop s = record s { scheduler_running = false }

-- `ready_queue_.insert(task); vm_task_map_[vm_id] = task;`
unfoldable pub enqueue : ScheduleTask → QuotaScheduler → QuotaScheduler
enqueue task s = record s {
  ready_queue = insert_key before task s.ready_queue;
  vm_task_map = insert task.vm_id task s.vm_task_map;
}

unfoldable pub register_vm : ℕ → ℕ → QuotaScheduler → QuotaScheduler
register_vm vm_id vm s =
    enqueue (record { vm_id = vm_id; priority = pos 0; vruntime = 0 })
      (record s { vm_refs = insert vm_id vm s.vm_refs })

-- The task goes from the queue and the map.
unfoldable pub drop_task : ℕ → QuotaScheduler → QuotaScheduler
drop_task vm_id s = elim (lookup vm_id s.vm_task_map) [
  | none ↦ s
  | some task ↦ record s {
    ready_queue = erase_key before task s.ready_queue;
    vm_task_map = erase vm_id s.vm_task_map;
  }
]

unfoldable pub unregister_vm : ℕ → QuotaScheduler → QuotaScheduler
unregister_vm vm_id s = record (drop_task vm_id s) { vm_refs = erase vm_id s.vm_refs }

unfoldable pub task_of : ℕ → Vm → ScheduleTask
task_of vm_id vm = record {
  vm_id = vm_id;
  priority = vm.sched_ctx.priority;
  vruntime = vm.sched_ctx.vruntime;
}

-- The old key goes, and the task with the priority comes back.
unfoldable pub requeue : ScheduleTask → ℤ → QuotaScheduler → QuotaScheduler
requeue task priority s =
    enqueue (record task { priority = priority })
      (record s { ready_queue = erase_key before task s.ready_queue })

unfoldable pub schedule_vm : ℕ → Heap → QuotaScheduler → QuotaScheduler
schedule_vm vm_id heap s = elim (get_vm s.vm_refs heap vm_id) [
  | none ↦ s
  | some (p, vm) ↦ elim (lookup vm_id s.vm_task_map) [
    | none ↦ enqueue (task_of vm_id vm) s
    | some task ↦ requeue task vm.sched_ctx.priority s
  ]
]

unfoldable pub block_vm : ℕ → ℤ → QuotaScheduler × Heap → QuotaScheduler × Heap
block_vm vm_id reason (s, heap) = elim (get_vm s.vm_refs heap vm_id) [
  | none ↦ (s, heap)
  | some (p, vm) ↦ (
    drop_task vm_id s,
    set_ctx (p, vm) (record (vm.sched_ctx) { blocked_reason = reason; has_quota = false }) heap,
  )
]

unfoldable pub wake_vm : ℕ → QuotaScheduler × Heap → QuotaScheduler × Heap
wake_vm vm_id (s, heap) = elim (get_vm s.vm_refs heap vm_id) [
  | none ↦ (s, heap)
  | some (p, vm) ↦ (
    enqueue (task_of vm_id vm) s,
    set_ctx (p, vm) (record (vm.sched_ctx) { blocked_reason = pos 0 }) heap,
  )
]

unfoldable pub get_vm_priority : ℕ → QuotaScheduler → ℤ
get_vm_priority vm_id s = elim (lookup vm_id s.vm_task_map) [
  | none ↦ pos 0
  | some task ↦ task.priority
]

unfoldable pub get_vm_vruntime : ℕ → QuotaScheduler → ℕ
get_vm_vruntime vm_id s = elim (lookup vm_id s.vm_task_map) [ none ↦ 0 | some task ↦ task.vruntime ]

unfoldable pub has_quota : ℕ → QuotaScheduler × Heap → Bool
has_quota vm_id (s, heap) = elim (get_vm s.vm_refs heap vm_id) [
  | none ↦ false
  | some (p, vm) ↦ vm.sched_ctx.has_quota
]

unfoldable pub set_vm_priority : ℕ → ℤ → Heap → QuotaScheduler → QuotaScheduler
set_vm_priority vm_id priority heap s = elim (get_vm s.vm_refs heap vm_id) [
  | none ↦ s
  | some _ ↦ elim (lookup vm_id s.vm_task_map) [ none ↦ s | some task ↦ requeue task priority s ]
]

unfoldable pub may_run : VmState → Bool
may_run created = true
may_run running = true
may_run suspended_waiting_interrupt = false
may_run terminated = false

-- A runnable machine gets a quota.
unfoldable pub grant : Map ℕ → ScheduleTask → Heap → Heap
grant vm_refs t heap = elim (get_vm vm_refs heap t.vm_id) [
  | none ↦ heap
  | some (p, vm) ↦
      if may_run vm.state
      then set_ctx (p, vm) (record (vm.sched_ctx) { has_quota = true }) heap
      else heap
]

-- `allocate_quotas`: over the ready queue in its order.
unfoldable pub grant_all : Map ℕ → List ScheduleTask → Heap → Heap
grant_all vm_refs [] heap = heap
grant_all vm_refs (t ∷ q) heap = grant_all vm_refs q (grant vm_refs t heap)

unfoldable pub allocate_quotas : QuotaScheduler → Heap → Heap
allocate_quotas s heap = grant_all s.vm_refs s.ready_queue heap

-- `update_vruntime`: the map and the machines are charged, the queue is not.
unfoldable pub charge_all : Map ℕ → Map ScheduleTask → Heap → Map ScheduleTask × Heap
charge_all vm_refs [] heap = ([], heap)
charge_all vm_refs ((k, t) ∷ m) heap =
    let charge : ℕ × Vm → ScheduleTask × Heap = λ pv.
      let v = add64 t.vruntime max_instructions_per_slice in
      (record t { vruntime = v }, set_ctx pv (record (pv.1.sched_ctx) { vruntime = v }) heap) in
    let here : ScheduleTask × Heap = elim (get_vm vm_refs heap k) [
      | none ↦ (t, heap)
      | some (p, vm) ↦ if vm.sched_ctx.has_quota then charge (p, vm) else (t, heap)
    ] in
    let (m', heap') = charge_all vm_refs m here.1 in ((k, here.0) ∷ m', heap')

unfoldable pub update_vruntime : QuotaScheduler × Heap → QuotaScheduler × Heap
update_vruntime (s, heap) =
    let (m, heap') = charge_all s.vm_refs s.vm_task_map heap in
    (record s { vm_task_map = m }, heap')

-- One round of `scheduler_loop`.
unfoldable pub tick : QuotaScheduler × Heap → QuotaScheduler × Heap
tick (s, heap) = update_vruntime (s, allocate_quotas s heap)
