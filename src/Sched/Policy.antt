-- ===== src/Sched/Policy.antt =====
-- `SchedulerBase` (include/vm/Scheduler/SchedulerBase.h): the calls that every scheduler answers, each
-- by its own class. The clock is the argument `now`; the machines are on the heap.
use my_vm_os.Base.{ℕ, Bool}
use my_vm_os.Base.Int.{ℤ}
use my_vm_os.Sched.Vm.{Heap}
use my_vm_os.Sched.Cfs
use my_vm_os.Sched.Edf
use my_vm_os.Sched.Quota
use my_vm_os.Sched.Hybrid

-- The object behind a `SchedulerBase` pointer, by its class.
pub data Policy : Type 0 where
  cfs : Cfs.CfsScheduler → Policy
  edf : Edf.EdfScheduler → Policy
  quota : Quota.QuotaScheduler → Policy
  hybrid : Hybrid.HybridScheduler → Policy

unfoldable pub start : Policy → Policy
start (cfs s) = cfs (Cfs.start s)
start (edf s) = edf (Edf.start s)
start (quota s) = quota (Quota.start s)
start (hybrid s) = hybrid (Hybrid.start s)

unfoldable pub stop : Policy → Policy
stop (cfs s) = cfs (Cfs.stop s)
stop (edf s) = edf (Edf.stop s)
stop (quota s) = quota (Quota.stop s)
stop (hybrid s) = hybrid (Hybrid.stop s)

unfoldable pub is_running : Policy → Bool
is_running (cfs s) = s.running
is_running (edf s) = s.running
is_running (quota s) = s.scheduler_running
is_running (hybrid s) = s.running

unfoldable pub register_vm : ℕ → ℕ → ℕ → Policy → Policy
register_vm now vm_id vm (cfs s) = cfs (Cfs.register_vm vm_id vm s)
register_vm now vm_id vm (edf s) = edf (Edf.register_vm now vm_id vm s)
register_vm now vm_id vm (quota s) = quota (Quota.register_vm vm_id vm s)
register_vm now vm_id vm (hybrid s) = hybrid (Hybrid.register_vm now vm_id vm s)

unfoldable pub unregister_vm : ℕ → Policy → Policy
unregister_vm vm_id (cfs s) = cfs (Cfs.unregister_vm vm_id s)
unregister_vm vm_id (edf s) = edf (Edf.unregister_vm vm_id s)
unregister_vm vm_id (quota s) = quota (Quota.unregister_vm vm_id s)
unregister_vm vm_id (hybrid s) = hybrid (Hybrid.unregister_vm vm_id s)

unfoldable pub schedule_vm : ℕ → ℕ → Policy × Heap → Policy × Heap
schedule_vm now vm_id (cfs s, heap) =
    let after = Cfs.schedule_vm vm_id s heap in (cfs after.0, after.1)
schedule_vm now vm_id (edf s, heap) = (edf (Edf.schedule_vm now vm_id s), heap)
schedule_vm now vm_id (quota s, heap) = (quota (Quota.schedule_vm vm_id heap s), heap)
schedule_vm now vm_id (hybrid s, heap) = (hybrid (Hybrid.schedule_vm now vm_id s), heap)

unfoldable pub block_vm : ℕ → ℤ → Policy × Heap → Policy × Heap
block_vm vm_id reason (cfs s, heap) = (cfs (Cfs.block_vm vm_id s), heap)
block_vm vm_id reason (edf s, heap) = (edf (Edf.block_vm vm_id s), heap)
block_vm vm_id reason (quota s, heap) =
    let after = Quota.block_vm vm_id reason (s, heap) in (quota after.0, after.1)
block_vm vm_id reason (hybrid s, heap) = (hybrid (Hybrid.block_vm vm_id s), heap)

unfoldable pub wake_vm : ℕ → ℕ → Policy × Heap → Policy × Heap
wake_vm now vm_id (cfs s, heap) = (cfs (Cfs.wake_vm vm_id s), heap)
wake_vm now vm_id (edf s, heap) = (edf (Edf.wake_vm now vm_id s), heap)
wake_vm now vm_id (quota s, heap) =
    let after = Quota.wake_vm vm_id (s, heap) in (quota after.0, after.1)
wake_vm now vm_id (hybrid s, heap) = (hybrid (Hybrid.wake_vm now vm_id s), heap)

unfoldable pub get_vm_priority : ℕ → Policy → ℤ
get_vm_priority vm_id (cfs s) = Cfs.get_vm_priority vm_id s
get_vm_priority vm_id (edf s) = Edf.get_vm_priority vm_id s
get_vm_priority vm_id (quota s) = Quota.get_vm_priority vm_id s
get_vm_priority vm_id (hybrid s) = Hybrid.get_vm_priority vm_id s

unfoldable pub get_vm_vruntime : ℕ → Policy → ℕ
get_vm_vruntime vm_id (cfs s) = Cfs.get_vm_vruntime vm_id s
get_vm_vruntime vm_id (edf s) = Edf.get_vm_vruntime vm_id s
get_vm_vruntime vm_id (quota s) = Quota.get_vm_vruntime vm_id s
get_vm_vruntime vm_id (hybrid s) = Hybrid.get_vm_vruntime vm_id s

unfoldable pub has_quota : ℕ → Policy × Heap → Bool
has_quota vm_id (cfs s, heap) = Cfs.has_quota vm_id s
has_quota vm_id (edf s, heap) = Edf.has_quota vm_id s
has_quota vm_id (quota s, heap) = Quota.has_quota vm_id (s, heap)
has_quota vm_id (hybrid s, heap) = Hybrid.has_quota vm_id s

unfoldable pub set_vm_priority : ℕ → ℕ → ℤ → Policy × Heap → Policy
set_vm_priority now vm_id priority (cfs s, heap) = cfs (Cfs.set_vm_priority vm_id priority s)
set_vm_priority now vm_id priority (edf s, heap) = edf (Edf.set_vm_priority vm_id priority s)
set_vm_priority now vm_id priority (quota s, heap) =
    quota (Quota.set_vm_priority vm_id priority heap s)
set_vm_priority now vm_id priority (hybrid s, heap) =
    hybrid (Hybrid.set_vm_priority now vm_id priority s)
