-- ===== src/Sched/Manager/Switch.antt =====
-- Switching the scheduler (`set_scheduler` of src/vm/SchedulerManager.cpp).
use my_vm_os.Base.{
  ℕ, ◌≡◌, refl, ap, if◌then◌else◌, inl, inr, true, false, Option, some, add64, Option-cases, lookup,
  insert, lookup-insert_self,
}
use my_vm_os.Base.Int.{ℤ}
use my_vm_os.Sched.Vm.{Heap, Vm, set_ctx, get_vm-some}
use my_vm_os.Sched.Quota
use my_vm_os.Sched.Policy.{Policy, quota}
use my_vm_os.Sched.Policy
use my_vm_os.Sched.Manager.{
  SchedulerManager, returned, waiting, register_vm, unregister_vm, has_quota, set_scheduler, stop,
  get_current_scheduler_name, block_vm,
}

-- The manager after the switch, its mutex still locked.
abbrev pub switched : Policy → SchedulerManager → SchedulerManager
switched policy m = record m {
  current_scheduler =
      some (record { scheduler_id = m.next_scheduler_id; policy = Policy.start policy });
  scheduler_switch_mtx = true;
  next_scheduler_id = add64 m.next_scheduler_id 1;
}

-- With the mutex free, set_scheduler with a scheduler does not return: it waits for its own mutex,
-- with the new scheduler in place and started, and every later set_scheduler, register_vm,
-- unregister_vm and get_current_scheduler_name waits too.
pub set_scheduler-waiting :
    (policy : Policy) (m : SchedulerManager) (vm_id : ℕ) (next : Option Policy)
    → m.scheduler_switch_mtx ≡ false
    → let s = switched policy m in
      (set_scheduler (some policy) m ≡ waiting s)
      × (set_scheduler next s ≡ waiting s)
      × ((now vm : ℕ) → register_vm now vm_id vm s ≡ waiting s)
      × (unregister_vm vm_id s ≡ waiting s)
      × (get_current_scheduler_name s ≡ waiting s)
unfolding set_scheduler register_vm unregister_vm get_current_scheduler_name stop
set_scheduler-waiting policy m vm_id next free = (
  ap (λ held. if held then waiting m else waiting (switched policy m)) free,
  refl,
  λ now vm. refl,
  refl,
  refl,
)

-- A manager that uses the quota scheduler, its mutex free.
abbrev pub uses_quota : ℕ → Quota.QuotaScheduler → ℕ → SchedulerManager
uses_quota id q next_id = record {
  current_scheduler = some (record { scheduler_id = id; policy = quota q });
  scheduler_switch_mtx = false;
  next_scheduler_id = next_id;
}

drop_task-vm_refs :
    (vm_id : ℕ) (q : Quota.QuotaScheduler) → (Quota.drop_task vm_id q).vm_refs ≡ q.vm_refs
unfolding Quota.drop_task
drop_task-vm_refs vm_id q = elim (Option-cases (lookup vm_id q.vm_task_map)) [
  | inl e ↦ rw (e, Quota.drop_task) refl
  | inr (t, e) ↦ rw (e, Quota.drop_task) refl
]

has_quota-block_vm :
    (q : Quota.QuotaScheduler) (heap : Heap) (vm_id : ℕ) (reason : ℤ) (p : ℕ) (vm : Vm)
    → lookup vm_id q.vm_refs ≡ some p
    → lookup p heap ≡ some vm
    → Quota.has_quota vm_id (Quota.block_vm vm_id reason (q, heap)) ≡ false
unfolding Quota.has_quota Quota.block_vm set_ctx
has_quota-block_vm q heap vm_id reason p vm ref alive =
    let found = get_vm-some q.vm_refs heap vm_id ref alive in
    let ctx = record (vm.sched_ctx) { blocked_reason = reason; has_quota = false } in
    let kept : lookup vm_id (Quota.drop_task vm_id q).vm_refs ≡ some p =
      rw (drop_task-vm_refs vm_id q) ref in
    let changed =
      get_vm-some (Quota.drop_task vm_id q).vm_refs (insert p (record vm { sched_ctx = ctx }) heap)
        vm_id kept (lookup-insert_self p (record vm { sched_ctx = ctx }) heap) in
    rw (found, Quota.block_vm) (rw (changed, Quota.has_quota) refl)

-- After block_vm of a SchedulerManager that uses QuotaScheduler, has_quota answers false for a
-- machine that is registered and alive.
pub block_vm-has_quota :
    (q : Quota.QuotaScheduler) (heap : Heap) (id next_id vm_id : ℕ) (reason : ℤ) (p : ℕ) (vm : Vm)
    → lookup vm_id q.vm_refs ≡ some p
    → lookup p heap ≡ some vm
    → has_quota vm_id (block_vm vm_id reason (uses_quota id q next_id, heap)) ≡ returned false
unfolding block_vm has_quota Policy.block_vm Policy.has_quota
block_vm-has_quota q heap id next_id vm_id reason p vm ref alive =
    ap returned (has_quota-block_vm q heap vm_id reason p vm ref alive)
