-- ===== src/Sched/Manager/Alive.antt =====
-- The objects that the scheduler's calls keep on the heap (src/vm/SchedulerManager.cpp).
use my_vm_os.Base.{
  ℕ, ◌≡◌, ◌∙◌, inl, inr, some, Option-cases, same_or_ne, lookup, insert, lookup-insert_self,
  lookup-insert_ne,
}
use my_vm_os.Base.Int.{ℤ}
use my_vm_os.Sched.Vm.{Vm, Heap, set_ctx}
use my_vm_os.Sched.Vm
use my_vm_os.Sched.Quota
use my_vm_os.Sched.Policy.{Policy, cfs, edf, quota, hybrid}
use my_vm_os.Sched.Policy
use my_vm_os.Sched.Manager.{SchedulerManager}
use my_vm_os.Sched.Manager

abbrev pub IsAlive : ℕ → Heap → Type 0
IsAlive p heap = (vm : Vm) × (lookup p heap ≡ some vm)

insert-IsAlive : (p q : ℕ) (vm : Vm) (heap : Heap) → IsAlive p heap → IsAlive p (insert q vm heap)
insert-IsAlive p q vm heap (base, h) = elim (same_or_ne q p) [
  | inl e ↦ rw e ((vm, lookup-insert_self p vm heap))
  | inr e ↦ (base, lookup-insert_ne q p vm heap e ∙ h)
]

Quota_wake_vm-IsAlive :
    (p vm_id : ℕ) (q : Quota.QuotaScheduler) (heap : Heap)
    → IsAlive p heap
    → IsAlive p (Quota.wake_vm vm_id (q, heap)).1
unfolding set_ctx Quota.wake_vm
Quota_wake_vm-IsAlive p vm_id q heap h = elim (Option-cases (Vm.get_vm q.vm_refs heap vm_id)) [
  | inl e ↦ rw (e, Quota.wake_vm) h
  | inr ((r, vm), e) ↦ rw (e, Quota.wake_vm) (insert-IsAlive p r _ heap h)
]

Quota_block_vm-IsAlive :
    (p vm_id : ℕ) (reason : ℤ) (q : Quota.QuotaScheduler) (heap : Heap)
    → IsAlive p heap
    → IsAlive p (Quota.block_vm vm_id reason (q, heap)).1
unfolding set_ctx Quota.block_vm
Quota_block_vm-IsAlive p vm_id reason q heap h =
    elim (Option-cases (Vm.get_vm q.vm_refs heap vm_id)) [
      | inl e ↦ rw (e, Quota.block_vm) h
      | inr ((r, vm), e) ↦ rw (e, Quota.block_vm) (insert-IsAlive p r _ heap h)
    ]

Policy_wake_vm-IsAlive :
    (now p vm_id : ℕ) (s : Policy) (heap : Heap)
    → IsAlive p heap
    → IsAlive p (Policy.wake_vm now vm_id (s, heap)).1
unfolding Policy.wake_vm
Policy_wake_vm-IsAlive now p vm_id (cfs s) heap h = h
Policy_wake_vm-IsAlive now p vm_id (edf s) heap h = h
Policy_wake_vm-IsAlive now p vm_id (quota s) heap h = Quota_wake_vm-IsAlive p vm_id s heap h
Policy_wake_vm-IsAlive now p vm_id (hybrid s) heap h = h

Policy_block_vm-IsAlive :
    (p vm_id : ℕ) (reason : ℤ) (s : Policy) (heap : Heap)
    → IsAlive p heap
    → IsAlive p (Policy.block_vm vm_id reason (s, heap)).1
unfolding Policy.block_vm
Policy_block_vm-IsAlive p vm_id reason (cfs s) heap h = h
Policy_block_vm-IsAlive p vm_id reason (edf s) heap h = h
Policy_block_vm-IsAlive p vm_id reason (quota s) heap h =
    Quota_block_vm-IsAlive p vm_id reason s heap h
Policy_block_vm-IsAlive p vm_id reason (hybrid s) heap h = h

pub wake_vm-IsAlive :
    (now p vm_id : ℕ) (m : SchedulerManager) (heap : Heap)
    → IsAlive p heap
    → IsAlive p (Manager.wake_vm now vm_id (m, heap)).1
unfolding Manager.wake_vm
wake_vm-IsAlive now p vm_id m heap h = elim (Option-cases m.current_scheduler) [
  | inl e ↦ rw (e, Manager.wake_vm) h
  | inr (s, e) ↦ rw (e, Manager.wake_vm) (Policy_wake_vm-IsAlive now p vm_id s.policy heap h)
]

pub block_vm-IsAlive :
    (p vm_id : ℕ) (reason : ℤ) (m : SchedulerManager) (heap : Heap)
    → IsAlive p heap
    → IsAlive p (Manager.block_vm vm_id reason (m, heap)).1
unfolding Manager.block_vm
block_vm-IsAlive p vm_id reason m heap h = elim (Option-cases m.current_scheduler) [
  | inl e ↦ rw (e, Manager.block_vm) h
  | inr (s, e) ↦ rw (e, Manager.block_vm) (Policy_block_vm-IsAlive p vm_id reason s.policy heap h)
]
