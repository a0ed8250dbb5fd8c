-- ===== src/Sched/Manager.antt =====
-- `SchedulerManager` (include/vm/SchedulerManager.h, src/vm/SchedulerManager.cpp): the scheduler in
-- use, behind `scheduler_switch_mtx_`. A call on a locked mutex does not return: it is `waiting`, with
-- the state in which its thread waits.
pub mod Switch
pub mod Alive
use my_vm_os.Base.{
  ℕ, ◌≡◌, ◌⊎◌, refl, inl, inr, Bool, true, false, Option, none, some, ◌==◌, if◌then◌else◌, add64,
}
use my_vm_os.Base.Int.{ℤ, pos}
use my_vm_os.Sched.Vm.{Heap}
use my_vm_os.Sched.Quota
use my_vm_os.Sched.Policy.{Policy, quota}
use my_vm_os.Sched.Policy

pub record SchedulerBase : Type 0 where
  pub scheduler_id : ℕ
  pub policy : Policy

pub record SchedulerManager : Type 0 where
  pub current_scheduler : Option SchedulerBase
  pub scheduler_switch_mtx : Bool
  pub next_scheduler_id : ℕ

pub data Outcome (A : Type 0) : Type 0 where
  returned : A → Outcome A
  waiting : SchedulerManager → Outcome A

unfoldable pub construct : SchedulerManager
construct = record {
  current_scheduler = some (record { scheduler_id = 0; policy = quota Quota.construct });
  scheduler_switch_mtx = false;
  next_scheduler_id = 1;
}

-- `current_scheduler_->...`, where there is a scheduler.
abbrev pub with_policy : (Policy → Policy) → SchedulerManager → SchedulerManager
with_policy f m = elim m.current_scheduler [
  | none ↦ m
  | some s ↦ record m { current_scheduler = some (record s { policy = f s.policy }) }
]

abbrev pub with_heap :
    (Policy × Heap → Policy × Heap) → SchedulerManager × Heap → SchedulerManager × Heap
with_heap f (m, heap) = elim m.current_scheduler [
  | none ↦ (m, heap)
  | some s ↦
      let after = f (s.policy, heap) in
      (record m { current_scheduler = some (record s { policy = after.0 }) }, after.1)
]

-- `std::lock_guard<std::mutex> lock(scheduler_switch_mtx_)`, to the end of the call.
abbrev pub locked {ℓ} : {A : Type ℓ} → SchedulerManager → A → (SchedulerManager → A) → A
locked m body wait = if m.scheduler_switch_mtx then wait m else body

unfoldable pub get_current_scheduler_name : SchedulerManager → Outcome (Option Policy)
get_current_scheduler_name m =
    locked m (returned (elim m.current_scheduler [ none ↦ none | some s ↦ some s.policy ])) waiting

unfoldable pub start : SchedulerManager → Outcome SchedulerManager
start m = elim m.current_scheduler [
  | none ↦ returned m
  | some s ↦
      let m' = with_policy Policy.start m in
      elim (get_current_scheduler_name m') [ returned _ ↦ returned m' | waiting w ↦ waiting w ]
]

unfoldable pub stop : SchedulerManager → SchedulerManager
stop m = with_policy Policy.stop m

unfoldable pub is_running : SchedulerManager → Bool
is_running m = elim m.current_scheduler [ none ↦ false | some s ↦ Policy.is_running s.policy ]

unfoldable pub register_vm : ℕ → ℕ → ℕ → SchedulerManager → Outcome SchedulerManager
register_vm now vm_id vm m =
    locked m (returned (with_policy (Policy.register_vm now vm_id vm) m)) waiting

unfoldable pub unregister_vm : ℕ → SchedulerManager → Outcome SchedulerManager
unregister_vm vm_id m = locked m (returned (with_policy (Policy.unregister_vm vm_id) m)) waiting

-- These three do not lock.
unfoldable pub schedule_vm : ℕ → ℕ → SchedulerManager × Heap → SchedulerManager × Heap
schedule_vm now vm_id s = with_heap (Policy.schedule_vm now vm_id) s

unfoldable pub block_vm : ℕ → ℤ → SchedulerManager × Heap → SchedulerManager × Heap
block_vm vm_id reason s = with_heap (Policy.block_vm vm_id reason) s

unfoldable pub wake_vm : ℕ → ℕ → SchedulerManager × Heap → SchedulerManager × Heap
wake_vm now vm_id s = with_heap (Policy.wake_vm now vm_id) s

unfoldable pub get_vm_priority : ℕ → SchedulerManager → Outcome ℤ
get_vm_priority vm_id m =
    locked m
      (returned (elim m.current_scheduler [
        | none ↦ pos 0
        | some s ↦ Policy.get_vm_priority vm_id s.policy
      ]))
      waiting

unfoldable pub get_vm_vruntime : ℕ → SchedulerManager → Outcome ℕ
get_vm_vruntime vm_id m =
    locked m
      (returned
        (elim m.current_scheduler [ none ↦ 0 | some s ↦ Policy.get_vm_vruntime vm_id s.policy ]))
      waiting

unfoldable pub has_quota : ℕ → SchedulerManager × Heap → Outcome Bool
has_quota vm_id (m, heap) =
    locked m
      (returned (elim m.current_scheduler [
        | none ↦ false
        | some s ↦ Policy.has_quota vm_id (s.policy, heap)
      ]))
      waiting

unfoldable pub set_vm_priority :
    ℕ → ℕ → ℤ → SchedulerManager × Heap → Outcome (SchedulerManager × Heap)
set_vm_priority now vm_id priority (m, heap) =
    locked m
      (returned (with_heap (λ s. (Policy.set_vm_priority now vm_id priority s, s.1)) (m, heap)))
      waiting

-- The new scheduler takes an id and is started; its name is asked for under the lock.
unfoldable pub set_scheduler : Option Policy → SchedulerManager → Outcome SchedulerManager
set_scheduler scheduler m =
    let held = record (stop m) { scheduler_switch_mtx = true } in
    locked m
      (elim scheduler [
        | none ↦ returned (record m { current_scheduler = none })
        | some policy ↦
            let switched = record held {
              current_scheduler =
                  some
                    (record { scheduler_id = m.next_scheduler_id; policy = Policy.start policy });
              next_scheduler_id = add64 m.next_scheduler_id 1;
            } in
            elim (get_current_scheduler_name switched) [
              | returned _ ↦ returned (record switched { scheduler_switch_mtx = false })
              | waiting w ↦ waiting w
            ]
      ])
      waiting

unfoldable pub stop_scheduler : ℕ → SchedulerManager → Outcome SchedulerManager
stop_scheduler scheduler_id m =
    locked m
      (returned (elim m.current_scheduler [
        | none ↦ m
        | some s ↦ if s.scheduler_id == scheduler_id then stop m else m
      ]))
      waiting

pub Outcome-cases :
    {A : Type 0} (o : Outcome A)
    → ((a : A) × (o ≡ returned a)) ⊎ ((m : SchedulerManager) × (o ≡ waiting m))
Outcome-cases (returned a) = inl (a, refl)
Outcome-cases (waiting m) = inr (m, refl)
