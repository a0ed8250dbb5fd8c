-- ===== src/Tests/Queues.antt =====
-- The theorems on the schedulers (src/vm/Scheduler), run with a few machines.
use my_vm_os.Base.{
  none, ◌≢◌, IsIn, ℕ, ◌≤◌, ◌≡◌, refl, inl, inr, true, false, List, [], ◌∷◌, some, All, lookup,
  insert, erase,
}
use my_vm_os.Base.Int.{pos}
use my_vm_os.Sched.Vm.{Vm, Heap, running, get_vm}
use my_vm_os.Sched.OrderedSet.{insert_key, erase_key}
use my_vm_os.Sched.DeadlineQueue.{EdfTask, push_task}
use my_vm_os.Sched.Cfs.{CfsTask, CfsScheduler}
use my_vm_os.Sched.Cfs
use my_vm_os.Sched.Cfs.Queue.{IsConsistent}
use my_vm_os.Sched.Cfs.Queue.Reach
use my_vm_os.Sched.Cfs.Queue.Reach.{Reachable-IsConsistent}
use my_vm_os.Sched.Cfs.Fair.{pick_next_task-least}
use my_vm_os.Sched.Edf.{EdfScheduler}
use my_vm_os.Sched.Edf
use my_vm_os.Sched.Edf.Deadline.{IsOrdered, Reachable-IsOrdered, unregister_vm-ne}
use my_vm_os.Sched.Edf.Deadline
use my_vm_os.Sched.Edf.Earliest.{pick_next_task_earliest}
use my_vm_os.Sched.Edf.Starvation.{pick_next_task-scheduler_loop}
use my_vm_os.Sched.Quota.{ScheduleTask, QuotaScheduler}
use my_vm_os.Sched.Quota
use my_vm_os.Sched.Quota.Grant.{has_quota-allocate_quotas}
use my_vm_os.Sched.Hybrid.{HybridScheduler, is_real_time}
use my_vm_os.Sched.Hybrid
use my_vm_os.Sched.Hybrid.Classes.{IsSplit, set_vm_priority_lem}

-- Two machines; one time slice has been charged to the first.
two_cfs : CfsScheduler
unfolding Cfs.construct Cfs.register_vm
two_cfs = (Cfs.tick (Cfs.register_vm 2 20 (Cfs.register_vm 1 10 Cfs.construct)) []).0

two_cfs-Reachable : Reach.Reachable two_cfs
unfolding two_cfs Cfs.construct Cfs.register_vm lookup insert
two_cfs-Reachable =
    Reach.by_tick [] (Reach.by_register 2 20 refl (Reach.by_register 1 10 refl Reach.by_construct))

two_cfs-IsConsistent : IsConsistent two_cfs
two_cfs-IsConsistent = Reachable-IsConsistent two_cfs two_cfs-Reachable

Reachable-IsConsistent_example : IsConsistent (Cfs.set_vm_priority 1 (pos 2) two_cfs)
Reachable-IsConsistent_example =
    Reachable-IsConsistent (Cfs.set_vm_priority 1 (pos 2) two_cfs)
      (Reach.by_priority 1 (pos 2) two_cfs-Reachable)

pick_next_task-least_example :
    All
      (λ t. Cfs.get_vm_vruntime (Cfs.pick_next_task two_cfs) two_cfs ≤ t.vruntime)
      two_cfs.run_queue
pick_next_task-least_example = pick_next_task-least two_cfs two_cfs-IsConsistent

charged : CfsTask
charged = record { vm_id = 1; vruntime = 1000; weight = 1024 }

charged_found : lookup 1 two_cfs.vm_task_map ≡ some charged
unfolding charged two_cfs Cfs.construct Cfs.register_vm Cfs.tick Cfs.pick_next_task Cfs.first_vm
    Cfs.update_vruntime Cfs.advance Cfs.scaled_delta Cfs.before lookup insert insert_key erase_key
charged_found = refl

-- Two machines with the deadlines 10 and 15 ms.
two_edf : EdfScheduler
two_edf = Edf.register_vm 5000000 2 20 (Edf.register_vm 0 1 10 Edf.construct)

two_edf-Reachable : Deadline.Reachable two_edf
unfolding two_edf
two_edf-Reachable =
    Deadline.by_register 5000000 2 20 (Deadline.by_register 0 1 10 Deadline.by_construct)

two_edf-IsOrdered : IsOrdered two_edf
two_edf-IsOrdered = Reachable-IsOrdered two_edf two_edf-Reachable

second_task : EdfTask
second_task = record {
  vm_id = 2;
  deadline_ns = 15000000;
  period_ns = 10000000;
  vruntime = 0;
  priority = pos 0;
}

pick_next_task_earliest_example :
    (u : EdfTask) × (IsIn u two_edf.edf_queue
      × ((u.vm_id ≡ Edf.pick_next_task two_edf)
          × ((u.deadline_ns ≤ second_task.deadline_ns)
              × (lookup (Edf.pick_next_task two_edf) two_edf.vm_task_map ≢ none))))
unfolding second_task two_edf two_edf-Reachable Edf.construct Edf.register_vm lookup insert
    push_task
pick_next_task_earliest_example =
    pick_next_task_earliest two_edf two_edf-Reachable 2 second_task tt refl

abbrev times : List ℕ
times = 10000000 ∷ 20000000 ∷ 30000000 ∷ []

pick_next_task-scheduler_loop_example :
    Edf.pick_next_task (Edf.scheduler_loop times two_edf) ≡ Edf.pick_next_task two_edf
pick_next_task-scheduler_loop_example =
    pick_next_task-scheduler_loop times two_edf two_edf-IsOrdered

first_edf : EdfTask
first_edf = record {
  vm_id = 1;
  deadline_ns = 10000000;
  period_ns = 10000000;
  vruntime = 0;
  priority = pos 0;
}

one_quota : QuotaScheduler
one_quota = Quota.register_vm 1 10 Quota.construct

vm : Vm
vm = record {
  state = running;
  sched_ctx = record { priority = pos 0; has_quota = false; vruntime = 0; blocked_reason = pos 0 };
}

abbrev heap : Heap
heap = (10, vm) ∷ []

has_quota-allocate_quotas_example :
    Quota.has_quota 1 (one_quota, Quota.allocate_quotas one_quota heap) ≡ true
unfolding one_quota vm Quota.construct Quota.register_vm Quota.enqueue Quota.before Quota.may_run
    insert_key get_vm lookup insert
has_quota-allocate_quotas_example =
    has_quota-allocate_quotas one_quota heap (record { vm_id = 1; priority = pos 0; vruntime = 0 })
      10 vm (inl refl) refl refl

-- A machine in the real-time class.
real_time : HybridScheduler
real_time = Hybrid.set_vm_priority 0 1 (pos 1) (Hybrid.register_vm 0 1 10 Hybrid.construct)

real_time-IsSplit : IsSplit real_time
unfolding real_time Hybrid.construct Hybrid.register_vm Hybrid.set_vm_priority Hybrid.add_cfs
    Hybrid.add_edf Hybrid.cfs_to_edf Hybrid.drop_cfs lookup insert erase
real_time-IsSplit k = inr refl

set_vm_priority_lem_example :
    IsSplit (Hybrid.set_vm_priority 5 1 (pos 0) real_time)
    × ((j : ℕ)
        → Hybrid.get_vm_vruntime j (Hybrid.set_vm_priority 5 1 (pos 0) real_time)
          ≡ Hybrid.get_vm_vruntime j real_time)
set_vm_priority_lem_example = set_vm_priority_lem real_time 5 1 (pos 0) real_time-IsSplit
