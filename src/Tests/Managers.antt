-- ===== src/Tests/Managers.antt =====
-- The theorems on `SchedulerManager` and `VmManager` (src/vm), run with two machines.
use my_vm_os.Base.{ℕ, ◌≡◌, refl, true, false, [], ◌∷◌, none, some, arith, lookup, insert}
use my_vm_os.Base.Int.{pos}
use my_vm_os.Message.{
  InterruptResult, system, normal, realtime, interrupt_message, module_vm_manager,
}
use my_vm_os.Timeout.{zero_stats}
use my_vm_os.Router.{RouterCore}
use my_vm_os.Sched.Vm.{Vm, Heap, running}
use my_vm_os.Sched.Quota
use my_vm_os.Sched.Edf
use my_vm_os.Sched.Policy.{edf}
use my_vm_os.Sched.Manager.{
  SchedulerManager, Outcome, returned, waiting, register_vm, unregister_vm, set_scheduler,
  has_quota, block_vm, get_current_scheduler_name,
}
use my_vm_os.Sched.Manager
use my_vm_os.Sched.Manager.Switch.{switched, uses_quota, set_scheduler-waiting, block_vm-has_quota}
use my_vm_os.VmManager.{
  Callback, System, handle_interrupt_result, handle_vm_interrupt_request, timeout_result,
  create_x86_vm, construct,
}
use my_vm_os.VmManager.Worker.{worker_loop}
use my_vm_os.VmManager.Stage.{Log, Stage, keep_result}
use my_vm_os.VmManager.Ask.{ask, answer}
use my_vm_os.VmManager.Delivery.{delivered_once, delivered_twice}
use my_vm_os.VmManager.Ignored.{create_x86_vm-ignored}

set_scheduler-waiting_example :
    let s = switched (edf Edf.construct) Manager.construct in
    (set_scheduler (some (edf Edf.construct)) Manager.construct ≡ waiting s)
    × (set_scheduler none s ≡ waiting s)
    × ((now vm : ℕ) → register_vm now 7 vm s ≡ waiting s)
    × (unregister_vm 7 s ≡ waiting s)
    × (get_current_scheduler_name s ≡ waiting s)
unfolding Manager.construct
set_scheduler-waiting_example =
    set_scheduler-waiting (edf Edf.construct) Manager.construct 7 none refl

vm : Vm
vm = record {
  state = running;
  sched_ctx = record { priority = pos 0; has_quota = true; vruntime = 0; blocked_reason = pos 0 };
}

abbrev heap : Heap
heap = (10, vm) ∷ []

-- The machine 7 in the ready queue.
queued : Quota.QuotaScheduler
queued = Quota.register_vm 7 10 Quota.construct

block_vm-has_quota_example :
    has_quota 7 (block_vm 7 (pos 1) (uses_quota 0 queued 1, heap)) ≡ returned false
unfolding queued Quota.register_vm Quota.enqueue Quota.construct lookup insert
block_vm-has_quota_example = block_vm-has_quota queued heap 0 1 7 (pos 1) 10 vm refl refl

abbrev router : RouterCore Callback
router = record {
  module_names = [];
  subscribers = [];
  sender_subscribers = [];
  message_queue = record { queue = λ i. interrupt_message 7 (pos 2) (pos 5); head = 0; tail = 0 };
  queue_size = 0;
  running = true;
  external_senders = [];
  external_receivers = [];
}

-- The machine 7, registered, and the manager's thread running.
one_vm : System Log
unfolding construct
one_vm = record {
  manager = record construct { vms = (7, 10) ∷ []; running = true };
  scheduler = uses_quota 0 queued 1;
  heap = heap;
  machines = (10, []) ∷ [];
  router = router;
}

one_vm-Stage : Stage 7 10 [] [] [] one_vm
unfolding one_vm construct lookup
one_vm-Stage = record {
  on = refl;
  registered = refl;
  alive = (vm, refl);
  logged = refl;
  waiting = refl;
  queued = refl;
}

-- A key that the user presses.
key : InterruptResult
key = record {
  vm_id = 7;
  return_value = pos 65;
  is_timeout = false;
  interrupt_type = system;
  priority = normal;
  completion_time = 0;
}

delivered_once_example :
    Stage 7 10 [] []
      (record key { completion_time = 2000000 } ∷ [])
      (worker_loop keep_result (3000000 ∷ 9000000 ∷ []) (
        handle_interrupt_result 2000000
          (answer 4 7 key)
          (ask 0 7 (pos 2) (pos 5) 1 zero_stats one_vm))).1
unfolding key
delivered_once_example =
    delivered_once 7 10 0 (pos 2) (pos 5) 1 zero_stats one_vm [] refl (λ e. omega arith)
      one_vm-Stage 2000000 4 7 key 3000000 (9000000 ∷ []) refl (λ e. omega arith)

delivered_twice_example :
    Stage 7 10 [] []
      (timeout_result 6000000 7 system normal ∷ timeout_result 6000000 7 system realtime ∷ [])
      (worker_loop keep_result
        (6000000 ∷ 7000000 ∷ [])
        (ask 0 7 (pos 2) (pos 5) 1 zero_stats one_vm)).1
delivered_twice_example =
    delivered_twice 7 10 0 (pos 2) (pos 5) 1 zero_stats one_vm [] refl (λ e. omega arith)
      one_vm-Stage 6000000 7000000 [] (omega arith)

create_x86_vm-ignored_example :
    let made = create_x86_vm 0 20 vm [] (record one_vm { manager = construct }) in
    (made.0 ≡ pos module_vm_manager)
    × (lookup module_vm_manager made.1.manager.vms ≡ some 20)
    × (handle_vm_interrupt_request 5
          (interrupt_message module_vm_manager (pos 2) (pos 5))
          (ask 0 7 (pos 2) (pos 5) 1 zero_stats one_vm)
        ≡ ask 0 7 (pos 2) (pos 5) 1 zero_stats one_vm)
create_x86_vm-ignored_example =
    create_x86_vm-ignored 0 20 vm [] one_vm 5 (pos 2) (pos 5)
      (ask 0 7 (pos 2) (pos 5) 1 zero_stats one_vm)
