-- ===== src/VmManager.antt =====
-- `VmManager` (include/vm/VmManager.h, src/vm/VmManager.cpp) with the parts that it calls: the timeouts,
-- the scheduler, the router and the machines. The clock is the argument `now`. A machine is an address:
-- its `baseVM` part stands on the heap, the part of its class among the machines. The callback of a
-- timeout is the `vm_id` that it captures. Locks, threads, `wait_for` and log are left out.
pub mod Worker
pub mod Stage
pub mod Ask
pub mod Delivery
pub mod Ignored
use my_vm_os.Base.{
  ℕ, ◌+◌, ◌-◌, ◌/◌, ◌%◌, Bool, true, false, List, [], ◌∷◌, ◌++◌, Option, none, some, ltb, leb, ◌==◌,
  not, ◌&&◌, if◌then◌else◌, add64, Map, lookup, insert, erase, length, map,
}
use my_vm_os.Base.Int.{ℤ, pos, negsuc, leb_ℤ, ltb_ℤ}
use my_vm_os.Message.{
  Message, MessageType, Payload, InterruptType, InterruptPriority, InterruptRequest,
  InterruptResult, module_vm_manager, module_periph_manager, interrupt_request,
  interrupt_result_ready, request, result, system, normal, new_message, set_payload, type_code,
  get_total_latency_ms,
}
use my_vm_os.Timeout.{TimeoutManager, stamp, register_timeout, cancel_timeout}
use my_vm_os.Router.{RouterCore, send, subscribe}
use my_vm_os.Sched.Vm.{Vm, Heap}
use my_vm_os.Sched.Manager.{SchedulerManager, returned, waiting}
use my_vm_os.Sched.Manager

pub record PendingInterrupt : Type 0 where
  pub vm_id : ℕ
  pub periph_id : ℤ
  pub interrupt_type : InterruptType
  pub priority : InterruptPriority
  pub timeout_ms : ℤ
  pub request_time : ℕ
  pub enqueue_time : ℕ
  pub timeout_id : ℕ

pub record AsyncInterruptResult : Type 0 where
  pub vm_id : ℕ
  pub result : InterruptResult
  pub request_time : ℕ

-- `total_latency_ms` is an `int64_t`, here as a 64-bit word.
pub record InterruptStats : Type 0 where
  pub total_requests : ℕ
  pub completed_requests : ℕ
  pub timeout_requests : ℕ
  pub total_latency_ms : ℕ

-- `interrupt_priority_queue` is only pushed on; it is a list, the last push first.
pub record VmManager : Type 0 where
  pub vms : Map ℕ
  pub pending_interrupts : Map PendingInterrupt
  pub interrupt_priority_queue : List PendingInterrupt
  pub async_result_queue : List AsyncInterruptResult
  pub interrupt_stats : InterruptStats
  pub running : Bool
  pub lifecycle_tasks : List ℕ
  pub next_vm_id : ℕ

-- What the router calls: the two handlers that `start` subscribes, and those of other parts.
pub data Callback : Type 0 where
  on_request on_result : Callback
  other : ℕ → Callback

pub record System (V : Type 0) : Type 0 where
  pub manager : VmManager
  pub scheduler : SchedulerManager
  pub heap : Heap
  pub machines : Map V
  pub router : RouterCore Callback

abbrev pub State : Type 0 → Type 0
State V = TimeoutManager ℕ × System V

-- The timer of a pending interrupt is cancelled, where it has one.
unfoldable pub cancel_pending : ℕ → TimeoutManager ℕ → TimeoutManager ℕ
cancel_pending timeout_id t = if timeout_id == 0 then t else (cancel_timeout timeout_id t).1

-- The result that a timeout stands for.
unfoldable pub timeout_result : ℕ → ℕ → InterruptType → InterruptPriority → InterruptResult
timeout_result now vm_id type priority = record {
  vm_id = vm_id;
  return_value = negsuc 0;
  is_timeout = true;
  interrupt_type = type;
  priority = priority;
  completion_time = now;
}

-- `static_cast<int>(id)`
abbrev pub to_int : ℕ → ℤ
to_int id =
    let low = id % 0x1_0000_0000 in
    if ltb low 0x8000_0000 then pos low else negsuc (0xFFFF_FFFF - low)

-- The members of `VmManager` before its first call.
unfoldable pub construct : VmManager
construct = record {
  vms = [];
  pending_interrupts = [];
  interrupt_priority_queue = [];
  async_result_queue = [];
  interrupt_stats = record {
    total_requests = 0;
    completed_requests = 0;
    timeout_requests = 0;
    total_latency_ms = 0;
  };
  running = false;
  lifecycle_tasks = [];
  next_vm_id = 1;
}

module _ {V : Type 0} where
  -- `get_vm(vm_id)`: the address, `none` for a null pointer.
  unfoldable pub get_vm : ℕ → System V → Option ℕ
  get_vm vm_id s = lookup vm_id s.manager.vms

  -- The machine at the address `p` with the id `vm_id`.
  unfoldable pub register_vm : ℕ → Option (ℕ × ℕ) → System V → System V
  register_vm now none s = s
  register_vm now (some (vm_id, p)) s =
      let s' = record s { manager = record s.manager { vms = insert vm_id p s.manager.vms } } in
      elim (Manager.register_vm now vm_id p s.scheduler) [
        | returned scheduler ↦ record s' { scheduler = scheduler }
        | waiting _ ↦ s'
      ]

  unfoldable pub drop_pending : ℕ → State V → State V
  drop_pending vm_id (t, s) = elim (lookup vm_id s.manager.pending_interrupts) [
    | none ↦ (t, s)
    | some pending ↦ (
      cancel_pending pending.timeout_id t,
      record s {
        manager = record s.manager {
          pending_interrupts = erase vm_id s.manager.pending_interrupts;
        };
      },
    )
  ]

  unfoldable pub unregister_vm : ℕ → State V → State V
  unregister_vm vm_id (t, s) =
      let s' = record s { manager = record s.manager { vms = erase vm_id s.manager.vms } } in
      elim (Manager.unregister_vm vm_id s.scheduler) [
        | returned scheduler ↦ drop_pending vm_id (t, record s' { scheduler = scheduler })
        | waiting _ ↦ (t, s')
      ]

  -- The task is queued for a thread of `vm_lifecycle_pool_`; `run_task` is that thread.
  unfoldable pub destroy_vm : ℕ → System V → System V
  destroy_vm vm_id s = record s {
    manager = record s.manager { lifecycle_tasks = s.manager.lifecycle_tasks ++ (vm_id ∷ []) };
  }

  unfoldable pub run_task : State V → State V
  run_task (t, s) = elim s.manager.lifecycle_tasks [
    | [] ↦ (t, s)
    | vm_id ∷ tasks ↦
        unregister_vm vm_id (t, record s { manager = record s.manager { lifecycle_tasks = tasks } })
  ]

  -- The object at the free address `p`, with the parts that its constructor makes.
  unfoldable pub create_x86_vm : ℕ → ℕ → Vm → V → System V → ℤ × System V
  create_x86_vm now p base own s =
      let new_vm_id = s.manager.next_vm_id in
      (
        to_int new_vm_id,
        register_vm now (some (new_vm_id, p)) (record s {
          manager = record s.manager { next_vm_id = add64 new_vm_id 1 };
          heap = insert p base s.heap;
          machines = insert p own s.machines;
        }),
      )

  unfoldable pub destroy_vm' : ℤ → System V → Bool × System V
  destroy_vm' (negsuc n) s = (false, s)
  destroy_vm' (pos vm_id) s = elim (get_vm vm_id s) [
    | none ↦ (false, s)
    | some _ ↦ (true, destroy_vm vm_id s)
  ]

  unfoldable pub forward_interrupt_to_router : Message → System V → System V
  forward_interrupt_to_router msg s =
      let forwarded = record msg {
        sender_id = module_vm_manager;
        receiver_id = module_periph_manager;
      } in
      record s { router = (send forwarded s.router).1 }

  unfoldable pub accept_request : ℕ → InterruptRequest → Message → State V → State V
  accept_request now req msg (t, s) =
      let blocked = Manager.block_vm req.vm_id (pos 1) (s.scheduler, s.heap) in
      let timer = register_timeout (stamp now) req.timeout_ms (some req.vm_id) t in
      let pending : PendingInterrupt = record {
        vm_id = req.vm_id;
        periph_id = req.periph_id;
        interrupt_type = req.interrupt_type;
        priority = req.priority;
        timeout_ms = req.timeout_ms;
        request_time = now;
        enqueue_time = now;
        timeout_id = timer.0;
      } in
      (
        timer.1,
        forward_interrupt_to_router msg (record s {
          scheduler = blocked.0;
          heap = blocked.1;
          manager = record s.manager {
            pending_interrupts = insert req.vm_id pending s.manager.pending_interrupts;
            interrupt_priority_queue = pending ∷ s.manager.interrupt_priority_queue;
            interrupt_stats = record s.manager.interrupt_stats {
              total_requests = add64 s.manager.interrupt_stats.total_requests 1;
            };
          };
        }),
      )

  unfoldable pub on_interrupt_request : ℕ → Message → InterruptRequest → State V → State V
  on_interrupt_request now msg req (t, s) =
      let accepted = accept_request now req msg (t, s) in
      if msg.sender_id == module_vm_manager
      then (t, s)
      else elim (lookup req.vm_id s.manager.vms) [ none ↦ (t, s) | some _ ↦ accepted ]

  unfoldable pub handle_vm_interrupt_request : ℕ → Message → State V → State V
  handle_vm_interrupt_request now msg s = elim msg.payload [
    | request req ↦
        let handled = on_interrupt_request now msg req s in
        if type_code msg.type == type_code interrupt_request then handled else s
    | _ ↦ s
  ]

  -- A request's time and timer; the clock's epoch and 0 where nothing is pending.
  unfoldable pub pending_of : ℕ → System V → ℕ × ℕ
  pending_of vm_id s = elim (lookup vm_id s.manager.pending_interrupts) [
    | none ↦ (0, 0)
    | some pending ↦ (pending.request_time, pending.timeout_id)
  ]

  unfoldable pub on_interrupt_result : ℕ → InterruptResult → State V → State V
  on_interrupt_result now res (t, s) =
      let pending = pending_of res.vm_id s in
      let async : AsyncInterruptResult = record {
        vm_id = res.vm_id;
        result = record res { completion_time = now };
        request_time = pending.0;
      } in
      (
        cancel_pending pending.1 t,
        record s {
          manager = record s.manager {
            async_result_queue = s.manager.async_result_queue ++ (async ∷ []);
          };
        },
      )

  unfoldable pub handle_interrupt_result : ℕ → Message → State V → State V
  handle_interrupt_result now msg s = elim msg.payload [
    | result res ↦
        let handled = on_interrupt_result now res s in
        if type_code msg.type == type_code interrupt_result_ready then handled else s
    | _ ↦ s
  ]

  -- The lambda that `on_interrupt_request` registers; it throws nothing.
  unfoldable pub timeout_callback : ℕ → ℕ → State V → Bool × State V
  timeout_callback now vm_id s = (
    true,
    handle_interrupt_result now
        (set_payload (result (timeout_result now vm_id system normal))
          (new_message module_vm_manager vm_id interrupt_result_ready))
        s,
  )

  -- The router's callbacks, where those of other parts leave this part alone.
  unfoldable pub call_back : ℕ → Callback → Message → State V → State V
  call_back now on_request msg s = handle_vm_interrupt_request now msg s
  call_back now on_result msg s = handle_interrupt_result now msg s
  call_back now (other n) msg s = s

  unfoldable pub start : System V → System V
  start s =
      let s' = record s { manager = record s.manager { running = true } } in
      if s.manager.running then s else elim (Manager.start s.scheduler) [
        | waiting w ↦ record s' { scheduler = w }
        | returned scheduler ↦ record s' {
          scheduler = scheduler;
          router =
              subscribe interrupt_result_ready on_result
                (subscribe interrupt_request on_request s.router);
        }
      ]

  unfoldable pub stop : System V → System V
  stop s = record s {
    manager = record s.manager { running = false };
    scheduler = Manager.stop s.scheduler;
  }

  unfoldable pub get_registered_vm_count : System V → ℕ
  get_registered_vm_count s = length s.manager.vms

  unfoldable pub get_all_vm_ids : System V → List ℕ
  get_all_vm_ids s = map (λ entry. entry.0) s.manager.vms

  -- The counters: all requests, those pending, completed and timed out. The mean latency is the
  -- quotient of the last number and the completed ones.
  unfoldable pub get_interrupt_stats : System V → ℕ × ℕ × ℕ × ℕ × ℕ
  get_interrupt_stats s =
      let stats = s.manager.interrupt_stats in
      (
        stats.total_requests,
        length s.manager.pending_interrupts,
        stats.completed_requests,
        stats.timeout_requests,
        stats.total_latency_ms,
      )
