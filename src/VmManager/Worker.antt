-- ===== src/VmManager/Worker.antt =====
-- The worker thread of `VmManager` (`worker_loop`, `process_async_result`, `process_interrupt_timeout`
-- of src/vm/VmManager.cpp). What a machine does with a result is the argument `handle_interrupt`.
use my_vm_os.Base.{
  ℕ, ◌-◌, ◌/◌, min, Bool, List, [], ◌∷◌, Option, none, some, ◌==◌, not, ◌&&◌, if◌then◌else◌, add64,
  Map, lookup, insert, erase,
}
use my_vm_os.Base.Int.{pos, negsuc, leb_ℤ}
use my_vm_os.Message.{InterruptResult, get_total_latency_ms}
use my_vm_os.Timeout.{TimeoutManager, stamp, process_timeouts, get_next_timeout_ms, ns_per_ms}
use my_vm_os.Sched.Vm.{Vm}
use my_vm_os.Sched.Manager
use my_vm_os.VmManager.{
  PendingInterrupt, AsyncInterruptResult, System, State, get_vm, timeout_result, timeout_callback,
}

unfoldable pub is_overdue : ℕ → PendingInterrupt → Bool
is_overdue now pending = leb_ℤ pending.timeout_ms (pos ((now - pending.request_time) / ns_per_ms))

-- The overdue requests, and the others.
unfoldable pub split_overdue :
    ℕ → Map PendingInterrupt → List PendingInterrupt × Map PendingInterrupt
split_overdue now [] = ([], [])
split_overdue now (entry ∷ rest) =
    let later = split_overdue now rest in
    if is_overdue now entry.1 then (entry.1 ∷ later.0, later.1) else (later.0, entry ∷ later.1)

-- How long the round waits, in ms: `none` where it goes on at once.
unfoldable pub wait_duration : ℕ → TimeoutManager ℕ → Option ℕ
wait_duration now t = elim (get_next_timeout_ms (stamp now) t) [
  | negsuc _ ↦ some 50
  | pos next_timeout ↦ if next_timeout == 0 then none else some (min 50 next_timeout)
]

module _ {V : Type 0} where
  unfoldable pub wake_vm : ℕ → ℕ → System V → System V
  wake_vm now vm_id s =
      let woken = Manager.wake_vm now vm_id (s.scheduler, s.heap) in
      record s { scheduler = woken.0; heap = woken.1 }

  unfoldable pub count_completed : AsyncInterruptResult → System V → System V
  count_completed a s =
      if not a.result.is_timeout && not (a.request_time == 0)
      then record s {
        manager = record s.manager {
          interrupt_stats = record s.manager.interrupt_stats {
            total_latency_ms =
                add64 s.manager.interrupt_stats.total_latency_ms
                  (get_total_latency_ms a.request_time a.result);
            completed_requests = add64 s.manager.interrupt_stats.completed_requests 1;
          };
        };
      }
      else s

module _ {V : Type 0} (handle_interrupt : InterruptResult → Vm × V → Vm × V) where
  -- `vm->handle_interrupt(result)`
  unfoldable pub resume : ℕ → InterruptResult → System V → System V
  resume p res s = elim (lookup p s.heap) [
    | none ↦ s
    | some base ↦ elim (lookup p s.machines) [
      | none ↦ s
      | some own ↦
          let after = handle_interrupt res (base, own) in
          record s { heap = insert p after.0 s.heap; machines = insert p after.1 s.machines }
    ]
  ]

  unfoldable pub process_async_result : ℕ → AsyncInterruptResult → System V → System V
  process_async_result now a s =
      let cleaned = record s {
        manager = record s.manager {
          pending_interrupts = erase a.vm_id s.manager.pending_interrupts;
        };
      } in
      let woken = wake_vm now a.vm_id cleaned in
      elim (get_vm a.vm_id woken) [
        | none ↦ woken
        | some p ↦ count_completed a (resume p a.result woken)
      ]

  unfoldable pub process_interrupt_timeout : ℕ → PendingInterrupt → System V → System V
  process_interrupt_timeout now pending s =
      let woken = wake_vm now pending.vm_id s in
      let res = timeout_result now pending.vm_id pending.interrupt_type pending.priority in
      let resumed : System V = elim (get_vm pending.vm_id woken) [
        | none ↦ woken
        | some p ↦ resume p res woken
      ] in
      record resumed {
        manager = record resumed.manager {
          interrupt_stats = record resumed.manager.interrupt_stats {
            timeout_requests = add64 resumed.manager.interrupt_stats.timeout_requests 1;
          };
        };
      }

  unfoldable pub process_all : ℕ → List AsyncInterruptResult → System V → System V
  process_all now [] s = s
  process_all now (a ∷ queue) s = process_all now queue (process_async_result now a s)

  -- `while (!async_result_queue_.empty())`: nothing is queued in the loop.
  unfoldable pub drain_results : ℕ → System V → System V
  drain_results now s =
      process_all now s.manager.async_result_queue
        (record s { manager = record s.manager { async_result_queue = [] } })

  unfoldable pub time_out_all : ℕ → List PendingInterrupt → System V → System V
  time_out_all now [] s = s
  time_out_all now (pending ∷ rest) s =
      time_out_all now rest (process_interrupt_timeout now pending s)

  unfoldable pub expire_pending : ℕ → System V → System V
  expire_pending now s =
      let overdue = split_overdue now s.manager.pending_interrupts in
      time_out_all now overdue.0
        (record s { manager = record s.manager { pending_interrupts = overdue.1 } })

  -- One round of `worker_loop`, up to the wait.
  unfoldable pub worker_round : ℕ → State V → State V
  worker_round now (t, s) =
      let after =
        process_timeouts (λ vm_id. timeout_callback now vm_id) (stamp now)
          (t, drain_results now s) in
      (after.1.0, expire_pending now after.1.1)

  -- The rounds of `worker_loop` at the times that the clock shows.
  unfoldable pub worker_loop : List ℕ → State V → State V
  worker_loop [] s = s
  worker_loop (now ∷ times) s =
      let later = worker_loop times (worker_round now s) in if s.1.manager.running then later else s
