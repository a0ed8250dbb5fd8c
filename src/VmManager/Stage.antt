-- ===== src/VmManager/Stage.antt =====
-- One machine's request on its way through `VmManager` (src/vm/VmManager.cpp), for a machine that keeps
-- the results that it is given.
use my_vm_os.Base.{
  ℕ, ◌≡◌, refl, inl, inr, true, List, [], ◌∷◌, some, ◌==◌, Bool-cases, Map, lookup, erase,
  lookup-insert_self, not, ◌&&◌,
}
use my_vm_os.Message.{InterruptResult}
use my_vm_os.Sched.Vm.{Vm}
use my_vm_os.Sched.Manager.Alive.{IsAlive, wake_vm-IsAlive}
use my_vm_os.VmManager.{PendingInterrupt, AsyncInterruptResult, System, get_vm, timeout_result}
use my_vm_os.VmManager.Worker.{
  resume, wake_vm, count_completed, process_async_result, process_interrupt_timeout, drain_results,
  process_all, is_overdue, split_overdue, time_out_all, expire_pending,
}

abbrev pub Log : Type 0
Log = List InterruptResult

-- A machine that keeps the results, the last first.
abbrev pub keep_result : InterruptResult → Vm × Log → Vm × Log
keep_result res (base, log) = (base, res ∷ log)

-- The machine `vm_id` at `p` has been given the results of `log`; `pending` and `queue` wait.
pub record Stage (vm_id p : ℕ) (pending : Map PendingInterrupt) (queue : List AsyncInterruptResult)
    (log : Log) (s : System Log) : Type 0 where
  pub on : s.manager.running ≡ true
  pub registered : lookup vm_id s.manager.vms ≡ some p
  pub alive : IsAlive p s.heap
  pub logged : lookup p s.machines ≡ some log
  pub waiting : s.manager.pending_interrupts ≡ pending
  pub queued : s.manager.async_result_queue ≡ queue

module _ (now vm_id p : ℕ) (pending : Map PendingInterrupt) (queue : List AsyncInterruptResult)
    (log : Log) (s : System Log) (h : Stage vm_id p pending queue log s) where
  wake_vm-Stage : (other : ℕ) → Stage vm_id p pending queue log (wake_vm now other s)
  unfolding wake_vm
  wake_vm-Stage other = record {
    on = h.on;
    registered = h.registered;
    alive = wake_vm-IsAlive now p other s.scheduler s.heap h.alive;
    logged = h.logged;
    waiting = h.waiting;
    queued = h.queued;
  }

  resume-Stage :
      (res : InterruptResult) → Stage vm_id p pending queue (res ∷ log) (resume keep_result p res s)
  unfolding resume
  resume-Stage res =
      let (base, at_heap) = h.alive in
      rw (at_heap, h.logged, resume)
        (record {
          on = h.on;
          registered = h.registered;
          alive = (base, lookup-insert_self p base s.heap);
          logged = lookup-insert_self p (res ∷ log) s.machines;
          waiting = h.waiting;
          queued = h.queued;
        })

  count_completed-Stage :
      (a : AsyncInterruptResult) → Stage vm_id p pending queue log (count_completed a s)
  unfolding count_completed
  count_completed-Stage a =
      elim (Bool-cases (not a.result.is_timeout && not (a.request_time == 0))) [
        | inl b ↦
            rw (b, count_completed)
              (record {
                on = h.on;
                registered = h.registered;
                alive = h.alive;
                logged = h.logged;
                waiting = h.waiting;
                queued = h.queued;
              })
        | inr b ↦ rw (b, count_completed) h
      ]

  -- Another set of pending requests, and another queue.
  pub with_pending-Stage :
      (pending' : Map PendingInterrupt)
      → Stage vm_id p pending' queue log
          (record s { manager = record s.manager { pending_interrupts = pending' } })
  with_pending-Stage pending' = record {
    on = h.on;
    registered = h.registered;
    alive = h.alive;
    logged = h.logged;
    waiting = refl;
    queued = h.queued;
  }

  pub with_queue-Stage :
      (queue' : List AsyncInterruptResult)
      → Stage vm_id p pending queue' log
          (record s { manager = record s.manager { async_result_queue = queue' } })
  with_queue-Stage queue' = record {
    on = h.on;
    registered = h.registered;
    alive = h.alive;
    logged = h.logged;
    waiting = h.waiting;
    queued = refl;
  }

get_vm-Stage :
    (k vm_id p : ℕ) {pending : Map PendingInterrupt} {queue : List AsyncInterruptResult} {log : Log}
    (s : System Log)
    → k ≡ vm_id
    → Stage vm_id p pending queue log s
    → get_vm k s ≡ some p
unfolding get_vm
get_vm-Stage k vm_id p s e h = rw e h.registered

module _ (now vm_id p : ℕ) (log : Log) (s : System Log) where
  process_async_result-Stage :
      (pending : Map PendingInterrupt) (queue : List AsyncInterruptResult)
      (a : AsyncInterruptResult)
      → a.vm_id ≡ vm_id
      → erase vm_id pending ≡ []
      → Stage vm_id p pending queue log s
      → Stage vm_id p [] queue (a.result ∷ log) (process_async_result keep_result now a s)
  unfolding process_async_result
  process_async_result-Stage pending queue a e gone h =
      let cleaned = record s {
        manager = record s.manager {
          pending_interrupts = erase a.vm_id s.manager.pending_interrupts;
        };
      } in
      let start : Stage vm_id p [] queue log cleaned = record {
        on = h.on;
        registered = h.registered;
        alive = h.alive;
        logged = h.logged;
        waiting = rw (h.waiting, e) gone;
        queued = h.queued;
      } in
      let woken = wake_vm-Stage now vm_id p [] queue log cleaned start a.vm_id in
      let resumed = resume-Stage now vm_id p [] queue log _ woken a.result in
      let counted = count_completed-Stage now vm_id p [] queue (a.result ∷ log) _ resumed a in
      let at : get_vm a.vm_id (wake_vm now a.vm_id cleaned) ≡ some p =
        get_vm-Stage a.vm_id vm_id p _ e woken in
      rw (at, process_async_result) counted

  process_interrupt_timeout-Stage :
      (pending : Map PendingInterrupt) (queue : List AsyncInterruptResult) (late : PendingInterrupt)
      → late.vm_id ≡ vm_id
      → Stage vm_id p pending queue log s
      → let res = timeout_result now late.vm_id late.interrupt_type late.priority in
        Stage vm_id p pending queue (res ∷ log) (process_interrupt_timeout keep_result now late s)
  unfolding process_interrupt_timeout
  process_interrupt_timeout-Stage pending queue late e h =
      let woken = wake_vm-Stage now vm_id p pending queue log s h late.vm_id in
      let res = timeout_result now late.vm_id late.interrupt_type late.priority in
      let resumed = resume-Stage now vm_id p pending queue log _ woken res in
      let at : get_vm late.vm_id (wake_vm now late.vm_id s) ≡ some p =
        get_vm-Stage late.vm_id vm_id p _ e woken in
      rw (at, process_interrupt_timeout)
        (record {
          on = resumed.on;
          registered = resumed.registered;
          alive = resumed.alive;
          logged = resumed.logged;
          waiting = resumed.waiting;
          queued = resumed.queued;
        })

split_overdue-one :
    (now vm_id : ℕ) (late : PendingInterrupt)
    → is_overdue now late ≡ true
    → split_overdue now ((vm_id, late) ∷ []) ≡ (late ∷ [], [])
unfolding split_overdue
split_overdue-one now vm_id late h = rw h refl

module _ (now vm_id p : ℕ) (log : Log) (s : System Log) where
  -- The results that wait are delivered, and nothing is pending then.
  pub drain_results-Stage :
      (pending : Map PendingInterrupt) (a : AsyncInterruptResult)
      → a.vm_id ≡ vm_id
      → erase vm_id pending ≡ []
      → Stage vm_id p pending (a ∷ []) log s
      → Stage vm_id p [] [] (a.result ∷ log) (drain_results keep_result now s)
  unfolding drain_results process_all
  drain_results-Stage pending a e gone h =
      let emptied = with_queue-Stage now vm_id p pending (a ∷ []) log s h [] in
      rw h.queued (process_async_result-Stage now vm_id p log _ pending [] a e gone emptied)

  pub drain_results-none :
      (pending : Map PendingInterrupt)
      → Stage vm_id p pending [] log s
      → Stage vm_id p pending [] log (drain_results keep_result now s)
  unfolding drain_results process_all
  drain_results-none pending h = rw h.queued (with_queue-Stage now vm_id p pending [] log s h [])

  pub expire_pending-none :
      (queue : List AsyncInterruptResult)
      → Stage vm_id p [] queue log s
      → Stage vm_id p [] queue log (expire_pending keep_result now s)
  unfolding expire_pending split_overdue time_out_all
  expire_pending-none queue h = rw h.waiting (with_pending-Stage now vm_id p [] queue log s h [])

  pub expire_pending-overdue :
      (queue : List AsyncInterruptResult) (late : PendingInterrupt)
      → late.vm_id ≡ vm_id
      → is_overdue now late ≡ true
      → Stage vm_id p ((vm_id, late) ∷ []) queue log s
      → let res = timeout_result now late.vm_id late.interrupt_type late.priority in
        Stage vm_id p [] queue (res ∷ log) (expire_pending keep_result now s)
  unfolding expire_pending time_out_all
  expire_pending-overdue queue late e due h =
      let emptied = with_pending-Stage now vm_id p ((vm_id, late) ∷ []) queue log s h [] in
      rw (h.waiting, split_overdue-one now vm_id late due)
        (process_interrupt_timeout-Stage now vm_id p log _ [] queue late e emptied)
