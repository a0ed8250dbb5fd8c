-- ===== src/VmManager/Ask.antt =====
-- A machine's request and its answer (`on_interrupt_request`, `on_interrupt_result` of
-- src/vm/VmManager.cpp), and the rounds of the worker thread when no timer is set.
use my_vm_os.Base.{
  ℕ, ◌+◌, ◌*◌, ◌≤◌, ◌≡◌, ◌≢◌, refl, ap, inl, inr, Bool, true, false, List, [], ◌∷◌, ◌++◌, some,
  leb→lt, ◌-◌, ◌/◌, ◌==◌, if◌then◌else◌, Bool-cases, ==_ne, lookup, insert, add64, arith,
}
use my_vm_os.Base.Int.{ℤ, pos, leb_ℤ, pos_part, neg_part}
use my_vm_os.Message.{
  Message, InterruptResult, InterruptRequest, system, normal, realtime, result,
  interrupt_result_ready, new_message, set_payload, type_code, interrupt_message,
  set_interrupt_type, get_interrupt_priority, module_vm_manager,
}
use my_vm_os.Timeout.{stamp, TimeoutManager, TimeoutEntry, Stats, ns_per_ms, cancel_timeout}
use my_vm_os.Timeout.Single.{
  no_timer, one_timer, once, register_timeout-one, Silent, cancel_timeout-Silent,
  Silent-process_timeouts, lookup-one,
}
use my_vm_os.Sched.Manager.Alive.{block_vm-IsAlive}
use my_vm_os.VmManager.{
  PendingInterrupt, AsyncInterruptResult, System, State, cancel_pending, timeout_result,
  accept_request, on_interrupt_request, handle_vm_interrupt_request, forward_interrupt_to_router,
  pending_of, on_interrupt_result, handle_interrupt_result, timeout_callback,
}
use my_vm_os.VmManager.Worker.{is_overdue, drain_results, worker_round, worker_loop}
use my_vm_os.VmManager.Stage.{Log, keep_result, Stage, drain_results-none, expire_pending-none}

-- The request of the machine, as it stands among the pending ones.
abbrev pub pending_at : ℕ → ℕ → ℤ → ℤ → ℕ → PendingInterrupt
pending_at now vm_id periph_id ms timer = record {
  vm_id = vm_id;
  periph_id = periph_id;
  interrupt_type = system;
  priority = realtime;
  timeout_ms = ms;
  request_time = now;
  enqueue_time = now;
  timeout_id = timer;
}

pub worker_loop-next :
    (now : ℕ) (times : List ℕ) (s : State Log)
    → s.1.manager.running ≡ true
    → worker_loop keep_result (now ∷ times) s
      ≡ worker_loop keep_result times (worker_round keep_result now s)
unfolding worker_loop
worker_loop-next now times s h =
    ap
      (λ (on : Bool).
        if on then worker_loop keep_result times (worker_round keep_result now s) else s)
      h

-- The request of the machine, where no timer is set.
abbrev pub ask : ℕ → ℕ → ℤ → ℤ → ℕ → Stats → System Log → State Log
ask now vm_id periph_id ms next_id stats s =
    handle_vm_interrupt_request now (interrupt_message vm_id periph_id ms)
      (no_timer next_id stats, s)

abbrev pub counted : Stats → Stats
counted stats = record stats { total_registered = add64 stats.total_registered 1 }

abbrev machine_request : ℕ → ℤ → ℤ → InterruptRequest
machine_request vm_id periph_id ms = record {
  vm_id = vm_id;
  periph_id = periph_id;
  interrupt_type = system;
  priority = realtime;
  timeout_ms = ms;
}

ask-handled :
    (now vm_id : ℕ) (periph_id ms : ℤ) (next_id : ℕ) (stats : Stats) (s : System Log)
    → ask now vm_id periph_id ms next_id stats s
      ≡ on_interrupt_request now
          (interrupt_message vm_id periph_id ms)
          (machine_request vm_id periph_id ms)
          (no_timer next_id stats, s)
unfolding handle_vm_interrupt_request interrupt_message new_message set_payload set_interrupt_type
    get_interrupt_priority type_code
ask-handled now vm_id periph_id ms next_id stats s = refl

interrupt_message-sender :
    (vm_id : ℕ) (periph_id ms : ℤ)
    → vm_id ≢ module_vm_manager
    → ((interrupt_message vm_id periph_id ms).sender_id == module_vm_manager) ≡ false
unfolding interrupt_message new_message set_payload
interrupt_message-sender vm_id periph_id ms h = ==_ne vm_id module_vm_manager h

on_interrupt_request-accepted :
    (now : ℕ) (msg : Message) (req : InterruptRequest) (p : ℕ) (t : TimeoutManager ℕ)
    (s : System Log)
    → (msg.sender_id == module_vm_manager) ≡ false
    → lookup req.vm_id s.manager.vms ≡ some p
    → on_interrupt_request now msg req (t, s) ≡ accept_request now req msg (t, s)
unfolding on_interrupt_request
on_interrupt_request-accepted now msg req p t s sender found =
    rw (sender, found, on_interrupt_request) refl

-- The message of a device's answer.
abbrev pub answer : ℕ → ℕ → InterruptResult → Message
answer sender receiver res =
    set_payload (result res) (new_message sender receiver interrupt_result_ready)

pub answer-handled :
    (at sender receiver : ℕ) (res : InterruptResult) (s : State Log)
    → handle_interrupt_result at (answer sender receiver res) s ≡ on_interrupt_result at res s
unfolding handle_interrupt_result new_message set_payload type_code
answer-handled at sender receiver res s = refl

pub cancel_pending-Silent :
    (e : TimeoutEntry ℕ) (next_id : ℕ) (stats : Stats)
    → e.id ≢ 0
    → Silent (cancel_pending e.id (one_timer e e next_id stats))
unfolding cancel_pending
cancel_pending-Silent e next_id stats h =
    rw (==_ne e.id 0 h) (cancel_timeout-Silent e next_id stats h)

pub cancel_pending-none :
    (id next_id : ℕ) (stats : Stats)
    → cancel_pending id (no_timer next_id stats) ≡ no_timer next_id stats
unfolding cancel_pending cancel_timeout lookup
cancel_pending-none id next_id stats = ground arith

pub timeout_callback-handled :
    (at vm_id : ℕ) (s : State Log)
    → timeout_callback at vm_id s
      ≡ (true, on_interrupt_result at (timeout_result at vm_id system normal) s)
unfolding timeout_callback
timeout_callback-handled at vm_id s =
    ap (λ after. (true, after))
      (answer-handled at module_vm_manager vm_id (timeout_result at vm_id system normal) s)

pub late-overdue :
    (vm_id now : ℕ) (periph_id ms : ℤ) (timer late : ℕ)
    → now + pos_part ms * ns_per_ms ≤ late
    → is_overdue late (pending_at now vm_id periph_id ms timer) ≡ true
unfolding is_overdue
late-overdue vm_id now periph_id ms timer late over =
    let passed = (late - now) / ns_per_ms in
    elim (Bool-cases (leb_ℤ ms (pos passed))) [
      | inl b ↦ b
      | inr b ↦
          let more = leb→lt (pos_part ms + 0) (passed + neg_part ms) b in
          let no : ⊥ = omega arith in elim no [ ]
    ]

-- What the timer's callback queues for the request of the time `now`.
abbrev pub late_result : ℕ → ℕ → ℕ → AsyncInterruptResult
late_result late vm_id now = record {
  vm_id = vm_id;
  result = timeout_result late vm_id system normal;
  request_time = now;
}

module _ (vm_id p : ℕ) where
  -- With no timer to fire, a round only delivers what waits.
  pub Silent-round :
      (now : ℕ) (t : TimeoutManager ℕ) (s : System Log) (log : Log)
      → Silent t
      → Stage vm_id p [] [] log (drain_results keep_result now s)
      → let after = worker_round keep_result now (t, s) in
        Silent after.0 × Stage vm_id p [] [] log after.1
  unfolding worker_round
  Silent-round now t s log quiet h =
      let ran =
        Silent-process_timeouts (λ id. timeout_callback now id) (stamp now) t
          (drain_results keep_result now s) quiet in
      (ran.1, rw ran.0 (expire_pending-none now vm_id p log (drain_results keep_result now s) [] h))

  pub Silent-rounds :
      (times : List ℕ) (t : TimeoutManager ℕ) (s : System Log) (log : Log)
      → Silent t
      → Stage vm_id p [] [] log s
      → Stage vm_id p [] [] log (worker_loop keep_result times (t, s)).1
  unfolding worker_loop
  Silent-rounds [] t s log quiet h = h
  Silent-rounds (now ∷ times) t s log quiet h =
      let after = Silent-round now t s log quiet (drain_results-none now vm_id p log s [] h) in
      let next = worker_round keep_result now (t, s) in
      rw (worker_loop-next now times (t, s) h.on)
        (Silent-rounds times next.0 next.1 log after.0 after.1)

  module _ (now : ℕ) (periph_id ms : ℤ) (next_id : ℕ) (stats : Stats) (s : System Log) (log : Log)
      (positive : leb_ℤ ms (pos 0) ≡ false) (not_manager : vm_id ≢ module_vm_manager)
      (h : Stage vm_id p [] [] log s) where
    pub asked-one :
        let asked = ask now vm_id periph_id ms next_id stats s in
        (asked.0
          ≡ one_timer
              (once next_id (stamp now) ms vm_id)
              (once next_id (stamp now) ms vm_id)
              (add64 next_id 1)
              (counted stats))
        × Stage vm_id p ((vm_id, pending_at now vm_id periph_id ms next_id) ∷ []) [] log asked.1
    unfolding accept_request forward_interrupt_to_router insert
    asked-one =
        let accepted =
          on_interrupt_request-accepted now (interrupt_message vm_id periph_id ms)
            (machine_request vm_id periph_id ms) p (no_timer next_id stats) s
            (interrupt_message-sender vm_id periph_id ms not_manager) h.registered in
        let timer = register_timeout-one (stamp now) ms vm_id next_id stats positive in
        rw (ask-handled now vm_id periph_id ms next_id stats s, accepted, timer)
          (
            refl,
            record {
              on = h.on;
              registered = h.registered;
              alive = block_vm-IsAlive p vm_id (pos 1) s.scheduler s.heap h.alive;
              logged = h.logged;
              waiting = rw h.waiting refl;
              queued = h.queued;
            },
          )

    pending_of-one :
        (k : ℕ) (queue : List AsyncInterruptResult) (x : System Log)
        → k ≡ vm_id
        → Stage vm_id p ((vm_id, pending_at now vm_id periph_id ms next_id) ∷ []) queue log x
        → pending_of k x ≡ (now, next_id)
    unfolding pending_of
    pending_of-one k queue x e g =
        let one = lookup-one vm_id (pending_at now vm_id periph_id ms next_id) in
        let found : lookup k x.manager.pending_interrupts
            ≡ some (pending_at now vm_id periph_id ms next_id) =
          rw (e, g.waiting) one in
        rw (found, pending_of) refl

    pub on_interrupt_result-one :
        (at : ℕ) (res : InterruptResult) (t : TimeoutManager ℕ) (queue : List AsyncInterruptResult)
        (x : System Log)
        → res.vm_id ≡ vm_id
        → Stage vm_id p ((vm_id, pending_at now vm_id periph_id ms next_id) ∷ []) queue log x
        → let after = on_interrupt_result at res (t, x) in
          (after.0 ≡ cancel_pending next_id t)
          × Stage vm_id p
              ((vm_id, pending_at now vm_id periph_id ms next_id) ∷ [])
              (queue
                ++ (record {
                  vm_id = res.vm_id;
                  result = record res { completion_time = at };
                  request_time = now;
                }
                    ∷ []))
              log
              after.1
    unfolding on_interrupt_result
    on_interrupt_result-one at res t queue x e g =
        let found = pending_of-one res.vm_id queue x e g in
        rw found (
          refl,
          record {
            on = g.on;
            registered = g.registered;
            alive = g.alive;
            logged = g.logged;
            waiting = g.waiting;
            queued = rw g.queued refl;
          },
        )
