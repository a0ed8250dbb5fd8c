-- ===== src/VmManager/Delivery.antt =====
-- How often a machine is given a result (`VmManager`, src/vm/VmManager.cpp): from its request to the
-- rounds of the worker thread.
use my_vm_os.Base.{
  ℕ, ◌+◌, ◌*◌, ◌≤◌, ◌≡◌, ◌≢◌, ◌∙◌, refl, sym, ap, subst, true, false, List, [], ◌∷◌, ltb, le→ltb,
  arith, erase, add64,
}
use my_vm_os.Base.Int.{ℤ, pos, leb_ℤ, pos_part}
use my_vm_os.Message.{InterruptResult, system, normal, realtime, module_vm_manager}
use my_vm_os.Timeout.{
  TimeoutManager, Stats, stamp, after_ms, process_timeouts, ns_per_ms, count_trigger,
}
use my_vm_os.Timeout.Single.{
  no_timer, one_timer, once, Silent, nothing, process_timeouts-one, erase-one,
}
use my_vm_os.VmManager.{
  System, State, cancel_pending, timeout_result, handle_interrupt_result, timeout_callback,
}
use my_vm_os.VmManager.Worker.{is_overdue, drain_results, expire_pending, worker_round, worker_loop}
use my_vm_os.VmManager.Stage.{
  Log, keep_result, Stage, drain_results-Stage, drain_results-none, expire_pending-overdue,
}
use my_vm_os.VmManager.Ask.{
  pending_at, ask, counted, answer, late_result, worker_loop-next, Silent-round, Silent-rounds,
  asked-one, on_interrupt_result-one, answer-handled, cancel_pending-Silent, cancel_pending-none,
  timeout_callback-handled, late-overdue,
}

module _ (vm_id p : ℕ) where
  module _ (now : ℕ) (periph_id ms : ℤ) (next_id : ℕ) (stats : Stats) (s : System Log) (log : Log)
      (positive : leb_ℤ ms (pos 0) ≡ false) (not_manager : vm_id ≢ module_vm_manager)
      (h : Stage vm_id p [] [] log s) where
    at_ask :
        let asked = ask now vm_id periph_id ms next_id stats s in
        (asked.0
          ≡ one_timer
              (once next_id (stamp now) ms vm_id)
              (once next_id (stamp now) ms vm_id)
              (add64 next_id 1)
              (counted stats))
        × Stage vm_id p ((vm_id, pending_at now vm_id periph_id ms next_id) ∷ []) [] log asked.1
    at_ask = asked-one vm_id p now periph_id ms next_id stats s log positive not_manager h

    -- An answer that comes while the request is pending.
    answered-one :
        (at sender receiver : ℕ) (res : InterruptResult)
        → res.vm_id ≡ vm_id
        → next_id ≢ 0
        → let after =
            handle_interrupt_result at
              (answer sender receiver res)
              (ask now vm_id periph_id ms next_id stats s) in
          Silent after.0
          × Stage vm_id p
              ((vm_id, pending_at now vm_id periph_id ms next_id) ∷ [])
              (record {
                vm_id = res.vm_id;
                result = record res { completion_time = at };
                request_time = now;
              }
                ∷ [])
              log
              after.1
    answered-one at sender receiver res e nonzero =
        let asked = ask now vm_id periph_id ms next_id stats s in
        let result_in =
          on_interrupt_result-one vm_id p now periph_id ms next_id stats s log positive not_manager
            h at res asked.0 [] asked.1 e at_ask.1 in
        let cancelled = result_in.0 ∙ ap (cancel_pending next_id) at_ask.0 in
        let silent =
          cancel_pending-Silent (once next_id (stamp now) ms vm_id) (add64 next_id 1)
            (counted stats) nonzero in
        rw (answer-handled at sender receiver res asked)
          (subst Silent (sym cancelled) silent, result_in.1)

    -- A machine with a positive timeout whose id is not 1, with no request pending, no result
    -- waiting and no timer set, asks a device. Where the answer comes before any round of the worker
    -- thread, then after the next round and any more, at whatever times, the machine has been given
    -- exactly that answer, and nothing is pending or waits.
    pub delivered_once :
        (at sender receiver : ℕ) (res : InterruptResult) (now2 : ℕ) (times : List ℕ)
        → res.vm_id ≡ vm_id
        → next_id ≢ 0
        → let answered =
            handle_interrupt_result at
              (answer sender receiver res)
              (ask now vm_id periph_id ms next_id stats s) in
          Stage vm_id p [] []
            (record res { completion_time = at } ∷ log)
            (worker_loop keep_result (now2 ∷ times) answered).1
    delivered_once at sender receiver res now2 times e nonzero =
        let answered =
          handle_interrupt_result at (answer sender receiver res)
            (ask now vm_id periph_id ms next_id stats s) in
        let (silent, g) = answered-one at sender receiver res e nonzero in
        let gone = erase-one vm_id (pending_at now vm_id periph_id ms next_id) in
        let drained =
          drain_results-Stage now2 vm_id p log answered.1
            ((vm_id, pending_at now vm_id periph_id ms next_id) ∷ []) _ e gone g in
        let round = Silent-round vm_id p now2 answered.0 answered.1 _ silent drained in
        let next = worker_round keep_result now2 answered in
        rw (worker_loop-next now2 times answered g.on)
          (Silent-rounds vm_id p times next.0 next.1 _ round.0 round.1)

    -- The request, its time over, in one round: its timer's callback queues a result, and the request
    -- is taken for overdue.
    late_round :
        (late : ℕ)
        → ltb (stamp late) (after_ms (stamp now) ms) ≡ false
        → is_overdue late (pending_at now vm_id periph_id ms next_id) ≡ true
        → let asked = ask now vm_id periph_id ms next_id stats s in
          let after = worker_round keep_result late asked in
          Silent after.0
          × Stage vm_id p []
              (late_result late vm_id now ∷ [])
              (timeout_result late vm_id system realtime ∷ log)
              after.1
    unfolding worker_round timeout_result count_trigger
    late_round late due overdue =
        let asked = ask now vm_id periph_id ms next_id stats s in
        let drained = drain_results-none late vm_id p log asked.1 _ at_ask.1 in
        let x = drain_results keep_result late asked.1 in
        let res = timeout_result late vm_id system normal in
        let t = no_timer (add64 next_id 1) (counted stats) in
        let queued =
          on_interrupt_result-one vm_id p now periph_id ms next_id stats s log positive not_manager
            h late res t [] x refl drained in
        let ran =
          process_timeouts-one (λ id. timeout_callback late id) (stamp late) next_id (stamp now) ms
            vm_id (add64 next_id 1) (counted stats) x _ due
            (timeout_callback-handled late vm_id (t, x)) in
        let timer = queued.0 ∙ cancel_pending-none next_id (add64 next_id 1) (counted stats) in
        let expired =
          expire_pending-overdue late vm_id p log _ _ (pending_at now vm_id periph_id ms next_id)
            refl overdue queued.1 in
        let run_timeouts : TimeoutManager ℕ → State Log =
          λ t'. (process_timeouts (λ id. timeout_callback late id) (stamp late) (t', x)).1 in
        let ended : worker_round keep_result late asked ≡ _ =
          ap (λ (r : State Log). (r.0, expire_pending keep_result late r.1))
            (ap run_timeouts at_ask.0 ∙ ran) in
        subst
          (λ (w : State Log).
            Silent w.0
            × Stage vm_id p [] (late_result late vm_id now ∷ [])
                (timeout_result late vm_id system realtime ∷ log) w.1)
          (sym ended)
          (
            subst (λ u. Silent (count_trigger (once next_id (stamp now) ms vm_id) u)) (sym timer)
                (nothing _ _),
            expired,
          )

    -- A machine with a positive timeout whose id is not 1, with no request pending, no result
    -- waiting and no timer set, asks a device. Where no answer comes and the worker thread makes its
    -- first round when the time is over, the machine is given two results for the one request: one
    -- in that round and one in the next.
    pub delivered_twice :
        (late later : ℕ) (times : List ℕ)
        → now + pos_part ms * ns_per_ms ≤ late
        → Stage vm_id p [] []
            (timeout_result late vm_id system normal
              ∷ timeout_result late vm_id system realtime
              ∷ log)
            (worker_loop keep_result
              (late ∷ later ∷ times)
              (ask now vm_id periph_id ms next_id stats s)).1
    unfolding timeout_result erase
    delivered_twice late later times over =
        let asked = ask now vm_id periph_id ms next_id stats s in
        let first =
          late_round late (le→ltb (stamp late) (after_ms (stamp now) ms) (omega arith))
            (late-overdue vm_id now periph_id ms next_id late over) in
        let middle = worker_round keep_result late asked in
        let drained = drain_results-Stage later vm_id p _ middle.1 [] _ refl refl first.1 in
        let second = Silent-round vm_id p later middle.0 middle.1 _ first.0 drained in
        rw
          (
            worker_loop-next late (later ∷ times) asked at_ask.1.on,
            worker_loop-next later times middle first.1.on,
          )
          (let next = worker_round keep_result later middle in
            Silent-rounds vm_id p times next.0 next.1 _ second.0 second.1)
