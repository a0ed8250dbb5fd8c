-- ===== src/Tests/Routing.antt =====
-- The theorems on the router (src/router/RouterCore.cpp) and its ring, run with a few messages.
use my_vm_os.Base.{ℕ, ◌+◌, ◌*◌, ◌≡◌, ◌⊎◌, refl, true, false, List, [], ◌∷◌, ◌++◌, arith, length}
use my_vm_os.Message.{Message, router_ping, new_message}
use my_vm_os.Router.Ring.{LockFreeMessageQueue, size}
use my_vm_os.Router.Ring.Fifo.{contents, IsRing, Op, push, pop, run, fifo_run, run_refines}
use my_vm_os.Router.Ring.Interleave
use my_vm_os.Router.Ring.Interleave.{
  Threads, IsOrdered, Reachable, by_start, by_push, by_pop, step_push, step_pop, Reachable-in_order,
}
use my_vm_os.Router.Ring.Race.{two_pushers, idle, in_turn, two_pushers-lost}
use my_vm_os.Router.{RouterCore, send, subscribe, polling_loop}
use my_vm_os.Router.Dispatch.{
  IsCounted, waiting, listeners, quiet, hear_all, send_lem, polling_loop-hear_all,
}

-- An empty ring at the end of its array.
ring : LockFreeMessageQueue ℕ
ring = record { queue = λ i. 0; head = 1023; tail = 1023 }

ring-IsRing : IsRing ring
unfolding ring
ring-IsRing = record { head_below = omega arith; tail_below = omega arith }

abbrev calls : List (Op ℕ)
calls = pop ∷ push 5 ∷ push 6 ∷ pop ∷ push 7 ∷ pop ∷ pop ∷ []

run_refines_example : run calls ring ≡ fifo_run calls (contents ring)
run_refines_example = run_refines calls ring ring-IsRing

abbrev zeros : ℕ → ℕ
zeros i = 0

-- The reader loads the head between the writer's steps.
interleaved : Threads ℕ
interleaved = step_pop (
    step_push 5 (
      step_pop (
        step_push 5 (
          step_pop (
            step_push 5 (
              step_push 5 (record {
                ring = record { queue = zeros; head = 0; tail = 0 };
                pusher = Interleave.at_rest;
                popper = Interleave.at_rest;
                sent = [];
                received = [];
              })))))))

Reachable-in_order_example : IsOrdered interleaved
unfolding interleaved
Reachable-in_order_example =
    Reachable-in_order zeros interleaved
      (by_pop (by_push 5 (by_pop (by_push 5 (by_pop (by_push 5 (by_push 5 by_start)))))))

two_pushers-lost_example :
    let s = (two_pushers 5 6 in_turn (idle ring, Interleave.at_rest)).0 in
    (s.sent ≡ 5 ∷ 6 ∷ []) × (contents s.ring ≡ contents ring ++ (6 ∷ []))
unfolding ring size
two_pushers-lost_example = two_pushers-lost ring 5 6 ring-IsRing (omega arith)

ping : Message
ping = new_message 2 4 router_ping

-- A router with one subscriber, and no message yet.
router : RouterCore ℕ
router = subscribe router_ping 8 (record {
  module_names = [];
  subscribers = [];
  sender_subscribers = (2, 9 ∷ []) ∷ [];
  message_queue = record { queue = λ i. ping; head = 0; tail = 0 };
  queue_size = 0;
  running = true;
  external_senders = [];
  external_receivers = [];
})

router-IsCounted : IsCounted router
unfolding router subscribe size
router-IsCounted = record {
  ring = record { head_below = omega arith; tail_below = omega arith };
  counted = refl;
  bounded = omega arith;
}

send_lem_example :
    IsCounted (send ping router).1
    × (((send ping router).0 ≡ true)
          × (waiting (send ping router).1 ≡ waiting router ++ (ping ∷ []))
        ⊎ ((send ping router).0 ≡ false)
          × (waiting (send ping router).1 ≡ waiting router)
          × (length (waiting router) ≡ 1023))
send_lem_example = send_lem ping router router-IsCounted

-- The router with a message.
busy : RouterCore ℕ
busy = (send ping router).1

-- Each subscriber adds its number.
abbrev add_up : ℕ → Message → ℕ → ℕ
add_up c msg total = total * 10 + c

polling_loop-hear_all_example :
    let s = polling_loop (quiet add_up) (length (waiting busy)) (busy, 0) in
    (s.1 ≡ hear_all add_up (waiting busy) (λ msg. listeners msg busy) 0) × (waiting s.0 ≡ [])
unfolding busy router subscribe send
polling_loop-hear_all_example =
    polling_loop-hear_all add_up busy 0 (let h = send_lem ping router router-IsCounted in h.0) refl
