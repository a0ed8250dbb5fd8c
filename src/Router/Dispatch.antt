-- ===== src/Router/Dispatch.antt =====
-- What `RouterCore` (src/router/RouterCore.cpp) delivers, to whom and in what order.
use my_vm_os.Base.{
  ℕ, suc, ◌+◌, ◌<◌, ◌≡◌, ◌⊎◌, ◌∙◌, refl, sym, ap, subst, inl, inr, Bool, true, false, List, [], ◌∷◌,
  ◌++◌, Option, none, some, ltb, if◌then◌else◌, arith, length, length-append, sub64, Bool-cases,
}
use my_vm_os.Message.{Message, type_code}
use my_vm_os.Router.{
  RouterCore, callbacks, send, poll, deliver, process_and_dispatch, poll_round, polling_loop,
}
use my_vm_os.Router.Ring.{max_queue_size, try_push, try_pop}
use my_vm_os.Router.Ring.Fifo.{
  contents, IsRing, enqueue, dequeue, try_push-IsRing, try_pop-IsRing, try_push_refines,
  try_pop_refines,
}

dequeue-counted :
    (l left : List Message) (o : Option Message) (n : ℕ)
    → (o, left) ≡ dequeue l
    → n ≡ length l
    → length l < max_queue_size
    → ((elim o [ none ↦ n | some _ ↦ sub64 n 1 ]) ≡ length left) × (length left < max_queue_size)
unfolding dequeue
dequeue-counted [] left o n e same below =
    let e0 : o ≡ none = ap (λ p. p.0) e in
    let e1 : left ≡ [] = ap (λ p. p.1) e in rw (e0, e1) ((same, omega arith))
dequeue-counted (msg ∷ l) left o n e same below =
    let e0 : o ≡ some msg = ap (λ p. p.0) e in
    let e1 : left ≡ l = ap (λ p. p.1) e in rw (e0, e1) ((omega arith, omega arith))

module _ {C : Type 0} where
  -- The messages that wait.
  abbrev pub waiting : RouterCore C → List Message
  waiting r = contents r.message_queue

  pub record IsCounted (r : RouterCore C) : Type 0 where
    pub ring : IsRing r.message_queue
    pub counted : r.queue_size ≡ length (waiting r)
    pub bounded : length (waiting r) < max_queue_size

  -- On a router whose counter is the length of its queue, send keeps it so and either returns true
  -- and appends the message, or returns false, leaves the queue as it was, and 1023 messages wait.
  pub send_lem :
      (msg : Message) (r : RouterCore C)
      → IsCounted r
      → let s = send msg r in
        IsCounted s.1
        × ((s.0 ≡ true) × (waiting s.1 ≡ waiting r ++ (msg ∷ []))
            ⊎ (s.0 ≡ false) × (waiting s.1 ≡ waiting r) × (length (waiting r) ≡ 1023))
  unfolding send enqueue
  send_lem msg r v =
      let q = try_push_refines msg r.message_queue v.ring in
      let ring = try_push-IsRing msg r.message_queue v.ring in
      let same = v.counted in
      let below = v.bounded in
      elim (Bool-cases (ltb (length (waiting r) + 1) max_queue_size)) [
        | inl b ↦
            let grown = length-append (waiting r) (msg ∷ []) in
            let ok : (try_push msg r.message_queue).0 ≡ true = ap (λ p. p.0) q ∙ rw b refl in
            let now : contents (try_push msg r.message_queue).1 ≡ waiting r ++ (msg ∷ []) =
              ap (λ p. p.1) q ∙ rw b refl in
            (
              record {
                ring = ring;
                counted = rw (ok, now, grown) (ground arith);
                bounded = rw (now, grown) (ground arith);
              },
              inl (ok, now),
            )
        | inr b ↦
            let full : (try_push msg r.message_queue).0 ≡ false = ap (λ p. p.0) q ∙ rw b refl in
            let now : contents (try_push msg r.message_queue).1 ≡ waiting r =
              ap (λ p. p.1) q ∙ rw b refl in
            (
              record { ring = ring; counted = rw (full, now) same; bounded = rw now below },
              inr (full, now, ground arith),
            )
      ]

  pub poll_lem :
      (r : RouterCore C)
      → IsCounted r
      → let s = poll r in IsCounted s.1 × ((s.0, waiting s.1) ≡ dequeue (waiting r))
  unfolding poll
  poll_lem r v =
      let q = try_pop_refines r.message_queue v.ring in
      let n =
        dequeue-counted (waiting r) (contents (try_pop r.message_queue).1)
          (try_pop r.message_queue).0 r.queue_size q v.counted v.bounded in
      (record { ring = try_pop-IsRing r.message_queue v.ring; counted = n.0; bounded = n.1 }, q)

  -- Whom a message goes to, in order.
  abbrev pub listeners : Message → RouterCore C → List C
  listeners msg r =
      callbacks (type_code msg.type) r.subscribers
      ++ callbacks msg.sender_id r.sender_subscribers
      ++ r.external_receivers

  listeners-poll : (msg : Message) (r : RouterCore C) → listeners msg (poll r).1 ≡ listeners msg r
  unfolding poll
  listeners-poll msg r = refl

  running-poll : (r : RouterCore C) → (poll r).1.running ≡ r.running
  unfolding poll
  running-poll r = refl

  poll_round-some :
      {W : Type 0} (run : C → Message → RouterCore C × W → RouterCore C × W) (msg : Message)
      (r : RouterCore C) (w : W)
      → (poll r).0 ≡ some msg
      → poll_round run (r, w) ≡ process_and_dispatch run msg ((poll r).1, w)
  unfolding poll_round
  poll_round-some run msg r w h = rw (h, poll_round) refl

  polling_loop-next :
      {W : Type 0} (run : C → Message → RouterCore C × W → RouterCore C × W) (n : ℕ)
      (s : RouterCore C × W)
      → s.0.running ≡ true
      → polling_loop run (suc n) s ≡ polling_loop run n (poll_round run s)
  unfolding polling_loop
  polling_loop-next run n s h =
      ap (λ (on : Bool). if on then polling_loop run n (poll_round run s) else s) h

  module _ {W : Type 0} (act : C → Message → W → W) where
    -- A callback that leaves the router as it is.
    abbrev pub quiet : C → Message → RouterCore C × W → RouterCore C × W
    quiet c msg (r, w) = (r, act c msg w)

    abbrev pub hear : Message → List C → W → W
    hear msg [] w = w
    hear msg (c ∷ cs) w = hear msg cs (act c msg w)

    abbrev pub hear_all : List Message → (Message → List C) → W → W
    hear_all [] who w = w
    hear_all (msg ∷ msgs) who w = hear_all msgs who (hear msg (who msg) w)

    deliver-hear :
        (msg : Message) (cs : List C) (r : RouterCore C) (w : W)
        → deliver quiet msg cs (r, w) ≡ (r, hear msg cs w)
    unfolding deliver
    deliver-hear msg [] r w = refl
    deliver-hear msg (c ∷ cs) r w = deliver-hear msg cs r (act c msg w)

    hear-append :
        (msg : Message) (xs ys : List C) (w : W)
        → hear msg (xs ++ ys) w ≡ hear msg ys (hear msg xs w)
    hear-append msg [] ys w = refl
    hear-append msg (c ∷ xs) ys w = hear-append msg xs ys (act c msg w)

    pub process_and_dispatch-hear :
        (msg : Message) (r : RouterCore C) (w : W)
        → process_and_dispatch quiet msg (r, w) ≡ (r, hear msg (listeners msg r) w)
    unfolding process_and_dispatch
    process_and_dispatch-hear msg r w =
        let by_type = callbacks (type_code msg.type) r.subscribers in
        let by_sender = callbacks msg.sender_id r.sender_subscribers in
        let heard =
          hear-append msg (by_type ++ by_sender) r.external_receivers w
          ∙ ap (hear msg r.external_receivers) (hear-append msg by_type by_sender w) in
        rw
          (
            deliver-hear msg by_type r w,
            deliver-hear msg by_sender r (hear msg by_type w),
            deliver-hear msg r.external_receivers r (hear msg by_sender (hear msg by_type w)),
          )
          (ap (λ v. (r, v)) (sym heard))

    poll_round-hear :
        (msg : Message) (l : List Message) (r : RouterCore C) (w : W)
        → IsCounted r
        → waiting r ≡ msg ∷ l
        → (poll_round quiet (r, w) ≡ ((poll r).1, hear msg (listeners msg r) w))
          × (waiting (poll r).1 ≡ l)
    unfolding dequeue
    poll_round-hear msg l r w v e =
        let polled = poll_lem r v in
        let first : (poll r).0 ≡ some msg = ap (λ p. p.0) polled.1 ∙ rw e refl in
        let left : waiting (poll r).1 ≡ l = ap (λ p. p.1) polled.1 ∙ rw e refl in
        (
          poll_round-some quiet msg r w first
              ∙ process_and_dispatch-hear msg (poll r).1 w
              ∙ ap (λ who. ((poll r).1, hear msg who w)) (listeners-poll msg r),
          left,
        )

    drained :
        (l : List Message) (who : Message → List C) (r : RouterCore C) (w : W)
        → IsCounted r
        → r.running ≡ true
        → ((msg : Message) → listeners msg r ≡ who msg)
        → waiting r ≡ l
        → let s = polling_loop quiet (length l) (r, w) in
          (s.1 ≡ hear_all l who w) × (waiting s.0 ≡ [])
    unfolding polling_loop
    drained [] who r w v on same e = (refl, e)
    drained (msg ∷ l) who r w v on same e =
        let round = poll_round-hear msg l r w v e in
        let later =
          drained l who (poll r).1 (hear msg (who msg) w) (let polled = poll_lem r v in polled.0)
            (running-poll r ∙ on) (λ m. listeners-poll m r ∙ same m) round.1 in
        let first = round.0 ∙ ap (λ cs. ((poll r).1, hear msg cs w)) (same msg) in
        subst
          (λ (s : RouterCore C × W).
            (s.1 ≡ hear_all l who (hear msg (who msg) w)) × (waiting s.0 ≡ []))
          (sym (
            polling_loop-next quiet (length l) (r, w) on
            ∙ ap (polling_loop quiet (length l)) first))
          later

    -- Where the callbacks leave the router alone and it is running, as many rounds of polling_loop
    -- as messages wait empty the queue; each message goes, in the order of sending, to the
    -- subscribers of its type, then to those of its sender, then to the external receivers.
    pub polling_loop-hear_all :
        (r : RouterCore C) (w : W)
        → IsCounted r
        → r.running ≡ true
        → let s = polling_loop quiet (length (waiting r)) (r, w) in
          (s.1 ≡ hear_all (waiting r) (λ msg. listeners msg r) w) × (waiting s.0 ≡ [])
    polling_loop-hear_all r w v on =
        drained (waiting r) (λ msg. listeners msg r) r w v on (λ msg. refl) refl
