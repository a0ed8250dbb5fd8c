-- ===== src/Router/Ring/Interleave.antt =====
-- `try_push` and `try_pop` of the ring (include/router/LockFreeMessageQueue.h) on two threads, one load
-- or store at a time, in the order in which the threads' steps come.
use my_vm_os.Base.{
  ℕ, suc, ◌+◌, ◌<◌, ◌≡◌, ◌≢◌, refl, sym, inl, inr, List, [], ◌∷◌, ◌++◌, ◌==◌, if◌then◌else◌, arith,
  Bool-cases,
}
use mathlib.Core.List.{append_assoc}
use my_vm_os.Router.Ring.{LockFreeMessageQueue, max_queue_size, write, next, size}
use my_vm_os.Router.Ring.Fifo.{
  contents, IsRing, contents-write, contents-tail, contents-head, size-room, size-some,
}

-- Where a thread stands in `try_push`: the tail it has loaded, and whether it has seen room and
-- written the message.
pub data Pusher (M : Type 0) : Type 0 where
  at_rest : Pusher M
  loaded has_room written : (current_tail : ℕ) (msg : M) → Pusher M

-- Where a thread stands in `try_pop`.
pub data Popper (M : Type 0) : Type 0 where
  at_rest : Popper M
  loaded has_message : (current_head : ℕ) → Popper M
  taken : (current_head : ℕ) (msg : M) → Popper M

-- The ring with its two threads; `sent` and `received` are the messages whose call has returned true
-- or a message, in order.
pub record Threads (M : Type 0) : Type 0 where
  pub ring : LockFreeMessageQueue M
  pub pusher : Pusher M
  pub popper : Popper M
  pub sent : List M
  pub received : List M

module _ {M : Type 0} where
  -- The next load or store of `try_push`; at rest, it is called with `msg`.
  unfoldable pub step_push : M → Threads M → Threads M
  step_push msg s = elim s.pusher [
    | at_rest ↦ record s { pusher = loaded s.ring.tail msg }
    | loaded t m ↦
        if next t == s.ring.head
        then record s { pusher = at_rest }
        else record s { pusher = has_room t m }
    | has_room t m ↦ record s {
      ring = record s.ring { queue = write t m s.ring.queue };
      pusher = written t m;
    }
    | written t m ↦ record s {
      ring = record s.ring { tail = next t };
      pusher = at_rest;
      sent = s.sent ++ (m ∷ []);
    }
  ]

  unfoldable pub step_pop : Threads M → Threads M
  step_pop s = elim s.popper [
    | at_rest ↦ record s { popper = loaded s.ring.head }
    | loaded h ↦
        if h == s.ring.tail
        then record s { popper = at_rest }
        else record s { popper = has_message h }
    | has_message h ↦ record s { popper = taken h (s.ring.queue h) }
    | taken h m ↦ record s {
      ring = record s.ring { head = next h };
      popper = at_rest;
      received = s.received ++ (m ∷ []);
    }
  ]

  -- The states that the two threads reach from `queue`, in any order of their steps.
  pub data Reachable (queue : ℕ → M) : Threads M → Type 0 where
    by_start : Reachable queue (record {
      ring = record { queue = queue; head = 0; tail = 0 };
      pusher = at_rest;
      popper = at_rest;
      sent = [];
      received = [];
    })
    by_push : {s : Threads M} (msg : M) → Reachable queue s → Reachable queue (step_push msg s)
    by_pop : {s : Threads M} → Reachable queue s → Reachable queue (step_pop s)

  -- What the pusher knows where it stands.
  abbrev PusherKnows : Pusher M → LockFreeMessageQueue M → Type 0
  PusherKnows at_rest q = Unit
  PusherKnows (loaded t m) q = t ≡ q.tail
  PusherKnows (has_room t m) q = (t ≡ q.tail) × (size q + 1 < max_queue_size)
  PusherKnows (written t m) q = (t ≡ q.tail) × (size q + 1 < max_queue_size) × (q.queue t ≡ m)

  abbrev PopperKnows : Popper M → LockFreeMessageQueue M → Type 0
  PopperKnows at_rest q = Unit
  PopperKnows (loaded h) q = h ≡ q.head
  PopperKnows (has_message h) q = (h ≡ q.head) × (0 < size q)
  PopperKnows (taken h m) q = (h ≡ q.head) × (0 < size q) × (q.queue h ≡ m)

  pub record IsOrdered (s : Threads M) : Type 0 where
    pub valid : IsRing s.ring
    pub in_order : s.sent ≡ s.received ++ contents s.ring
    pub push_knows : PusherKnows s.pusher s.ring
    pub pop_knows : PopperKnows s.popper s.ring

  -- What the popper knows stays true when the pusher stores.
  PopperKnows-write :
      (c : Popper M) (q : LockFreeMessageQueue M) (m : M)
      → IsRing q
      → PopperKnows c q
      → PopperKnows c (record q { queue = write q.tail m q.queue })
  unfolding size
  PopperKnows-write at_rest q m v h = tt
  PopperKnows-write (loaded k) q m v h = h
  PopperKnows-write (has_message k) q m v h = h
  PopperKnows-write (taken k n) q m v h =
      let apart : q.tail ≢ k = ground arith in (h.0, h.1, ground arith)

  PopperKnows-tail :
      (c : Popper M) (q : LockFreeMessageQueue M)
      → size (record q { tail = next q.tail }) ≡ suc (size q)
      → PopperKnows c q
      → PopperKnows c (record q { tail = next q.tail })
  PopperKnows-tail at_rest q e h = tt
  PopperKnows-tail (loaded k) q e h = h
  PopperKnows-tail (has_message k) q e h = (h.0, omega arith)
  PopperKnows-tail (taken k n) q e h = (h.0, omega arith, h.2)

  -- What the pusher knows stays true when the popper stores.
  PusherKnows-head :
      (p : Pusher M) (q : LockFreeMessageQueue M)
      → size q ≡ suc (size (record q { head = next q.head }))
      → PusherKnows p q
      → PusherKnows p (record q { head = next q.head })
  PusherKnows-head at_rest q e h = tt
  PusherKnows-head (loaded k m) q e h = h
  PusherKnows-head (has_room k m) q e h = (h.0, omega arith)
  PusherKnows-head (written k m) q e h = (h.0, omega arith, h.2)

  pub size-write :
      (q : LockFreeMessageQueue M) (queue : ℕ → M) → size (record q { queue = queue }) ≡ size q
  unfolding size
  size-write q queue = refl

  step_push-IsOrdered :
      (msg : M) (q : LockFreeMessageQueue M) (p : Pusher M) (c : Popper M) (sent received : List M)
      → let s : Threads M = record {
        ring = q;
        pusher = p;
        popper = c;
        sent = sent;
        received = received;
      } in
        IsOrdered s → IsOrdered (step_push msg s)
  unfolding step_push
  step_push-IsOrdered msg q at_rest c sent received h = record {
    valid = h.valid;
    in_order = h.in_order;
    push_knows = refl;
    pop_knows = h.pop_knows;
  }
  step_push-IsOrdered msg q (loaded t m) c sent received h = elim (Bool-cases (next t == q.head)) [
    | inl b ↦ rw b (record {
      valid = h.valid;
      in_order = h.in_order;
      push_knows = tt;
      pop_knows = h.pop_knows;
    })
    | inr b ↦ rw b (record {
      valid = h.valid;
      in_order = h.in_order;
      push_knows = let at = h.push_knows in (at, size-room q h.valid (ground arith));
      pop_knows = h.pop_knows;
    })
  ]
  step_push-IsOrdered msg q (has_room t m) c sent received h =
      let kept = contents-write q m h.valid in
      let same = size-write q (write q.tail m q.queue) in
      let room = h.push_knows.1 in
      rw h.push_knows.0 (record {
        valid = record { head_below = h.valid.head_below; tail_below = h.valid.tail_below };
        in_order = rw kept h.in_order;
        push_knows = (refl, omega arith, ground arith);
        pop_knows = PopperKnows-write c q m h.valid h.pop_knows;
      })
  step_push-IsOrdered msg q (written t m) c sent received h =
      let stored = contents-tail q h.valid h.push_knows.1 in
      let there : q.queue q.tail ≡ m = rw (← h.push_knows.0) h.push_knows.2 in
      rw h.push_knows.0 (record {
        valid = record { head_below = h.valid.head_below; tail_below = omega arith };
        in_order = rw (stored.0, there, h.in_order) (append_assoc received (contents q) (m ∷ []));
        push_knows = tt;
        pop_knows = PopperKnows-tail c q stored.1 h.pop_knows;
      })

  step_pop-IsOrdered :
      (q : LockFreeMessageQueue M) (p : Pusher M) (c : Popper M) (sent received : List M)
      → let s : Threads M = record {
        ring = q;
        pusher = p;
        popper = c;
        sent = sent;
        received = received;
      } in
        IsOrdered s → IsOrdered (step_pop s)
  unfolding step_pop
  step_pop-IsOrdered q p at_rest sent received h = record {
    valid = h.valid;
    in_order = h.in_order;
    push_knows = h.push_knows;
    pop_knows = refl;
  }
  step_pop-IsOrdered q p (loaded k) sent received h = elim (Bool-cases (k == q.tail)) [
    | inl b ↦ rw b (record {
      valid = h.valid;
      in_order = h.in_order;
      push_knows = h.push_knows;
      pop_knows = tt;
    })
    | inr b ↦ rw b (record {
      valid = h.valid;
      in_order = h.in_order;
      push_knows = h.push_knows;
      pop_knows = let at = h.pop_knows in (at, size-some q h.valid (ground arith));
    })
  ]
  step_pop-IsOrdered q p (has_message k) sent received h = record {
    valid = h.valid;
    in_order = h.in_order;
    push_knows = h.push_knows;
    pop_knows = (h.pop_knows.0, h.pop_knows.1, refl);
  }
  step_pop-IsOrdered q p (taken k m) sent received h =
      let left = contents-head q h.valid h.pop_knows.1 in
      let there : q.queue q.head ≡ m = rw (← h.pop_knows.0) h.pop_knows.2 in
      rw h.pop_knows.0 (record {
        valid = record { head_below = omega arith; tail_below = h.valid.tail_below };
        in_order =
            rw (h.in_order, left.0, there)
              (sym (append_assoc received (m ∷ []) (contents (record q { head = next q.head }))));
        push_knows = PusherKnows-head p q left.1 h.push_knows;
        pop_knows = tt;
      })

  -- However the loads and stores of one pushing and one popping thread interleave on the ring, the
  -- messages whose push has succeeded are those that have been popped followed by those in the ring,
  -- in order, and the indices stay in the array.
  pub Reachable-in_order : (queue : ℕ → M) (s : Threads M) → Reachable queue s → IsOrdered s
  unfolding size
  Reachable-in_order queue _ by_start = record {
    valid = record { head_below = omega arith; tail_below = omega arith };
    in_order = refl;
    push_knows = tt;
    pop_knows = tt;
  }
  Reachable-in_order queue _ (by_push {s} msg r) =
      step_push-IsOrdered msg s.ring s.pusher s.popper s.sent s.received
        (Reachable-in_order queue s r)
  Reachable-in_order queue _ (by_pop {s} r) =
      step_pop-IsOrdered s.ring s.pusher s.popper s.sent s.received (Reachable-in_order queue s r)
