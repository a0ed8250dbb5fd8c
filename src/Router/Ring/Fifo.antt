-- ===== src/Router/Ring/Fifo.antt =====
-- The ring of messages (include/router/LockFreeMessageQueue.h) is a bounded first-in first-out queue.
use my_vm_os.Base.{
  ℕ, zero, suc, ◌+◌, ◌%◌, ◌<◌, ◌≡◌, ◌≢◌, ◌∙◌, refl, sym, ap, inl, inr, Bool, true, false, List, [],
  ◌∷◌, ◌++◌, Option, none, some, leb, ltb, ◌==◌, if◌then◌else◌, arith, length, Bool-cases,
}
use my_vm_os.Router.Ring.{
  LockFreeMessageQueue, max_queue_size, write, next, try_push, try_pop, size,
}

module _ {M : Type 0} where
  -- The `n` messages from the slot `h` on.
  abbrev pub window : (ℕ → M) → ℕ → ℕ → List M
  window queue h zero = []
  window queue h (suc n) = queue h ∷ window queue (next h) n

  pub length-window : (queue : ℕ → M) (h n : ℕ) → length (window queue h n) ≡ n
  length-window queue h zero = refl
  length-window queue h (suc n) = ap suc (length-window queue (next h) n)

  -- A write just past a window adds its message at the end.
  pub window-write :
      (queue : ℕ → M) (msg : M) (n h t : ℕ)
      → h < max_queue_size
      → n < max_queue_size
      → t ≡ (h + n) % max_queue_size
      → (window (write t msg queue) h n ≡ window queue h n)
        × (window (write t msg queue) h (suc n) ≡ window queue h n ++ (msg ∷ []))
  window-write queue msg zero h t b c e = let here : t ≡ h = omega arith in (refl, ground arith)
  window-write queue msg (suc n) h t b c e =
      let later = window-write queue msg n (next h) t (omega arith) (omega arith) (omega arith) in
      let apart : t ≢ h = omega arith in
      let kept : write t msg queue h ≡ queue h = ground arith in
      (rw (kept, later.0) refl, rw (kept, later.1) refl)

  abbrev pub contents : LockFreeMessageQueue M → List M
  contents q = window q.queue q.head (size q)

  -- The indices stay in the array.
  pub record IsRing (q : LockFreeMessageQueue M) : Type 0 where
    pub head_below : q.head < max_queue_size
    pub tail_below : q.tail < max_queue_size

  pub size-tail :
      (q : LockFreeMessageQueue M)
      → IsRing q
      → (size q < max_queue_size) × (q.tail ≡ (q.head + size q) % max_queue_size)
  unfolding size
  size-tail q v =
      let h = v.head_below in
      let t = v.tail_below in
      elim (Bool-cases (leb q.head q.tail)) [
        | inl b ↦ rw b (ground arith, ground arith)
        | inr b ↦ rw b (ground arith, ground arith)
      ]

  pub try_push-IsRing :
      (msg : M) (q : LockFreeMessageQueue M) → IsRing q → IsRing (try_push msg q).1
  unfolding try_push
  try_push-IsRing msg q v = elim (Bool-cases (next q.tail == q.head)) [
    | inl b ↦ rw b v
    | inr b ↦ rw b (record { head_below = v.head_below; tail_below = omega arith })
  ]

  pub try_pop-IsRing : (q : LockFreeMessageQueue M) → IsRing q → IsRing (try_pop q).1
  unfolding try_pop
  try_pop-IsRing q v = elim (Bool-cases (q.head == q.tail)) [
    | inl b ↦ rw b v
    | inr b ↦ rw b (record { head_below = omega arith; tail_below = v.tail_below })
  ]

  -- A queue of at most 1023 messages.
  unfoldable pub enqueue : M → List M → Bool × List M
  enqueue msg l = if ltb (length l + 1) max_queue_size then (true, l ++ (msg ∷ [])) else (false, l)

  unfoldable pub dequeue : List M → Option M × List M
  dequeue [] = (none, [])
  dequeue (msg ∷ l) = (some msg, l)

  size-next :
      (q : LockFreeMessageQueue M) (queue : ℕ → M)
      → IsRing q
      → next q.tail ≢ q.head
      → (size (record q { queue = queue; tail = next q.tail }) ≡ suc (size q))
        × (size q + 1 < max_queue_size)
  unfolding size
  size-next q queue v h = let a = v.head_below in let b = v.tail_below in ground arith

  pub size-full :
      (q : LockFreeMessageQueue M) → IsRing q → next q.tail ≡ q.head → size q + 1 ≡ max_queue_size
  unfolding size
  size-full q v h = let a = v.head_below in let b = v.tail_below in ground arith

  size-drop :
      (q : LockFreeMessageQueue M)
      → IsRing q
      → q.head ≢ q.tail
      → size q ≡ suc (size (record q { head = next q.head }))
  unfolding size
  size-drop q v h = let a = v.head_below in let b = v.tail_below in ground arith

  size-empty : (q : LockFreeMessageQueue M) → q.head ≡ q.tail → size q ≡ 0
  unfolding size
  size-empty q h = ground arith

  pub try_push_refines :
      (msg : M) (q : LockFreeMessageQueue M)
      → IsRing q
      → ((try_push msg q).0, contents (try_push msg q).1) ≡ enqueue msg (contents q)
  unfolding try_push enqueue
  try_push_refines msg q v =
      let long = length-window q.queue q.head (size q) in
      let at_tail = size-tail q v in
      elim (Bool-cases (next q.tail == q.head)) [
        | inl b ↦
            let full = size-full q v (ground arith) in
            let no_room : ltb (length (contents q) + 1) max_queue_size ≡ false = ground arith in
            rw (b, no_room) refl
        | inr b ↦
            let grown = size-next q (write q.tail msg q.queue) v (ground arith) in
            let room : ltb (length (contents q) + 1) max_queue_size ≡ true = ground arith in
            let added =
              window-write q.queue msg (size q) q.head q.tail v.head_below at_tail.0 at_tail.1 in
            rw (b, room, grown.0, added.1) refl
      ]

  pub try_pop_refines :
      (q : LockFreeMessageQueue M)
      → IsRing q
      → ((try_pop q).0, contents (try_pop q).1) ≡ dequeue (contents q)
  unfolding try_pop dequeue
  try_pop_refines q v = elim (Bool-cases (q.head == q.tail)) [
    | inl b ↦ let none_left = size-empty q (ground arith) in rw (b, none_left) refl
    | inr b ↦ let shrunk = size-drop q v (ground arith) in rw (b, shrunk) refl
  ]

-- A call of the queue, and what it returns.
pub data Op (M : Type 0) : Type 0 where
  push : M → Op M
  pop : Op M

pub data Answer (M : Type 0) : Type 0 where
  pushed : Bool → Answer M
  popped : Option M → Answer M

module _ {M : Type 0} where
  abbrev pub run : List (Op M) → LockFreeMessageQueue M → List (Answer M)
  run [] q = []
  run (push msg ∷ ops) q = pushed (try_push msg q).0 ∷ run ops (try_push msg q).1
  run (pop ∷ ops) q = popped (try_pop q).0 ∷ run ops (try_pop q).1

  abbrev pub fifo_run : List (Op M) → List M → List (Answer M)
  fifo_run [] l = []
  fifo_run (push msg ∷ ops) l = pushed (enqueue msg l).0 ∷ fifo_run ops (enqueue msg l).1
  fifo_run (pop ∷ ops) l = popped (dequeue l).0 ∷ fifo_run ops (dequeue l).1

  -- No sequence of calls tells a ring with its indices in the array from a first-in first-out queue
  -- that takes at most 1023 messages.
  pub run_refines :
      (ops : List (Op M)) (q : LockFreeMessageQueue M)
      → IsRing q
      → run ops q ≡ fifo_run ops (contents q)
  run_refines [] q v = refl
  run_refines (push msg ∷ ops) q v =
      rw (← try_push_refines msg q v, run_refines ops (try_push msg q).1 (try_push-IsRing msg q v))
        refl
  run_refines (pop ∷ ops) q v =
      rw (← try_pop_refines q v, run_refines ops (try_pop q).1 (try_pop-IsRing q v)) refl

module _ {M : Type 0} where
  window-last :
      (queue : ℕ → M) (h n : ℕ)
      → h < max_queue_size
      → window queue h (suc n) ≡ window queue h n ++ (queue ((h + n) % max_queue_size) ∷ [])
  window-last queue h zero b = let here : (h + 0) % max_queue_size ≡ h = omega arith in rw here refl
  window-last queue h (suc n) b =
      let later = window-last queue (next h) n (omega arith) in
      let there : (next h + n) % max_queue_size ≡ (h + suc n) % max_queue_size = omega arith in
      ap (λ l. queue h ∷ l) (rw (later, there) refl)

  -- The three stores: into the slot at the tail, of the tail, and of the head.
  pub contents-write :
      (q : LockFreeMessageQueue M) (msg : M)
      → IsRing q
      → contents (record q { queue = write q.tail msg q.queue }) ≡ contents q
  unfolding size
  contents-write q msg v =
      let at_tail = size-tail q v in
      (window-write q.queue msg (size q) q.head q.tail v.head_below at_tail.0 at_tail.1).0

  pub contents-tail :
      (q : LockFreeMessageQueue M)
      → IsRing q
      → size q + 1 < max_queue_size
      → (contents (record q { tail = next q.tail }) ≡ contents q ++ (q.queue q.tail ∷ []))
        × (size (record q { tail = next q.tail }) ≡ suc (size q))
  contents-tail q v room =
      let at_tail = size-tail q v in
      let apart : next q.tail ≢ q.head = λ e. let full = size-full q v e in omega arith in
      let grown = size-next q q.queue v apart in
      let last = window-last q.queue q.head (size q) v.head_below in
      (rw grown.0 (last ∙ ap (λ i. contents q ++ (q.queue i ∷ [])) (sym at_tail.1)), grown.0)

  pub contents-head :
      (q : LockFreeMessageQueue M)
      → IsRing q
      → 0 < size q
      → (contents q ≡ q.queue q.head ∷ contents (record q { head = next q.head }))
        × (size q ≡ suc (size (record q { head = next q.head })))
  contents-head q v some_left =
      let shrunk = size-drop q v (λ e. let z = size-empty q e in omega arith) in
      (rw shrunk refl, shrunk)

  pub size-room :
      (q : LockFreeMessageQueue M) → IsRing q → next q.tail ≢ q.head → size q + 1 < max_queue_size
  size-room q v h = let grown = size-next q q.queue v h in grown.1

  pub size-some : (q : LockFreeMessageQueue M) → IsRing q → q.head ≢ q.tail → 0 < size q
  size-some q v h = let shrunk = size-drop q v h in omega arith
