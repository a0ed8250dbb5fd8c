-- ===== src/Router/Ring.antt =====
-- `LockFreeMessageQueue` (include/router/LockFreeMessageQueue.h): a ring of 1024 slots. The array is a
-- function of the index; every index that is used is below `max_queue_size`. The steps of two threads
-- are in Ring/Interleave.
pub mod Fifo
pub mod Interleave
pub mod Race
use my_vm_os.Base.{
  ℕ, ◌+◌, ◌-◌, ◌%◌, Bool, true, false, Option, none, some, leb, ◌==◌, if◌then◌else◌,
}

abbrev pub max_queue_size : ℕ
max_queue_size = 1024

pub record LockFreeMessageQueue (M : Type 0) : Type 0 where
  pub queue : ℕ → M
  pub head : ℕ
  pub tail : ℕ

abbrev pub next : ℕ → ℕ
next i = (i + 1) % max_queue_size

module _ {M : Type 0} where
  -- `queue_[i] = msg`
  abbrev pub write : ℕ → M → (ℕ → M) → ℕ → M
  write i msg queue j = if i == j then msg else queue j

  unfoldable pub try_push : M → LockFreeMessageQueue M → Bool × LockFreeMessageQueue M
  try_push msg q =
      if next q.tail == q.head
      then (false, q)
      else (true, record q { queue = write q.tail msg q.queue; tail = next q.tail })

  unfoldable pub try_pop : LockFreeMessageQueue M → Option M × LockFreeMessageQueue M
  try_pop q =
      if q.head == q.tail
      then (none, q)
      else (some (q.queue q.head), record q { head = next q.head })

  unfoldable pub empty : LockFreeMessageQueue M → Bool
  empty q = q.head == q.tail

  unfoldable pub size : LockFreeMessageQueue M → ℕ
  size q = if leb q.head q.tail then q.tail - q.head else max_queue_size - q.head + q.tail
