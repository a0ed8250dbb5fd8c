-- ===== src/Timeout.antt =====
-- `TimeoutManager` (include/utils/TimeoutManager.h, src/utils/TimeoutManager.cpp). The clock is the
-- argument `now`. A time point is an `int64_t` of nanoseconds; here it is counted from the smallest,
-- so that `stamp` is the one of a time after the epoch; a callback is a value of `C`, with `none` for an empty
-- `std::function`. The queue is a list by expiry, earliest first; which of several entries that expire
-- together is on top is not specified by C++. Tags are only printed and are left out.
pub mod Queue
pub mod Collect
pub mod Valid
pub mod Timers
pub mod Cancel
pub mod Callbacks
pub mod Single
use my_vm_os.Base.{
  ℕ, ◌+◌, ◌-◌, ◌*◌, ◌/◌, Bool, true, false, List, [], ◌∷◌, Option, none, some, ltb, leb, ◌==◌,
  if◌then◌else◌, add64, u64_mod, Map, lookup, insert, erase, length, not, ◌||◌,
}
use my_vm_os.Base.Int.{ℤ, pos, negsuc, pos_part, leb_ℤ, negate}

pub record TimeoutConfig (C : Type 0) : Type 0 where
  pub timeout_ms : ℤ
  pub callback : C
  pub is_periodic : Bool
  pub period_ms : ℤ

pub record TimeoutEntry (C : Type 0) : Type 0 where
  pub id : ℕ
  pub expire_time : ℕ
  pub config : TimeoutConfig C
  pub is_cancelled : Bool

-- `total_trigger_time_ms` is an `int64_t`, here as a 64-bit word.
pub record Stats : Type 0 where
  pub total_registered : ℕ
  pub triggered_count : ℕ
  pub cancelled_count : ℕ
  pub total_trigger_time_ms : ℕ

pub record TimeoutManager (C : Type 0) : Type 0 where
  pub timeout_queue : List (TimeoutEntry C)
  pub timeout_map : Map (TimeoutEntry C)
  pub next_id : ℕ
  pub stats : Stats

abbrev pub ns_per_ms : ℕ
ns_per_ms = 1000000

-- The time point so many nanoseconds after the epoch.
abbrev pub stamp : ℕ → ℕ
stamp ns = ns + 0x8000_0000_0000_0000

-- `now() + milliseconds(ms)`, where `ms` is positive: a product and a sum of `int64_t`. They wrap, as
-- compiled code does; C++ leaves their overflow undefined.
abbrev pub after_ms : ℕ → ℤ → ℕ
after_ms now ms = add64 now (pos_part ms * ns_per_ms)

-- `duration_cast<milliseconds>(expire_time - now)`, where `expire_time` is later: the difference is an
-- `int64_t` and wraps.
unfoldable pub remaining_ms : (now expire_time : ℕ) → ℤ
remaining_ms now expire_time =
    let duration = expire_time - now in
    if ltb duration 0x8000_0000_0000_0000
    then pos (duration / ns_per_ms)
    else negate ((u64_mod - duration) / ns_per_ms)

abbrev pub zero_stats : Stats
zero_stats = record {
  total_registered = 0;
  triggered_count = 0;
  cancelled_count = 0;
  total_trigger_time_ms = 0;
}

-- What `process_timeouts` takes out under the lock.
pub record Collected (C : Type 0) : Type 0 where
  pub rest : List (TimeoutEntry C)
  pub left : Map (TimeoutEntry C)
  pub triggered : List (TimeoutEntry C)
  pub reschedule : List (TimeoutEntry C)

module _ {C : Type 0} where
  unfoldable pub construct : TimeoutManager C
  construct = record { timeout_queue = []; timeout_map = []; next_id = 1; stats = zero_stats }

  -- `timeout_queue_.push(entry)`
  unfoldable pub push_entry : TimeoutEntry C → List (TimeoutEntry C) → List (TimeoutEntry C)
  push_entry e [] = e ∷ []
  push_entry e (u ∷ q) = if ltb e.expire_time u.expire_time then e ∷ u ∷ q else u ∷ push_entry e q

  -- The entry with a new id in the queue and the map.
  unfoldable pub add_entry : ℕ → TimeoutConfig C → TimeoutManager C → TimeoutManager C
  add_entry now config m =
      let entry : TimeoutEntry C = record {
        id = m.next_id;
        expire_time = after_ms now config.timeout_ms;
        config = config;
        is_cancelled = false;
      } in
      record {
        timeout_queue = push_entry entry m.timeout_queue;
        timeout_map = insert m.next_id entry m.timeout_map;
        next_id = add64 m.next_id 1;
        stats = record m.stats { total_registered = add64 m.stats.total_registered 1 };
      }

  unfoldable pub register_timeout : ℕ → ℤ → Option C → TimeoutManager C → ℕ × TimeoutManager C
  register_timeout now timeout_ms none m = (0, m)
  register_timeout now timeout_ms (some callback) m = if leb_ℤ timeout_ms (pos 0) then (0, m) else (
    m.next_id,
    add_entry now
        (record {
          timeout_ms = timeout_ms;
          callback = callback;
          is_periodic = false;
          period_ms = pos 0;
        })
        m,
  )

  unfoldable pub register_periodic_timeout :
      ℕ → ℤ → Option C → TimeoutManager C → ℕ × TimeoutManager C
  register_periodic_timeout now period_ms none m = (0, m)
  register_periodic_timeout now period_ms (some callback) m =
      if leb_ℤ period_ms (pos 0) then (0, m) else (
        m.next_id,
        add_entry now
            (record {
              timeout_ms = period_ms;
              callback = callback;
              is_periodic = true;
              period_ms = period_ms;
            })
            m,
      )

  -- The entry is marked in the map; it stays in the queue.
  unfoldable pub cancel_timeout : ℕ → TimeoutManager C → Bool × TimeoutManager C
  cancel_timeout timeout_id m =
      if timeout_id == 0 then (false, m) else elim (lookup timeout_id m.timeout_map) [
        | none ↦ (false, m)
        | some entry ↦ (
          true,
          record m {
            timeout_map = insert timeout_id (record entry { is_cancelled = true }) m.timeout_map;
            stats = record m.stats { cancelled_count = add64 m.stats.cancelled_count 1 };
          },
        )
      ]

  -- An entry in the map that is not cancelled.
  unfoldable pub is_live : Option (TimeoutEntry C) → Bool
  is_live none = false
  is_live (some entry) = not entry.is_cancelled

  unfoldable pub renew : ℕ → TimeoutEntry C → TimeoutEntry C
  renew now entry = record entry {
    expire_time = after_ms now entry.config.period_ms;
    is_cancelled = false;
  }

  unfoldable pub trigger : ℕ → TimeoutEntry C → Collected C → Collected C
  trigger now entry c = record c {
    triggered = entry ∷ c.triggered;
    reschedule = if entry.config.is_periodic then renew now entry ∷ c.reschedule else c.reschedule;
  }

  -- `while (!timeout_queue_.empty())`
  unfoldable pub collect : ℕ → List (TimeoutEntry C) → Map (TimeoutEntry C) → Collected C
  collect now [] entries = record { rest = []; left = entries; triggered = []; reschedule = [] }
  collect now (top ∷ q) entries =
      let later = collect now q (erase top.id entries) in
      if ltb now top.expire_time
      then record { rest = top ∷ q; left = entries; triggered = []; reschedule = [] }
      else if is_live (lookup top.id entries)
      then trigger now top later
      else later

  -- `for (auto& entry : reschedule)`
  unfoldable pub put_back :
      List (TimeoutEntry C)
      → List (TimeoutEntry C) × Map (TimeoutEntry C)
      → List (TimeoutEntry C) × Map (TimeoutEntry C)
  put_back [] s = s
  put_back (entry ∷ es) (q, entries) =
      put_back es (push_entry entry q, insert entry.id entry entries)

  -- The part of `process_timeouts` that holds the lock.
  unfoldable pub take_due : ℕ → TimeoutManager C → List (TimeoutEntry C) × TimeoutManager C
  take_due now m =
      let c = collect now m.timeout_queue m.timeout_map in
      let back = put_back c.reschedule (c.rest, c.left) in
      (c.triggered, record m { timeout_queue = back.0; timeout_map = back.1 })

  unfoldable pub count_trigger : TimeoutEntry C → TimeoutManager C → TimeoutManager C
  count_trigger entry m = record m {
    stats = record m.stats {
      triggered_count = add64 m.stats.triggered_count 1;
      total_trigger_time_ms =
          add64 m.stats.total_trigger_time_ms (pos_part entry.config.timeout_ms);
    };
  }

  -- A callback acts on the manager and the rest of the program; it is `false` where it throws.
  module _ {W : Type 0} (run : C → TimeoutManager C × W → Bool × (TimeoutManager C × W)) where
    unfoldable pub run_callbacks :
        List (TimeoutEntry C) → TimeoutManager C × W → ℕ × (TimeoutManager C × W)
    run_callbacks [] s = (0, s)
    run_callbacks (entry ∷ es) s =
        let r = run entry.config.callback s in
        let later = run_callbacks es (if r.0 then (count_trigger entry r.1.0, r.1.1) else r.1) in
        ((if r.0 then add64 later.0 1 else later.0), later.1)

    unfoldable pub process_timeouts : ℕ → TimeoutManager C × W → ℕ × (TimeoutManager C × W)
    process_timeouts now (m, w) = let due = take_due now m in run_callbacks due.0 (due.1, w)

  unfoldable pub get_next_timeout_ms : ℕ → TimeoutManager C → ℤ
  get_next_timeout_ms now m = elim m.timeout_queue [
    | [] ↦ negsuc 0
    | top ∷ q ↦ if leb top.expire_time now then pos 0 else remaining_ms now top.expire_time
  ]

  unfoldable pub get_active_timeout_count : TimeoutManager C → ℕ
  get_active_timeout_count m = length m.timeout_map

  -- The counters, and the number of entries in the map. The mean of the last is its quotient by the
  -- triggered count.
  unfoldable pub get_stats : TimeoutManager C → ℕ × ℕ × ℕ × ℕ × ℕ
  get_stats m = (
    m.stats.total_registered,
    length m.timeout_map,
    m.stats.triggered_count,
    m.stats.cancelled_count,
    m.stats.total_trigger_time_ms,
  )

  unfoldable pub reset_stats : TimeoutManager C → TimeoutManager C
  reset_stats m = record m { stats = zero_stats }

  unfoldable pub clear_all : TimeoutManager C → TimeoutManager C
  clear_all m = record m { timeout_queue = []; timeout_map = [] }
