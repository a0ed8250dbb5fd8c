-- ===== src/Router.antt =====
-- `RouterCore` (include/router/RouterCore.h, src/router/RouterCore.cpp). A callback is a value of `C`;
-- `run` says what it does to the router and the rest of the program. The locks are left out: a
-- callback that subscribes would wait for `subscriber_mtx`, which its caller holds. A round of
-- `polling_loop` is `poll_round`; thread, sleep and log are left out.
pub mod Ring
pub mod Dispatch
use my_vm_os.Base.{
  ℕ, ◌+◌, ◌-◌, zero, suc, Bool, true, false, List, [], ◌∷◌, ◌++◌, Option, none, some, if◌then◌else◌,
  Map, lookup, insert, add64, sub64,
}
use my_vm_os.Message.{Message, MessageType, Text, type_code}
use my_vm_os.Router.Ring.{LockFreeMessageQueue, try_push, try_pop}

pub record RouterCore (C : Type 0) : Type 0 where
  pub module_names : Map Text
  pub subscribers : Map (List C)
  pub sender_subscribers : Map (List C)
  pub message_queue : LockFreeMessageQueue Message
  pub queue_size : ℕ
  pub running : Bool
  pub external_senders : List C
  pub external_receivers : List C

module _ {C : Type 0} where
  -- The callbacks under a key: none where the key is missing.
  abbrev pub callbacks : ℕ → Map (List C) → List C
  callbacks key m = elim (lookup key m) [ none ↦ [] | some cs ↦ cs ]

  unfoldable pub register_module : ℕ → Text → RouterCore C → RouterCore C
  register_module module_id name r = record r {
    module_names = insert module_id name r.module_names;
  }

  unfoldable pub get_module_name : Text → ℕ → RouterCore C → Text
  get_module_name unknown module_id r = elim (lookup module_id r.module_names) [
    | none ↦ unknown
    | some name ↦ name
  ]

  unfoldable pub subscribe : MessageType → C → RouterCore C → RouterCore C
  subscribe type callback r = record r {
    subscribers =
        insert (type_code type) (callbacks (type_code type) r.subscribers ++ (callback ∷ []))
          r.subscribers;
  }

  unfoldable pub subscribe_from : ℕ → C → RouterCore C → RouterCore C
  subscribe_from sender_id callback r = record r {
    sender_subscribers =
        insert sender_id (callbacks sender_id r.sender_subscribers ++ (callback ∷ []))
          r.sender_subscribers;
  }

  unfoldable pub send : Message → RouterCore C → Bool × RouterCore C
  send msg r =
      let pushed = try_push msg r.message_queue in
      (
        pushed.0,
        record r {
          message_queue = pushed.1;
          queue_size = if pushed.0 then add64 r.queue_size 1 else r.queue_size;
        },
      )

  unfoldable pub poll : RouterCore C → Option Message × RouterCore C
  poll r =
      let popped = try_pop r.message_queue in
      (
        popped.0,
        record r {
          message_queue = popped.1;
          queue_size = elim popped.0 [ none ↦ r.queue_size | some _ ↦ sub64 r.queue_size 1 ];
        },
      )

  unfoldable pub get_queue_size : RouterCore C → ℕ
  get_queue_size r = r.queue_size

  unfoldable pub start_polling : RouterCore C → RouterCore C
  start_polling r = if r.running then r else record r { running = true }

  unfoldable pub stop : RouterCore C → RouterCore C
  stop r = if r.running then record r { running = false } else r

  unfoldable pub connect_external_sender : C → RouterCore C → RouterCore C
  connect_external_sender sender r = record r {
    external_senders = r.external_senders ++ (sender ∷ []);
  }

  unfoldable pub connect_external_receiver : C → RouterCore C → RouterCore C
  connect_external_receiver receiver r = record r {
    external_receivers = r.external_receivers ++ (receiver ∷ []);
  }

  unfoldable pub process_external_message : Message → RouterCore C → RouterCore C
  process_external_message msg r = (send msg r).1

  module _ {W : Type 0} (run : C → Message → RouterCore C × W → RouterCore C × W) where
    -- `for (auto& callback : ...) { callback(msg); }`
    unfoldable pub deliver : Message → List C → RouterCore C × W → RouterCore C × W
    deliver msg [] s = s
    deliver msg (callback ∷ cs) s = deliver msg cs (run callback msg s)

    unfoldable pub process_and_dispatch : Message → RouterCore C × W → RouterCore C × W
    process_and_dispatch msg s =
        let by_type = deliver msg (callbacks (type_code msg.type) s.0.subscribers) s in
        let by_sender =
          deliver msg (callbacks msg.sender_id by_type.0.sender_subscribers) by_type in
        deliver msg by_sender.0.external_receivers by_sender

    -- One round of `polling_loop`.
    unfoldable pub poll_round : RouterCore C × W → RouterCore C × W
    poll_round (r, w) =
        let polled = poll r in
        elim polled.0 [ none ↦ (polled.1, w) | some msg ↦ process_and_dispatch msg (polled.1, w) ]

    -- The first rounds of `polling_loop`; it ends when `running` is false.
    unfoldable pub polling_loop : ℕ → RouterCore C × W → RouterCore C × W
    polling_loop zero s = s
    polling_loop (suc rounds) s =
        let later = polling_loop rounds (poll_round s) in if s.0.running then later else s
