-- ===== src/Message.antt =====
-- The messages of the router (include/router/MessageProtocol.h). A `std::string` is the list of its
-- bytes; a time is in nanoseconds.
use my_vm_os.Base.{ℕ, ◌-◌, ◌/◌, Bool, List}
use my_vm_os.Base.Int.{ℤ}

pub data MessageType : Type 0 where
  vm_create_request vm_create_response vm_destroy_request vm_destroy_response : MessageType
  vm_suspend_notify vm_wakeup_notify vm_state_query vm_state_response : MessageType
  interrupt_request interrupt_sync_begin interrupt_sync_complete : MessageType
  interrupt_async_enqueue interrupt_result_ready : MessageType
  periph_lock_request periph_lock_granted periph_lock_timeout periph_unlock_request : MessageType
  periph_data_ready periph_wait_queue_full : MessageType
  scheduler_add_to_runq scheduler_add_to_suspendq scheduler_schedule_next : MessageType
  scheduler_idle_notify : MessageType
  router_ping router_pong system_shutdown_request system_shutdown_ack : MessageType
  syscall : MessageType
  terminal_create_request terminal_create_response terminal_input_notify : MessageType
  terminal_output_request terminal_release : MessageType

-- `static_cast<int>(type)`
unfoldable pub type_code : MessageType → ℕ
type_code vm_create_request = 0
type_code vm_create_response = 1
type_code vm_destroy_request = 2
type_code vm_destroy_response = 3
type_code vm_suspend_notify = 4
type_code vm_wakeup_notify = 5
type_code vm_state_query = 6
type_code vm_state_response = 7
type_code interrupt_request = 8
type_code interrupt_sync_begin = 9
type_code interrupt_sync_complete = 10
type_code interrupt_async_enqueue = 11
type_code interrupt_result_ready = 12
type_code periph_lock_request = 13
type_code periph_lock_granted = 14
type_code periph_lock_timeout = 15
type_code periph_unlock_request = 16
type_code periph_data_ready = 17
type_code periph_wait_queue_full = 18
type_code scheduler_add_to_runq = 19
type_code scheduler_add_to_suspendq = 20
type_code scheduler_schedule_next = 21
type_code scheduler_idle_notify = 22
type_code router_ping = 23
type_code router_pong = 24
type_code system_shutdown_request = 25
type_code system_shutdown_ack = 26
type_code syscall = 27
type_code terminal_create_request = 28
type_code terminal_create_response = 29
type_code terminal_input_notify = 30
type_code terminal_output_request = 31
type_code terminal_release = 32

abbrev pub module_vm_manager : ℕ
module_vm_manager = 1

abbrev pub module_periph_manager : ℕ
module_periph_manager = 4

pub data InterruptPriority : Type 0 where
  low normal high realtime : InterruptPriority

pub data InterruptType : Type 0 where
  terminal_input terminal_output disk_read disk_write network_recv network_send : InterruptType
  timer keyboard mouse system : InterruptType

unfoldable pub get_interrupt_priority : InterruptType → InterruptPriority
get_interrupt_priority keyboard = high
get_interrupt_priority mouse = high
get_interrupt_priority terminal_input = normal
get_interrupt_priority terminal_output = normal
get_interrupt_priority timer = normal
get_interrupt_priority disk_read = low
get_interrupt_priority disk_write = low
get_interrupt_priority network_recv = low
get_interrupt_priority network_send = low
get_interrupt_priority system = realtime

pub record InterruptRequest : Type 0 where
  pub vm_id : ℕ
  pub periph_id : ℤ
  pub interrupt_type : InterruptType
  pub priority : InterruptPriority
  pub timeout_ms : ℤ

unfoldable pub set_interrupt_type : InterruptType → InterruptRequest → InterruptRequest
set_interrupt_type type r = record r {
  interrupt_type = type;
  priority = get_interrupt_priority type;
}

pub record InterruptResult : Type 0 where
  pub vm_id : ℕ
  pub return_value : ℤ
  pub is_timeout : Bool
  pub interrupt_type : InterruptType
  pub priority : InterruptPriority
  pub completion_time : ℕ

-- The completion is not before the request.
unfoldable pub get_total_latency_ms : ℕ → InterruptResult → ℕ
get_total_latency_ms request_time r = (r.completion_time - request_time) / 1000000

abbrev pub Text : Type 0
Text = List ℕ

pub data Payload : Type 0 where
  monostate : Payload
  create_request : (vm_id : ℕ) (cpu_limit : ℤ) (mem_limit_bytes : ℕ) (config_name : Text) → Payload
  create_response : (vm_id : ℕ) (error_code : ℤ) → Payload
  request : InterruptRequest → Payload
  result : InterruptResult → Payload
  lock_request : (vm_id : ℕ) (periph_id channel_id timeout_ms : ℤ) → Payload
  lock_granted : (vm_id : ℕ) (periph_id channel_id : ℤ) → Payload
  task_enqueue : (vm_id task_id : ℕ) (is_async : Bool) → Payload
  wake_up_notify : (vm_id : ℕ) → Payload
  syscall_request : (vm_id syscall_number arg1 arg2 arg3 arg4 : ℕ) → Payload
  terminal_create : (vm_id : ℕ) → Payload
  terminal_created : (vm_id : ℕ) (terminal_id error_code : ℤ) → Payload
  terminal_input_data : (terminal_id : ℤ) (bytes : Text) → Payload
  terminal_output_data : (terminal_id : ℤ) (bytes : Text) → Payload
  terminal_released : (terminal_id : ℤ) (vm_id : ℕ) → Payload

pub record Message : Type 0 where
  pub sender_id : ℕ
  pub receiver_id : ℕ
  pub type : MessageType
  pub payload : Payload

-- `Message msg(s, r, t)`, its payload empty.
unfoldable pub new_message : ℕ → ℕ → MessageType → Message
new_message s r t = record { sender_id = s; receiver_id = r; type = t; payload = monostate }

unfoldable pub set_payload : Payload → Message → Message
set_payload payload m = record m { payload = payload }

-- `baseVM::send_interrupt_request`: the message that a machine sends (include/vm/baseVM.h).
unfoldable pub interrupt_message : ℕ → ℤ → ℤ → Message
interrupt_message vm_id periph_id timeout_ms =
    let req : InterruptRequest = record {
      vm_id = vm_id;
      periph_id = periph_id;
      interrupt_type = system;
      priority = normal;
      timeout_ms = timeout_ms;
    } in
    set_payload (request (set_interrupt_type system req))
      (new_message vm_id module_vm_manager interrupt_request)
