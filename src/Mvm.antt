-- ===== src/Mvm.antt =====
-- `mVM`, the machine with five instructions (include/vm/mVM.h, src/vm/mVM.cpp), on the state of `baseVM`
-- (include/vm/baseVM.h). The requests that `send_interrupt_request` hands to the router are kept in
-- a list; logging and the registration with the manager are left out. Registers are `int32_t` patterns.
pub mod Loop
use my_vm_os.Base.{
  ℕ, ◌+◌, ◌-◌, ◌/◌, ◌%◌, Bool, true, false, ◌&&◌, List, [], ◌∷◌, Option, none, some, ltb, leb, ◌==◌,
  if◌then◌else◌, length, get_elem?,
}
use my_vm_os.Base.Int.{ℤ, pos, negsuc}
use my_vm_os.Cpu.State.{update}
use my_vm_os.Sched.Vm.{VmState, created, running, suspended_waiting_interrupt, terminated}

-- `InterruptRequest`: the device and the timeout.
pub record Request : Type 0 where
  pub periph_id : ℕ
  pub timeout_ms : ℕ

pub record Mvm : Type 0 where
  pub vm_id : ℕ
  pub pc : ℕ
  pub registers : ℕ → ℕ
  pub memory : List ℕ
  pub state : VmState
  pub has_quota : Bool
  pub is_running : Bool
  pub pending_input_reg : ℤ
  pub sent : List Request

abbrev pub num_registers : ℕ
num_registers = 2

abbrev pub u32_mod : ℕ
u32_mod = 0x1_0000_0000

unfoldable pub construct : ℕ → Mvm
construct vm_id = record {
  vm_id = vm_id;
  pc = 0;
  registers = λ i. 0;
  memory = [];
  state = created;
  has_quota = false;
  is_running = false;
  pending_input_reg = negsuc 0;
  sent = [];
}

unfoldable pub load_program : List ℕ → Mvm → Mvm
load_program code m = record m { memory = code; pc = 0 }

unfoldable pub start : Mvm → Mvm
start m = if m.is_running then m else record m { state = running; is_running = true }

unfoldable pub stop : Mvm → Mvm
stop m = record m { is_running = false }

unfoldable pub grant_quota : Mvm → Mvm
grant_quota m = record m { has_quota = true }

unfoldable pub revoke_quota : Mvm → Mvm
revoke_quota m = record m { has_quota = false }

unfoldable pub send_interrupt_request : ℕ → ℕ → Mvm → Mvm
send_interrupt_request periph_id timeout_ms m = record m {
  sent = record { periph_id = periph_id; timeout_ms = timeout_ms } ∷ m.sent;
}

abbrev pub decode_opcode : ℕ → ℕ
decode_opcode inst = inst % 256

abbrev pub decode_operand1 : ℕ → ℕ
decode_operand1 inst = inst / 256 % 256

abbrev pub decode_operand2 : ℕ → ℕ
decode_operand2 inst = inst / 65536 % 65536

unfoldable pub suspend : Mvm → Mvm
suspend m = record m { state = suspended_waiting_interrupt }

-- `registers_[r1] += registers_[r2]`, which wraps, and nothing for a register that is not there.
unfoldable pub add : (r1 r2 : ℕ) → Mvm → Mvm
add r1 r2 m =
    if ltb r1 num_registers && ltb r2 num_registers
    then record m {
      registers = update m.registers r1 ((m.registers r1 + m.registers r2) % u32_mod);
    }
    else m

-- The switch on the opcode: 0 NOP, 1 ADD, 2 INPUT, 3 OUTPUT, 4 HALT. The result is whether the machine goes on.
unfoldable pub execute : (inst : ℕ) → Mvm → Bool × Mvm
execute inst m =
    let op = decode_opcode inst in
    let r1 = decode_operand1 inst in
    if op == 0
    then (true, m)
    else if op == 1
    then (true, add r1 (decode_operand2 inst) m)
    else if op == 2
    then (false, suspend (send_interrupt_request 3 2000 (record m { pending_input_reg = pos r1 })))
    else if op == 3
    then (false, suspend (send_interrupt_request 3 2000 m))
    else if op == 4
    then (false, m)
    else (false, record m { registers = update m.registers 0 (u32_mod - 3) })

-- `none` is the read of `memory_[pc_ - 1]` for `pc_ = 0`.
unfoldable pub execute_instruction : Mvm → Option (Bool × Mvm)
execute_instruction m =
    if ltb (length m.memory) m.pc
    then some (false, m)
    else if m.pc == 0
    then none
    else elim (get_elem? m.memory (m.pc - 1)) [ none ↦ none | some inst ↦ some (execute inst m) ]

unfoldable pub store_result : ℤ → ℕ → Mvm → Mvm
store_result (pos r) value m =
    if ltb r num_registers then record m { registers = update m.registers r value } else m
store_result (negsuc n) value m = m

unfoldable pub handle_interrupt : (is_timeout : Bool) (return_value : ℕ) → Mvm → Mvm
handle_interrupt is_timeout return_value m =
    record (if is_timeout
      then record m { registers = update m.registers 0 (u32_mod - 1) }
      else store_result m.pending_input_reg return_value m) {
        pending_input_reg = negsuc 0;
        state = running;
      }

unfoldable pub is_suspended : VmState → Bool
is_suspended suspended_waiting_interrupt = true
is_suspended _ = false

unfoldable pub on_wakeup : Mvm → Mvm
on_wakeup m = if is_suspended m.state then record m { state = running } else m
