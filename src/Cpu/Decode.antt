-- ===== src/Cpu/Decode.antt =====
-- `decode_and_execute` (src/vm/X86_decode.cpp): prefixes, then the dispatch on the opcode.
pub mod Prefix
use my_vm_os.Base.{
  ℕ, zero, suc, ◌+◌, ◌/◌, Bool, false, ◌&&◌, ◌||◌, List, [], ◌∷◌, Option, none, some, ◌==◌, leb,
  ltb, one_of, if◌then◌else◌, add64,
}
use my_vm_os.Cpu.Reg
use my_vm_os.Cpu.State.{Cpu, halted, get_register, get_rip}
use my_vm_os.Cpu.Machine.{M, ◌>>=◌, ◌>>◌, gets, modify, done}
use my_vm_os.Cpu.Memory.{read_byte}
use my_vm_os.Cpu.Interrupt.{trigger_interrupt, trigger_syscall}
use my_vm_os.Cpu.Mov.{execute_mov, execute_push_pop}
use my_vm_os.Cpu.Arithmetic.{execute_arithmetic}
use my_vm_os.Cpu.Logical.{execute_logical}
use my_vm_os.Cpu.Branch.{execute_branch, execute_call_ret}
use my_vm_os.Cpu.System.{execute_stack_ops, execute_flag_ops, execute_interrupt, execute_string_ops}

-- Operand size, address size, LOCK and REP.
unfoldable pub is_prefix : ℕ → Bool
is_prefix b = b == 0x66 || b == 0x67 || (leb 0xF0 b && leb b 0xF3)

-- The largest `int`.
abbrev pub int_max : ℕ
int_max = 2147483647

-- `n++` of an `int`.
unfoldable pub inc_int : Option ℕ → Option ℕ
inc_int none = none
inc_int (some n) = if ltb n int_max then some (n + 1) else none

-- `while (first_byte is a prefix) { prefix_bytes++; rip++; first_byte = read_byte(rip); }`
-- `prefix_bytes` is an `int`: `none` once it has overflowed, which C++ leaves undefined.
unfoldable pub skip_prefixes : ℕ → Cpu → Option ℕ → ℕ → Option ℕ × ℕ
skip_prefixes zero c prefix_bytes rip = (prefix_bytes, rip)
skip_prefixes (suc fuel) c prefix_bytes rip =
    let rest = skip_prefixes fuel c (inc_int prefix_bytes) (add64 rip 1) in
    if is_prefix (read_byte rip c) then rest else (prefix_bytes, rip)

-- A REX prefix, then the others. Every byte past the end of memory reads as 0, so as many rounds as
-- memory has bytes are enough.
unfoldable pub read_prefixes : Cpu → ℕ → Option ℕ × ℕ
read_prefixes c rip =
    let rex : Bool = read_byte rip c / 16 == 4 in
    skip_prefixes (c.memory_size + 1) c (some (if rex then 1 else 0))
      (if rex then add64 rip 1 else rip)

-- The sum of two lengths, which are `int`.
unfoldable pub add_int : ℕ → ℕ → M ℕ
add_int a b c = if leb (a + b) int_max then done (a + b) c else none

-- `prefix_bytes + execute_...(rip)`
unfoldable pub counted : ℕ → M ℕ → M ℕ
counted prefix_bytes m = do len ← m; add_int prefix_bytes len

unfoldable pub halt : Cpu → Cpu
halt c = record c { state = halted; is_running = false }

unfoldable pub syscall : M ℕ
syscall = do syscall_num ← gets (get_register Reg.rax); trigger_syscall syscall_num; done 1

abbrev mov_opcodes : List ℕ
mov_opcodes =
    0x88 ∷ 0x89 ∷ 0x8A ∷ 0x8B ∷ 0xB8 ∷ 0xB9 ∷ 0xBA ∷ 0xBB ∷ 0xBC ∷ 0xBD ∷ 0xBE ∷ 0xBF ∷ 0xC6 ∷ 0xC7
    ∷ []

abbrev arithmetic_opcodes : List ℕ
arithmetic_opcodes =
    0x00 ∷ 0x01 ∷ 0x02 ∷ 0x03 ∷ 0x28 ∷ 0x29 ∷ 0x2A ∷ 0x2B ∷ 0x38 ∷ 0x39 ∷ 0x3A ∷ 0x3B ∷ 0x83 ∷ 0xFF
    ∷ []

abbrev logical_opcodes : List ℕ
logical_opcodes = 0xA8 ∷ 0xA9 ∷ 0x08 ∷ 0x09 ∷ 0x20 ∷ 0x21 ∷ 0x30 ∷ 0x31 ∷ 0xF6 ∷ 0xF7 ∷ []

-- The handlers that the first byte after the prefixes selects.
pub data Handler : Type 0 where
  mov push_pop arithmetic logical branch call_ret stack_ops flag_ops interrupt string_ops : Handler
  nop hlt syscall_op unknown : Handler

unfoldable pub handler_of : ℕ → Handler
handler_of b =
    if one_of b mov_opcodes
    then mov
    else if (leb 0x50 b && leb b 0x5F) || one_of b (0x68 ∷ 0x6A ∷ 0x69 ∷ [])
    then push_pop
    else if one_of b arithmetic_opcodes
    then arithmetic
    else if one_of b logical_opcodes
    then logical
    else if one_of b (0xEB ∷ 0xE9 ∷ 0xE3 ∷ []) || (leb 0x70 b && leb b 0x7F)
    then branch
    else if b == 0xE8
    then call_ret
    else if one_of b (0x9D ∷ 0x9C ∷ [])
    then stack_ops
    else if one_of b (0xF5 ∷ 0xF8 ∷ 0xF9 ∷ 0xFA ∷ 0xFB ∷ [])
    then flag_ops
    else if one_of b (0xCC ∷ 0xCD ∷ [])
    then interrupt
    else if one_of b (0xA4 ∷ 0xAA ∷ 0xAB ∷ [])
    then string_ops
    else if b == 0x90
    then nop
    else if b == 0xF4
    then hlt
    else if b == 0x05
    then syscall_op
    else unknown

-- NOP, HLT, SYSCALL and the undefined opcode (vector 6) return 1, whatever the prefixes.
unfoldable pub dispatch : Handler → ℕ → ℕ → M ℕ
unfolding counted halt syscall
dispatch mov prefix_bytes rip = counted prefix_bytes (execute_mov rip)
dispatch push_pop prefix_bytes rip = counted prefix_bytes (execute_push_pop rip)
dispatch arithmetic prefix_bytes rip = counted prefix_bytes (execute_arithmetic rip)
dispatch logical prefix_bytes rip = counted prefix_bytes (execute_logical rip)
dispatch branch prefix_bytes rip = counted prefix_bytes (execute_branch rip)
dispatch call_ret prefix_bytes rip = counted prefix_bytes (execute_call_ret rip)
dispatch stack_ops prefix_bytes rip = counted prefix_bytes (execute_stack_ops rip)
dispatch flag_ops prefix_bytes rip = counted prefix_bytes (execute_flag_ops rip)
dispatch interrupt prefix_bytes rip = counted prefix_bytes (execute_interrupt rip)
dispatch string_ops prefix_bytes rip = counted prefix_bytes (execute_string_ops rip)
dispatch nop prefix_bytes rip = done 1
dispatch hlt prefix_bytes rip = modify halt >> done 1
dispatch syscall_op prefix_bytes rip = syscall
dispatch unknown prefix_bytes rip = trigger_interrupt 6 >> done 1

unfoldable pub decode_and_execute : M ℕ
decode_and_execute c =
    let (prefix_bytes, rip) = read_prefixes c (get_rip c) in
    elim prefix_bytes [ none ↦ none | some n ↦ dispatch (handler_of (read_byte rip c)) n rip c ]
