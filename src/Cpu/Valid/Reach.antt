-- ===== src/Cpu/Valid/Reach.antt =====
-- The states that the public interface of `X86CPUVM` (include/vm/X86CPU.h) reaches are well-formed.
use my_vm_os.Base.{
  ℕ, ◌+◌, ◌<◌, ◌≡◌, subst, Bool, List, [], ◌∷◌, Option, some, All, length, ltb, leb, add64, arith,
  u64_mod,
}
use my_vm_os.Cpu.Reg
use my_vm_os.Cpu.Flag.{intf, mask}
use my_vm_os.Cpu.State.{
  Cpu, X86VmConfig, update, construct, start, stop, reset, set_register, set_rbp,
}
use my_vm_os.Cpu.Block.{BasicBlock}
use my_vm_os.Cpu.Machine.{M}
use my_vm_os.Cpu.Memory.{copy, load_binary, write_byte, write_wide}
use my_vm_os.Cpu.Interrupt.{handle_interrupt, trigger_interrupt, trigger_syscall}
use my_vm_os.Cpu.Run.{execute_instruction, run_loop}
use my_vm_os.Cpu.Valid.{IsValid, Keeps, After, After-if, Any}
use my_vm_os.Cpu.Valid.Basic.{
  set_register-IsValid, set_rip-IsValid, set_rsp-IsValid, registers-IsValid, memory-IsValid,
  update-lt, write_byte-IsValid, write_wide-Keeps,
}
use my_vm_os.Cpu.Valid.Control.{
  handle_interrupt-Keeps, trigger_interrupt-Keeps, trigger_syscall-Keeps,
}
use my_vm_os.Cpu.Valid.Run.{execute_instruction-Keeps, run_loop-Keeps, started-IsValid}

copy-lt :
    (bytes : List ℕ) (addr : ℕ) (mem : ℕ → ℕ)
    → All (λ b. b < 256) bytes
    → ((j : ℕ) → mem j < 256)
    → (j : ℕ) → copy bytes addr mem j < 256
unfolding copy
copy-lt [] addr mem hb h = h
copy-lt (b ∷ bs) addr mem hb h =
    copy-lt bs (addr + 1) (update mem addr b) hb.1 (update-lt mem addr b 256 h hb.0)

load_binary-Keeps :
    (binary : List ℕ) (load_addr : ℕ)
    → All (λ b. b < 256) binary
    → Keeps Any (load_binary binary load_addr)
unfolding load_binary After
load_binary-Keeps binary load_addr hb = record {
  at = λ c v.
      After-if _ (ltb c.memory_size (add64 load_addr (length binary))) _ _ (tt, v)
        (After-if _ (leb (load_addr + length binary) c.memory_size) _ _
          (tt, memory-IsValid _ c (copy-lt binary load_addr c.physical_memory hb v.bytes) v) tt);
}

construct-IsValid :
    (vm_id : ℕ) (config : X86VmConfig)
    → config.memory_size < u64_mod
    → config.entry_point < u64_mod
    → config.stack_pointer < u64_mod
    → IsValid (construct vm_id config)
unfolding construct set_rbp
construct-IsValid vm_id config size entry stack =
    set_register-IsValid Reg.rflags (mask intf) _ (omega arith) (
      registers-IsValid Reg.rbp 0 _ (omega arith) (
        set_rsp-IsValid config.stack_pointer _ stack (
          set_rip-IsValid config.entry_point _ entry record {
            words = λ i. omega arith;
            bytes = λ i. omega arith;
            size = size;
            vector = omega arith;
            entry = entry;
            stack = stack;
            instructions = omega arith;
            cycles = omega arith;
            live = λ e. cc;
          })))

stop-IsValid : (c : Cpu) → IsValid c → IsValid (stop c)
unfolding stop
stop-IsValid c v = record {
  words = v.words;
  bytes = v.bytes;
  size = v.size;
  vector = v.vector;
  entry = v.entry;
  stack = v.stack;
  instructions = v.instructions;
  cycles = v.cycles;
  live = λ e. cc;
}

reset-IsValid : (c : Cpu) → IsValid c → IsValid (reset c)
unfolding reset
reset-IsValid c v =
    let zeroed : IsValid (record c { registers = λ i. 0; physical_memory = λ i. 0 }) = record {
      words = λ i. omega arith;
      bytes = λ i. omega arith;
      size = v.size;
      vector = v.vector;
      entry = v.entry;
      stack = v.stack;
      instructions = v.instructions;
      cycles = v.cycles;
      live = v.live;
    } in
    let w = set_register-IsValid Reg.rflags (mask intf) _ (omega arith) (
      set_rsp-IsValid c.config.stack_pointer _ v.stack
        (set_rip-IsValid c.config.entry_point _ v.entry zeroed)) in
    record {
      words = w.words;
      bytes = w.bytes;
      size = w.size;
      vector = w.vector;
      entry = w.entry;
      stack = w.stack;
      instructions = omega arith;
      cycles = omega arith;
      live = λ e. cc;
    }

cfg-IsValid :
    (cfg : Option (List BasicBlock)) (c : Cpu) → IsValid c → IsValid (record c { cfg = cfg })
cfg-IsValid cfg c v = record {
  words = v.words;
  bytes = v.bytes;
  size = v.size;
  vector = v.vector;
  entry = v.entry;
  stack = v.stack;
  instructions = v.instructions;
  cycles = v.cycles;
  live = v.live;
}

-- What follows a step that makes no undefined access.
After-IsValid :
    {A : Type 0} (m : M A) (c : Cpu) {a : A} {c' : Cpu}
    → Keeps Any m
    → m c ≡ some (a, c')
    → IsValid c
    → IsValid c'
unfolding After
After-IsValid m c k e v = (subst (After Any) e (k.at c v)).1

-- The machines that the interface reaches from a constructor with a configuration of 64-bit words, by
-- steps that do nothing undefined. `build_cfg` may leave any blocks: the graph is built by the
-- disassembler. The words written are of eight bits, or brought to the width of the access.
pub data Reachable : Cpu → Type 0 where
  by_construct :
      (vm_id : ℕ) (config : X86VmConfig)
      → config.memory_size < u64_mod
      → config.entry_point < u64_mod
      → config.stack_pointer < u64_mod
      → Reachable (construct vm_id config)
  by_start : {c : Cpu} → Reachable c → Reachable (start c)
  by_stop : {c : Cpu} → Reachable c → Reachable (stop c)
  by_reset : {c : Cpu} → Reachable c → Reachable (reset c)
  by_set_register : {c : Cpu} (r v : ℕ) → v < u64_mod → Reachable c → Reachable (set_register r v c)
  by_build_cfg :
      {c : Cpu} (blocks : List BasicBlock)
      → Reachable c
      → Reachable (record c { cfg = some blocks })
  by_write_byte : {c : Cpu} (addr b : ℕ) → b < 256 → Reachable c → Reachable (write_byte addr b c)
  by_write :
      {c c' : Cpu} (n addr w : ℕ)
      → write_wide n addr w c ≡ some (tt, c')
      → Reachable c
      → Reachable c'
  by_load :
      {c c' : Cpu} (binary : List ℕ) (load_addr : ℕ)
      → All (λ b. b < 256) binary
      → load_binary binary load_addr c ≡ some (tt, c')
      → Reachable c
      → Reachable c'
  by_execute :
      {c c' : Cpu} (b : Bool) → execute_instruction c ≡ some (b, c') → Reachable c → Reachable c'
  by_loop :
      {c c' : Cpu} (fuel : ℕ) (b : Bool)
      → run_loop fuel c ≡ some (b, c')
      → Reachable c
      → Reachable c'
  by_interrupt :
      {c c' : Cpu} (vector : ℕ)
      → trigger_interrupt vector c ≡ some (tt, c')
      → Reachable c
      → Reachable c'
  by_syscall :
      {c c' : Cpu} (num : ℕ) → trigger_syscall num c ≡ some (tt, c') → Reachable c → Reachable c'
  by_return :
      {c c' : Cpu} (value : ℕ)
      → handle_interrupt value c ≡ some (tt, c')
      → Reachable c
      → Reachable c'

-- Every machine that the interface reaches from a constructor with a configuration of 64-bit words,
-- by steps that do nothing undefined and with any basic blocks that build_cfg may leave, is
-- well-formed: registers and counters hold 64-bit words, memory holds bytes, the interrupt vector is
-- a byte, and `running_` is set only in the states RUNNING and WAITING_INTERRUPT.
pub Reachable-IsValid : (c : Cpu) → Reachable c → IsValid c
Reachable-IsValid _ (by_construct vm_id config size entry stack) =
    construct-IsValid vm_id config size entry stack
Reachable-IsValid _ (by_start {c} r) = started-IsValid c (Reachable-IsValid c r)
Reachable-IsValid _ (by_stop {c} r) = stop-IsValid c (Reachable-IsValid c r)
Reachable-IsValid _ (by_reset {c} r) = reset-IsValid c (Reachable-IsValid c r)
Reachable-IsValid _ (by_set_register {c} i w h r) =
    set_register-IsValid i w c h (Reachable-IsValid c r)
Reachable-IsValid _ (by_build_cfg {c} blocks r) =
    cfg-IsValid (some blocks) c (Reachable-IsValid c r)
Reachable-IsValid _ (by_write_byte {c} addr b h r) =
    write_byte-IsValid addr b c h (Reachable-IsValid c r)
Reachable-IsValid _ (by_write {c} n addr w e r) =
    After-IsValid (write_wide n addr w) c (write_wide-Keeps n addr w) e (Reachable-IsValid c r)
Reachable-IsValid _ (by_load {c} binary load_addr hb e r) =
    After-IsValid (load_binary binary load_addr) c (load_binary-Keeps binary load_addr hb) e
      (Reachable-IsValid c r)
Reachable-IsValid _ (by_execute {c} b e r) =
    After-IsValid execute_instruction c execute_instruction-Keeps e (Reachable-IsValid c r)
Reachable-IsValid _ (by_loop {c} fuel b e r) =
    After-IsValid (run_loop fuel) c (run_loop-Keeps fuel) e (Reachable-IsValid c r)
Reachable-IsValid _ (by_interrupt {c} vector e r) =
    After-IsValid (trigger_interrupt vector) c (trigger_interrupt-Keeps vector) e
      (Reachable-IsValid c r)
Reachable-IsValid _ (by_syscall {c} num e r) =
    After-IsValid (trigger_syscall num) c (trigger_syscall-Keeps num) e (Reachable-IsValid c r)
Reachable-IsValid _ (by_return {c} value e r) =
    After-IsValid (handle_interrupt value) c (handle_interrupt-Keeps value) e
      (Reachable-IsValid c r)
