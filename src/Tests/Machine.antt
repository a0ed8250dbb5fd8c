-- ===== src/Tests/Machine.antt =====
-- The theorems on `X86CPUVM` (src/vm/X86CPU.cpp, src/vm/X86_decode.cpp), run on a machine with 4096 bytes.
use my_vm_os.Base.{ℕ, ◌-◌, ◌≡◌, refl, true, false, List, [], ◌∷◌, Option, none, some, arith, add64}
use my_vm_os.Cpu.Reg
use my_vm_os.Cpu.Reg.{num_x86_regs}
use my_vm_os.Cpu.Flag.{has_flag, put_flag}
use my_vm_os.Cpu.State.{
  Cpu, X86VmConfig, update, get_register, set_register, get_rip, get_rsp, get_rflags, set_rip,
  set_rsp, set_rbp, set_flag, get_flag, construct, start, is_running_state,
}
use my_vm_os.Cpu.Machine.{◌>>=◌, ◌>>◌, gets, modify, done}
use my_vm_os.Cpu.Memory.{read_byte, read_wide, load, store, copy, load_binary, push, pop}
use my_vm_os.Cpu.Memory.Stack.{HasRoom, pop-push}
use my_vm_os.Cpu.Interrupt.{trigger_interrupt, trigger_syscall, handle_interrupt}
use my_vm_os.Cpu.Interrupt.RoundTrip.{Restored, handle-trigger_interrupt, handle-trigger_syscall}
use my_vm_os.Cpu.Mov.{execute_mov, mov_r64_imm}
use my_vm_os.Cpu.Decode.{
  is_prefix, inc_int, add_int, skip_prefixes, read_prefixes, counted, dispatch, handler_of,
  decode_and_execute,
}
use my_vm_os.Cpu.Decode.Prefix.{read_prefixes-end}
use my_vm_os.Cpu.Block.{BasicBlock, get_block, any_of, is_branch}
use my_vm_os.Cpu.Branch.{jump_rel8, execute_branch}
use my_vm_os.Cpu.Run.{
  run_block, count_block, current_block, execute_basic_block, deliver_interrupt, single_step,
  step_block, execute_instruction,
}
use my_vm_os.Cpu.Run.Step.{single_step-jump_self}
use my_vm_os.Cpu.Valid.{IsValid}
use my_vm_os.Cpu.Valid.Reach.{
  Reachable, by_construct, by_start, by_load, by_build_cfg, by_execute, Reachable-IsValid,
}

abbrev config : X86VmConfig
config = record { memory_size = 4096; entry_point = 2048; stack_pointer = 4096 }

fresh : Cpu
unfolding construct set_register set_rip set_rsp set_rbp update
fresh = construct 1 config

state_of : {A : Type 0} → Option (A × Cpu) → Cpu
unfolding fresh
state_of none = fresh
state_of (some (a, c)) = c

-- REP MOV EAX, 42; JMP $.
abbrev program : List ℕ
program = 0xF3 ∷ 0xB8 ∷ 42 ∷ 0 ∷ 0 ∷ 0 ∷ 0xEB ∷ 0xFE ∷ []

loaded : Cpu
unfolding fresh state_of start is_running_state load_binary copy
loaded = state_of (load_binary program 2048 (start fresh))

loaded_run : load_binary program 2048 (start fresh) ≡ some (tt, loaded)
unfolding loaded fresh state_of start is_running_state load_binary copy
loaded_run = refl

loaded-Reachable : Reachable loaded
unfolding fresh
loaded-Reachable =
    by_load program 2048 (ground arith) loaded_run
      (by_start (by_construct 1 config (omega arith) (omega arith) (omega arith)))

-- Both instructions in a block that ends with the jump.
abbrev blocks : List BasicBlock
blocks =
    record {
      start_addr = 2048;
      instructions =
          record { address = 2048; mnemonic = "mov" }
          ∷ record { address = 2054; mnemonic = "jmp" }
          ∷ [];
      is_terminated = true;
    }
    ∷ []

graphed : Cpu
unfolding loaded
graphed = record loaded { cfg = some blocks }

executed : Cpu
unfolding graphed state_of execute_instruction
executed = state_of (execute_instruction graphed)

executed_run : execute_instruction graphed ≡ some (true, executed)
unfolding executed graphed loaded fresh state_of start is_running_state load_binary copy update
    construct set_register set_rip set_rsp set_rbp get_register read_byte read_wide load
    execute_instruction deliver_interrupt execute_basic_block current_block get_block is_branch
    any_of run_block step_block single_step count_block decode_and_execute read_prefixes
    skip_prefixes inc_int is_prefix handler_of dispatch counted add_int execute_mov mov_r64_imm
    execute_branch jump_rel8 Reg.x86_reg_encoding_to_enum get_flag set_flag has_flag put_flag ◌>>=◌
    ◌>>◌ gets modify done
executed_run = refl

-- The block counts two instructions.
executed_block : executed.total_instructions ≡ 2
unfolding executed graphed loaded fresh state_of start is_running_state load_binary copy update
    construct set_register set_rip set_rsp set_rbp get_register read_byte read_wide load
    execute_instruction deliver_interrupt execute_basic_block current_block get_block is_branch
    any_of run_block step_block single_step count_block decode_and_execute read_prefixes
    skip_prefixes inc_int is_prefix handler_of dispatch counted add_int execute_mov mov_r64_imm
    execute_branch jump_rel8 Reg.x86_reg_encoding_to_enum get_flag set_flag has_flag put_flag ◌>>=◌
    ◌>>◌ gets modify done
executed_block = refl

Reachable-IsValid_example : IsValid executed
unfolding graphed
Reachable-IsValid_example =
    Reachable-IsValid executed (by_execute true executed_run (by_build_cfg blocks loaded-Reachable))

read_prefixes-end_example : is_prefix (read_byte (read_prefixes loaded 2048).1 loaded) ≡ false
unfolding loaded fresh state_of start is_running_state load_binary construct set_register set_rip
    set_rsp set_rbp
read_prefixes-end_example = read_prefixes-end loaded 2048 (ground arith)

at_jump : Cpu
unfolding set_rip loaded
at_jump = set_rip 2054 loaded

single_step-jump_self_example :
    (c' : Cpu) × (single_step at_jump ≡ some (true, c')) × (get_rip c' ≡ add64 (get_rip at_jump) 2)
unfolding at_jump loaded fresh state_of start is_running_state load_binary copy update construct
    set_register set_rip set_rsp set_rbp read_byte
single_step-jump_self_example = single_step-jump_self at_jump (ground arith) refl refl

-- A stack in the upper half of the memory.
fresh-HasRoom : HasRoom 16 fresh
unfolding fresh construct set_register set_rip set_rsp set_rbp update
fresh-HasRoom = ground arith

pop-push_example :
    (push 7 >>= λ _. pop) fresh
    ≡ some
        (7, record fresh { physical_memory = store 8 fresh.physical_memory (get_rsp fresh - 8) 7 })
pop-push_example = pop-push 7 fresh (let h = fresh-HasRoom in omega arith) (omega arith)

handle-trigger_interrupt_example :
    (c' : Cpu) × ((trigger_interrupt 3 >> handle_interrupt 5) fresh ≡ some (tt, c'))
    × Restored (get_rip fresh) (get_rflags fresh) (get_rsp fresh) 5 c'
unfolding fresh construct set_register set_rip set_rsp set_rbp update
handle-trigger_interrupt_example =
    handle-trigger_interrupt fresh fresh-HasRoom (ground arith) 5 (omega arith) 3 (ground arith)
      (ground arith) (ground arith)

handle-trigger_syscall_example :
    (c' : Cpu) × ((trigger_syscall 1 >> handle_interrupt 5) fresh ≡ some (tt, c'))
    × Restored (get_register Reg.r11 fresh) (get_register Reg.rcx fresh) (get_rsp fresh) 5 c'
unfolding fresh construct set_register set_rip set_rsp set_rbp update get_register
handle-trigger_syscall_example =
    handle-trigger_syscall fresh fresh-HasRoom (ground arith) 5 (omega arith) 1 (ground arith)
      (ground arith) (ground arith)

-- POP RAX (0x58) at the entry point.
popping : Cpu
unfolding fresh
popping = record fresh { physical_memory = update (fresh.physical_memory) 2048 0x58 }

abbrev ret_opcode : ℕ
ret_opcode = 0xC3
