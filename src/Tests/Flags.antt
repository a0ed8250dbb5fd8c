-- ===== src/Tests/Flags.antt =====
-- The theorems on registers, flags and branches (src/vm/X86CPU.cpp, src/vm/X86_other_instructions.cpp),
-- run on concrete words.
use my_vm_os.Base.{◌+◌, ◌≡◌, ltb, leb, arith, u64_mod}
use my_vm_os.Cpu.State.{Cpu, construct}
use my_vm_os.Cpu.Alu.Compare.{compared, cmp_jb}
use my_vm_os.Cpu.Branch.{take_branch}

machine : Cpu
machine = construct 1 (record { memory_size = 4096; entry_point = 2048; stack_pointer = 4096 })

cmp_jb_example :
    (take_branch 0x2 (compared 1 2 machine) ≡ leb u64_mod (1 + 2))
    × (take_branch 0x3 (compared 1 2 machine) ≡ ltb (1 + 2) u64_mod)
cmp_jb_example = cmp_jb 1 2 machine (omega arith) (omega arith)
