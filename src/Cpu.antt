-- ===== src/Cpu.antt =====
-- The x86 virtual machine, `X86CPUVM` (include/vm/X86CPU.h and src/vm/X86*.cpp).
pub mod Reg
pub mod Flag
pub mod Block
pub mod State
pub mod Machine
pub mod Memory
pub mod Interrupt
pub mod ModRm
pub mod Mov
pub mod Alu
pub mod Arithmetic
pub mod Logical
pub mod Branch
pub mod System
pub mod Decode
pub mod Run
pub mod Valid
