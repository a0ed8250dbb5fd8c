-- ===== src/Cpu/Reg.antt =====
-- `enum class X86Reg` of include/vm/X86CPU.h. The source casts between a register and its number
-- both ways, so a register is its number here.
use my_vm_os.Base.{ℕ, get_or, List, [], ◌∷◌}

abbrev pub X86Reg : Type 0
X86Reg = ℕ

abbrev pub num_x86_regs : ℕ
num_x86_regs = 18

abbrev pub rax : X86Reg
rax = 0

abbrev pub rbx : X86Reg
rbx = 1

abbrev pub rcx : X86Reg
rcx = 2

abbrev pub rdx : X86Reg
rdx = 3

abbrev pub rsi : X86Reg
rsi = 4

abbrev pub rdi : X86Reg
rdi = 5

abbrev pub rbp : X86Reg
rbp = 6

abbrev pub rsp : X86Reg
rsp = 7

abbrev pub r11 : X86Reg
r11 = 11

abbrev pub rip : X86Reg
rip = 16

abbrev pub rflags : X86Reg
rflags = 17

-- The encodings 0 to 15 in order; any other gives RAX.
abbrev encoded : List X86Reg
encoded = rax ∷ rcx ∷ rdx ∷ rbx ∷ rsp ∷ rbp ∷ rsi ∷ rdi ∷ 8 ∷ 9 ∷ 10 ∷ 11 ∷ 12 ∷ 13 ∷ 14 ∷ 15 ∷ []

unfoldable pub x86_reg_encoding_to_enum : ℕ → X86Reg
x86_reg_encoding_to_enum encoding = get_or encoded encoding rax
