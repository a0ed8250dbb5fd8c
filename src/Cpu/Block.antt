-- ===== src/Cpu/Block.antt =====
-- The basic blocks of a control flow graph as `execute_basic_block` of src/vm/X86CPU.cpp reads them
-- (`BasicBlock` of src/vm/disassembly/BasicBlock.h).
use my_vm_os.Base.{ℕ, ◌==◌, ◌||◌, Bool, false, List, [], ◌∷◌, Option, none, some, if◌then◌else◌}
use Prim.Native.String.{String}
use text.Mathlib.Text.{◌==◌ as str_eq}

pub record Instruction : Type 0 where
  pub address : ℕ
  pub mnemonic : String

pub record BasicBlock : Type 0 where
  pub start_addr : ℕ
  pub instructions : List Instruction
  pub is_terminated : Bool

-- `ControlFlowGraph::get_block`
unfoldable pub get_block : ℕ → List BasicBlock → Option BasicBlock
get_block addr [] = none
get_block addr (b ∷ bs) = if b.start_addr == addr then some b else get_block addr bs

abbrev branch_mnemonics : List String
branch_mnemonics =
    "jmp" ∷ "je" ∷ "jne" ∷ "jz" ∷ "jnz" ∷ "ja" ∷ "jb" ∷ "jae" ∷ "jbe" ∷ "jc" ∷ "jnc" ∷ "jo" ∷ "jno"
    ∷ "js" ∷ "jns" ∷ "jp" ∷ "jnp" ∷ "jl" ∷ "jle" ∷ "jg" ∷ "jge" ∷ "call" ∷ "ret" ∷ []

unfoldable pub any_of : String → List String → Bool
any_of s [] = false
any_of s (t ∷ ts) = str_eq s t || any_of s ts

unfoldable pub is_branch : String → Bool
unfolding any_of
is_branch mnem = any_of mnem branch_mnemonics
