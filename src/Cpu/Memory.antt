-- ===== src/Cpu/Memory.antt =====
-- Memory, stack and program loading of `X86CPUVM` (src/vm/X86CPU.cpp). `read_byte` and `write_byte`
-- test the address; the wider accesses do not, and are undefined past the end. The host is
-- little-endian, as the casts of the source need it.
pub mod Bytes
pub mod Stack
use my_vm_os.Base.{
  ℕ, zero, suc, ◌+◌, ◌*◌, ◌/◌, ◌%◌, List, [], ◌∷◌, none, some, ltb, leb, if◌then◌else◌, length,
  add64, sub64,
}
use my_vm_os.Cpu.State.{Cpu, update, get_rsp, set_rsp}
use my_vm_os.Cpu.Machine.{M, ◌>>=◌, ◌>>◌, gets, modify, done}

-- The little-endian value of the `n` bytes from `addr` on.
unfoldable pub load : ℕ → (ℕ → ℕ) → ℕ → ℕ
load zero mem addr = 0
load (suc n) mem addr = mem addr + 256 * load n mem (addr + 1)

-- The memory with the `n` bytes of `v` written from `addr` on.
unfoldable pub store : ℕ → (ℕ → ℕ) → ℕ → ℕ → ℕ → ℕ
store zero mem addr v = mem
store (suc n) mem addr v = store n (update mem addr (v % 256)) (addr + 1) (v / 256)

unfoldable pub read_byte : ℕ → Cpu → ℕ
read_byte addr c = if leb c.memory_size addr then 0 else c.physical_memory addr

unfoldable pub write_byte : ℕ → ℕ → Cpu → Cpu
write_byte addr v c =
    if leb c.memory_size addr
    then c
    else record c { physical_memory = update c.physical_memory addr v }

-- `*reinterpret_cast<const uintN_t*>(&physical_memory_[addr])`
unfoldable pub read_wide : ℕ → ℕ → M ℕ
read_wide n addr c =
    if leb (addr + n) c.memory_size then some (load n c.physical_memory addr, c) else none

unfoldable pub write_wide : ℕ → ℕ → ℕ → M (Unit {0})
write_wide n addr v c =
    if leb (addr + n) c.memory_size
    then some (tt, record c { physical_memory = store n c.physical_memory addr v })
    else none

abbrev pub read_word : ℕ → M ℕ
read_word = read_wide 2

abbrev pub read_dword : ℕ → M ℕ
read_dword = read_wide 4

abbrev pub read_qword : ℕ → M ℕ
read_qword = read_wide 8

abbrev pub write_word : ℕ → ℕ → M (Unit {0})
write_word = write_wide 2

abbrev pub write_dword : ℕ → ℕ → M (Unit {0})
write_dword = write_wide 4

abbrev pub write_qword : ℕ → ℕ → M (Unit {0})
write_qword = write_wide 8

unfoldable pub push : ℕ → M (Unit {0})
push v = do
  rsp ← gets get_rsp
  modify (set_rsp (sub64 rsp 8))
  top ← gets get_rsp
  write_qword top v

unfoldable pub pop : M ℕ
pop = do rsp ← gets get_rsp; value ← read_qword rsp; modify (set_rsp (add64 rsp 8)); done value

-- `memcpy` of a binary.
unfoldable pub copy : List ℕ → ℕ → (ℕ → ℕ) → ℕ → ℕ
copy [] addr mem = mem
copy (b ∷ bs) addr mem = copy bs (addr + 1) (update mem addr b)

-- A binary that does not fit is refused. The test's sum wraps, so it can pass for an address out of
-- memory; the copy is undefined then.
unfoldable pub load_binary : List ℕ → ℕ → M (Unit {0})
unfolding copy
load_binary binary load_addr c =
    if ltb c.memory_size (add64 load_addr (length binary))
    then some (tt, c)
    else if leb (load_addr + length binary) c.memory_size
    then some (tt, record c { physical_memory = copy binary load_addr c.physical_memory })
    else none

-- `load_program`: 32-bit words as little-endian bytes at the entry point.
unfoldable pub to_bytes : List ℕ → List ℕ
to_bytes [] = []
to_bytes (w ∷ ws) =
    w % 256 ∷ (w / 256 % 256) ∷ (w / 65536 % 256) ∷ (w / 16777216 % 256) ∷ to_bytes ws

unfoldable pub load_program : List ℕ → M (Unit {0})
unfolding to_bytes
load_program code c = load_binary (to_bytes code) c.config.entry_point c

-- `load_elf` loads the bytes as they are.
unfoldable pub load_elf : List ℕ → M (Unit {0})
load_elf elf_binary c = load_binary elf_binary c.config.entry_point c
