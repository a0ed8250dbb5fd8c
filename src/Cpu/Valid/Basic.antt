-- ===== src/Cpu/Valid/Basic.antt =====
-- Registers, flags, memory and stack of src/vm/X86CPU.cpp keep the state well-formed.
use my_vm_os.Base.{
  ℕ, zero, suc, ◌+◌, ◌/◌, ◌%◌, ◌^◌, ◌<◌, Bool, true, false, ltb, leb, if◌then◌else◌, arith, u64_mod,
  sub64, add64,
}
use my_vm_os.Cpu.Reg
use my_vm_os.Cpu.Flag.{Flag, cf, pf, zf, sf, of}
use my_vm_os.Cpu.Flag.Laws.{put_flag-lt}
use my_vm_os.Cpu.State.{
  Cpu, update, get_register, set_register, set_rip, set_rsp, get_rsp, set_flag,
}
use my_vm_os.Cpu.Machine.{modify}
use my_vm_os.Cpu.Memory.{store, read_byte, write_byte, read_wide, write_wide, push, pop}
use my_vm_os.Cpu.Memory.Bytes.{load-lt}
use my_vm_os.Cpu.Alu.{update_flags_arithmetic, overflow_flags}
use my_vm_os.Cpu.Valid.{
  IsValid, Keeps, After, After-if, Any, IsWord, Keeps-bind, Keeps-seq, Keeps-done, Keeps-gets,
  Keeps-modify,
}

pub update-lt : (f : ℕ → ℕ) (i v n : ℕ) → ((j : ℕ) → f j < n) → v < n → (j : ℕ) → update f i v j < n
unfolding update
update-lt f i v n h hv j = let hj = h j in ground arith

pub store-lt :
    (n : ℕ) (mem : ℕ → ℕ) (addr v : ℕ)
    → ((j : ℕ) → mem j < 256)
    → (j : ℕ) → store n mem addr v j < 256
unfolding store
store-lt zero mem addr v h = h
store-lt (suc n) mem addr v h =
    store-lt n (update mem addr (v % 256)) (addr + 1) (v / 256)
      (update-lt mem addr (v % 256) 256 h (omega arith))

-- The array of registers with one more word in it.
pub registers-IsValid :
    (i w : ℕ) (c : Cpu)
    → w < u64_mod
    → IsValid c
    → IsValid (record c { registers = update c.registers i w })
registers-IsValid i w c hw v = record {
  words = update-lt c.registers i w u64_mod v.words hw;
  bytes = v.bytes;
  size = v.size;
  vector = v.vector;
  entry = v.entry;
  stack = v.stack;
  instructions = v.instructions;
  cycles = v.cycles;
  live = v.live;
}

pub memory-IsValid :
    (mem : ℕ → ℕ) (c : Cpu)
    → ((j : ℕ) → mem j < 256)
    → IsValid c
    → IsValid (record c { physical_memory = mem })
memory-IsValid mem c h v = record {
  words = v.words;
  bytes = h;
  size = v.size;
  vector = v.vector;
  entry = v.entry;
  stack = v.stack;
  instructions = v.instructions;
  cycles = v.cycles;
  live = v.live;
}

-- Sums and differences of words are words.
pub add64-lt : (a b : ℕ) → add64 a b < u64_mod
add64-lt a b = omega arith

pub sub64-lt : (a b : ℕ) → sub64 a b < u64_mod
sub64-lt a b = omega arith

pub IsValid-if : (t : Bool) (a b : Cpu) → IsValid a → IsValid b → IsValid (if t then a else b)
IsValid-if true a b ha hb = ha
IsValid-if false a b ha hb = hb

pub set_register-IsValid :
    (r w : ℕ) (c : Cpu) → w < u64_mod → IsValid c → IsValid (set_register r w c)
unfolding set_register
set_register-IsValid r w c hw v = IsValid-if (ltb r 18) _ _ (registers-IsValid r w c hw v) v

pub get_register-lt : (r : ℕ) (c : Cpu) → IsValid c → get_register r c < u64_mod
unfolding get_register
get_register-lt r c v = let h = v.words r in ground arith

pub set_rip-IsValid : (w : ℕ) (c : Cpu) → w < u64_mod → IsValid c → IsValid (set_rip w c)
unfolding set_rip
set_rip-IsValid w c = registers-IsValid Reg.rip w c

pub set_rsp-IsValid : (w : ℕ) (c : Cpu) → w < u64_mod → IsValid c → IsValid (set_rsp w c)
unfolding set_rsp
set_rsp-IsValid w c = registers-IsValid Reg.rsp w c

pub set_flag-IsValid : (f : Flag) (b : Bool) (c : Cpu) → IsValid c → IsValid (set_flag f b c)
unfolding set_flag
set_flag-IsValid f b c v =
    set_register-IsValid Reg.rflags _ c (put_flag-lt f b _ (v.words Reg.rflags)) v

overflow_flags-IsValid :
    (r a b : ℕ) (s : Bool) (c : Cpu) → IsValid c → IsValid (overflow_flags r a b s c)
unfolding overflow_flags
overflow_flags-IsValid r a b true c v = set_flag-IsValid of _ c v
overflow_flags-IsValid r a b false c v = set_flag-IsValid of _ _ (set_flag-IsValid cf _ c v)

pub update_flags-Keeps :
    (r a b : ℕ) (s : Bool) → Keeps Any (modify (update_flags_arithmetic r a b s))
unfolding update_flags_arithmetic
update_flags-Keeps r a b s = Keeps-modify _ λ c v.
    set_flag-IsValid pf _ _
      (overflow_flags-IsValid r a b s _ (set_flag-IsValid sf _ _ (set_flag-IsValid zf _ c v)))

pub read_byte-lt : (addr : ℕ) (c : Cpu) → IsValid c → read_byte addr c < 256
unfolding read_byte
read_byte-lt addr c v = let h = v.bytes addr in ground arith

pub write_byte-IsValid :
    (addr b : ℕ) (c : Cpu) → b < 256 → IsValid c → IsValid (write_byte addr b c)
unfolding write_byte
write_byte-IsValid addr b c hb v =
    IsValid-if (leb c.memory_size addr) _ _ v
      (memory-IsValid _ c (update-lt c.physical_memory addr b 256 v.bytes hb) v)

-- `n` bytes read are below `256 ^ n`.
pub read_wide-Keeps : (n addr : ℕ) → Keeps (λ w. w < 256 ^ n) (read_wide n addr)
unfolding read_wide After
read_wide-Keeps n addr = record {
  at = λ c v. After-if _ (leb (addr + n) c.memory_size) _ _ (load-lt n _ addr v.bytes, v) tt;
}

pub write_wide-Keeps : (n addr w : ℕ) → Keeps Any (write_wide n addr w)
unfolding write_wide After
write_wide-Keeps n addr w = record {
  at = λ c v.
      After-if _ (leb (addr + n) c.memory_size) _ _
        (tt, memory-IsValid _ c (store-lt n c.physical_memory addr w v.bytes) v) tt;
}

pub push-Keeps : (w : ℕ) → Keeps Any (push w)
unfolding push
push-Keeps w = Keeps-bind {P = IsWord} (Keeps-gets get_rsp (λ c v. v.words Reg.rsp)) λ rsp h.
    Keeps-seq (Keeps-modify _ (λ c v. set_rsp-IsValid _ c (sub64-lt _ _) v)) (
      Keeps-bind {P = IsWord} (Keeps-gets get_rsp (λ c v. v.words Reg.rsp))
        λ top h'. write_wide-Keeps 8 top w)

pub pop-Keeps : Keeps IsWord pop
unfolding pop
pop-Keeps = Keeps-bind {P = IsWord} (Keeps-gets get_rsp (λ c v. v.words Reg.rsp)) λ rsp h.
    Keeps-bind (read_wide-Keeps 8 rsp) λ value hv.
      Keeps-seq (Keeps-modify _ (λ c v. set_rsp-IsValid _ c (add64-lt _ _) v)) (Keeps-done value hv)
