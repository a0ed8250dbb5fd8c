-- ===== src/Cpu/Valid/Operand.antt =====
-- Decoding and operand access (src/vm/X86_decode.cpp) keep the state well-formed.
use my_vm_os.Base.{ℕ, ◌+◌, ◌<◌, ◌≤◌, ◌≡◌, arith, u64_mod, sext8, add64}
use my_vm_os.Cpu.Reg.{x86_reg_encoding_to_enum}
use my_vm_os.Cpu.State.{Cpu, get_register, set_register}
use my_vm_os.Cpu.Machine.{◌>>=◌, gets, modify, done}
use my_vm_os.Cpu.Memory.{read_byte, read_wide}
use my_vm_os.Cpu.ModRm.{
  ModRmDecoding, decode_fields, displaced, with_displacement, decode_modrm,
  calculate_effective_address, read_rm64, write_rm64, set_low8,
}
use my_vm_os.Cpu.Valid.{
  IsValid, Keeps, After-if, Any, IsWord, IsPositive, Keeps-bind, Keeps-done, Keeps-gets,
  Keeps-modify,
}
use my_vm_os.Cpu.Valid.Basic.{
  read_wide-Keeps, write_wide-Keeps, read_byte-lt, get_register-lt, set_register-IsValid,
}

-- What `decode_modrm` returns: fields of their widths, and a length of one to six bytes.
pub record IsDecoded (r : ModRmDecoding × ℕ) : Type 0 where
  pub reg_lt : r.0.reg < 8
  pub rm_lt : r.0.rm < 8
  pub displacement_lt : r.0.displacement_value < u64_mod
  pub len_pos : 1 ≤ r.1
  pub len_le : r.1 ≤ 6

-- The length before the displacement.
IsShort : ModRmDecoding × ℕ → Type 0
IsShort r = (r.0.reg < 8) × (r.0.rm < 8) × (r.0.displacement_value ≡ 0) × (1 ≤ r.1) × (r.1 ≤ 2)

decode_fields-IsShort : (modrm sib : ℕ) → IsShort (decode_fields modrm sib)
unfolding decode_fields IsShort
decode_fields-IsShort modrm sib = ground arith

pub sext8-lt : (b : ℕ) → b < 256 → sext8 b < u64_mod
sext8-lt b h = ground arith

with_displacement-Keeps :
    (rip : ℕ) (r : ModRmDecoding × ℕ) → IsShort r → Keeps IsDecoded (with_displacement rip r)
unfolding with_displacement displaced IsShort
with_displacement-Keeps rip (d, len) h =
    let disp32 : Keeps IsDecoded
        (read_wide 4 (add64 rip len) >>= λ v. done (displaced d 32 v, len + 4)) =
      Keeps-bind (read_wide-Keeps 4 (add64 rip len)) λ w hw. Keeps-done _ (omega arith) in
    let disp8 =
      Keeps-bind {P = λ w. w < 256} (Keeps-gets (read_byte (add64 rip len)) (read_byte-lt _))
        λ w hw.
          Keeps-done {Q = IsDecoded} (displaced d 8 (sext8 w), len + 1)
            (ground (arith, sext8-lt w hw)) in
    let plain : Keeps IsDecoded (done (d, len)) = Keeps-done (d, len) (omega arith) in
    record {
      at = λ c v.
          After-if _ _ _ _ (disp32.at c v)
            (After-if _ _ _ _ (disp8.at c v) (After-if _ _ _ _ (disp32.at c v) (plain.at c v)));
    }

-- On a well-formed machine decode_modrm makes fields of their widths and a length of one to six
-- bytes, and keeps the machine well-formed, unless it reads past the end of memory.
pub decode_modrm-Keeps : (rip : ℕ) → Keeps IsDecoded (decode_modrm rip)
unfolding decode_modrm
decode_modrm-Keeps rip = Keeps-bind {P = Any} (Keeps-gets _ (λ c v. tt)) λ modrm _.
    Keeps-bind {P = Any} (Keeps-gets _ (λ c v. tt))
      λ sib _. with_displacement-Keeps rip _ (decode_fields-IsShort modrm sib)

pub read_rm64-Keeps : (d : ModRmDecoding) → Keeps IsWord (read_rm64 d)
unfolding read_rm64
read_rm64-Keeps d = record {
  at = λ c v.
      After-if _ _ _ _
        ((Keeps-done (get_register (x86_reg_encoding_to_enum d.rm) c) (get_register-lt _ c v)).at c
          v)
        ((read_wide-Keeps 8 (calculate_effective_address d c)).at c v);
}

pub write_rm64-Keeps : (d : ModRmDecoding) (w : ℕ) → IsWord w → Keeps Any (write_rm64 d w)
unfolding write_rm64
write_rm64-Keeps d w hw = record {
  at = λ c v.
      After-if _ _ _ _
        ((Keeps-modify (set_register (x86_reg_encoding_to_enum d.rm) w)
            λ c v. set_register-IsValid _ w c hw v).at
          c v)
        ((write_wide-Keeps 8 (calculate_effective_address d c) w).at c v);
}

pub set_low8-IsValid : (r b : ℕ) (c : Cpu) → b < 256 → IsValid c → IsValid (set_low8 r b c)
unfolding set_low8
set_low8-IsValid r b c hb v =
    let h = get_register-lt r c v in set_register-IsValid r _ c (omega arith) v

abbrev pub IsByte : ℕ → Type 0
IsByte b = b < 256

pub reg-Keeps : (r : ℕ) → Keeps IsWord (gets (get_register r))
reg-Keeps r = Keeps-gets (get_register r) (get_register-lt r)

pub set_reg-Keeps : (r w : ℕ) → IsWord w → Keeps Any (modify (set_register r w))
set_reg-Keeps r w h = Keeps-modify (set_register r w) λ c v. set_register-IsValid r w c h v

pub IsByte-Keeps : (addr : ℕ) → Keeps IsByte (gets (read_byte addr))
IsByte-Keeps addr = Keeps-gets (read_byte addr) (read_byte-lt addr)

pub set_low8-Keeps : (r b : ℕ) → IsByte b → Keeps Any (modify (set_low8 r b))
set_low8-Keeps r b h = Keeps-modify (set_low8 r b) λ c v. set_low8-IsValid r b c h v

pub len-Keeps : (len : ℕ) → 0 < len → Keeps IsPositive (done len)
len-Keeps len h = Keeps-done len h
