-- ===== src/Mvm/Loop/Safety.antt =====
-- `pc_` of `mVM` (src/vm/mVM.cpp) stays in the program, so that its thread never reads past it.
use my_vm_os.Base.{
  ℕ, zero, suc, ◌+◌, ◌-◌, ◌≤◌, ◌<◌, ◌≡◌, refl, subst, inl, inr, Bool, true, false, not, Option,
  some, List, [], ◌∷◌, leb, ==_ne, le→ltb, ap, if◌then◌else◌, length, get_elem?, arith, Bool-cases,
  leb→lt,
}
use my_vm_os.Base.Int.{ℤ, pos, negsuc}
use my_vm_os.Cpu.State.{update}
use my_vm_os.Mvm.{
  Mvm, u32_mod, construct, load_program, start, stop, grant_quota, revoke_quota, execute,
  execute_instruction, handle_interrupt, on_wakeup, add, suspend, send_interrupt_request,
  store_result, is_suspended,
}
use my_vm_os.Mvm.Loop.{
  Place, at_top, after_execute, left, leave, run_instruction, enter, thread_step,
}

-- `pc_` is at most the length of the program, and past the first word after an instruction.
abbrev pub IsInside : Place × Mvm → Type 0
IsInside (at_top, m) = m.pc ≤ length m.memory
IsInside (after_execute b, m) = (1 ≤ m.pc) × (m.pc ≤ length m.memory)
IsInside (left, m) = m.pc ≤ length m.memory

-- The program and the counter after a change are those before it.
abbrev Same : Mvm → Mvm → Type 0
Same m m' = (m'.pc ≡ m.pc) × (m'.memory ≡ m.memory)

execute-Same : (inst : ℕ) (m : Mvm) → Same m (execute inst m).1
unfolding execute add suspend send_interrupt_request
execute-Same inst m = ground arith

store_result-Same : (r : ℤ) (v : ℕ) (m : Mvm) → Same m (store_result r v m)
unfolding store_result
store_result-Same (pos r) v m = ground arith
store_result-Same (negsuc n) v m = (refl, refl)

handle_interrupt-Same : (t : Bool) (v : ℕ) (m : Mvm) → Same m (handle_interrupt t v m)
unfolding handle_interrupt
handle_interrupt-Same true v m = (refl, refl)
handle_interrupt-Same false v m = store_result-Same m.pending_input_reg v m

get_elem-in :
    {A : Type 0} (xs : List A) (i : ℕ) → i < length xs → (a : A) × (get_elem? xs i ≡ some a)
get_elem-in [] i h = let no : ⊥ = omega arith in elim no [ ]
get_elem-in (x ∷ xs) zero h = (x, refl)
get_elem-in (x ∷ xs) (suc i) h = get_elem-in xs i (omega arith)

-- With the counter in the program, `execute_instruction` runs the word before it.
pub execute_instruction_lem :
    (m : Mvm) (inst : ℕ)
    → m.pc < length m.memory
    → get_elem? m.memory m.pc ≡ some inst
    → execute_instruction (record m { pc = m.pc + 1 })
      ≡ some (execute inst (record m { pc = m.pc + 1 }))
unfolding execute_instruction
execute_instruction_lem m inst h e =
    let back : m.pc + 1 - 1 ≡ m.pc = omega arith in
    rw (le→ltb (length m.memory) (m.pc + 1) (omega arith), ==_ne (m.pc + 1) 0 (omega arith))
      (rw (back, e) refl)

pub run_instruction_lem :
    (m : Mvm) (inst : ℕ)
    → m.pc < length m.memory
    → get_elem? m.memory m.pc ≡ some inst
    → let r = execute inst (record m { pc = m.pc + 1 }) in
      run_instruction m ≡ some (after_execute r.0, r.1)
unfolding run_instruction
run_instruction_lem m inst h e = rw (execute_instruction_lem m inst h e, run_instruction) refl

abbrev IsSafe : Option (Place × Mvm) → Type 0
IsSafe o = (t : Place × Mvm) × (o ≡ some t) × IsInside t

leave-IsInside : (m : Mvm) → m.pc ≤ length m.memory → IsInside (leave m)
unfolding leave
leave-IsInside m h = elim (Bool-cases (is_suspended m.state)) [ inl e ↦ rw e h | inr e ↦ rw e h ]

run_instruction-IsSafe : (m : Mvm) → m.pc < length m.memory → IsSafe (run_instruction m)
run_instruction-IsSafe m h =
    let (inst, e) = get_elem-in m.memory m.pc h in
    let r = execute inst (record m { pc = m.pc + 1 }) in
    let (pc, memory) = execute-Same inst (record m { pc = m.pc + 1 }) in
    let size = ap (λ (l : List ℕ). length l) memory in
    ((after_execute r.0, r.1), run_instruction_lem m inst h e, omega arith)

IsSafe-if :
    (b : Bool) {x y : Option (Place × Mvm)}
    → (b ≡ true → IsSafe x)
    → (b ≡ false → IsSafe y)
    → IsSafe (if b then x else y)
IsSafe-if true hx hy = hx refl
IsSafe-if false hx hy = hy refl

enter-IsSafe : (m : Mvm) → m.pc ≤ length m.memory → IsSafe (enter m)
unfolding enter
enter-IsSafe m h =
    let stay : IsSafe (some (at_top, m)) = ((at_top, m), refl, h) in
    let out : (m' : Mvm) → m'.pc ≤ length m'.memory → IsSafe (some (leave m')) =
      λ m' k. (leave m', refl, leave-IsInside m' k) in
    IsSafe-if (not m.is_running) (λ _. out m h)
      (λ _.
        IsSafe-if (not m.has_quota) (λ _. stay)
          (λ _.
            IsSafe-if (is_suspended m.state) (λ _. stay)
              (λ _.
                IsSafe-if (leb (length m.memory) m.pc)
                  (λ _. out (record m { registers = update m.registers 0 (u32_mod - 2) }) h)
                  (λ d. run_instruction-IsSafe m (leb→lt (length m.memory) m.pc d)))))

settle-IsSafe :
    (b : Bool) (m : Mvm)
    → (1 ≤ m.pc) × (m.pc ≤ length m.memory)
    → IsSafe (some (if b then (at_top, record m { pc = m.pc - 1 }) else leave m))
settle-IsSafe true m h = ((at_top, record m { pc = m.pc - 1 }), refl, omega arith)
settle-IsSafe false m h = (leave m, refl, leave-IsInside m h.1)

-- From a counter inside the program the thread always takes a step, and stays inside.
thread_step-IsSafe : (t : Place × Mvm) → IsInside t → IsSafe (thread_step t)
unfolding thread_step
thread_step-IsSafe (at_top, m) h = enter-IsSafe m h
thread_step-IsSafe (after_execute true, m) h = ((at_top, m), refl, h.1)
thread_step-IsSafe (after_execute false, m) h = settle-IsSafe (is_suspended m.state) m h
thread_step-IsSafe (left, m) h = ((left, m), refl, h)

-- A change by another thread that keeps the program and the counter.
other-IsInside : (w : Place) (m m' : Mvm) → Same m m' → IsInside (w, m) → IsInside (w, m')
other-IsInside at_top m m' (p, q) h = let l = ap (λ (l : List ℕ). length l) q in omega arith
other-IsInside (after_execute b) m m' (p, q) h =
    let l = ap (λ (l : List ℕ). length l) q in omega arith
other-IsInside left m m' (p, q) h = let l = ap (λ (l : List ℕ). length l) q in omega arith

-- The states of a loaded and started machine, whose thread takes steps while others deliver interrupts,
-- wake it, change its quota and stop it at any time.
pub data Reachable : Place × Mvm → Type 0 where
  by_start :
      (vm_id : ℕ) (code : List ℕ) → Reachable (at_top, start (load_program code (construct vm_id)))
  by_step : {t t' : Place × Mvm} → thread_step t ≡ some t' → Reachable t → Reachable t'
  by_interrupt :
      {w : Place} {m : Mvm} (is_timeout : Bool) (value : ℕ)
      → Reachable (w, m)
      → Reachable (w, handle_interrupt is_timeout value m)
  by_wakeup : {w : Place} {m : Mvm} → Reachable (w, m) → Reachable (w, on_wakeup m)
  by_grant : {w : Place} {m : Mvm} → Reachable (w, m) → Reachable (w, grant_quota m)
  by_revoke : {w : Place} {m : Mvm} → Reachable (w, m) → Reachable (w, revoke_quota m)
  by_stop : {w : Place} {m : Mvm} → Reachable (w, m) → Reachable (w, stop m)

on_wakeup-Same : (m : Mvm) → Same m (on_wakeup m)
unfolding on_wakeup
on_wakeup-Same m = ground arith

step-IsInside : (t t' : Place × Mvm) → thread_step t ≡ some t' → IsInside t → IsInside t'
step-IsInside t t' e h =
    let (u, f, i) = thread_step-IsSafe t h in let same : u ≡ t' = cc in subst IsInside same i

Reachable-IsInside : (t : Place × Mvm) → Reachable t → IsInside t
unfolding construct load_program start stop grant_quota revoke_quota
Reachable-IsInside _ (by_start vm_id code) = omega arith
Reachable-IsInside _ (by_step {t} {t'} e r) = step-IsInside t t' e (Reachable-IsInside t r)
Reachable-IsInside _ (by_interrupt {w} {m} b v r) =
    other-IsInside w m (handle_interrupt b v m) (handle_interrupt-Same b v m)
      (Reachable-IsInside (w, m) r)
Reachable-IsInside _ (by_wakeup {w} {m} r) =
    other-IsInside w m (on_wakeup m) (on_wakeup-Same m) (Reachable-IsInside (w, m) r)
Reachable-IsInside _ (by_grant {w} {m} r) =
    other-IsInside w m (grant_quota m) (refl, refl) (Reachable-IsInside (w, m) r)
Reachable-IsInside _ (by_revoke {w} {m} r) =
    other-IsInside w m (revoke_quota m) (refl, refl) (Reachable-IsInside (w, m) r)
Reachable-IsInside _ (by_stop {w} {m} r) =
    other-IsInside w m (stop m) (refl, refl) (Reachable-IsInside (w, m) r)

-- In every state of a loaded and started mVM, whose thread takes steps while others deliver
-- interrupts, wake it, change its quota and stop it at any time, the program counter is at most the
-- length of the program, and past its first word after an instruction; and the thread can take a
-- step, with no read past the program.
pub Reachable-IsSafe :
    (t : Place × Mvm) → Reachable t → IsInside t × ((t' : Place × Mvm) × (thread_step t ≡ some t'))
Reachable-IsSafe t r =
    let h = Reachable-IsInside t r in let (t', e, _) = thread_step-IsSafe t h in (h, (t', e))
