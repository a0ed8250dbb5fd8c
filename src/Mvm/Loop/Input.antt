-- ===== src/Mvm/Loop/Input.antt =====
-- The INPUT instruction of `mVM` (src/vm/mVM.cpp) and the interrupt that answers it.
use my_vm_os.Base.{
  ℕ, ◌+◌, ◌-◌, ◌%◌, ◌<◌, ◌≡◌, refl, ◌∙◌, ap, Bool, true, false, not, some, List, [], ◌∷◌, ltb,
  if◌then◌else◌, length, get_elem?, arith, lt→leb, Bool-cases, inl, inr,
}
use my_vm_os.Base.Int.{ℤ, pos, negsuc}
use my_vm_os.Sched.Vm.{running, suspended_waiting_interrupt, terminated}
use my_vm_os.Mvm.{
  Mvm, Request, execute, handle_interrupt, suspend, send_interrupt_request, store_result,
  is_suspended, decode_operand1, num_registers,
}
use my_vm_os.Mvm.Loop.{at_top, after_execute, left, leave, enter, thread_step, serve}
use my_vm_os.Mvm.Loop.Safety.{run_instruction_lem}

-- A machine that runs, has a quota, and stands at an INPUT instruction.
pub record AtInput (inst : ℕ) (m : Mvm) : Type 0 where
  pub runs : m.is_running ≡ true
  pub quota : m.has_quota ≡ true
  pub awake : m.state ≡ running
  pub inside : m.pc < length m.memory
  pub word : get_elem? m.memory m.pc ≡ some inst
  pub input : inst % 256 ≡ 2

-- The machine that waits for the answer.
abbrev waiting : ℕ → Mvm → Mvm
waiting inst m = record m {
  pc = m.pc + 1;
  pending_input_reg = pos (decode_operand1 inst);
  state = suspended_waiting_interrupt;
  sent = record { periph_id = 3; timeout_ms = 2000 } ∷ m.sent;
}

execute-input :
    (inst : ℕ) (m : Mvm)
    → inst % 256 ≡ 2
    → execute inst (record m { pc = m.pc + 1 }) ≡ (false, waiting inst m)
unfolding execute suspend send_interrupt_request
execute-input inst m h = rw h refl

if_false : {A : Type 0} {b : Bool} (x y : A) → b ≡ false → (if b then x else y) ≡ y
if_false x y e = rw e refl

thread_step-input :
    (inst : ℕ) (m : Mvm)
    → AtInput inst m
    → thread_step (at_top, m) ≡ some (after_execute false, waiting inst m)
unfolding thread_step enter is_suspended
thread_step-input inst m h =
    let e = execute-input inst m h.input in
    if_false _ _ (ap not h.runs)
    ∙ if_false _ _ (ap not h.quota)
    ∙ if_false _ _ (ap is_suspended h.awake)
    ∙ if_false _ _ (lt→leb (length m.memory) m.pc h.inside)
    ∙ run_instruction_lem m inst h.inside h.word
    ∙ (λ i. some (after_execute (e i).0, (e i).1))

-- The thread takes the counter back to the instruction.
retried :
    (inst : ℕ) (m : Mvm)
    → thread_step (after_execute false, waiting inst m)
      ≡ some (at_top, record (waiting inst m) { pc = m.pc })
unfolding thread_step is_suspended
retried inst m = let back : m.pc + 1 - 1 ≡ m.pc = omega arith in rw back refl

-- The machine after the answer.
abbrev answered : ℕ → ℕ → Mvm → Mvm
answered inst value m = handle_interrupt false value (record (waiting inst m) { pc = m.pc })

-- What an answer leaves of the machine.
record IsSame (m m' : Mvm) : Type 0 where
  runs : m'.is_running ≡ m.is_running
  quota : m'.has_quota ≡ m.has_quota
  pc : m'.pc ≡ m.pc
  memory : m'.memory ≡ m.memory
  sent : m'.sent ≡ m.sent

store_result-IsSame : (r : ℤ) (value : ℕ) (m : Mvm) → IsSame m (store_result r value m)
unfolding store_result
store_result-IsSame (pos r) value m = elim (Bool-cases (ltb r num_registers)) [
  | inl e ↦ rw e (record { runs = refl; quota = refl; pc = refl; memory = refl; sent = refl })
  | inr e ↦ rw e (record { runs = refl; quota = refl; pc = refl; memory = refl; sent = refl })
]
store_result-IsSame (negsuc n) value m = record {
  runs = refl;
  quota = refl;
  pc = refl;
  memory = refl;
  sent = refl;
}

answered-IsSame :
    (inst value : ℕ) (m : Mvm)
    → IsSame (record (waiting inst m) { pc = m.pc }) (answered inst value m)
unfolding handle_interrupt
answered-IsSame inst value m =
    let k =
      store_result-IsSame (pos (decode_operand1 inst)) value
        (record (waiting inst m) { pc = m.pc }) in
    record { runs = k.runs; quota = k.quota; pc = k.pc; memory = k.memory; sent = k.sent }

handle_interrupt-awake : (value : ℕ) (m : Mvm) → (handle_interrupt false value m).state ≡ running
unfolding handle_interrupt
handle_interrupt-awake value m = refl

-- However many answers an mVM at an INPUT instruction gets, each after the two steps in which its
-- thread suspends, its rounds succeed, it stands at the same INPUT instruction again, and it has
-- sent one more request for every answer.
pub serve-input :
    (values : List ℕ) (inst : ℕ) (m : Mvm)
    → AtInput inst m
    → (m' : Mvm) × (serve values m ≡ some m')
      × (m'.pc ≡ m.pc)
      × AtInput inst m'
      × (length m'.sent ≡ length m.sent + length values)
unfolding serve
serve-input [] inst m h = (m, refl, refl, h, omega arith)
serve-input (value ∷ values) inst m h =
    let a = answered-IsSame inst value m in
    let again : AtInput inst (answered inst value m) = record {
      runs = a.runs ∙ h.runs;
      quota = a.quota ∙ h.quota;
      awake = handle_interrupt-awake value (record (waiting inst m) { pc = m.pc });
      inside =
          let l = ap (λ (l : List ℕ). length l) (a.memory) in
          let p = a.pc in let i = h.inside in omega arith;
      word = (λ i. get_elem? (a.memory i) (a.pc i)) ∙ h.word;
      input = h.input;
    } in
    let (m', run, pc, at, sent) = serve-input values inst (answered inst value m) again in
    let counted = ap (λ (l : List Request). length l) a.sent in
    (
      m',
      rw (thread_step-input inst m h, serve) (rw (retried inst m) run),
      pc ∙ a.pc,
      at,
      omega arith,
    )

-- Where the answer to INPUT comes after the instruction and before the thread has tested the state,
-- the thread leaves its loop and the mVM is TERMINATED.
pub thread_step-interrupted :
    (inst value : ℕ) (m : Mvm)
    → AtInput inst m
    → (m1 m2 : Mvm) × (thread_step (at_top, m) ≡ some (after_execute false, m1))
      × (thread_step (after_execute false, handle_interrupt false value m1) ≡ some (left, m2))
      × (m2.state ≡ terminated)
unfolding thread_step leave is_suspended handle_interrupt
thread_step-interrupted inst value m h = (
  waiting inst m,
  record (handle_interrupt false value (waiting inst m)) { state = terminated },
  thread_step-input inst m h,
  refl,
  refl,
)
