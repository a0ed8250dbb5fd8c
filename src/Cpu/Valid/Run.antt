-- ===== src/Cpu/Valid/Run.antt =====
-- `execute_instruction`, `execute_basic_block` and `run_loop` (src/vm/X86CPU.cpp) keep the state
-- well-formed.
use my_vm_os.Base.{
  ℕ, zero, suc, ◌+◌, Bool, true, false, not, ◌&&◌, ◌||◌, List, [], ◌∷◌, Option, none, some, ◌==◌,
  ltb, if◌then◌else◌, add64,
}
use my_vm_os.Cpu.Flag.{intf}
use my_vm_os.Cpu.Block.{Instruction, BasicBlock, is_branch}
use my_vm_os.Cpu.State.{Cpu, get_rip, set_rip, get_flag, is_running_state, start}
use my_vm_os.Cpu.Machine.{◌>>=◌, done}
use my_vm_os.Cpu.Decode.{int_max}
use my_vm_os.Cpu.Run.{
  run_block, execute_basic_block, current_block, deliver_interrupt, count_block, single_step,
  step_block, execute_instruction, run_rounds, run_loop,
}
use my_vm_os.Cpu.Valid.{
  IsValid, Keeps, After, After-if, Any, Keeps-if, Keeps-bind, Keeps-seq, Keeps-done, Keeps-gets,
  Keeps-modify,
}
use my_vm_os.Cpu.Valid.Basic.{set_rip-IsValid, add64-lt, IsValid-if}
use my_vm_os.Cpu.Valid.Control.{trigger_interrupt-Keeps, rip-Keeps}
use my_vm_os.Cpu.Valid.Step.{decode_and_execute-Keeps}

undefined-Keeps : Keeps {A = ℕ} Any (λ c. none)
unfolding After
undefined-Keeps = record { at = λ c v. tt }

run_block-Keeps : (t : Bool) (l : List Instruction) (n : ℕ) → Keeps Any (run_block t l n)
unfolding run_block
run_block-Keeps t [] n = Keeps-done n tt
run_block-Keeps t (insn ∷ rest) n =
    let next : Keeps Any (run_block t rest (n + 1)) = run_block-Keeps t rest (n + 1) in
    let moved : (len : ℕ)
        → Keeps Any (λ c. run_block t rest (n + 1) (set_rip (add64 (get_rip c) len) c)) =
      λ len. record {
        at = λ c v.
            next.at (set_rip (add64 (get_rip c) len) c) (set_rip-IsValid _ c (add64-lt _ _) v);
      } in
    let body = Keeps-bind decode_and_execute-Keeps λ len h.
      Keeps-if (len == 0) (Keeps-done {Q = Any} n tt) (
        Keeps-if (ltb n int_max)
          (Keeps-if (not (is_branch insn.mnemonic)) (moved len)
            (Keeps-if t (Keeps-done {Q = Any} (n + 1) tt) next))
          undefined-Keeps) in
    record {
      at = λ c v.
          After-if _ (get_rip c == insn.address) _ _ (body.at c v)
            ((Keeps-done {Q = Any} n tt).at c v);
    }

execute_basic_block-Keeps : Keeps Any execute_basic_block
unfolding execute_basic_block
execute_basic_block-Keeps = record { at = λ c v. inside (current_block c) c v }
  where
    inside :
        (b : Option BasicBlock) (c : Cpu)
        → IsValid c
        → After {A = Option ℕ} Any (elim b [
          | none ↦ done none c
          | some block ↦
              (run_block block.is_terminated block.instructions 0 >>= λ n. done (some n)) c
        ])
    inside none c v = (Keeps-done {Q = Any} none tt).at c v
    inside (some block) c v =
        (Keeps-bind (run_block-Keeps block.is_terminated block.instructions 0)
            (λ n _. Keeps-done {Q = Any} (some n) tt)).at
          c v

serve-IsValid : (c : Cpu) → IsValid c → IsValid (record c { interrupt_pending = false })
serve-IsValid c v = record {
  words = v.words;
  bytes = v.bytes;
  size = v.size;
  vector = v.vector;
  entry = v.entry;
  stack = v.stack;
  instructions = v.instructions;
  cycles = v.cycles;
  live = v.live;
}

deliver_interrupt-Keeps : Keeps Any deliver_interrupt
unfolding deliver_interrupt
deliver_interrupt-Keeps = record {
  at = λ c v.
      After-if _ (c.interrupt_pending && get_flag intf c) _ _
        ((Keeps-seq (trigger_interrupt-Keeps c.pending_interrupt_vector)
            (Keeps-modify _ serve-IsValid)).at
          c v)
        ((Keeps-done {Q = Any} tt tt).at c v);
}

counted-IsValid :
    (n k : ℕ) (c : Cpu)
    → IsValid c
    → IsValid (record c {
      total_instructions = add64 c.total_instructions n;
      total_cycles = add64 c.total_cycles k;
    })
counted-IsValid n k c v = record {
  words = v.words;
  bytes = v.bytes;
  size = v.size;
  vector = v.vector;
  entry = v.entry;
  stack = v.stack;
  instructions = add64-lt _ _;
  cycles = add64-lt _ _;
  live = v.live;
}

single_step-Keeps : Keeps Any single_step
unfolding single_step
single_step-Keeps = Keeps-bind rip-Keeps λ old_rip _. Keeps-bind decode_and_execute-Keeps λ len _.
    Keeps-if (len == 0) (Keeps-done {Q = Any} false tt) (
      Keeps-seq
        (Keeps-modify _ (λ c v.
          let c' : Cpu = record c {
            total_instructions = add64 c.total_instructions 1;
            total_cycles = add64 c.total_cycles len;
          } in
          let v' : IsValid c' = counted-IsValid 1 len c v in
          IsValid-if (get_rip c == old_rip) (set_rip (add64 (get_rip c') len) c') c'
            (set_rip-IsValid _ c' (add64-lt _ _) v') v'))
        (Keeps-done {Q = Any} true tt))

step_block-Keeps : (r : Option ℕ) → Keeps Any (step_block r)
unfolding step_block count_block
step_block-Keeps none = single_step-Keeps
step_block-Keeps (some n) =
    Keeps-if (ltb 0 n)
      (Keeps-seq (Keeps-modify _ (counted-IsValid n n)) (Keeps-done {Q = Any} true tt))
      single_step-Keeps

-- `execute_instruction` keeps the machine well-formed, whether it delivers an interrupt, runs a basic
-- block or a single instruction, or refuses because the machine does not run.
pub execute_instruction-Keeps : Keeps Any execute_instruction
unfolding execute_instruction
execute_instruction-Keeps = record {
  at = λ c v.
      After-if _ (not c.is_running || not (is_running_state c.state)) _ _
        ((Keeps-done {Q = Any} false tt).at c v)
        ((Keeps-seq deliver_interrupt-Keeps
            (Keeps-bind execute_basic_block-Keeps (λ r _. step_block-Keeps r))).at
          c v);
}

run_rounds-Keeps : (fuel : ℕ) → Keeps Any (run_rounds fuel)
unfolding run_rounds
run_rounds-Keeps zero = Keeps-done false tt
run_rounds-Keeps (suc fuel) =
    let round = Keeps-bind execute_instruction-Keeps λ executed _.
      Keeps-bind {P = Any} (Keeps-gets (λ c. is_running_state c.state) (λ c v. tt)) λ going _.
        Keeps-if (not executed || not going) (Keeps-done {Q = Any} true tt)
          (run_rounds-Keeps fuel) in
    record {
      at = λ c v.
          After-if _ (c.is_running && is_running_state c.state) _ _ (round.at c v)
            ((Keeps-done {Q = Any} true tt).at c v);
    }

pub started-IsValid : (c : Cpu) → IsValid c → IsValid (start c)
unfolding start
started-IsValid c v = IsValid-if (is_running_state c.state) _ _ v record {
  words = v.words;
  bytes = v.bytes;
  size = v.size;
  vector = v.vector;
  entry = v.entry;
  stack = v.stack;
  instructions = v.instructions;
  cycles = v.cycles;
  live = λ _. tt;
}

-- However many rounds `run_loop` runs, it takes a well-formed machine to a well-formed machine, unless
-- an instruction makes an undefined access.
pub run_loop-Keeps : (fuel : ℕ) → Keeps Any (run_loop fuel)
unfolding run_loop
run_loop-Keeps fuel = record {
  at = λ c v.
      (run_rounds-Keeps fuel).at (if c.is_running then c else start c)
        (IsValid-if c.is_running c (start c) v (started-IsValid c v));
}
