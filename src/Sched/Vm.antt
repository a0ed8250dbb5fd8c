-- ===== src/Sched/Vm.antt =====
-- The virtual machines that a scheduler sees: `VMState` and `VMScheduleCtx` of include/vm/baseVM.h,
-- on a heap. A `weak_ptr` is an address; it locks only while an object stands there.
use my_vm_os.Base.{ℕ, ◌≡◌, refl, Bool, Option, none, some, Map, lookup, insert, arith}
use my_vm_os.Base.Int.{ℤ}

pub data VmState : Type 0 where
  created running suspended_waiting_interrupt terminated : VmState

pub record VmScheduleCtx : Type 0 where
  pub priority : ℤ
  pub has_quota : Bool
  pub vruntime : ℕ
  pub blocked_reason : ℤ

pub record Vm : Type 0 where
  pub state : VmState
  pub sched_ctx : VmScheduleCtx

abbrev pub Heap : Type 0
Heap = Map Vm

-- `get_vm`: the address under the id, if the object is still there.
unfoldable pub get_vm : Map ℕ → Heap → ℕ → Option (ℕ × Vm)
get_vm vm_refs heap vm_id = elim (lookup vm_id vm_refs) [
  | none ↦ none
  | some p ↦ elim (lookup p heap) [ none ↦ none | some vm ↦ some (p, vm) ]
]

-- `vm->mutable_sched_ctx() = ...`
unfoldable pub set_ctx : ℕ × Vm → VmScheduleCtx → Heap → Heap
set_ctx (p, vm) ctx heap = insert p (record vm { sched_ctx = ctx }) heap

pub get_vm_found :
    (vm_refs : Map ℕ) (heap : Heap) (k : ℕ) {p : ℕ} {vm : Vm}
    → get_vm vm_refs heap k ≡ some (p, vm)
    → (lookup k vm_refs ≡ some p) × (lookup p heap ≡ some vm)
unfolding get_vm
get_vm_found vm_refs heap k {p} {vm} e = ground arith

pub get_vm-some :
    (vm_refs : Map ℕ) (heap : Heap) (k : ℕ) {p : ℕ} {vm : Vm}
    → lookup k vm_refs ≡ some p
    → lookup p heap ≡ some vm
    → get_vm vm_refs heap k ≡ some (p, vm)
unfolding get_vm
get_vm-some vm_refs heap k h e = rw (h, get_vm) (rw e refl)
