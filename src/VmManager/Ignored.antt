-- ===== src/VmManager/Ignored.antt =====
-- The first machine of `createX86VM`, and the request that it sends (src/vm/VmManager.cpp,
-- include/vm/baseVM.h).
use my_vm_os.Base.{ℕ, ◌≡◌, refl, inl, inr, [], some, lookup, insert, lookup-insert_self}
use my_vm_os.Base.Int.{ℤ, pos}
use my_vm_os.Message.{interrupt_message, module_vm_manager, new_message, set_payload, type_code}
use my_vm_os.Sched.Vm.{Vm}
use my_vm_os.Sched.Manager.{Outcome-cases}
use my_vm_os.Sched.Manager
use my_vm_os.VmManager.{
  System, State, construct, create_x86_vm, register_vm, on_interrupt_request,
  handle_vm_interrupt_request,
}

module _ {V : Type 0} where
  register_vm-vms :
      (now vm_id p : ℕ) (s : System V)
      → (register_vm now (some (vm_id, p)) s).manager.vms ≡ insert vm_id p s.manager.vms
  unfolding register_vm
  register_vm-vms now vm_id p s =
      elim (Outcome-cases (Manager.register_vm now vm_id p s.scheduler)) [
        | inl (m, e) ↦ rw (e, register_vm) refl
        | inr (m, e) ↦ rw (e, register_vm) refl
      ]

  -- The first machine that createX86VM of a new VmManager makes has the id 1 and is registered, and
  -- the interrupt request that a machine of that id sends is ignored in every state.
  pub create_x86_vm-ignored :
      (now p : ℕ) (base : Vm) (own : V) (s : System V) (later : ℕ) (periph_id ms : ℤ) (x : State V)
      → let made = create_x86_vm now p base own (record s { manager = construct }) in
        (made.0 ≡ pos module_vm_manager)
        × (lookup module_vm_manager made.1.manager.vms ≡ some p)
        × (handle_vm_interrupt_request later (interrupt_message module_vm_manager periph_id ms) x
            ≡ x)
  unfolding construct create_x86_vm on_interrupt_request handle_vm_interrupt_request
      interrupt_message new_message set_payload type_code
  create_x86_vm-ignored now p base own s later periph_id ms x = (
    refl,
    rw (register_vm-vms now module_vm_manager p _) (lookup-insert_self module_vm_manager p []),
    refl,
  )
