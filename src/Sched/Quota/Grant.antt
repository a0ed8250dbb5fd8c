-- ===== src/Sched/Quota/Grant.antt =====
-- Registration and the grants of `QuotaScheduler` (src/vm/Scheduler/QuotaScheduler.cpp).
use my_vm_os.Base.{
  ℕ, ◌≡◌, refl, sym, ◌∙◌, inl, inr, true, List, [], ◌∷◌, some, Bool-cases, Option-cases, Map,
  lookup, lookup-insert_self, lookup-insert_ne, same_or_ne, IsIn, ap,
}
use my_vm_os.Base.Int.{pos}
use my_vm_os.Sched.Vm.{Vm, Heap, get_vm, set_ctx, get_vm_found, get_vm-some}
use my_vm_os.Sched.OrderedSet.{has_key}
use my_vm_os.Sched.OrderedSet.Laws.{insert_key_same}
use my_vm_os.Sched.Quota.{
  ScheduleTask, before, QuotaScheduler, enqueue, register_vm, has_quota, may_run, grant, grant_all,
  allocate_quotas,
}

-- While a task of priority 0 and virtual runtime 0 waits in the ready queue of QuotaScheduler, the
-- registration of another machine leaves the queue as it is.
pub register_vm-ready_queue :
    (s : QuotaScheduler) (k vm : ℕ)
    → has_key before (record { vm_id = k; priority = pos 0; vruntime = 0 }) s.ready_queue ≡ true
    → (register_vm k vm s).ready_queue ≡ s.ready_queue
unfolding register_vm enqueue
register_vm-ready_queue s k vm h = insert_key_same before _ s.ready_queue h

-- The machine that stood at an address still stands there, in its state and with its quota.
record IsKept (heap : Heap) (p : ℕ) (vm : Vm) : Type 0 where
  after : Vm
  found : lookup p heap ≡ some after
  state : after.state ≡ vm.state
  kept : vm.sched_ctx.has_quota ≡ true → after.sched_ctx.has_quota ≡ true

IsKept-self : (heap : Heap) (p : ℕ) (vm : Vm) → lookup p heap ≡ some vm → IsKept heap p vm
IsKept-self heap p vm e = record { after = vm; found = e; state = refl; kept = λ h. h }

IsKept-set :
    (heap : Heap) (p p' : ℕ) (vm vm' : Vm)
    → lookup p heap ≡ some vm
    → lookup p' heap ≡ some vm'
    → IsKept (set_ctx (p', vm') (record (vm'.sched_ctx) { has_quota = true }) heap) p vm
unfolding set_ctx
IsKept-set heap p p' vm vm' e e' =
    let new : Vm = record vm' { sched_ctx = record (vm'.sched_ctx) { has_quota = true } } in
    let self = lookup-insert_self p' new heap in
    elim (same_or_ne p' p) [
      | inl q ↦ record {
        after = new;
        found = cc;
        state = let same : vm ≡ vm' = cc in ap (λ (v : Vm). v.state) (sym same);
        kept = λ h. refl;
      }
      | inr n ↦ IsKept-self _ p vm (lookup-insert_ne p' p new heap n ∙ e)
    ]

grant-IsKept :
    (vm_refs : Map ℕ) (t : ScheduleTask) (heap : Heap) (p : ℕ) (vm : Vm)
    → lookup p heap ≡ some vm
    → IsKept (grant vm_refs t heap) p vm
unfolding grant
grant-IsKept vm_refs t heap p vm e = elim (Option-cases (get_vm vm_refs heap t.vm_id)) [
  | inl g ↦ rw (g, grant) (IsKept-self heap p vm e)
  | inr ((p', vm'), g) ↦
      rw (g, grant)
        (elim (Bool-cases (may_run vm'.state)) [
          | inl r ↦ rw r (IsKept-set heap p p' vm vm' e (get_vm_found vm_refs heap t.vm_id g).1)
          | inr r ↦ rw r (IsKept-self heap p vm e)
        ])
]

grant_all-IsKept :
    (vm_refs : Map ℕ) (q : List ScheduleTask) (heap : Heap) (p : ℕ) (vm : Vm)
    → lookup p heap ≡ some vm
    → IsKept (grant_all vm_refs q heap) p vm
unfolding grant_all
grant_all-IsKept vm_refs [] heap p vm e = IsKept-self heap p vm e
grant_all-IsKept vm_refs (t ∷ q) heap p vm e =
    let one = grant-IsKept vm_refs t heap p vm e in
    let rest = grant_all-IsKept vm_refs q (grant vm_refs t heap) p one.after one.found in
    record {
      after = rest.after;
      found = rest.found;
      state = rest.state ∙ one.state;
      kept = λ h. rest.kept (one.kept h);
    }

-- A runnable machine gets its quota from its own entry.
grant_lem :
    (vm_refs : Map ℕ) (t : ScheduleTask) (heap : Heap) (p : ℕ) (vm : Vm)
    → get_vm vm_refs heap t.vm_id ≡ some (p, vm)
    → may_run vm.state ≡ true
    → lookup p (grant vm_refs t heap)
      ≡ some (record vm { sched_ctx = record (vm.sched_ctx) { has_quota = true } })
unfolding grant set_ctx
grant_lem vm_refs t heap p vm g r = rw (g, grant) (rw r (lookup-insert_self p _ heap))

grant_all_lem :
    (vm_refs : Map ℕ) (q : List ScheduleTask) (heap : Heap) (t : ScheduleTask) (p : ℕ) (vm : Vm)
    → IsIn t q
    → lookup t.vm_id vm_refs ≡ some p
    → lookup p heap ≡ some vm
    → may_run vm.state ≡ true
    → (vm' : Vm) × (lookup p (grant_all vm_refs q heap) ≡ some vm')
      × (vm'.sched_ctx.has_quota ≡ true)
unfolding grant_all
grant_all_lem vm_refs [] heap t p vm m g e r = elim m [ ]
grant_all_lem vm_refs (u ∷ q) heap t p vm (inl same) g e r =
    let one =
      grant_lem vm_refs u heap p vm
        (get_vm-some vm_refs heap u.vm_id
          (ap (λ (x : ScheduleTask). lookup x.vm_id vm_refs) same ∙ g) e)
        r in
    let rest = grant_all-IsKept vm_refs q (grant vm_refs u heap) p _ one in
    (rest.after, rest.found, rest.kept refl)
grant_all_lem vm_refs (u ∷ q) heap t p vm (inr later) g e r =
    let one = grant-IsKept vm_refs u heap p vm e in
    grant_all_lem vm_refs q (grant vm_refs u heap) t p one.after later g one.found
      (ap may_run one.state ∙ r)

-- After allocate_quotas of QuotaScheduler, every machine of the ready queue that is alive and
-- created or running has a quota.
pub has_quota-allocate_quotas :
    (s : QuotaScheduler) (heap : Heap) (t : ScheduleTask) (p : ℕ) (vm : Vm)
    → IsIn t s.ready_queue
    → get_vm s.vm_refs heap t.vm_id ≡ some (p, vm)
    → may_run vm.state ≡ true
    → has_quota t.vm_id (s, allocate_quotas s heap) ≡ true
unfolding has_quota allocate_quotas get_vm
has_quota-allocate_quotas s heap t p vm m g r =
    let (g', e) = get_vm_found s.vm_refs heap t.vm_id g in
    let (vm', found, quota) = grant_all_lem s.vm_refs s.ready_queue heap t p vm m g' e r in
    rw (get_vm-some s.vm_refs (grant_all s.vm_refs s.ready_queue heap) t.vm_id g' found, has_quota)
      quota
