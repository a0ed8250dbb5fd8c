-- ===== src/Sched/Hybrid/Classes.antt =====
-- The two classes of `HybridScheduler` (src/vm/Scheduler/Hybrid_Scheduler.cpp): a machine is in one of
-- the two task maps, and a change of its priority moves it.
use my_vm_os.Base.{
  ℕ, ◌≡◌, ◌≢◌, refl, sym, ap, ◌∙◌, inl, inr, ◌⊎◌, Bool, true, false, not, ◌&&◌, Option, none, some,
  add64, if◌then◌else◌, Option-cases, Map, lookup, insert, erase, lookup-insert_self,
  lookup-insert_ne, lookup-erase_self, lookup-erase_ne, same_or_ne, ==_ne,
}
use my_vm_os.Base.Int.{ℤ}
use my_vm_os.Sched.DeadlineQueue.{EdfTask, top_vm}
use my_vm_os.Sched.Cfs.{CfsTask, default_weight}
use my_vm_os.Sched.Hybrid.{
  HybridScheduler, is_real_time, add_edf, add_cfs, drop_cfs, edf_to_cfs, cfs_to_edf,
  set_vm_priority, get_vm_vruntime, pick_edf_task, pick_next_task, default_deadline_ns,
  default_period_ns,
}

-- No machine has a task in both maps.
abbrev pub IsApart : Map EdfTask → Map CfsTask → Type 0
IsApart em cm = (k : ℕ) → (lookup k em ≡ none) ⊎ (lookup k cm ≡ none)

abbrev pub IsSplit : HybridScheduler → Type 0
IsSplit s = IsApart s.edf_task_map s.cfs_task_map

-- The virtual runtime of a machine by the two maps.
abbrev vruntime_of : Option EdfTask → Option CfsTask → ℕ
vruntime_of e c = elim e [ some t ↦ t.vruntime | none ↦ elim c [ none ↦ 0 | some t ↦ t.vruntime ] ]

abbrev vruntime_in : Map EdfTask → Map CfsTask → ℕ → ℕ
vruntime_in em cm k = vruntime_of (lookup k em) (lookup k cm)

-- A move between the maps that keeps the virtual runtime of the machine keeps everyone's, and keeps
-- the maps apart.
module _ (em : Map EdfTask) (cm : Map CfsTask) (k : ℕ) (e : EdfTask) (c : CfsTask)
    (same : e.vruntime ≡ c.vruntime) (h : IsApart em cm) where
  to_cfs-IsApart : IsApart (erase k em) (insert k c cm)
  to_cfs-IsApart j = elim (same_or_ne k j) [
    | inl p ↦ inl (let self = lookup-erase_self k em in cc)
    | inr n ↦ elim (h j) [
      | inl a ↦ inl (lookup-erase_ne k j em n ∙ a)
      | inr b ↦ inr (lookup-insert_ne k j c cm n ∙ b)
    ]
  ]

  to_edf-IsApart : IsApart (insert k e em) (erase k cm)
  to_edf-IsApart j = elim (same_or_ne k j) [
    | inl p ↦ inr (let self = lookup-erase_self k cm in cc)
    | inr n ↦ elim (h j) [
      | inl a ↦ inl (lookup-insert_ne k j e em n ∙ a)
      | inr b ↦ inr (lookup-erase_ne k j cm n ∙ b)
    ]
  ]

  to_cfs-vruntime :
      lookup k em ≡ some e
      → (j : ℕ) → vruntime_in (erase k em) (insert k c cm) j ≡ vruntime_in em cm j
  to_cfs-vruntime l j = elim (same_or_ne k j) [
    | inl p ↦
        let gone : lookup j (erase k em) ≡ none = let self = lookup-erase_self k em in cc in
        let here : lookup j (insert k c cm) ≡ some c = let self = lookup-insert_self k c cm in cc in
        let was : lookup j em ≡ some e = cc in rw (gone, here, was, vruntime_in) (sym same)
    | inr n ↦ (λ i. vruntime_of (lookup-erase_ne k j em n i) (lookup-insert_ne k j c cm n i))
  ]

  to_edf-vruntime :
      lookup k cm ≡ some c
      → (j : ℕ) → vruntime_in (insert k e em) (erase k cm) j ≡ vruntime_in em cm j
  to_edf-vruntime l j = elim (same_or_ne k j) [
    | inl p ↦
        let here : lookup j (insert k e em) ≡ some e = let self = lookup-insert_self k e em in cc in
        let was : lookup j cm ≡ some c = cc in
        elim (h j) [ inl a ↦ rw (here, a, was, vruntime_in) same | inr b ↦ cc ]
    | inr n ↦ (λ i. vruntime_of (lookup-insert_ne k j e em n i) (lookup-erase_ne k j cm n i))
  ]

edf_to_cfs_lem :
    (s : HybridScheduler) (k : ℕ)
    → IsSplit s
    → IsSplit (edf_to_cfs k s)
      × ((j : ℕ) → get_vm_vruntime j (edf_to_cfs k s) ≡ get_vm_vruntime j s)
unfolding edf_to_cfs add_cfs get_vm_vruntime
edf_to_cfs_lem s k h = elim (Option-cases (lookup k s.edf_task_map)) [
  | inl e ↦ rw (e, edf_to_cfs) ((h, λ j. refl))
  | inr (t, e) ↦
      rw (e, edf_to_cfs)
        (let c : CfsTask = record { vm_id = k; vruntime = t.vruntime; weight = default_weight } in
          (
            to_cfs-IsApart s.edf_task_map s.cfs_task_map k t c refl h,
            to_cfs-vruntime s.edf_task_map s.cfs_task_map k t c refl h e,
          ))
]

cfs_to_edf_lem :
    (s : HybridScheduler) (now k : ℕ) (p : ℤ)
    → IsSplit s
    → IsSplit (cfs_to_edf now k p s)
      × ((j : ℕ) → get_vm_vruntime j (cfs_to_edf now k p s) ≡ get_vm_vruntime j s)
unfolding cfs_to_edf add_edf drop_cfs get_vm_vruntime
cfs_to_edf_lem s now k p h = elim (Option-cases (lookup k s.cfs_task_map)) [
  | inl e ↦ rw (e, cfs_to_edf) ((h, λ j. refl))
  | inr (t, e) ↦
      rw (e, cfs_to_edf)
        (let d : EdfTask = record {
          vm_id = k;
          deadline_ns = add64 now default_deadline_ns;
          period_ns = default_period_ns;
          vruntime = t.vruntime;
          priority = p;
        } in
          (
            to_edf-IsApart s.edf_task_map s.cfs_task_map k d t refl h,
            to_edf-vruntime s.edf_task_map s.cfs_task_map k d t refl h e,
          ))
]

-- Where no machine is in both task maps of HybridScheduler, set_vm_priority keeps it so and keeps
-- every machine's virtual runtime, whichever way it moves the machine.
pub set_vm_priority_lem :
    (s : HybridScheduler) (now k : ℕ) (p : ℤ)
    → IsSplit s
    → IsSplit (set_vm_priority now k p s)
      × ((j : ℕ) → get_vm_vruntime j (set_vm_priority now k p s) ≡ get_vm_vruntime j s)
unfolding set_vm_priority get_vm_vruntime
set_vm_priority_lem s now k p h = elim (Option-cases (lookup k s.vm_priorities)) [
  | inl e ↦ rw (e, set_vm_priority) ((h, λ j. refl))
  | inr (old, e) ↦
      let s' : HybridScheduler = record s { vm_priorities = insert k p s.vm_priorities } in
      rw (e, set_vm_priority) (moved (is_real_time old) (is_real_time p) s' h)
]
  where
    moved :
        (was is : Bool) (s' : HybridScheduler)
        → IsSplit s'
        → let r =
            (if was && not is
              then edf_to_cfs k s'
              else if not was && is
              then cfs_to_edf now k p s'
              else s') in
          IsSplit r × ((j : ℕ) → get_vm_vruntime j r ≡ get_vm_vruntime j s')
    moved true true s' h = (h, λ j. refl)
    moved true false s' h = edf_to_cfs_lem s' k h
    moved false true s' h = cfs_to_edf_lem s' now k p h
    moved false false s' h = (h, λ j. refl)

pick_edf_first : (s : HybridScheduler) → pick_edf_task s ≢ 0 → pick_next_task s ≡ pick_edf_task s
unfolding pick_next_task
pick_edf_first s n = rw (==_ne (pick_edf_task s) 0 n, pick_next_task) refl

edf_to_cfs-edf_queue : (s : HybridScheduler) (k : ℕ) → (edf_to_cfs k s).edf_queue ≡ s.edf_queue
unfolding edf_to_cfs add_cfs
edf_to_cfs-edf_queue s k = elim (Option-cases (lookup k s.edf_task_map)) [
  | inl e ↦ rw (e, edf_to_cfs) refl
  | inr (t, e) ↦ rw (e, edf_to_cfs) refl
]

-- When a machine leaves the real-time class of HybridScheduler while the queue of deadlines picks a
-- machine, the same machine is picked after the change as before it.
pub pick_next_task-set_vm_priority :
    (s : HybridScheduler) (now k : ℕ) (p old : ℤ)
    → lookup k s.vm_priorities ≡ some old
    → is_real_time old ≡ true
    → is_real_time p ≡ false
    → pick_edf_task s ≢ 0
    → pick_next_task (set_vm_priority now k p s) ≡ pick_next_task s
unfolding set_vm_priority pick_edf_task
pick_next_task-set_vm_priority s now k p old e r q n =
    let s' : HybridScheduler = record s { vm_priorities = insert k p s.vm_priorities } in
    let queue : (set_vm_priority now k p s).edf_queue ≡ s.edf_queue =
      rw (e, set_vm_priority) (rw (r, q) (edf_to_cfs-edf_queue s' k)) in
    let top = ap top_vm queue in
    pick_edf_first (set_vm_priority now k p s) (λ z. n (sym top ∙ z))
    ∙ top
    ∙ sym (pick_edf_first s n)
