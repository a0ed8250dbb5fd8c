-- ===== src/Sched/Edf/Served.antt =====
-- The queue of `EDFScheduler` (src/vm/Scheduler/EDF_Scheduler.cpp) against its map of tasks.
use my_vm_os.Base.{
  ℕ, ◌≡◌, ◌≢◌, ◌⊎◌, refl, sym, ap, subst, ◌∙◌, inl, inr, List, [], ◌∷◌, Option, none, some, ltb,
  ◌==◌, arith, All, All-map, Bool-cases, same_or_ne, Map, lookup, insert, erase, lookup-insert_self,
  lookup-insert_ne, lookup-erase_self, lookup-erase_ne, if_both,
}
use my_vm_os.Sched.DeadlineQueue.{EdfTask, push_task, rebuild}
use my_vm_os.Sched.DeadlineQueue.Laws.{All-push_task}

-- An entry of the machine with the deadline.
abbrev pub HasEntry : ℕ → ℕ → List EdfTask → Type 0
HasEntry k d [] = ⊥
HasEntry k d (u ∷ q) = ((u.vm_id ≡ k) × (u.deadline_ns ≡ d)) ⊎ HasEntry k d q

abbrev pub deadline_of : Option EdfTask → ℕ
deadline_of none = 0
deadline_of (some t) = t.deadline_ns

abbrev pub AllKnown : Map EdfTask → List EdfTask → Type 0
AllKnown m q = All (λ u. lookup u.vm_id m ≢ none) q

-- Every entry is of a registered machine, and each of these has an entry with its deadline.
pub record IsServed (m : Map EdfTask) (q : List EdfTask) : Type 0 where
  pub known : AllKnown m q
  pub queued : (k : ℕ) (t : EdfTask) → lookup k m ≡ some t → HasEntry k t.deadline_ns q

HasEntry-pushed : (t : EdfTask) (q : List EdfTask) → HasEntry t.vm_id t.deadline_ns (push_task t q)
unfolding push_task
HasEntry-pushed t [] = inl (refl, refl)
HasEntry-pushed t (u ∷ q) =
    if_both (HasEntry t.vm_id t.deadline_ns) (ltb t.deadline_ns u.deadline_ns) _ _
      (inl (refl, refl)) (inr (HasEntry-pushed t q))

HasEntry-push_task :
    (k d : ℕ) (t : EdfTask) (q : List EdfTask) → HasEntry k d q → HasEntry k d (push_task t q)
unfolding push_task
HasEntry-push_task k d t [] h = absurd h
HasEntry-push_task k d t (u ∷ q) (inl e) =
    if_both (HasEntry k d) (ltb t.deadline_ns u.deadline_ns) _ _ (inr (inl e)) (inl e)
HasEntry-push_task k d t (u ∷ q) (inr g) =
    if_both (HasEntry k d) (ltb t.deadline_ns u.deadline_ns) _ _ (inr (inr g))
      (inr (HasEntry-push_task k d t q g))

HasEntry-rebuild :
    (j k d : ℕ) (q r : List EdfTask)
    → k ≢ j
    → HasEntry j d q ⊎ HasEntry j d r
    → HasEntry j d (rebuild k q r)
unfolding rebuild
HasEntry-rebuild j k d [] r n (inl h) = absurd h
HasEntry-rebuild j k d [] r n (inr h) = h
HasEntry-rebuild j k d (t ∷ q) r n (inl (inl e)) = elim (Bool-cases (t.vm_id == k)) [
  | inl b ↦ let v = e.0 in ground arith
  | inr b ↦ rw b (
      HasEntry-rebuild j k d q (push_task t r) n
        (inr (rw (sym e.0, sym e.1) (HasEntry-pushed t r))))
]
HasEntry-rebuild j k d (t ∷ q) r n (inl (inr h)) = HasEntry-rebuild j k d q _ n (inl h)
HasEntry-rebuild j k d (t ∷ q) r n (inr h) = elim (Bool-cases (t.vm_id == k)) [
  | inl b ↦ rw b (HasEntry-rebuild j k d q r n (inr h))
  | inr b ↦ rw b (HasEntry-rebuild j k d q (push_task t r) n (inr (HasEntry-push_task j d t r h)))
]

AllKnown-insert :
    (k : ℕ) (t : EdfTask) (m : Map EdfTask) (q : List EdfTask)
    → AllKnown m q
    → AllKnown (insert k t m) q
AllKnown-insert k t m q h = All-map q (λ u g. kept u.vm_id g) h
  where
    kept : (j : ℕ) → lookup j m ≢ none → lookup j (insert k t m) ≢ none
    kept j g e = elim (same_or_ne k j) [
      | inl p ↦ let self = lookup-insert_self k t m in cc
      | inr n ↦ g (sym (lookup-insert_ne k j t m n) ∙ e)
    ]

AllKnown-rebuild :
    (k : ℕ) (m : Map EdfTask) (q r : List EdfTask)
    → AllKnown m q
    → AllKnown (erase k m) r
    → AllKnown (erase k m) (rebuild k q r)
unfolding rebuild
AllKnown-rebuild k m [] r h g = g
AllKnown-rebuild k m (t ∷ q) r h g = elim (Bool-cases (t.vm_id == k)) [
  | inl b ↦ rw b (AllKnown-rebuild k m q r h.1 g)
  | inr b ↦
      let other : k ≢ t.vm_id = λ p. ground arith in
      rw b (
        AllKnown-rebuild k m q (push_task t r) h.1 (
          All-push_task (λ u. lookup u.vm_id (erase k m) ≢ none) t r
            (λ e. h.0 (sym (lookup-erase_ne k t.vm_id m other) ∙ e)) g))
]

module _ (m : Map EdfTask) (q : List EdfTask) (s : IsServed m q) (k : ℕ) where
  pub pushed-IsServed : (t : EdfTask) → t.vm_id ≡ k → IsServed (insert k t m) (push_task t q)
  pushed-IsServed t e = record {
    known =
        All-push_task (λ u. lookup u.vm_id (insert k t m) ≢ none) t q
          (λ l. let self = lookup-insert_self k t m in cc) (AllKnown-insert k t m q s.known);
    queued = λ j v l. elim (same_or_ne k j) [
      | inl p ↦
          let self = lookup-insert_self k t m in
          let same = ap deadline_of (sym self ∙ ap (λ i. lookup i (insert k t m)) p ∙ l) in
          subst (λ d. HasEntry j d (push_task t q)) same
            (subst (λ i. HasEntry i t.deadline_ns (push_task t q)) (e ∙ p) (HasEntry-pushed t q))
      | inr n ↦
          HasEntry-push_task j v.deadline_ns t q
            (s.queued j v (sym (lookup-insert_ne k j t m n) ∙ l))
    ];
  }

  pub erased-IsServed : IsServed (erase k m) (rebuild k q [])
  erased-IsServed = record {
    known = AllKnown-rebuild k m q [] s.known tt;
    queued = λ j v l. elim (same_or_ne k j) [
      | inl p ↦ let self = lookup-erase_self k m in cc
      | inr n ↦
          HasEntry-rebuild j k v.deadline_ns q [] n
            (inl (s.queued j v (sym (lookup-erase_ne k j m n) ∙ l)))
    ];
  }

  -- The task keeps its deadline.
  pub replaced-IsServed :
      (t t' : EdfTask)
      → lookup k m ≡ some t
      → t'.deadline_ns ≡ t.deadline_ns
      → IsServed (insert k t' m) q
  replaced-IsServed t t' found same = record {
    known = AllKnown-insert k t' m q s.known;
    queued = λ j v l. elim (same_or_ne k j) [
      | inl p ↦
          let self = lookup-insert_self k t' m in
          let equal = ap deadline_of (sym self ∙ ap (λ i. lookup i (insert k t' m)) p ∙ l) in
          subst (λ d. HasEntry j d q) (sym same ∙ equal)
            (subst (λ i. HasEntry i t.deadline_ns q) p (s.queued k t found))
      | inr n ↦ s.queued j v (sym (lookup-insert_ne k j t' m n) ∙ l)
    ];
  }
