-- ===== src/Sched/Keyed.antt =====
-- The task maps of the schedulers (src/vm/Scheduler): a task stands under its own machine's id.
use my_vm_os.Base.{
  ℕ, ◌≡◌, sym, ◌∙◌, inl, inr, some, [], Map, lookup, insert, erase, lookup-insert_self,
  lookup-insert_ne, lookup-erase_self, lookup-erase_ne, same_or_ne,
}

module _ {V : Type 0} (id : V → ℕ) where
  pub record IsKeyed (m : Map V) : Type 0 where
    pub at : (k : ℕ) (v : V) → lookup k m ≡ some v → id v ≡ k

  pub empty-IsKeyed : IsKeyed []
  unfolding lookup
  empty-IsKeyed = record { at = λ k v e. cc }

  pub insert-IsKeyed : (k : ℕ) (v : V) (m : Map V) → id v ≡ k → IsKeyed m → IsKeyed (insert k v m)
  insert-IsKeyed k v m e h = record {
    at = λ j u l. elim (same_or_ne k j) [
      | inl p ↦ let self = lookup-insert_self k v m in cc
      | inr n ↦ h.at j u (sym (lookup-insert_ne k j v m n) ∙ l)
    ];
  }

  pub erase-IsKeyed : (k : ℕ) (m : Map V) → IsKeyed m → IsKeyed (erase k m)
  erase-IsKeyed k m h = record {
    at = λ j u l. elim (same_or_ne k j) [
      | inl p ↦ let self = lookup-erase_self k m in cc
      | inr n ↦ h.at j u (sym (lookup-erase_ne k j m n) ∙ l)
    ];
  }
