-- ===== src/Vma/Merge.antt =====
-- Merging two areas (`can_merge_with` of src/utils/mempool/include/VMA.h, `try_merge_adjacent` of
-- src/utils/mempool/include/MemoryManager.h).
use my_vm_os.Base.{ℕ, ◌-◌, ◌/◌, ◌%◌, ◌<◌, ◌≡◌, true, if◌then◌else◌, arith, add64, sub64, u64_mod}
use my_vm_os.Vma.{Vma, contains, can_merge_with, merged, vma_to_phys}

-- The numbers of an area are 64-bit words, and it is not empty.
pub record IsArea (v : Vma) : Type 0 where
  pub above : v.vm_start < v.vm_end
  pub end_word : v.vm_end < u64_mod

can_merge_lem :
    (v other : Vma)
    → can_merge_with other v ≡ true
    → (v.vm_end ≡ other.vm_start)
      × (add64 v.vm_pfn (sub64 v.vm_end v.vm_start / 4096) ≡ other.vm_pfn)
unfolding can_merge_with
can_merge_lem v other m = (ground arith, ground arith)

-- Where can_merge_with holds of two areas that are not empty and end at 64-bit words, and the size
-- of the first is a multiple of the page size, the merged area gives every address, inside or
-- outside, the physical address that the one of the two that contains it gave.
pub vma_to_phys-merged :
    (v other : Vma) (vaddr : ℕ)
    → IsArea v
    → IsArea other
    → can_merge_with other v ≡ true
    → (v.vm_end - v.vm_start) % 4096 ≡ 0
    → vma_to_phys vaddr (merged other v)
      ≡ (if contains vaddr v then vma_to_phys vaddr v else vma_to_phys vaddr other)
unfolding vma_to_phys
vma_to_phys-merged v other vaddr a b m whole =
    let h = can_merge_lem v other m in
    let next = h.0 in
    let frame = h.1 in
    let a0 = a.above in
    let a1 = a.end_word in let b0 = b.above in let b1 = b.end_word in ground arith
