-- ===== src/Vma.antt =====
-- `VMA` (src/utils/mempool/include/VMA.h) and the searches of `MemoryManager`
-- (src/utils/mempool/include/MemoryManager.h). The name of an area is only printed and is left out; what is
-- printed on an error too.
pub mod Search
pub mod Merge
use my_vm_os.Base.{
  ℕ, ◌+◌, ◌*◌, ◌/◌, ◌%◌, Bool, true, false, ◌&&◌, Option, none, some, ltb, leb, ◌==◌, if◌then◌else◌,
  add64, sub64, u64_mod,
}
use my_vm_os.RbTree.{Tree, leaf, node}

pub record Vma : Type 0 where
  pub vm_start : ℕ
  pub vm_end : ℕ
  pub vm_pfn : ℕ
  pub vm_flags : ℕ

abbrev pub contains : ℕ → Vma → Bool
contains addr v = leb v.vm_start addr && ltb addr v.vm_end

-- Whether `other` goes on where `v` ends.
unfoldable pub can_merge_with : Vma → Vma → Bool
can_merge_with other v =
    (v.vm_end == other.vm_start)
    && ((v.vm_flags == other.vm_flags)
        && (add64 v.vm_pfn (sub64 v.vm_end v.vm_start / 4096) == other.vm_pfn))

-- What `try_merge_adjacent` makes of the first of two areas.
abbrev pub merged : Vma → Vma → Vma
merged other v = record v { vm_end = other.vm_end }

unfoldable pub vma_to_phys : ℕ → Vma → ℕ
vma_to_phys vaddr v =
    if contains vaddr v then add64 (v.vm_pfn * 4096 % u64_mod) (sub64 vaddr v.vm_start) else 0

unfoldable pub find_vma : ℕ → Tree Vma → Option Vma
find_vma addr leaf = none
find_vma addr (node c l v r) =
    let at_l = find_vma addr l in
    let at_r = find_vma addr r in
    if ltb addr v.vm_start then at_l else if leb v.vm_end addr then at_r else some v

-- The loop of `find_vma_after`, with `result`.
unfoldable pub after_loop : ℕ → Option Vma → Tree Vma → Option Vma
after_loop addr result leaf = result
after_loop addr result (node c l v r) =
    let at_l = after_loop addr (some v) l in
    let at_r = after_loop addr result r in if leb addr v.vm_start then at_l else at_r

unfoldable pub find_vma_after : ℕ → Tree Vma → Option Vma
find_vma_after addr t = after_loop addr none t

abbrev pub phys_of : ℕ → Option Vma → ℕ
phys_of vaddr none = 0
phys_of vaddr (some v) = vma_to_phys vaddr v

unfoldable pub virt_to_phys : ℕ → Tree Vma → ℕ
virt_to_phys vaddr t = phys_of vaddr (find_vma vaddr t)
