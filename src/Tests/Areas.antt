-- ===== src/Tests/Areas.antt =====
-- The theorems on trees (src/utils/mempool/src/RBtree.cpp) and areas
-- (src/utils/mempool/include/MemoryManager.h), run on three areas.
use my_vm_os.Base.{ℕ, ◌≡◌, refl, [], ◌∷◌, ◌++◌, some, if◌then◌else◌, arith}
use my_vm_os.RbTree.{Tree, leaf, node, red, black}
use my_vm_os.RbTree.Sort.{Sorts, sort, insert_all, insert_all-sort}
use my_vm_os.RbTree.{Frame, at_left, plug}
use my_vm_os.RbTree.Balance.{IsRedBlack}
use my_vm_os.RbTree.Order.{inorder}
use my_vm_os.RbTree.Erase.{erase}
use my_vm_os.RbTree.Erase.Unbalanced.{erase-unbalanced}
use my_vm_os.RbTree.Erase.Entries.{inorder-erase}
use my_vm_os.Vma.{Vma, contains, can_merge_with, merged, vma_to_phys, find_vma, find_vma_after}
use my_vm_os.Vma.Search.{walk, walk_after, find_vma-walk, find_vma_after-walk}
use my_vm_os.Vma.Merge.{vma_to_phys-merged}

abbrev area : ℕ → ℕ → ℕ → Vma
area start end pfn = record { vm_start = start; vm_end = end; vm_pfn = pfn; vm_flags = 3 }

abbrev low : Vma
low = area 4096 8192 7

abbrev middle : Vma
middle = area 8192 16384 8

abbrev high : Vma
high = area 20480 24576 9

abbrev start_of : Vma → ℕ
start_of v = v.vm_start

insert_all-sort_example :
    Sorts start_of
      (sort start_of (high ∷ low ∷ middle ∷ []) [])
      (insert_all start_of (high ∷ low ∷ middle ∷ []) (some leaf))
insert_all-sort_example = insert_all-sort start_of (high ∷ low ∷ middle ∷ [])

abbrev areas : Tree Vma
areas = node black (node red leaf low leaf) middle (node red leaf high leaf)

find_vma-walk_example : find_vma 16383 areas ≡ walk 16383 (low ∷ middle ∷ high ∷ [])
find_vma-walk_example = find_vma-walk 16383 areas (
  omega arith,
  ((omega arith, (omega arith, tt)), (omega arith, ((omega arith, tt), (omega arith, (tt, tt))))),
)

find_vma_after-walk_example : find_vma_after 8193 areas ≡ walk_after 8193 (low ∷ middle ∷ high ∷ [])
find_vma_after-walk_example = find_vma_after-walk 8193 areas (
  omega arith,
  ((omega arith, (omega arith, tt)), (omega arith, ((omega arith, tt), (omega arith, (tt, tt))))),
)

vma_to_phys-merged_example :
    vma_to_phys 8200 (merged middle low)
    ≡ (if contains 8200 low then vma_to_phys 8200 low else vma_to_phys 8200 middle)
unfolding can_merge_with
vma_to_phys-merged_example =
    vma_to_phys-merged low middle 8200 (record { above = omega arith; end_word = omega arith })
      (record { above = omega arith; end_word = omega arith }) refl refl

-- The root, with 20 in a black node on its right.
abbrev below_root : Frame ℕ
below_root = record { side = at_left; color = black; entry = 10; other = node black leaf 20 leaf }

inorder-erase_example :
    (inorder (plug [] areas) ≡ (low ∷ []) ++ (middle ∷ high ∷ []))
    × ((t : Tree Vma) × ((erase [] black (node red leaf low leaf) middle (node red leaf high leaf)
            ≡ some t)
          × (inorder t ≡ low ∷ high ∷ [])))
inorder-erase_example =
    inorder-erase [] black (node red leaf low leaf) middle (node red leaf high leaf) (record {
      blacks = 1;
      proper = (((refl, refl), (refl, refl)), ((refl, refl), (refl, refl)));
      root = refl;
    })

erase-unbalanced_example :
    (t : Tree ℕ) × ((erase (below_root ∷ []) black leaf 5 leaf ≡ some t) × ¬ IsRedBlack t)
erase-unbalanced_example =
    erase-unbalanced below_root [] 5
      (record { blacks = 2; proper = ((refl, refl), (refl, refl)); root = refl })
