-- ===== src/Vma/Search.antt =====
-- The searches of `MemoryManager` (src/utils/mempool/include/MemoryManager.h) against a walk over all areas.
use my_vm_os.Base.{
  ℕ, ◌≤◌, ◌<◌, ◌≡◌, refl, ap, sym, ◌∙◌, Bool, true, false, List, [], ◌∷◌, ◌++◌, Option, none, some,
  ltb, leb, if◌then◌else◌, if_cases, arith, All, All-map,
}
use my_vm_os.RbTree.{Tree, leaf, node}
use my_vm_os.RbTree.Order.{inorder}
use my_vm_os.Vma.{Vma, contains, find_vma, find_vma_after, after_loop}

-- The areas are not empty, in the order of their addresses, and none reaches into the next.
abbrev pub AreApart : List Vma → Type 0
AreApart [] = Unit
AreApart (v ∷ vs) = (v.vm_start ≤ v.vm_end) × (All (λ w. v.vm_end ≤ w.vm_start) vs × AreApart vs)

-- The first area of a list that contains the address; the first that starts there or later.
abbrev pub walk : ℕ → List Vma → Option Vma
walk addr [] = none
walk addr (v ∷ vs) = if contains addr v then some v else walk addr vs

abbrev pub walk_after : ℕ → List Vma → Option Vma
walk_after addr [] = none
walk_after addr (v ∷ vs) = if leb addr v.vm_start then some v else walk_after addr vs

outside_below : (addr : ℕ) (v : Vma) → addr < v.vm_start → contains addr v ≡ false
outside_below addr v h = ground arith

outside_above : (addr : ℕ) (v : Vma) → v.vm_end ≤ addr → contains addr v ≡ false
outside_above addr v h = ground arith

inside : (addr : ℕ) (v : Vma) → v.vm_start ≤ addr → addr < v.vm_end → contains addr v ≡ true
inside addr v h k = ground arith

walk-none : (addr : ℕ) (vs : List Vma) → All (λ w. addr < w.vm_start) vs → walk addr vs ≡ none
walk-none addr [] h = refl
walk-none addr (v ∷ vs) h =
    ap (λ b. if b then some v else walk addr vs) (outside_below addr v h.0) ∙ walk-none addr vs h.1

walk-append :
    (addr : ℕ) (vs ws : List Vma)
    → All (λ v. v.vm_end ≤ addr) vs
    → walk addr (vs ++ ws) ≡ walk addr ws
walk-append addr [] ws h = refl
walk-append addr (v ∷ vs) ws h =
    ap (λ b. if b then some v else walk addr (vs ++ ws)) (outside_above addr v h.0)
    ∙ walk-append addr vs ws h.1

walk_append-none :
    (addr : ℕ) (vs ws : List Vma) → walk addr ws ≡ none → walk addr (vs ++ ws) ≡ walk addr vs
walk_append-none addr [] ws h = h
walk_append-none addr (v ∷ vs) ws h =
    ap (λ o. if contains addr v then some v else o) (walk_append-none addr vs ws h)

walk_after-append :
    (addr : ℕ) (vs ws : List Vma)
    → All (λ v. v.vm_start < addr) vs
    → walk_after addr (vs ++ ws) ≡ walk_after addr ws
walk_after-append addr [] ws h = refl
walk_after-append addr (v ∷ vs) ws h =
    let below : leb addr v.vm_start ≡ false = (let b = h.0 in ground arith) in
    ap (λ b. if b then some v else walk_after addr (vs ++ ws)) below
    ∙ walk_after-append addr vs ws h.1

abbrev or_later : Option Vma → Option Vma → Option Vma
or_later none o = o
or_later (some v) o = some v

or_later-some :
    (o p : Option Vma) (v : Vma) → or_later (or_later o (some v)) p ≡ or_later o (some v)
or_later-some none p v = refl
or_later-some (some u) p v = refl

if-or_later :
    (b : Bool) (u : Vma) (p q o : Option Vma)
    → p ≡ or_later q o
    → (if b then some u else p) ≡ or_later (if b then some u else q) o
if-or_later true u p q o h = refl
if-or_later false u p q o h = h

or_later-none : (o : Option Vma) → or_later o none ≡ o
or_later-none none = refl
or_later-none (some v) = refl

walk_after-middle :
    (addr : ℕ) (vs : List Vma) (v : Vma) (ws : List Vma)
    → addr ≤ v.vm_start
    → walk_after addr (vs ++ (v ∷ ws)) ≡ or_later (walk_after addr vs) (some v)
walk_after-middle addr [] v ws h =
    let reached : leb addr v.vm_start ≡ true = ground arith in
    ap (λ b. if b then some v else walk_after addr ws) reached
walk_after-middle addr (u ∷ vs) v ws h =
    if-or_later (leb addr u.vm_start) u (walk_after addr (vs ++ (v ∷ ws))) (walk_after addr vs)
      (some v) (walk_after-middle addr vs v ws h)

All-left : (P : Vma → Type 0) (vs ws : List Vma) → All P (vs ++ ws) → All P vs
All-left P [] ws h = tt
All-left P (v ∷ vs) ws h = (h.0, All-left P vs ws h.1)

All-right : (P : Vma → Type 0) (vs ws : List Vma) → All P (vs ++ ws) → All P ws
All-right P [] ws h = h
All-right P (v ∷ vs) ws h = All-right P vs ws h.1

AreApart-left : (vs ws : List Vma) → AreApart (vs ++ ws) → AreApart vs
AreApart-left [] ws h = tt
AreApart-left (v ∷ vs) ws h =
    (h.0, (All-left (λ w. v.vm_end ≤ w.vm_start) vs ws h.1.0, AreApart-left vs ws h.1.1))

AreApart-right : (vs ws : List Vma) → AreApart (vs ++ ws) → AreApart ws
AreApart-right [] ws h = h
AreApart-right (v ∷ vs) ws h = AreApart-right vs ws h.1.1

AreApart-before :
    (vs : List Vma) (v : Vma) (ws : List Vma)
    → AreApart (vs ++ (v ∷ ws))
    → All (λ u. (u.vm_start ≤ u.vm_end) × (u.vm_end ≤ v.vm_start)) vs
AreApart-before [] v ws h = tt
AreApart-before (u ∷ vs) v ws h =
    let next = All-right (λ w. u.vm_end ≤ w.vm_start) vs (v ∷ ws) h.1.0 in
    ((h.0, next.0), AreApart-before vs v ws h.1.1)

-- Where the areas of a tree are in order, none ends before it starts and none reaches into the next,
-- find_vma finds what a walk over all areas in order finds: the one that contains the address, or
-- none.
pub find_vma-walk :
    (addr : ℕ) (t : Tree Vma) → AreApart (inorder t) → find_vma addr t ≡ walk addr (inorder t)
unfolding find_vma
find_vma-walk addr leaf h = refl
find_vma-walk addr (node c l v r) h =
    let right = AreApart-right (inorder l) (v ∷ inorder r) h in
    let before = AreApart-before (inorder l) v (inorder r) h in
    let at_l = find_vma-walk addr l (AreApart-left (inorder l) (v ∷ inorder r) h) in
    let at_r = find_vma-walk addr r right.1.1 in
    if_cases (λ o. o ≡ walk addr (inorder l ++ (v ∷ inorder r))) (ltb addr v.vm_start) _ _
      (λ less.
        let below : addr < v.vm_start = ground arith in
        let w = right.0 in
        at_l
        ∙ sym (
            walk_append-none addr (inorder l) (v ∷ inorder r) (
              walk-none addr (v ∷ inorder r)
                (below, All-map (inorder r) (λ u h. omega (arith, below, w, h)) right.1.0))))
      (λ more.
        let above : v.vm_start ≤ addr = ground arith in
        let skip =
          walk-append addr (inorder l) (v ∷ inorder r)
            (All-map (inorder l) (λ u h. omega (arith, h.1, above)) before) in
        if_cases (λ o. o ≡ walk addr (inorder l ++ (v ∷ inorder r))) (leb v.vm_end addr) _ _
          (λ past.
            let beyond : v.vm_end ≤ addr = ground arith in
            at_r
            ∙ sym (
                skip
                ∙ ap (λ b. if b then some v else walk addr (inorder r))
                    (outside_above addr v beyond)))
          (λ within.
            let here : addr < v.vm_end = ground arith in
            sym (
              skip
              ∙ ap (λ b. if b then some v else walk addr (inorder r)) (inside addr v above here))))

after_loop-walk_after :
    (addr : ℕ) (result : Option Vma) (t : Tree Vma)
    → AreApart (inorder t)
    → after_loop addr result t ≡ or_later (walk_after addr (inorder t)) result
unfolding after_loop
after_loop-walk_after addr result leaf h = refl
after_loop-walk_after addr result (node c l v r) h =
    let right = AreApart-right (inorder l) (v ∷ inorder r) h in
    let before = AreApart-before (inorder l) v (inorder r) h in
    let at_l =
      after_loop-walk_after addr (some v) l (AreApart-left (inorder l) (v ∷ inorder r) h) in
    let at_r = after_loop-walk_after addr result r right.1.1 in
    if_cases (λ o. o ≡ or_later (walk_after addr (inorder l ++ (v ∷ inorder r))) result)
      (leb addr v.vm_start) _ _
      (λ reached.
        let here : addr ≤ v.vm_start = ground arith in
        at_l
        ∙ sym (or_later-some (walk_after addr (inorder l)) result v)
        ∙ ap (λ o. or_later o result) (sym (walk_after-middle addr (inorder l) v (inorder r) here)))
      (λ short.
        let below : v.vm_start < addr = ground arith in
        at_r
        ∙ ap (λ o. or_later o result)
            (sym (
              walk_after-append addr (inorder l) (v ∷ inorder r)
                (All-map (inorder l) (λ u h. omega (arith, h.0, h.1, below)) before)
              ∙ ap (λ b. if b then some v else walk_after addr (inorder r)) short)))

-- Where the areas of a tree are in order, none ends before it starts and none reaches into the next,
-- find_vma_after finds what a walk over all areas in order finds: the first that starts at the
-- address or after it, or none.
pub find_vma_after-walk :
    (addr : ℕ) (t : Tree Vma)
    → AreApart (inorder t)
    → find_vma_after addr t ≡ walk_after addr (inorder t)
unfolding find_vma_after
find_vma_after-walk addr t h =
    after_loop-walk_after addr none t h ∙ or_later-none (walk_after addr (inorder t))
