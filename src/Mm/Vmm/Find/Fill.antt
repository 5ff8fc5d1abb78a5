-- ===== src/Mm/Vmm/Find/Fill.antt =====
-- A frame for each page of an area, in the context that is current: the loop of `vmm_alloc_area` of
-- kernel/mm/vmm.c, which the heap and the system call for memory have too.
use fruity_orange.Base.{
  ℕ, zero, suc, ◌+◌, ◌*◌, ◌/◌, ◌%◌, ◌^◌, ◌<◌, ◌≤◌, ◌≡◌, ◌≢◌, refl, ◌∙◌, Option, some, none, arith,
  inl, inr, ◌⊎◌, ap, ◌==◌, Bool-cases,
}
use mathlib.Core.Path.{subst}
use fruity_orange.Mm.Pmm.{Pmm, page_size, pmm_alloc}
use fruity_orange.Mm.Vmm.{Vmm, page_index, alloc_frame}
use fruity_orange.Mm.Vmm.Table.{translation, IsWellFormed, IsOutside, bind_some}
use fruity_orange.Mm.Vmm.Map.{update, map_page-update}
use fruity_orange.Mm.Vmm.Find.{window_on, unmap_current, vmm_map_page, fill_area, the_context}
use fruity_orange.Mm.Vmm.Find.Alloc.{taken, taken-IsWellFormed, alloc-IsTaken}

-- At least `n` frames are left.
abbrev pub FramesLeft : ℕ → Pmm → Type 0
FramesLeft zero p = Unit
FramesLeft (suc n) p = ((pmm_alloc p).0 ≢ 0) × FramesLeft n (pmm_alloc p).1

FramesLeft-weaken : (n : ℕ) (p : Pmm) → FramesLeft (suc n) p → FramesLeft n p
FramesLeft-weaken zero p h = tt
FramesLeft-weaken (suc n) p h = (h.0, FramesLeft-weaken n (pmm_alloc p).1 h.1)

-- Two frames for each page: its own, and one for a table that is missing.
abbrev pub twice : ℕ → ℕ
twice zero = zero
twice (suc n) = suc (suc (twice n))

-- Every page of an area is mapped, and no other page otherwise.
abbrev pub Filled : (ℕ → Option ℕ) → (ℕ → Option ℕ) → ℕ → ℕ → ℕ → Type 0
Filled t t' page n q =
    (page ≤ q → q < page + n → t' q ≢ none) × ((q < page) ⊎ (page + n ≤ q) → t' q ≡ t q)

Filled-step :
    (t t1 t2 : ℕ → Option ℕ) (page frame n q : ℕ)
    → t1 q ≡ update t page frame q
    → Filled t1 t2 (page + 1) n q
    → Filled t t2 page (suc n) q
Filled-step t t1 t2 page frame n q e f = (
  λ a b. elim (Bool-cases (page == q)) [
    | inl k ↦ λ z. absurd (ground (arith, f.1 (inl (ground arith))))
    | inr k ↦ f.0 (ground arith) (omega arith)
  ],
  λ c. elim c [
    | inl h ↦ f.1 (inl (omega arith)) ∙ ground arith
    | inr h ↦ f.1 (inr (omega arith)) ∙ ground arith
  ],
)

frames_after :
    (n : ℕ) (p p' : Pmm)
    → FramesLeft (suc n) p
    → (p' ≡ p) ⊎ (p' ≡ (pmm_alloc p).1)
    → FramesLeft n p'
frames_after n p p' h (inl e) = rw e (FramesLeft-weaken n p h)
frames_after n p p' h (inr e) = rw e h.1

pub fill_area-Filled :
    (n : ℕ) (s : Vmm) (vaddr flags : ℕ)
    → IsWellFormed s
    → vaddr % page_size ≡ 0
    → vaddr + n * page_size < 2 ^ 32
    → flags < 8
    → ((q : ℕ) → page_index vaddr ≤ q → q < page_index vaddr + n → q / 1024 ≢ 960)
    → FramesLeft (twice n) s.pmm
    → (s' : Vmm) × (fill_area n vaddr flags s ≡ some (tt, s'))
      × IsWellFormed s'
      × (s'.current_context ≡ s.current_context)
      × ((q : ℕ) → IsOutside q → Filled (translation s) (translation s') (page_index vaddr) n q)
unfolding fill_area alloc_frame the_context
fill_area-Filled zero s vaddr flags v av hv hf out left =
    (s, refl, v, refl, λ q o. (λ a b. absurd (omega arith), λ c. refl))
fill_area-Filled (suc n) s vaddr flags v av hv hf out left =
    let k = alloc-IsTaken s v left.0 in
    let (s1, run, m) =
      map_page-update window_on unmap_current (taken s) vaddr (pmm_alloc s.pmm).0 flags
        (taken-IsWellFormed s v) (omega arith) av k.bounded k.aligned hf
        (out (page_index vaddr) (omega arith) (omega arith)) (inr left.1.0) in
    let nv : (vaddr + page_size) % 2 ^ 32 ≡ vaddr + page_size = omega arith in
    let pv : page_index (vaddr + page_size) ≡ page_index vaddr + 1 = omega arith in
    let (s2, run2, well, same, fills) =
      fill_area-Filled n s1 (vaddr + page_size) flags m.well (omega arith) (omega arith) hf
        (λ q a b. out q (omega arith) (omega arith))
        (frames_after (twice n) (taken s).pmm s1.pmm left.1 m.spent) in
    (
      s2,
      bind_some (vmm_map_page s.current_context vaddr (pmm_alloc s.pmm).0 flags) _ (taken s) run
          ∙ ap (λ (x : ℕ). fill_area n x flags s1) nv
          ∙ run2,
      well,
      same ∙ m.same_context,
      λ q o.
          Filled-step (translation s) (translation s1) (translation s2) (page_index vaddr)
            (page_index (pmm_alloc s.pmm).0) n q (m.refines q o)
            (subst (λ (x : ℕ). Filled (translation s1) (translation s2) x n q) pv (fills q o)),
    )
