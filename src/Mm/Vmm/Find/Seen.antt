-- ===== src/Mm/Vmm/Find/Seen.antt =====
-- What the loops of `vmm_find` have seen, and the loop over the entries of one table.
use fruity_orange.Base.{
  ℕ, zero, suc, ◌+◌, ◌*◌, ◌/◌, ◌%◌, ◌<◌, ◌≤◌, ◌≡◌, refl, ap, sym, ◌∙◌, true, false, Option, none,
  some, ◌==◌, leb, ltb, if◌then◌else◌, arith, Bool-cases, inl, inr,
}
use mathlib.Core.Path.{subst}
use fruity_orange.Mm.Pmm.{page_size}
use fruity_orange.Mm.Vmm.{Vmm, M, page_walk, is_present, frame_of, pt_vaddr, load_word, reach}
use fruity_orange.Mm.Vmm.Table.{directory, translation, IsWellFormed, reach-table, bind_some}
use fruity_orange.Mm.Vmm.Find.{Progress, found, going, pages_found, pt_loop, go_on}

-- `n` pages from `b` on that the map `t` sends to no frame.
abbrev pub AreFree : (ℕ → Option ℕ) → ℕ → ℕ → Type 0
AreFree t b n = (q : ℕ) → b ≤ q → q < b + n → t q ≡ none

-- In front of `page`, the search has seen `n` free pages in a row, from the address `vaddr` on.
pub data Run (t : ℕ → Option ℕ) (low page vaddr n : ℕ) : Type 0 where
  unstarted : vaddr ≡ 0 → n ≡ 0 → Run t low page vaddr n
  since :
      (b : ℕ)
      → low ≤ b
      → vaddr ≡ b * page_size
      → b + n ≡ page
      → AreFree t b n
      → Run t low page vaddr n

-- What the search has come to in front of `page`.
abbrev pub Seen : (ℕ → Option ℕ) → ℕ → ℕ → ℕ → Progress → Type 0
Seen t low num page (found a) =
    (b : ℕ) × (low ≤ b) × (a ≡ b * page_size) × (b + num ≤ page) × AreFree t b num
Seen t low num page (going a n) = Run t low page a n

AreFree-join :
    (t : ℕ → Option ℕ) (b n l : ℕ) → AreFree t b n → AreFree t (b + n) l → AreFree t b (n + l)
AreFree-join t b n l f g q h k = elim (Bool-cases (ltb q (b + n))) [
  | inl e ↦ f q h (ground arith)
  | inr e ↦ g q (ground arith) (omega arith)
]

pub pages_found-Seen :
    (t : ℕ → Option ℕ) (low num l page vaddr n : ℕ)
    → 0 < low
    → low ≤ page
    → Run t low page vaddr n
    → AreFree t page l
    → Seen t low num (page + l) (pages_found num l page vaddr n)
unfolding pages_found
pages_found-Seen t low num l page vaddr n pos le (unstarted z e) free =
    elim (Bool-cases (leb num (n + l))) [
      | inl y ↦ rw (y, z) (page, le, refl, ground arith, λ q h k. free q h (ground arith))
      | inr y ↦ rw (y, z) (since page le refl (omega arith) (λ q h k. free q h (omega arith)))
    ]
pages_found-Seen t low num l page vaddr n pos le (since b lb e at run) free =
    let nonzero : (vaddr == 0) ≡ false = ground arith in
    let all : AreFree t b (n + l) =
      AreFree-join t b n l run (λ q h k. free q (omega arith) (omega arith)) in
    elim (Bool-cases (leb num (n + l))) [
      | inl y ↦ rw (y, nonzero) (b, lb, e, ground arith, λ q h k. all q h (ground arith))
      | inr y ↦ rw (y, nonzero) (since b lb e (omega arith) all)
    ]

-- Where more pages are counted than are seen, the search ends with them if they are enough.
pub pages_found-short :
    (t : ℕ → Option ℕ) (low num l l' page vaddr n : ℕ)
    → 0 < low
    → low ≤ page
    → num ≤ l'
    → l' ≤ l
    → Run t low page vaddr n
    → AreFree t page l'
    → (a : ℕ) × (pages_found num l page vaddr n ≡ found a) × Seen t low num (page + l') (found a)
unfolding pages_found
pages_found-short t low num l l' page vaddr n pos le few more (unstarted z e) free =
    let enough : leb num (n + l) ≡ true = ground arith in
    (
      page * page_size,
      rw (enough, z) refl,
      (page, le, refl, omega arith, λ q h k. free q h (omega arith)),
    )
pages_found-short t low num l l' page vaddr n pos le few more (since b lb e at run) free =
    let nonzero : (vaddr == 0) ≡ false = ground arith in
    let enough : leb num (n + l) ≡ true = ground arith in
    let all : AreFree t b (n + l') =
      AreFree-join t b n l' run (λ q h k. free q (omega arith) (omega arith)) in
    (vaddr, rw (enough, nonzero) refl, (b, lb, e, omega arith, λ q h k. all q h (omega arith)))

-- What the loops leave alone: the search adds flags to entries of the directory, and nothing else.
pub record Still (t : ℕ → Option ℕ) (s s' : Vmm) : Type 0 where
  pub well : IsWellFormed s'
  pub same_context : s'.current_context ≡ s.current_context
  pub same_pmm : s'.pmm ≡ s.pmm
  pub same : (q : ℕ) → translation s' q ≡ t q
  pub presents :
      (j : ℕ) → is_present (s'.phys (directory s') j) ≡ is_present (s.phys (directory s) j)

-- A loop returns, with the pages up to `page` seen.
abbrev pub Finds : (ℕ → Option ℕ) → Vmm → ℕ → ℕ → ℕ → Option (Progress × Vmm) → Type 0
Finds t s low num page m =
    (p : Progress) × (s' : Vmm) × (m ≡ some (p, s')) × Still t s s' × Seen t low num page p

module _ (t : ℕ → Option ℕ) (s : Vmm) (low num : ℕ) where
  go_on-Finds :
      (next : ℕ → ℕ → M Progress) (s' : Vmm) (page page' : ℕ) (p : Progress)
      → page ≤ page'
      → Still t s s'
      → Seen t low num page p
      → ((a n : ℕ) → Run t low page a n → Finds t s low num page' (next a n s'))
      → Finds t s low num page' (go_on next p s')
  go_on-Finds next s' page page' (found a) le v (b, lb, e, top, free) rest =
      (found a, s', refl, v, (b, lb, e, omega arith, free))
  go_on-Finds next s' page page' (going a n) le v run rest = rest a n run

  load_entry :
      (s' : Vmm) (pd i f : ℕ)
      → reach s' (pt_vaddr pd) ≡ some f
      → load_word (pt_vaddr pd) i s' ≡ some (s'.phys f i, s')
  unfolding load_word
  load_entry s' pd i f e = rw (e, load_word) refl

  -- A page whose entry is not present is mapped to no frame.
  absent_page :
      (s' : Vmm) (pd i page : ℕ)
      → Still t s s'
      → page ≡ pd * 1024 + i
      → i < 1024
      → is_present (s'.phys (frame_of (s'.phys (directory s') pd)) i) ≡ false
      → t page ≡ none
  unfolding page_walk
  absent_page s' pd i page v at h e =
      let a : page / 1024 ≡ pd = omega arith in
      let b : page % 1024 ≡ i = omega arith in sym (v.same page) ∙ rw (a, b) (ground (arith, e))

  -- One round of the inner loop.
  pt_step-Seen :
      (s' : Vmm) (pd i page vaddr n : ℕ)
      → 0 < low
      → Still t s s'
      → page ≡ pd * 1024 + i
      → i < 1024
      → low ≤ page
      → Run t low page vaddr n
      → Seen t low num (page + 1) (
          if is_present (s'.phys (frame_of (s'.phys (directory s') pd)) i)
          then going 0 0
          else pages_found num 1 (pd * 1024 + i) vaddr n)
  pt_step-Seen s' pd i page vaddr n pos v at h lo run =
      elim (Bool-cases (is_present (s'.phys (frame_of (s'.phys (directory s') pd)) i))) [
        | inl e ↦ rw e (unstarted refl refl)
        | inr e ↦
            rw (e, ← at)
              (pages_found-Seen t low num 1 page vaddr n pos lo run (λ q a b.
                let same : q ≡ page = omega arith in ap t same ∙ absent_page s' pd i page v at h e))
      ]

  pub pt_loop-Finds :
      (k : ℕ) (s' : Vmm) (pd i page vaddr n : ℕ)
      → 0 < low
      → Still t s s'
      → pd < 1024
      → is_present (s'.phys (directory s') pd) ≡ true
      → page ≡ pd * 1024 + i
      → i + k ≤ 1024
      → low ≤ page
      → Run t low page vaddr n
      → Finds t s low num (page + k) (pt_loop k num pd (pt_vaddr pd) i vaddr n s')
  unfolding pt_loop
  pt_loop-Finds zero s' pd i page vaddr n pos v h p at le lo run =
      let end : page ≡ page + 0 = omega arith in
      (going vaddr n, s', refl, v, subst (λ (x : ℕ). Run t low x vaddr n) end run)
  pt_loop-Finds (suc k) s' pd i page vaddr n pos v h p at le lo run =
      let f : ℕ = frame_of (s'.phys (directory s') pd) in
      let w = v.well in
      let here =
        load_entry s' pd i f (reach-table s' pd w.paging w.tree.window w.tree.itself h p) in
      let rest =
        go_on-Finds (λ a c. pt_loop k num pd (pt_vaddr pd) (suc i) a c) s' (page + 1) (page + suc k)
          _ (omega arith) v (pt_step-Seen s' pd i page vaddr n pos v at (omega arith) lo run)
          (λ a c r.
            let end : page + 1 + k ≡ page + suc k = omega arith in
            subst (λ (x : ℕ). Finds t s low num x (pt_loop k num pd (pt_vaddr pd) (suc i) a c s'))
              end
              (pt_loop-Finds k s' pd (suc i) (page + 1) a c pos v h p (omega arith) (omega arith)
                (omega arith) r)) in
      (rest.0, rest.1, bind_some (load_word (pt_vaddr pd) i) _ s' here ∙ rest.2, rest.3, rest.4)
