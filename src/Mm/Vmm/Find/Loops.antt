-- ===== src/Mm/Vmm/Find/Loops.antt =====
-- The loops of `vmm_find`, over the pages of the context that is current.
use fruity_orange.Base.{
  ℕ, zero, suc, ◌+◌, ◌-◌, ◌*◌, ◌/◌, ◌<◌, ◌≤◌, ◌≡◌, ◌≢◌, refl, ap, sym, ◌∙◌, Bool, true, false,
  Option, some, arith, Bool-cases, inl, inr, ◌⊎◌,
}
use mathlib.Core.Path.{subst}
use fruity_orange.Mm.Vmm.{Vmm, M, page_walk, is_present, pt_vaddr, get_pagetable, dir_entry, ◌>>=◌}
use fruity_orange.Mm.Vmm.Table.{directory, flagged-Ready, bind_some, get_current, flagged}
use fruity_orange.Mm.Vmm.Walk.{Agree, Agree-flags, page_walk-Agree}
use fruity_orange.Mm.Vmm.Find.Seen.{
  AreFree, Run, Seen, pages_found-Seen, pages_found-short, Still, pt_loop-Finds,
}
use fruity_orange.Mm.Vmm.Find.{
  Progress, found, going, pages_found, pt_loop, pt_rounds, pd_loop, go_on,
}

-- What a search returns: `num` free pages in a row, between `low` and `page`, or nothing.
abbrev pub InRange : (ℕ → Option ℕ) → ℕ → ℕ → ℕ → Progress → Type 0
InRange t low num page (found a) = Seen t low num page (found a)
InRange t low num page (going a n) = Unit

abbrev pub FindsRange : (ℕ → Option ℕ) → Vmm → ℕ → ℕ → ℕ → Option (Progress × Vmm) → Type 0
FindsRange t s low num page m =
    (p : Progress) × (s' : Vmm) × (m ≡ some (p, s')) × Still t s s' × InRange t low num page p

flagged-Still :
    (t : ℕ → Option ℕ) (s s' : Vmm) (pd flags : ℕ)
    → Still t s s'
    → flags < 8
    → is_present (s'.phys (directory s') pd) ≡ true
    → Still t s (flagged pd flags s')
flagged-Still t s s' pd flags v h p = record {
  well = (flagged-Ready s' pd flags v.well h p).well;
  same_context = v.same_context;
  same_pmm = v.same_pmm;
  same = λ q. page_walk-Agree s'.phys _ (directory s') q agree ∙ v.same q;
  presents = λ j. agree.presents (directory s') j ∙ v.presents j;
}
  where
    agree : Agree s'.phys (flagged pd flags s').phys
    agree = Agree-flags s'.phys (directory s') pd flags h p

get_at :
    (automap : ℕ → M ℕ) (s : Vmm) (context i flags : ℕ)
    → context ≡ s.current_context
    → s.paging_initalized ≡ true
    → get_pagetable automap context i flags s ≡ some (pt_vaddr i, flagged i flags s)
get_at automap s context i flags e on =
    ap (λ (c : ℕ). get_pagetable automap c i flags s) e ∙ get_current automap s i flags on

module _ (t : ℕ → Option ℕ) (s : Vmm) (low num : ℕ) where
  go_on-FindsRange :
      (next : ℕ → ℕ → M Progress) (s' : Vmm) (page page' : ℕ) (p : Progress)
      → page ≤ page'
      → Still t s s'
      → Seen t low num page p
      → ((a n : ℕ) → Run t low page a n → FindsRange t s low num page' (next a n s'))
      → FindsRange t s low num page' (go_on next p s')
  go_on-FindsRange next s' page page' (found a) le v (b, lb, e, top, free) rest =
      (found a, s', refl, v, (b, lb, e, omega arith, free))
  go_on-FindsRange next s' page page' (going a n) le v run rest = rest a n run

  module _ (automap : ℕ → M ℕ) (context pd_end pt_end : ℕ) (pos : 0 < low)
      (same : context ≡ s.current_context) (last : pd_end < 1024) (within : pt_end ≤ 1024) where
    -- A table that is not there: 1024 free pages.
    absent_table :
        (s' : Vmm) (pd page : ℕ)
        → Still t s s'
        → pd * 1024 ≤ page
        → is_present (s'.phys (directory s') pd) ≡ false
        → AreFree t page ((pd + 1) * 1024 - page)
    unfolding page_walk
    absent_table s' pd page v at e q h k =
        let a : q / 1024 ≡ pd = omega arith in sym (v.same q) ∙ rw a (ground (arith, e))

    rounds : ℕ → ℕ → ℕ
    rounds pd i = pt_rounds pd pd_end pt_end i

    abbrev pub loop : ℕ → ℕ → ℕ → ℕ → ℕ → M Progress
    loop k pd i vaddr n = pd_loop automap context num pd_end pt_end k pd i vaddr n

    end_step : (s' : Vmm) (pd i vaddr n : ℕ) → loop 0 pd i vaddr n s' ≡ some (going vaddr n, s')
    unfolding pd_loop
    end_step s' pd i vaddr n = refl

    absent_step :
        (k : ℕ) (s' : Vmm) (pd i vaddr n : ℕ)
        → is_present (dir_entry s' context pd) ≡ false
        → loop (suc k) pd i vaddr n s'
          ≡ go_on (loop k (suc pd) i) (pages_found num 1024 (pd * 1024 + i) vaddr n) s'
    unfolding pd_loop
    absent_step k s' pd i vaddr n e = rw e refl

    present_step :
        (k : ℕ) (s' : Vmm) (pd i vaddr n : ℕ)
        → is_present (dir_entry s' context pd) ≡ true
        → loop (suc k) pd i vaddr n s'
          ≡ (get_pagetable automap context pd 3 >>= λ pt.
                pt_loop (rounds pd i) num pd pt i vaddr n >>= go_on (loop k (suc pd) 0))
              s'
    unfolding pd_loop rounds
    present_step k s' pd i vaddr n e = rw e refl

    -- The rounds of a table but for the last one reach its end.
    full_rounds : (pd i : ℕ) → pd ≢ pd_end → rounds pd i ≡ 1024 - i
    unfolding rounds
    full_rounds pd i ne = ground arith

    rounds-le : (pd i : ℕ) → rounds pd i ≤ 1024 - i
    unfolding rounds
    rounds-le pd i = ground arith

    -- From the start of a table on, or with so few pages wanted that the first table has room, the
    -- search returns pages that are free.
    pub loop-FindsRange :
        (k : ℕ) (s' : Vmm) (pd i page vaddr n : ℕ)
        → Still t s s'
        → pd + k ≡ pd_end + 1
        → page ≡ pd * 1024 + i
        → i < 1024
        → (i ≡ 0) ⊎ (num ≤ 1024 - i)
        → low ≤ page
        → (0 < k → Run t low page vaddr n)
        → FindsRange t s low num ((pd_end + 1) * 1024) (loop k pd i vaddr n s')
    loop-FindsRange zero s' pd i page vaddr n v k at small few lo run =
        (going vaddr n, s', end_step s' pd i vaddr n, v, tt)
    loop-FindsRange (suc k) s' pd i page vaddr n v kk at small few lo run =
        elim (Bool-cases (is_present (s'.phys (directory s') pd))) [
          | inl e ↦
              let s2 : Vmm = flagged pd 3 s' in
              let v2 : Still t s s2 = flagged-Still t s s' pd 3 v (omega arith) e in
              let inner =
                pt_loop-Finds t s low num (rounds pd i) s2 pd i page vaddr n pos v2 (omega arith)
                  (v2.presents pd ∙ sym (v.presents pd) ∙ e) at (omega (arith, rounds-le pd i)) lo
                  (run (omega arith)) in
              let rest =
                go_on-FindsRange (loop k (suc pd) 0) inner.1 (page + rounds pd i)
                  ((pd_end + 1) * 1024) inner.0 (omega (arith, rounds-le pd i)) inner.3 inner.4
                  (λ a c r.
                    loop-FindsRange k inner.1 (suc pd) 0 (page + (1024 - i)) a c inner.3
                      (omega arith) (omega arith) (omega arith) (inl refl) (omega arith)
                      (λ more.
                        subst (λ (x : ℕ). Run t low (page + x) a c) (full_rounds pd i (omega arith))
                          r)) in
              (
                rest.0,
                rest.1,
                present_step k s' pd i vaddr n (seen e)
                    ∙ bind_some (get_pagetable automap context pd 3) _ s'
                        (get_at automap s' context pd 3 here v.well.paging)
                    ∙ bind_some (pt_loop (rounds pd i) num pd (pt_vaddr pd) i vaddr n) _ s2 inner.2
                    ∙ rest.2,
                rest.3,
                rest.4,
              )
          | inr e ↦
              let free = absent_table s' pd page v (omega arith) e in
              let step = absent_step k s' pd i vaddr n (seen e) in
              elim few [
                | inl z ↦
                    let all : (pd + 1) * 1024 - page ≡ 1024 = omega arith in
                    let rest =
                      go_on-FindsRange (loop k (suc pd) i) s' (page + 1024) ((pd_end + 1) * 1024)
                        (pages_found num 1024 (pd * 1024 + i) vaddr n) (omega arith) v
                        (subst
                          (λ (x : ℕ). Seen t low num (page + 1024) (pages_found num 1024 x vaddr n))
                          at
                          (pages_found-Seen t low num 1024 page vaddr n pos lo (run (omega arith))
                            (subst (λ (x : ℕ). AreFree t page x) all free)))
                        (λ a c r.
                          loop-FindsRange k s' (suc pd) i (page + 1024) a c v (omega arith)
                            (omega arith) small (inl z) (omega arith) (λ _. r)) in
                    (rest.0, rest.1, step ∙ rest.2, rest.3, rest.4)
                | inr short ↦
                    let (a, eq, (b, lb, ab, top, sure)) =
                      pages_found-short t low num 1024 ((pd + 1) * 1024 - page) page vaddr n pos lo
                        (omega arith) (omega arith) (run (omega arith)) free in
                    (
                      found a,
                      s',
                      step
                          ∙ ap (λ (p : Progress). go_on (loop k (suc pd) i) p s')
                              (subst (λ (x : ℕ). pages_found num 1024 x vaddr n ≡ found a) at eq),
                      v,
                      (b, lb, ab, omega arith, sure),
                    )
              ]
        ]
      where
        here : context ≡ s'.current_context
        here = same ∙ sym v.same_context

        seen :
            {b : Bool}
            → is_present (s'.phys (directory s') pd) ≡ b
            → is_present (dir_entry s' context pd) ≡ b
        seen e = rw here e
