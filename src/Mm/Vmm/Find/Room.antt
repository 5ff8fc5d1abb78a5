-- ===== src/Mm/Vmm/Find/Room.antt =====
-- What `vmm_find` of kernel/mm/vmm.c promises for the context that is current.
use fruity_orange.Base.{ℕ, ◌+◌, ◌-◌, ◌*◌, ◌^◌, ◌<◌, ◌≤◌, ◌≡◌, refl, Option, some, arith, ◌⊎◌}
use fruity_orange.Mm.Pmm.{page_size}
use fruity_orange.Mm.Vmm.{Vmm, M, pd_index, pt_index, page_index}
use fruity_orange.Mm.Vmm.Table.{translation, IsWellFormed, bind_some}
use fruity_orange.Mm.Vmm.Find.{Progress, found, going, find, pd_loop, search_result}
use fruity_orange.Mm.Vmm.Find.Seen.{AreFree, unstarted, Still}
use fruity_orange.Mm.Vmm.Find.Loops.{FindsRange, InRange, loop-FindsRange}

-- The address that a search returns: NULL, or that of `num` pages in a row, from `low` on and below
-- `end`, none of which is mapped.
pub data Room (t : ℕ → Option ℕ) (low num end a : ℕ) : Type 0 where
  no_room : a ≡ 0 → Room t low num end a
  room :
      (b : ℕ) → low ≤ b → a ≡ b * page_size → b + num ≤ end → AreFree t b num → Room t low num end a

-- The page behind the tables of the directory's entries up to that of an address.
abbrev pub tables_end : ℕ → ℕ
tables_end limit_high = (pd_index (page_index limit_high) + 1) * 1024

search_result-Room :
    (t : ℕ → Option ℕ) (low num end : ℕ) (p : Progress)
    → InRange t low num end p
    → Room t low num end (search_result p)
search_result-Room t low num end (found a) (b, lb, e, top, free) = room b lb e top free
search_result-Room t low num end (going a n) h = no_room refl

pub Still-refl : (s : Vmm) → IsWellFormed s → Still (translation s) s s
Still-refl s v = record {
  well = v;
  same_context = refl;
  same_pmm = refl;
  same = λ q. refl;
  presents = λ j. refl;
}

-- In a well-formed state, `vmm_find` of the current context returns, whatever the limits above the first page
-- and below 4 GB: the address is NULL, or that of as many unmapped pages in a row as were asked for.
-- It has to start at the first page of a table, or to ask for no more pages than that table has left.
-- No page is mapped otherwise by the search.
pub find-Room :
    (automap : ℕ → M ℕ) (s : Vmm) (num limit_low limit_high : ℕ)
    → IsWellFormed s
    → page_size ≤ limit_low
    → limit_low ≤ limit_high
    → limit_high < 2 ^ 32
    → (pt_index (page_index limit_low) ≡ 0) ⊎ (num ≤ 1024 - pt_index (page_index limit_low))
    → (a : ℕ) × (s' : Vmm) × (find automap s.current_context num limit_low limit_high s
        ≡ some (a, s'))
      × Still (translation s) s s'
      × Room (translation s) (page_index limit_low) num (tables_end limit_high) a
unfolding find
find-Room automap s num lo hi v h k j few = (
  search_result r.0,
  r.1,
  bind_some
      (pd_loop automap s.current_context num (pd_index (page_index hi)) (pt_index (page_index hi))
        (pd_index (page_index hi) + 1 - pd_index (page_index lo)) (pd_index (page_index lo))
        (pt_index (page_index lo)) 0 0)
      _ s r.2,
  r.3,
  search_result-Room (translation s) (page_index lo) num (tables_end hi) r.0 r.4,
)
  where
    r : FindsRange (translation s) s (page_index lo) num (tables_end hi) (
        pd_loop automap s.current_context num
          (pd_index (page_index hi))
          (pt_index (page_index hi))
          (pd_index (page_index hi) + 1 - pd_index (page_index lo))
          (pd_index (page_index lo))
          (pt_index (page_index lo))
          0
          0
          s)
    r =
        loop-FindsRange (translation s) s (page_index lo) num automap s.current_context
          (pd_index (page_index hi)) (pt_index (page_index hi)) (omega arith) refl (omega arith)
          (omega arith) (pd_index (page_index hi) + 1 - pd_index (page_index lo)) s
          (pd_index (page_index lo)) (pt_index (page_index lo)) (page_index lo) 0 0 (Still-refl s v)
          (omega arith) (omega arith) (omega arith) few (omega arith) (λ _. unstarted refl refl)
