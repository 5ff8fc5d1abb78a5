-- ===== src/Mm/Vmm/Find/Automap.antt =====
-- The pages that kernel/mm/vmm.c maps where there is room, in the context that is current.
use fruity_orange.Base.{
  ℕ, ◌*◌, ◌%◌, ◌^◌, ◌<◌, ◌≤◌, ◌≡◌, ◌≢◌, ◌∙◌, sym, Option, some, arith, inr, ap, ◌==◌, if◌then◌else◌,
}
use fruity_orange.Mm.Pmm.{Pmm, page_size, pmm_alloc}
use fruity_orange.Mm.Vmm.{Vmm, pd_index, page_index}
use fruity_orange.Mm.Vmm.Table.{translation, IsWellFormed, IsOutside, bind_some}
use fruity_orange.Mm.Vmm.Map.{update, map_page-update}
use fruity_orange.Mm.Vmm.Find.{automap_page, window_on, unmap_current, vmm_map_page, vmm_find}
use fruity_orange.Mm.Vmm.Find.Seen.{Still}
use fruity_orange.Mm.Vmm.Find.Room.{Room, no_room, room, find-Room, tables_end}

place_bounds :
    (t : ℕ → Option ℕ) (low end a : ℕ)
    → Room t low 1 end a
    → end ≤ 960 * 1024
    → (a < 2 ^ 32) × (a % page_size ≡ 0) × (pd_index (page_index a) ≢ 960)
place_bounds t low end a (no_room z) h = (omega arith, omega arith, omega arith)
place_bounds t low end a (room b lb e top free) h = (omega arith, omega arith, omega arith)

-- The page is mapped after a search that changed no page.
map_after :
    (s s1 : Vmm) (a paddr flags : ℕ)
    → Still (translation s) s s1
    → (pmm_alloc s.pmm).0 ≢ 0
    → (a < 2 ^ 32) × (a % page_size ≡ 0) × (pd_index (page_index a) ≢ 960)
    → paddr < 2 ^ 32
    → paddr % page_size ≡ 0
    → flags < 8
    → (s' : Vmm) × (vmm_map_page s.current_context a paddr flags s1 ≡ some (0, s'))
      × IsWellFormed s'
      × ((q : ℕ)
          → IsOutside q
          → translation s' q ≡ update (translation s) (page_index a) (page_index paddr) q)
map_after s s1 a paddr flags v left at hp ap' hf =
    let (s', run, m) =
      map_page-update window_on unmap_current s1 a paddr flags v.well at.0 at.1 hp ap' hf at.2
        (inr (λ e. left (ap (λ (p : Pmm). (pmm_alloc p).0) (sym v.same_pmm) ∙ e))) in
    (
      s',
      ap (λ (c : ℕ). vmm_map_page c a paddr flags s1) (sym v.same_context) ∙ run,
      m.well,
      λ q o.
          m.refines q o
          ∙ ap (λ (x : Option ℕ). if page_index a == q then some (page_index paddr) else x)
              (v.same q),
    )

-- In a well-formed state with a frame left for a table, and within limits that do not reach the window
-- on the tables, mapping an aligned frame where there is room returns the address of a page that was not
-- mapped, or NULL, maps the page of that address to the frame, and no other page otherwise.
-- Where there is no room, that page is page 0.
pub automap_page-update :
    (s : Vmm) (limit_low limit_high flags paddr : ℕ)
    → IsWellFormed s
    → page_size ≤ limit_low
    → limit_low ≤ limit_high
    → limit_high < 0xf0000000
    → flags < 8
    → paddr < 2 ^ 32
    → paddr % page_size ≡ 0
    → (pmm_alloc s.pmm).0 ≢ 0
    → (a : ℕ) × (s' : Vmm) × (automap_page limit_low limit_high flags s.current_context paddr s
        ≡ some (a, s'))
      × Room (translation s) (page_index limit_low) 1 (tables_end limit_high) a
      × IsWellFormed s'
      × ((q : ℕ)
          → IsOutside q
          → translation s' q ≡ update (translation s) (page_index a) (page_index paddr) q)
unfolding automap_page
automap_page-update s lo hi flags paddr v hl le hh hf hp al left =
    let (a, s1, run, still, r) =
      find-Room window_on s 1 lo hi v hl le (omega arith) (inr (omega arith)) in
    let (s2, run2, well, maps) =
      map_after s s1 a paddr flags still left
        (place_bounds (translation s) (page_index lo) (tables_end hi) a r (omega arith)) hp al hf in
    (
      a,
      s2,
      bind_some (vmm_find s.current_context 1 lo hi) _ s run
          ∙ bind_some (vmm_map_page s.current_context a paddr flags) _ s1 run2,
      r,
      well,
      maps,
    )
