-- ===== src/Mm/Vmm/Find/Area.antt =====
-- `vmm_map_area` of kernel/mm/vmm.c, in the context that is current.
use fruity_orange.Base.{
  ℕ, zero, suc, ◌+◌, ◌-◌, ◌*◌, ◌/◌, ◌%◌, ◌^◌, ◌<◌, ◌≤◌, ◌≡◌, ◌≢◌, refl, ◌∙◌, sym, true, ◌&&◌,
  Option, some, arith, inl, ap, ap₂, leb, ltb, if◌then◌else◌,
}
use fruity_orange.Mm.Pmm.{page_size}
use fruity_orange.Mm.Vmm.{Vmm, is_present, page_index}
use fruity_orange.Mm.Vmm.Table.{directory, translation, IsWellFormed, IsOutside, bind_some}
use fruity_orange.Mm.Vmm.Map.{update, map_page-update}
use fruity_orange.Mm.Vmm.Find.{window_on, unmap_current, vmm_map_page, vmm_map_area}

-- The tables of `n` pages from `page` on are there, and none of them is the window.
abbrev pub AreTabled : Vmm → ℕ → ℕ → Type 0
AreTabled s page n =
    (q : ℕ)
    → page ≤ q
    → q < page + n
    → (q / 1024 ≢ 960) × (is_present (s.phys (directory s) (q / 1024)) ≡ true)

-- `n` pages from `page` on, mapped to as many frames from `frame` on.
abbrev pub update_area : (ℕ → Option ℕ) → ℕ → ℕ → ℕ → ℕ → Option ℕ
update_area t page frame n q =
    if leb page q && ltb q (page + n) then some (frame + (q - page)) else t q

area_end : (t : ℕ → Option ℕ) (page frame q : ℕ) → t q ≡ update_area t page frame 0 q
area_end t page frame q = ground arith

area_step :
    (t t' : ℕ → Option ℕ) (page frame n q : ℕ)
    → t' q ≡ update t page frame q
    → update_area t' (page + 1) (frame + 1) n q ≡ update_area t page frame (suc n) q
area_step t t' page frame n q e = ground arith

-- In a well-formed state, for an area of pages outside of the window on the tables (the 4 MB from
-- 0xf0000000) whose tables are there, `vmm_map_area` in the current context returns 0, if the
-- addresses are aligned, the area and the frames end below 4 GB and the flags are below 8. It maps page
-- after page to frame after frame, every page that is neither in the area nor in the window is
-- mapped as before, and the state stays well-formed. What the window maps to is not stated.
pub map_area-update :
    (n : ℕ) (s : Vmm) (vaddr paddr flags : ℕ)
    → IsWellFormed s
    → vaddr % page_size ≡ 0
    → paddr % page_size ≡ 0
    → vaddr + n * page_size < 2 ^ 32
    → paddr + n * page_size < 2 ^ 32
    → flags < 8
    → AreTabled s (page_index vaddr) n
    → (s' : Vmm) × (vmm_map_area s.current_context vaddr paddr n flags s ≡ some (0, s'))
      × IsWellFormed s'
      × ((q : ℕ)
          → IsOutside q
          → translation s' q
            ≡ update_area (translation s) (page_index vaddr) (page_index paddr) n q)
unfolding vmm_map_area
map_area-update zero s vaddr paddr flags v av pp hv hp hf tabled =
    (s, refl, v, λ q o. area_end (translation s) (page_index vaddr) (page_index paddr) q)
map_area-update (suc n) s vaddr paddr flags v av pp hv hp hf tabled =
    let here = tabled (page_index vaddr) (omega arith) (omega arith) in
    let (s1, run, m) =
      map_page-update window_on unmap_current s vaddr paddr flags v (omega arith) av (omega arith)
        pp hf here.0 (inl here.1) in
    let nv : (vaddr + page_size) % 2 ^ 32 ≡ vaddr + page_size = omega arith in
    let np : (paddr + page_size) % 2 ^ 32 ≡ paddr + page_size = omega arith in
    let (s2, run2, well, maps) =
      map_area-update n s1 (vaddr + page_size) (paddr + page_size) flags m.well (omega arith)
        (omega arith) (omega arith) (omega arith) hf
        (λ q a b.
          let there = tabled q (omega arith) (omega arith) in
          (there.0, m.kept (q / 1024) there.1)) in
    let pv : page_index (vaddr + page_size) ≡ page_index vaddr + 1 = omega arith in
    let pq : page_index (paddr + page_size) ≡ page_index paddr + 1 = omega arith in
    (
      s2,
      bind_some (vmm_map_page s.current_context vaddr paddr flags) _ s run
          ∙ ap₂ (λ (x y : ℕ). vmm_map_area s.current_context x y n flags s1) nv np
          ∙ ap (λ (c : ℕ). vmm_map_area c (vaddr + page_size) (paddr + page_size) n flags s1)
              (sym m.same_context)
          ∙ run2,
      well,
      λ q o.
          maps q o
          ∙ ap₂ (λ (x y : ℕ). update_area (translation s1) x y n q) pv pq
          ∙ area_step (translation s) (translation s1) (page_index vaddr) (page_index paddr) n q
              (m.refines q o),
    )
