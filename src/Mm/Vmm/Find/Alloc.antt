-- ===== src/Mm/Vmm/Find/Alloc.antt =====
-- `vmm_paddr` and `vmm_alloc` of kernel/mm/vmm.c, in the context that is current.
use fruity_orange.Base.{
  ℕ, ◌*◌, ◌/◌, ◌%◌, ◌^◌, ◌<◌, ◌≡◌, ◌≢◌, ◌∙◌, sym, true, some, arith, ap, bit_and, bit_and-page,
}
use fruity_orange.Mm.Pmm.{Pmm, bit, page_size, pmm_alloc}
use fruity_orange.Mm.Pmm.Alloc.{exhausted, allocated, alloc-Outcome, alloc-IsSound}
use fruity_orange.Mm.Vmm.{
  Vmm, page_walk, is_present, frame_of, pd_index, pt_index, page_index, page_mask, pt_vaddr,
  load_word, alloc_frame, ◌>>=◌,
}
use fruity_orange.Mm.Vmm.Table.{
  directory, translation, IsWellFormed, IsOutside, HasTable, bind_some, get_no_flags,
}
use fruity_orange.Mm.Vmm.Map.{update, map_page-update}
use fruity_orange.Mm.Vmm.Unmap.{IsTabled, table_of, table_reached, load_at}
use fruity_orange.Mm.Vmm.Find.{
  window_on, unmap_current, vmm_map_page, vmm_paddr, vmm_get_pagetable, vmm_alloc, automap_page,
  the_context,
}
use fruity_orange.Mm.Vmm.Find.Room.{Room}
use fruity_orange.Mm.Vmm.Find.Automap.{automap_page-update}

-- The entry of a page that is mapped.
mapped_entry :
    (s : Vmm) (vaddr f : ℕ)
    → is_present (s.phys (directory s) (pd_index (page_index vaddr))) ≡ true
    → translation s (page_index vaddr) ≡ some f
    → frame_of (s.phys (table_of s vaddr) (pt_index (page_index vaddr))) ≡ f
unfolding page_walk
mapped_entry s vaddr f p e = ground arith

-- In a well-formed state, `vmm_paddr` of an address of the current context, outside of the window and with its
-- table there, returns the frame that the processor's walk finds, and changes nothing.
pub paddr-page_walk :
    (s : Vmm) (vaddr f : ℕ)
    → IsWellFormed s
    → IsTabled s vaddr
    → translation s (page_index vaddr) ≡ some f
    → vmm_paddr s.current_context vaddr s ≡ some (f * page_size, s)
unfolding vmm_paddr
paddr-page_walk s vaddr f v h e =
    bind_some (vmm_get_pagetable s.current_context pd 0) _ s (get_no_flags window_on s pd v.paging)
    ∙ bind_some (load_word (pt_vaddr pd) (pt_index (page_index vaddr))) _ s (
        load_at s (pt_vaddr pd) (pt_index (page_index vaddr)) (table_of s vaddr)
          (table_reached s vaddr v h))
    ∙ ap (λ (x : ℕ). some (x, s)) value
  where
    pd : ℕ
    pd = pd_index (page_index vaddr)

    w : ℕ
    w = s.phys (table_of s vaddr) (pt_index (page_index vaddr))

    value : bit_and w page_mask ≡ f * page_size
    value = omega (arith, bit_and-page w, mapped_entry s vaddr f h.present e)

-- After `vmm_map_page` of an aligned address to an aligned frame in a well-formed state, outside of the
-- window and with a table or a frame for it at hand, `vmm_paddr` gives that frame.
pub paddr-map_page :
    (s : Vmm) (vaddr paddr flags : ℕ)
    → IsWellFormed s
    → vaddr < 2 ^ 32
    → vaddr % page_size ≡ 0
    → paddr < 2 ^ 32
    → paddr % page_size ≡ 0
    → flags < 8
    → pd_index (page_index vaddr) ≢ 960
    → HasTable s (pd_index (page_index vaddr))
    → (s' : Vmm) × ((vmm_map_page s.current_context vaddr paddr flags >>= λ r.
            vmm_paddr s.current_context vaddr)
          s
        ≡ some (paddr, s'))
paddr-map_page s vaddr paddr flags v hv av hp pp hf o has =
    let (s', run, m) =
      map_page-update window_on unmap_current s vaddr paddr flags v hv av hp pp hf o has in
    let there : IsTabled s' vaddr = record { inside = hv; outside = o; present = m.present } in
    let maps : translation s' (page_index vaddr) ≡ some (page_index paddr) =
      m.refines (page_index vaddr) (omega arith, o) ∙ ground arith in
    let whole : page_index paddr * page_size ≡ paddr = omega arith in
    (
      s',
      bind_some (vmm_map_page s.current_context vaddr paddr flags) _ s run
          ∙ ap (λ (c : ℕ). vmm_paddr c vaddr s') (sym m.same_context)
          ∙ paddr-page_walk s' vaddr (page_index paddr) m.well there maps
          ∙ ap (λ (x : ℕ). some (x, s')) whole,
    )

-- The state after a frame is taken.
abbrev pub taken : Vmm → Vmm
taken s = record s { pmm = (pmm_alloc s.pmm).1 }

pub taken-IsWellFormed : (s : Vmm) → IsWellFormed s → IsWellFormed (taken s)
taken-IsWellFormed s v = record {
  paging = v.paging;
  sound = alloc-IsSound s.pmm v.sound;
  tree = v.tree;
  used = λ j hj p. elim (alloc-Outcome s.pmm v.sound) [
    | exhausted z same all ↦
        ap (λ (x : Pmm). bit x.bitmap (frame_of (s.phys (directory s) j))) same ∙ v.used j hj p
    | allocated f addr pos below was cleared ↦
        ground (arith, cleared (frame_of (s.phys (directory s) j)), v.used j hj p)
  ];
}

-- A frame that is taken: aligned, below 4 GB, and free before.
pub record IsTaken (s : Vmm) : Type 0 where
  pub bounded : (pmm_alloc s.pmm).0 < 2 ^ 32
  pub aligned : (pmm_alloc s.pmm).0 % page_size ≡ 0
  pub was_free : bit s.pmm.bitmap ((pmm_alloc s.pmm).0 / page_size) ≡ 1

pub alloc-IsTaken : (s : Vmm) → IsWellFormed s → (pmm_alloc s.pmm).0 ≢ 0 → IsTaken s
alloc-IsTaken s v left = elim (alloc-Outcome s.pmm v.sound) [
  | exhausted z same all ↦ absurd (left z)
  | allocated f addr pos below was cleared ↦
      let page : (pmm_alloc s.pmm).0 / page_size ≡ f = omega arith in
      record { bounded = omega arith; aligned = omega arith; was_free = rw page was }
]

-- In a well-formed state with two frames left, `vmm_alloc` returns, and the state stays well-formed. It
-- maps a page of the current context that was not mapped, between the limits for user space, to a
-- frame that was free, or it returns NULL and maps page 0 to that frame. Every other page
-- outside of the window on the tables (the 4 MB from 0xf0000000) is mapped as before; what the
-- window maps to is not stated.
pub vmm_alloc-update :
    (s : Vmm)
    → IsWellFormed s
    → (pmm_alloc s.pmm).0 ≢ 0
    → (pmm_alloc (taken s).pmm).0 ≢ 0
    → (a frame : ℕ) × (s' : Vmm) × (vmm_alloc s ≡ some (a, s'))
      × Room (translation s) 1 1 (768 * 1024) a
      × (bit s.pmm.bitmap frame ≡ 1)
      × IsWellFormed s'
      × ((q : ℕ) → IsOutside q → translation s' q ≡ update (translation s) (page_index a) frame q)
unfolding vmm_alloc alloc_frame the_context
vmm_alloc-update s v left more =
    let k = alloc-IsTaken s v left in
    let (a, s', run, r, well, maps) =
      automap_page-update (taken s) 0x1000 0xbfffffff 7 (pmm_alloc s.pmm).0 (taken-IsWellFormed s v)
        (omega arith) (omega arith) (omega arith) (omega arith) k.bounded k.aligned more in
    (a, page_index (pmm_alloc s.pmm).0, s', (unfold automap_page in run), r, k.was_free, well, maps)
