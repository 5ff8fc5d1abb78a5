-- ===== src/Mm/Vmm/Map.antt =====
-- `vmm_map_page` of kernel/mm/vmm.c, for the context that is current, against the view of a context
-- as a map from pages to frames.
use fruity_orange.Base.{
  ℕ, ◌/◌, ◌%◌, ◌^◌, ◌<◌, ◌≡◌, ◌≢◌, ◌⊎◌, refl, ◌∙◌, true, Option, some, bit_or, ◌==◌, if◌then◌else◌,
  arith, bit_and-offset,
}
use fruity_orange.Mm.Pmm.{page_size, pmm_alloc}
use fruity_orange.Mm.Vmm.{
  Vmm, Words, M, is_present, frame_of, poke, pt_vaddr, pd_index, pt_index, page_index, is_aligned,
  table_for, map_page, map_aligned, store_word, reach, finish_map,
}
use fruity_orange.Mm.Vmm.Walk.{
  IsTree-poke, poke_dir, page_walk-poke, present-flag, frame_of-bit_or, frame_of-page,
}
use fruity_orange.Mm.Vmm.Table.{
  directory, translation, IsWellFormed, IsOutside, HasTable, Ready, reach-table, table_for_lem,
  bind_some,
}

-- One more page in a map from pages to frames.
abbrev pub update : (ℕ → Option ℕ) → ℕ → ℕ → ℕ → Option ℕ
update f page frame q = if page == q then some frame else f q

-- What `vmm_map_page` leaves: outside of the window on the tables the page is
-- mapped to the frame and all others are as before.
pub record Mapped (s : Vmm) (vaddr paddr : ℕ) (s' : Vmm) : Type 0 where
  pub well : IsWellFormed s'
  pub same_context : s'.current_context ≡ s.current_context
  pub refines :
      (q : ℕ)
      → IsOutside q
      → translation s' q ≡ update (translation s) (page_index vaddr) (page_index paddr) q
  pub present : is_present (s'.phys (directory s') (pd_index (page_index vaddr))) ≡ true
  -- A frame was taken for a table, or none.
  pub spent : (s'.pmm ≡ s.pmm) ⊎ (s'.pmm ≡ (pmm_alloc s.pmm).1)
  pub kept :
      (j : ℕ)
      → is_present (s.phys (directory s) j) ≡ true
      → is_present (s'.phys (directory s') j) ≡ true

abbrev leaf : ℕ → ℕ → ℕ
leaf paddr flags = bit_or (bit_or paddr flags) 1

leaf-frame :
    (paddr flags : ℕ) → paddr < 2 ^ 32 → flags < 8 → frame_of (leaf paddr flags) ≡ paddr / 4096
leaf-frame paddr flags h k =
    frame_of-bit_or (bit_or paddr flags) 1 (omega arith)
    ∙ frame_of-bit_or paddr flags k
    ∙ frame_of-page paddr h

pub store_at :
    (s : Vmm) (vaddr i w f : ℕ)
    → reach s vaddr ≡ some f
    → store_word vaddr i w s ≡ some (tt, record s { phys = poke f i w s.phys })
unfolding store_word
store_at s vaddr i w f e = rw (e, store_word) refl

-- The write of the entry, in a state where the table is there.
written-Mapped :
    (s s1 : Vmm) (vaddr paddr flags : ℕ)
    → Ready s (pd_index (page_index vaddr)) s1
    → vaddr < 2 ^ 32
    → paddr < 2 ^ 32
    → flags < 8
    → pd_index (page_index vaddr) ≢ 960
    → Mapped s vaddr paddr (record s1 {
      phys =
          poke
            (frame_of (s1.phys (directory s1) (pd_index (page_index vaddr))))
            (pt_index (page_index vaddr))
            (leaf paddr flags)
            s1.phys;
    })
written-Mapped s s1 vaddr paddr flags r hv hp hf o = record {
  well = record {
    paging = r.well.paging;
    sound = r.well.sound;
    tree = IsTree-poke m dir r.well.tree pd i w below o r.present;
    used = λ j hj. rw (rows j) (r.well.used j hj);
  };
  same_context = r.same_context;
  refines = λ q out.
      page_walk-poke m dir r.well.tree pd i w below o r.present q out.0 out.1
      ∙ ground (
        arith,
        r.same q out,
        leaf-frame paddr flags hp hf,
        present-flag (bit_or paddr flags) 1 refl,
      );
  present = rw (rows pd) r.present;
  spent = r.spent;
  kept = λ j q. rw (rows j) (r.kept j q);
}
  where
    m : Words
    m = s1.phys

    dir : ℕ
    dir = directory s1

    pd : ℕ
    pd = pd_index (page_index vaddr)

    i : ℕ
    i = pt_index (page_index vaddr)

    w : ℕ
    w = leaf paddr flags

    below : pd < 1024
    below = omega arith

    rows : (j : ℕ) → poke (frame_of (m dir pd)) i w m dir j ≡ m dir j
    rows = poke_dir m dir r.well.tree pd i w below o r.present

aligned_true : (a : ℕ) → a % page_size ≡ 0 → is_aligned a ≡ true
aligned_true a h = ground (arith, bit_and-offset a)

finish_current :
    (automap hide : ℕ → M ℕ) (s s' : Vmm) (pt : ℕ)
    → s'.current_context ≡ s.current_context
    → finish_map automap hide s.current_context pt s' ≡ some (0, s')
finish_current automap hide s s' pt e = ground arith

map_aligned_lem :
    (automap hide : ℕ → M ℕ) (s s1 : Vmm) (vaddr paddr flags : ℕ)
    → Ready s (pd_index (page_index vaddr)) s1
    → vaddr < 2 ^ 32
    → table_for automap hide s.current_context (pd_index (page_index vaddr)) flags s
      ≡ some (pt_vaddr (pd_index (page_index vaddr)), s1)
    → map_aligned automap hide s.current_context vaddr paddr flags s
      ≡ some (
        0,
        record s1 {
          phys =
              poke
                (frame_of (s1.phys (directory s1) (pd_index (page_index vaddr))))
                (pt_index (page_index vaddr))
                (leaf paddr flags)
                s1.phys;
        },
      )
unfolding map_aligned
map_aligned_lem automap hide s s1 vaddr paddr flags r hv e =
    bind_some (table_for automap hide s.current_context pd flags) _ s e
    ∙ bind_some (store_word (pt_vaddr pd) i w) _ s1 (store_at s1 (pt_vaddr pd) i w f at)
    ∙ finish_current automap hide s (record s1 { phys = poke f i w s1.phys }) (pt_vaddr pd)
        r.same_context
  where
    pd : ℕ
    pd = pd_index (page_index vaddr)

    i : ℕ
    i = pt_index (page_index vaddr)

    w : ℕ
    w = leaf paddr flags

    f : ℕ
    f = frame_of (s1.phys (directory s1) pd)

    at : reach s1 (pt_vaddr pd) ≡ some f
    at =
        reach-table s1 pd r.well.paging r.well.tree.window r.well.tree.itself (omega arith)
          r.present

-- In a well-formed state, `vmm_map_page` in the current context, of an aligned address below 4 GB and
-- outside of the window on the tables (the 4 MB from 0xf0000000) to an aligned address of a frame below
-- 4 GB, with flags below 8 and with a table at hand or a frame to make one, returns 0. Outside of the
-- window it refines the update of the map from pages to frames: the page is mapped to the frame and
-- every other page is mapped as before. What the pages of the window map to is not stated. The
-- table is there afterwards, tables that were there stay, at most one frame was taken, the
-- context is the current one still, and the state is well-formed.
pub map_page-update :
    (automap hide : ℕ → M ℕ) (s : Vmm) (vaddr paddr flags : ℕ)
    → IsWellFormed s
    → vaddr < 2 ^ 32
    → vaddr % page_size ≡ 0
    → paddr < 2 ^ 32
    → paddr % page_size ≡ 0
    → flags < 8
    → pd_index (page_index vaddr) ≢ 960
    → HasTable s (pd_index (page_index vaddr))
    → (s' : Vmm) × (map_page automap hide s.current_context vaddr paddr flags s ≡ some (0, s'))
      × Mapped s vaddr paddr s'
unfolding map_page
map_page-update automap hide s vaddr paddr flags v hv av hp pp hf o has =
    let (s1, e, r) =
      table_for_lem automap hide s (pd_index (page_index vaddr)) flags v hf (omega arith) o has in
    (
      _,
      rw (aligned_true vaddr av, aligned_true paddr pp)
          (map_aligned_lem automap hide s s1 vaddr paddr flags r hv e),
      written-Mapped s s1 vaddr paddr flags r hv hp hf o,
    )
