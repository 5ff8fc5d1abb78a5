-- ===== src/Mm/Vmm/Table.antt =====
-- The table of an entry of the directory that is current: found, or made.
use fruity_orange.Base.{
  ℕ, ◌+◌, ◌*◌, ◌/◌, ◌^◌, ◌<◌, ◌≡◌, ◌≢◌, refl, ap, sym, ◌∙◌, true, false, Option, some, bit_or,
  arith, bit_or-zero, Bool-cases, inl, inr, ◌⊎◌,
}
use fruity_orange.Mm.Pmm.{bit, page_size, pmm_alloc}
use fruity_orange.Mm.Pmm.Alloc.{IsSound, exhausted, allocated, alloc-Outcome, alloc-IsSound}
use fruity_orange.Mm.Vmm.{
  Vmm, Words, M, page_walk, reach, is_present, frame_of, poke, blank_page, dir_entry, set_entry,
  pt_vaddr, page_index, get_pagetable, create_pagetable, table_for, clear_page, alloc_frame, ◌>>=◌,
}
use fruity_orange.Mm.Vmm.Walk.{
  IsTree, Agree, Agree-flags, IsTree-Agree, page_walk-Agree, page_walk-window, poke-poke, poke_same,
  present-flag, present-bit_or, frame_of-bit_or, frame_of-page, with_table, with_table-dir,
  IsTree-with_table, page_walk-with_table,
}

-- The frame of the directory that is current.
abbrev pub directory : Vmm → ℕ
directory s = s.current_context / page_size

-- The page frame that a page of the current context is mapped to.
abbrev pub translation : Vmm → ℕ → Option ℕ
translation s = page_walk s.phys (directory s)

-- Paging is on, the frames are accounted for, and the directory is one: it is its own table 960, its
-- tables are different frames, and all of them are in use.
pub record IsWellFormed (s : Vmm) : Type 0 where
  pub paging : s.paging_initalized ≡ true
  pub sound : IsSound s.pmm
  pub tree : IsTree s.phys (directory s)
  pub used :
      (j : ℕ)
      → j < 1024
      → is_present (s.phys (directory s) j) ≡ true
      → bit s.pmm.bitmap (frame_of (s.phys (directory s) j)) ≡ 0

-- A page outside of the window on the tables.
abbrev pub IsOutside : ℕ → Type 0
IsOutside q = (q < 2 ^ 20) × (q / 1024 ≢ 960)

-- What the search for the table `pd` leaves: the table is there, and no page is mapped otherwise.
pub record Ready (s : Vmm) (pd : ℕ) (s' : Vmm) : Type 0 where
  pub well : IsWellFormed s'
  pub same_context : s'.current_context ≡ s.current_context
  pub present : is_present (s'.phys (directory s') pd) ≡ true
  pub same : (q : ℕ) → IsOutside q → translation s' q ≡ translation s q
  -- A frame was taken, or none.
  pub spent : (s'.pmm ≡ s.pmm) ⊎ (s'.pmm ≡ (pmm_alloc s.pmm).1)
  pub kept :
      (j : ℕ)
      → is_present (s.phys (directory s) j) ≡ true
      → is_present (s'.phys (directory s') j) ≡ true

pub get_current :
    (automap : ℕ → M ℕ) (s : Vmm) (i flags : ℕ)
    → s.paging_initalized ≡ true
    → get_pagetable automap s.current_context i flags s
      ≡ some (
        pt_vaddr i,
        set_entry s.current_context i (bit_or (dir_entry s s.current_context i) flags) s,
      )
unfolding get_pagetable
get_current automap s i flags e = ground arith

pub reach-table :
    (s : Vmm) (i : ℕ)
    → s.paging_initalized ≡ true
    → is_present (s.phys (directory s) 960) ≡ true
    → frame_of (s.phys (directory s) 960) ≡ directory s
    → i < 1024
    → is_present (s.phys (directory s) i) ≡ true
    → reach s (pt_vaddr i) ≡ some (frame_of (s.phys (directory s) i))
unfolding reach
reach-table s i on p e h q =
    let a : page_index (pt_vaddr i) ≡ 0xf0000 + i = omega arith in
    rw (on, a) (ground (arith, page_walk-window s.phys (directory s) i p e h))

-- Flags that are added to a present entry of the directory.
abbrev pub flagged : ℕ → ℕ → Vmm → Vmm
flagged pd flags s =
    set_entry s.current_context pd (bit_or (dir_entry s s.current_context pd) flags) s

pub flagged-Ready :
    (s : Vmm) (pd flags : ℕ)
    → IsWellFormed s
    → flags < 8
    → is_present (dir_entry s s.current_context pd) ≡ true
    → Ready s pd (flagged pd flags s)
flagged-Ready s pd flags v h p = record {
  well = record {
    paging = v.paging;
    sound = v.sound;
    tree = IsTree-Agree s.phys _ (directory s) agree v.tree;
    used = λ j hj q.
        ap (λ (f : ℕ). bit s.pmm.bitmap f) (agree.frames (directory s) j)
        ∙ v.used j hj (sym (agree.presents (directory s) j) ∙ q);
  };
  same_context = refl;
  present = agree.presents (directory s) pd ∙ p;
  same = λ q o. page_walk-Agree s.phys _ (directory s) q agree;
  spent = inl refl;
  kept = λ j q. agree.presents (directory s) j ∙ q;
}
  where
    agree : Agree s.phys (flagged pd flags s).phys
    agree = Agree-flags s.phys (directory s) pd flags h p

-- The entry that `vmm_create_pagetable` writes, with the flags that `vmm_get_pagetable` adds again.
abbrev table_entry : ℕ → ℕ → ℕ
table_entry frame flags = bit_or (bit_or (bit_or (bit_or frame 2) 1) flags) flags

table_entry-present : (frame flags : ℕ) → is_present (table_entry frame flags) ≡ true
table_entry-present frame flags =
    present-bit_or (bit_or (bit_or (bit_or frame 2) 1) flags) flags
      (present-bit_or (bit_or (bit_or frame 2) 1) flags (present-flag (bit_or frame 2) 1 refl))

table_entry-frame :
    (f flags : ℕ) → f < 2 ^ 20 → flags < 8 → frame_of (table_entry (f * page_size) flags) ≡ f
table_entry-frame f flags h k =
    frame_of-bit_or (bit_or (bit_or (bit_or p 2) 1) flags) flags k
    ∙ frame_of-bit_or (bit_or (bit_or p 2) 1) flags k
    ∙ frame_of-bit_or (bit_or p 2) 1 (omega arith)
    ∙ frame_of-bit_or p 2 (omega arith)
    ∙ frame_of-page p (omega arith)
    ∙ omega arith
  where
    p : ℕ
    p = f * page_size

-- The state with a new table for the entry `pd`.
abbrev grown : ℕ → ℕ → Vmm → Vmm
grown pd w s = record s { pmm = (pmm_alloc s.pmm).1; phys = with_table s.phys (directory s) pd w }

pub bind_some :
    {A B : Type 0} (m : M A) (f : A → M B) (s : Vmm) {a : A} {s' : Vmm}
    → m s ≡ some (a, s')
    → (m >>= f) s ≡ f a s'
bind_some m f s e = rw (e, ◌>>=◌) refl

clear_at :
    (s : Vmm) (vaddr f : ℕ)
    → reach s vaddr ≡ some f
    → clear_page vaddr s ≡ some (tt, record s { phys = blank_page f s.phys })
unfolding clear_page
clear_at s vaddr f e = rw (e, clear_page) refl

create_current :
    (automap : ℕ → M ℕ) (s : Vmm) (pd flags : ℕ)
    → IsWellFormed s
    → pd < 1024
    → pd ≢ 960
    → create_pagetable automap s.current_context pd flags s
      ≡ some (pt_vaddr pd, grown pd (table_entry (pmm_alloc s.pmm).0 flags) s)
unfolding create_pagetable alloc_frame with_table
create_current automap s pd flags v h o =
    bind_some (get_pagetable automap s.current_context pd flags) _ s1
      (get_current automap s1 pd flags v.paging)
    ∙ bind_some (clear_page (pt_vaddr pd)) _ s2 (clear_at s2 (pt_vaddr pd) (frame_of w2) at)
    ∙ ap (λ (m : Words). some (pt_vaddr pd, record s1 { phys = blank_page (frame_of w2) m })) same
  where
    dir : ℕ
    dir = directory s

    w1 : ℕ
    w1 = bit_or (bit_or (bit_or (pmm_alloc s.pmm).0 2) 1) flags

    w2 : ℕ
    w2 = bit_or w1 flags

    s1 : Vmm
    s1 = record s { pmm = (pmm_alloc s.pmm).1; phys = poke dir pd w1 s.phys }

    s2 : Vmm
    s2 = flagged pd flags s1

    own : s1.phys dir pd ≡ w1
    own = ground arith

    same : s2.phys ≡ poke dir pd w2 s.phys
    same = rw own (poke-poke s.phys dir pd w1 w2)

    row : s2.phys dir 960 ≡ s.phys dir 960
    row = ap (λ (m : Words). m dir 960) same ∙ ground arith

    new : s2.phys dir pd ≡ w2
    new = ap (λ (m : Words). m dir pd) same ∙ ground arith

    at : reach s2 (pt_vaddr pd) ≡ some (frame_of w2)
    at =
        reach-table s2 pd v.paging (rw row v.tree.window) (rw row v.tree.itself) h
          (rw new (table_entry-present (pmm_alloc s.pmm).0 flags))
        ∙ ap (λ (e : ℕ). some (frame_of e)) new

grown-Ready :
    (s : Vmm) (pd flags : ℕ)
    → IsWellFormed s
    → flags < 8
    → pd < 1024
    → is_present (dir_entry s s.current_context pd) ≡ false
    → (pmm_alloc s.pmm).0 ≢ 0
    → Ready s pd (grown pd (table_entry (pmm_alloc s.pmm).0 flags) s)
grown-Ready s pd flags v k h absent free = elim (alloc-Outcome s.pmm v.sound) [
  | exhausted z same all ↦ absurd (free z)
  | allocated f addr pos below was cleared ↦
      let named : frame_of w ≡ f =
        ap (λ (a : ℕ). frame_of (table_entry a flags)) addr ∙ table_entry-frame f flags below k in
      let fresh : (j : ℕ)
          → j < 1024
          → is_present (m dir j) ≡ true
          → frame_of (m dir j) ≢ frame_of w =
        λ j hj q e. ground (
          arith,
          v.used j hj q,
          was,
          named,
          ap (λ (g : ℕ). bit s.pmm.bitmap g) e,
          ap (λ (g : ℕ). bit s.pmm.bitmap g) named,
        ) in
      let rows = with_table-dir m dir v.tree pd w h absent present fresh in
      record {
        well = record {
          paging = v.paging;
          sound = alloc-IsSound s.pmm v.sound;
          tree = IsTree-with_table m dir v.tree pd w h absent present fresh;
          used = λ j hj.
              rw (rows j)
                (ground (arith, cleared f, cleared (frame_of (m dir j)), v.used j hj, named));
        };
        same_context = refl;
        present = rw (rows pd) (ground (arith, present));
        same = λ q o. page_walk-with_table m dir v.tree pd w h absent present fresh q o.0 o.1;
        spent = inr refl;
        kept = λ j q. rw (rows j) (ground (arith, present, q));
      }
]
  where
    dir : ℕ
    dir = directory s

    m : Words
    m = s.phys

    w : ℕ
    w = table_entry (pmm_alloc s.pmm).0 flags

    present : is_present w ≡ true
    present = table_entry-present (pmm_alloc s.pmm).0 flags

-- A table is there, or a frame is left to make one.
abbrev pub HasTable : Vmm → ℕ → Type 0
HasTable s pd = (is_present (dir_entry s s.current_context pd) ≡ true) ⊎ ((pmm_alloc s.pmm).0 ≢ 0)

-- The table is found or made, and is returned by its place in the window.
pub table_for_lem :
    (automap hide : ℕ → M ℕ) (s : Vmm) (pd flags : ℕ)
    → IsWellFormed s
    → flags < 8
    → pd < 1024
    → pd ≢ 960
    → HasTable s pd
    → (s' : Vmm) × (table_for automap hide s.current_context pd flags s ≡ some (pt_vaddr pd, s'))
      × Ready s pd s'
unfolding table_for
table_for_lem automap hide s pd flags v k h o has =
    elim (Bool-cases (is_present (dir_entry s s.current_context pd))) [
      | inl e ↦ (
        flagged pd flags s,
        rw e (get_current automap s pd flags v.paging),
        flagged-Ready s pd flags v k e,
      )
      | inr e ↦ (
        grown pd (table_entry (pmm_alloc s.pmm).0 flags) s,
        rw e (create_current automap s pd flags v h o),
        grown-Ready s pd flags v k h e (elim has [ inl p ↦ absurd (cc) | inr free ↦ free ]),
      )
    ]

flagged_zero : (s : Vmm) (pd : ℕ) → flagged pd 0 s ≡ s
flagged_zero s pd =
    ap (λ (w : ℕ). set_entry s.current_context pd w s)
      (bit_or-zero (dir_entry s s.current_context pd))
    ∙ ap (λ (m : Words). record s { phys = m }) (poke_same s.phys (directory s) pd)

-- With no flags to add, the search for the table of the current context changes nothing.
pub get_no_flags :
    (automap : ℕ → M ℕ) (s : Vmm) (i : ℕ)
    → s.paging_initalized ≡ true
    → get_pagetable automap s.current_context i 0 s ≡ some (pt_vaddr i, s)
get_no_flags automap s i e =
    get_current automap s i 0 e ∙ ap (λ (x : Vmm). some (pt_vaddr i, x)) (flagged_zero s i)
