-- ===== src/Mm/Vmm/Unmap.antt =====
-- `vmm_unmap_page` of kernel/mm/vmm.c, for the context that is current.
use fruity_orange.Base.{
  ℕ, zero, suc, ◌+◌, ◌^◌, ◌<◌, ◌≤◌, ◌≡◌, ◌≢◌, refl, ap, sym, ◌∙◌, true, false, none, some, ◌==◌,
  ltb, if◌then◌else◌, arith, Bool-cases, inl, inr,
}
use fruity_orange.Mm.Pmm.{pmm_free}
use fruity_orange.Mm.Vmm.{
  Vmm, Words, M, is_present, frame_of, poke, pt_vaddr, pd_index, pt_index, page_index, set_entry,
  unmap_page, release_loop, release_rounds, store_word, load_word, free_frame, reach, get_pagetable,
  pure, ◌>>=◌,
}
use fruity_orange.Mm.Vmm.Walk.{IsTree-poke, poke_dir, page_walk-poke, page_walk-window}
use fruity_orange.Mm.Vmm.Table.{
  directory, translation, IsWellFormed, IsOutside, get_no_flags, reach-table, bind_some,
}
use fruity_orange.Mm.Vmm.Map.{store_at}

pub load_at :
    (s : Vmm) (vaddr i f : ℕ) → reach s vaddr ≡ some f → load_word vaddr i s ≡ some (s.phys f i, s)
unfolding load_word
load_at s vaddr i f e = rw (e, load_word) refl

-- The state after the table is given back.
abbrev released : ℕ → ℕ → ℕ → Vmm → Vmm
released context pd pt s = record s {
  phys = (set_entry context pd 0 s).phys;
  pmm = pmm_free pt s.pmm;
}

module _ (n : ℕ) (s : Vmm) (context pd pt f i : ℕ) (e : reach s pt ≡ some f) (h : i < 1024) where
  inside : ltb i 1024 ≡ true
  inside = ground arith

  round_used : (s.phys f i == 0) ≡ false → release_loop (suc n) context pd pt i s ≡ some (tt, s)
  unfolding release_loop
  round_used z = rw inside (bind_some (load_word pt i) _ s (load_at s pt i f e) ∙ rw z refl)

  round_next :
      (s.phys f i == 0) ≡ true
      → (i == 1023) ≡ false
      → release_loop (suc n) context pd pt i s ≡ release_loop n context pd pt (i + 1) s
  unfolding release_loop
  round_next z l = rw inside (bind_some (load_word pt i) _ s (load_at s pt i f e) ∙ rw (z, l) refl)

  round_last :
      (s.phys f i == 0) ≡ true
      → (i == 1023) ≡ true
      → release_loop (suc n) context pd pt i s
        ≡ release_loop n context pd pt i (released context pd pt s)
  unfolding release_loop free_frame
  round_last z l = rw inside (bind_some (load_word pt i) _ s (load_at s pt i f e) ∙ rw (z, l) refl)

-- The search for an entry that is in use, from `i` on, ends at the first one and changes nothing.
release_stops :
    (n : ℕ) (s : Vmm) (context pd pt f i j : ℕ)
    → reach s pt ≡ some f
    → i ≤ j
    → j < 1024
    → j < i + n
    → s.phys f j ≢ 0
    → release_loop n context pd pt i s ≡ some (tt, s)
release_stops zero s context pd pt f i j e le h k nz = absurd (omega arith)
release_stops (suc n) s context pd pt f i j e le h k nz = elim (Bool-cases (s.phys f i == 0)) [
  | inl z ↦
      let ne : i ≢ j = λ e. absurd (nz (ap (λ (x : ℕ). s.phys f x) (sym e) ∙ ground arith)) in
      round_next n s context pd pt f i e (omega arith) z (ground arith)
      ∙ release_stops n s context pd pt f (i + 1) j e (omega arith) h (omega arith) nz
  | inr z ↦ round_used n s context pd pt f i e (omega arith) z
]

-- The pointer to a table that is given back leads nowhere.
gone :
    (s : Vmm) (pd : ℕ)
    → IsWellFormed s
    → pd < 1024
    → pd ≢ 960
    → reach (released s.current_context pd (pt_vaddr pd) s) (pt_vaddr pd) ≡ none
unfolding reach
gone s pd v h o =
    let a : page_index (pt_vaddr pd) ≡ 0xf0000 + pd = omega arith in
    let m : Words = poke (directory s) pd 0 s.phys in
    let row : m (directory s) 960 ≡ s.phys (directory s) 960 = ground arith in
    let new : m (directory s) pd ≡ 0 = ground arith in
    rw (v.paging, a)
      (page_walk-window m (directory s) pd (rw row v.tree.window) (rw row v.tree.itself) h
        ∙ rw new refl)

gone_faults :
    (n : ℕ) (s : Vmm) (context pd pt : ℕ)
    → reach s pt ≡ none
    → release_loop n context pd pt 1023 s ≡ none
unfolding release_loop load_word
gone_faults zero s context pd pt e = refl
gone_faults (suc n) s context pd pt e = rw (◌>>=◌, load_word, e) refl

-- With no entry in use it does not return: the table is given back, and is read again.
release_faults :
    (n : ℕ) (s : Vmm) (pd f i : ℕ)
    → IsWellFormed s
    → pd < 1024
    → pd ≢ 960
    → reach s (pt_vaddr pd) ≡ some f
    → i < 1024
    → ((j : ℕ) → i ≤ j → j < 1024 → s.phys f j ≡ 0)
    → release_loop n s.current_context pd (pt_vaddr pd) i s ≡ none
unfolding release_loop
release_faults zero s pd f i v h o e k z = refl
release_faults (suc n) s pd f i v h o e k z =
    let empty : (s.phys f i == 0) ≡ true = ground (arith, z i) in
    elim (Bool-cases (i == 1023)) [
      | inl l ↦
          let top : i ≡ 1023 = ground arith in
          round_last n s s.current_context pd (pt_vaddr pd) f i e k empty l
          ∙ ap
              (λ (x : ℕ).
                release_loop n s.current_context pd (pt_vaddr pd) x
                  (released s.current_context pd (pt_vaddr pd) s))
              top
          ∙ gone_faults n (released s.current_context pd (pt_vaddr pd) s) s.current_context pd
              (pt_vaddr pd) (gone s pd v h o)
      | inr l ↦
          round_next n s s.current_context pd (pt_vaddr pd) f i e k empty l
          ∙ release_faults n s pd f (i + 1) v h o e (ground arith) (λ j a b. z j (omega arith) b)
    ]

-- The frame of the table that a page of the current context is entered in, and its place there.
abbrev pub table_of : Vmm → ℕ → ℕ
table_of s vaddr = frame_of (s.phys (directory s) (pd_index (page_index vaddr)))

-- The address is that of a page outside of the window, and its table is there.
pub record IsTabled (s : Vmm) (vaddr : ℕ) : Type 0 where
  pub inside : vaddr < 2 ^ 32
  pub outside : pd_index (page_index vaddr) ≢ 960
  pub present : is_present (s.phys (directory s) (pd_index (page_index vaddr))) ≡ true

pub table_reached :
    (s : Vmm) (vaddr : ℕ)
    → IsWellFormed s
    → IsTabled s vaddr
    → reach s (pt_vaddr (pd_index (page_index vaddr))) ≡ some (table_of s vaddr)
table_reached s vaddr v h =
    reach-table s (pd_index (page_index vaddr)) v.paging v.tree.window v.tree.itself
      (omega (arith, h.inside)) h.present

-- The state after the entry of a page is cleared.
abbrev cleared : Vmm → ℕ → Vmm
cleared s vaddr = record s { phys = poke (table_of s vaddr) (pt_index (page_index vaddr)) 0 s.phys }

module _ (s : Vmm) (vaddr : ℕ) (v : IsWellFormed s) (h : IsTabled s vaddr) where
  below : pd_index (page_index vaddr) < 1024
  below = omega (arith, h.inside)

  rows :
      (w j : ℕ)
      → poke (table_of s vaddr) (pt_index (page_index vaddr)) w s.phys (directory s) j
        ≡ s.phys (directory s) j
  rows w j =
      poke_dir s.phys (directory s) v.tree (pd_index (page_index vaddr))
        (pt_index (page_index vaddr)) w below h.outside h.present j

  cleared-IsWellFormed : IsWellFormed (cleared s vaddr)
  cleared-IsWellFormed = record {
    paging = v.paging;
    sound = v.sound;
    tree =
        IsTree-poke s.phys (directory s) v.tree (pd_index (page_index vaddr))
          (pt_index (page_index vaddr)) 0 below h.outside h.present;
    used = λ j hj. rw (rows 0 j) (v.used j hj);
  }

  cleared-reach :
      reach (cleared s vaddr) (pt_vaddr (pd_index (page_index vaddr))) ≡ some (table_of s vaddr)
  cleared-reach =
      reach-table (cleared s vaddr) (pd_index (page_index vaddr)) v.paging
        (rw (rows 0 960) v.tree.window) (rw (rows 0 960) v.tree.itself) below
        (rw (rows 0 (pd_index (page_index vaddr))) h.present)
      ∙ ap (λ (x : ℕ). some (frame_of x)) (rows 0 (pd_index (page_index vaddr)))

  unmap_start :
      (automap : ℕ → M ℕ)
      → unmap_page automap s.current_context vaddr s
        ≡ (release_loop release_rounds s.current_context
                (pd_index (page_index vaddr))
                (pt_vaddr (pd_index (page_index vaddr)))
                0
              >>= λ _. pure 0)
            (cleared s vaddr)
  unfolding unmap_page
  unmap_start automap =
      bind_some (get_pagetable automap s.current_context (pd_index (page_index vaddr)) 0) _ s
        (get_no_flags automap s (pd_index (page_index vaddr)) v.paging)
      ∙ bind_some
          (store_word (pt_vaddr (pd_index (page_index vaddr))) (pt_index (page_index vaddr)) 0) _ s
          (store_at s (pt_vaddr (pd_index (page_index vaddr))) (pt_index (page_index vaddr)) 0
            (table_of s vaddr) (table_reached s vaddr v h))

-- In a well-formed state, `vmm_unmap_page` in the current context, of a page outside of the window on
-- the tables (the 4 MB from 0xf0000000) whose table has another entry in use, returns 0, takes the
-- page out of the map from pages to frames and leaves all others outside of the window mapped as
-- before, and the state stays well-formed.
pub unmap_page-update :
    (automap : ℕ → M ℕ) (s : Vmm) (vaddr j : ℕ)
    → IsWellFormed s
    → IsTabled s vaddr
    → j < 1024
    → j ≢ pt_index (page_index vaddr)
    → s.phys (table_of s vaddr) j ≢ 0
    → (s' : Vmm) × (unmap_page automap s.current_context vaddr s ≡ some (0, s'))
      × IsWellFormed s'
      × ((q : ℕ)
          → IsOutside q
          → translation s' q ≡ (if page_index vaddr == q then none else translation s q))
unmap_page-update automap s vaddr j v h hj ne nz = (
  cleared s vaddr,
  unmap_start s vaddr v h automap
      ∙ bind_some (release_loop release_rounds s.current_context pd (pt_vaddr pd) 0) _
          (cleared s vaddr)
          (release_stops release_rounds (cleared s vaddr) s.current_context pd (pt_vaddr pd)
            (table_of s vaddr) 0 j (cleared-reach s vaddr v h) (omega arith) hj (omega arith)
            other),
  cleared-IsWellFormed s vaddr v h,
  λ q o.
      page_walk-poke s.phys (directory s) v.tree pd (pt_index (page_index vaddr)) 0
        (below s vaddr v h) h.outside h.present q o.0 o.1
      ∙ ground arith,
)
  where
    pd : ℕ
    pd = pd_index (page_index vaddr)

    other : (cleared s vaddr).phys (table_of s vaddr) j ≢ 0
    other = ground arith

-- In a well-formed state, `vmm_unmap_page` in the current context, of a page outside of the window on
-- the tables whose table is there and has no other entry in use, never returns: the loop goes on after the table is given back, and the pointer to it
-- leads nowhere.
pub unmap_page-last :
    (automap : ℕ → M ℕ) (s : Vmm) (vaddr : ℕ)
    → IsWellFormed s
    → IsTabled s vaddr
    → ((j : ℕ) → j < 1024 → j ≢ pt_index (page_index vaddr) → s.phys (table_of s vaddr) j ≡ 0)
    → unmap_page automap s.current_context vaddr s ≡ none
unmap_page-last automap s vaddr v h z = unmap_start s vaddr v h automap ∙ rw (◌>>=◌, never) refl
  where
    pd : ℕ
    pd = pd_index (page_index vaddr)

    never :
        release_loop release_rounds s.current_context pd (pt_vaddr pd) 0 (cleared s vaddr) ≡ none
    never =
        release_faults release_rounds (cleared s vaddr) pd (table_of s vaddr) 0
          (cleared-IsWellFormed s vaddr v h) (below s vaddr v h) h.outside
          (cleared-reach s vaddr v h) (omega arith) (λ j a b. ground (arith, z j b))
