-- ===== src/Mm/Vmm/Contexts/Kernel.antt =====
-- What `vmm_activate_context` of kernel/mm/vmm.c keeps: the kernel's pages are the same in every context.
use fruity_orange.Base.{
  ℕ, ◌*◌, ◌/◌, ◌%◌, ◌^◌, ◌<◌, ◌≤◌, ◌≡◌, ◌≢◌, refl, sym, ap, ◌∙◌, true, false, ◌&&◌, leb, ltb, ◌==◌,
  if◌then◌else◌, bit_or, arith,
}
use fruity_orange.Mm.Pmm.{page_size}
use fruity_orange.Mm.Vmm.{Vmm, page_walk, is_present, frame_of, poke}
use fruity_orange.Mm.Vmm.Walk.{present-bit_or, present-flag, frame_of-bit_or, frame_of-page}
use fruity_orange.Mm.Vmm.Table.{directory, translation}
use fruity_orange.Mm.Vmm.Contexts.{vmm_update_context, vmm_activate_context, copy_words}

-- The entry for the window that a context gets.
window_entry : ℕ → ℕ
window_entry context = bit_or (bit_or context 1) 2

window_entry-frame :
    (context : ℕ)
    → context < 2 ^ 32
    → (frame_of (window_entry context) ≡ context / page_size)
      × (is_present (window_entry context) ≡ true)
unfolding window_entry
window_entry-frame context h = (
  frame_of-bit_or (bit_or context 1) 2 (omega arith)
      ∙ frame_of-bit_or context 1 (omega arith)
      ∙ frame_of-page context h,
  present-bit_or (bit_or context 1) 2 (present-flag context 1 refl),
)

module _ (s : Vmm) (context : ℕ) (other : context ≢ s.current_context)
    (some_context : context ≢ 0) where
  activated : vmm_activate_context context s ≡ record s {
    phys =
        poke
          (context / page_size)
          960
          (window_entry context)
          (copy_words (directory s) (context / page_size) 768 1023 s.phys);
    current_context = context;
  }
  unfolding vmm_activate_context vmm_update_context window_entry
  activated =
      let a : (s.current_context == context) ≡ false = ground arith in
      let b : (context == 0) ≡ false = ground arith in rw (a, b) refl

  -- The entries of the directory of the context.
  activated_entry :
      (j : ℕ)
      → (vmm_activate_context context s).phys (context / page_size) j ≡ (
          if j == 960
          then window_entry context
          else if leb 768 j && ltb j 1023
          then s.phys (directory s) j
          else s.phys (context / page_size) j)
  activated_entry j = ap (λ (x : Vmm). x.phys (context / page_size) j) activated ∙ ground arith

  -- Other frames are left alone.
  activated_other :
      (f j : ℕ) → f ≢ context / page_size → (vmm_activate_context context s).phys f j ≡ s.phys f j
  activated_other f j ne = ap (λ (x : Vmm). x.phys f j) activated ∙ ground arith

  activated_context : (vmm_activate_context context s).current_context ≡ context
  activated_context = ap (λ (x : Vmm). x.current_context) activated

  kernel_page :
      (q : ℕ)
      → 768 * 1024 ≤ q
      → q < 1023 * 1024
      → q / 1024 ≢ 960
      → frame_of (s.phys (directory s) (q / 1024)) ≢ context / page_size
      → page_walk (vmm_activate_context context s).phys (context / page_size) q ≡ translation s q
  unfolding page_walk
  kernel_page q a b o ne =
      let row : (vmm_activate_context context s).phys (context / page_size) (q / 1024)
          ≡ s.phys (directory s) (q / 1024) =
        activated_entry (q / 1024) ∙ ground arith in
      rw (row, activated_other (frame_of (s.phys (directory s) (q / 1024))) (q % 1024) ne) refl

-- The activation of another context, with a page-aligned directory below 4 GB that is no table of the context
-- that is current: every page of the kernel below the directory's last entry, but for the window, is mapped as
-- it was; the directory of the new context is its own table in the window; and
-- the last entry is left as it was in the new context.
pub activate_kernel :
    (s : Vmm) (context : ℕ)
    → context ≢ s.current_context
    → context ≢ 0
    → context < 2 ^ 32
    → ((j : ℕ) → 768 ≤ j → j < 1023 → frame_of (s.phys (directory s) j) ≢ context / page_size)
    → let s' = vmm_activate_context context s in
      ((q : ℕ)
        → 768 * 1024 ≤ q
        → q < 1023 * 1024
        → q / 1024 ≢ 960
        → translation s' q ≡ translation s q)
      × (frame_of (s'.phys (directory s') 960) ≡ directory s')
      × (is_present (s'.phys (directory s') 960) ≡ true)
      × (s'.phys (context / page_size) 1023 ≡ s.phys (context / page_size) 1023)
activate_kernel s context other given below apart = (
  λ q a b o.
      ap (λ (c : ℕ). page_walk after.phys (c / page_size) q) here
      ∙ kernel_page s context other given q a b o (apart (q / 1024) (omega arith) (omega arith)),
  ap (λ (c : ℕ). frame_of (after.phys (c / page_size) 960)) here
      ∙ ap frame_of row
      ∙ (window_entry-frame context below).0
      ∙ ap (λ (c : ℕ). c / page_size) (sym here),
  ap (λ (c : ℕ). is_present (after.phys (c / page_size) 960)) here
      ∙ ap is_present row
      ∙ (window_entry-frame context below).1,
  activated_entry s context other given 1023,
)
  where
    after : Vmm
    after = vmm_activate_context context s

    here : after.current_context ≡ context
    here = activated_context s context other given

    row : after.phys (context / page_size) 960 ≡ window_entry context
    row = activated_entry s context other given 960
