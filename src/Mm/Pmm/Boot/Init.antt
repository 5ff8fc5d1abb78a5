-- ===== src/Mm/Pmm/Boot/Init.antt =====
-- What `init_pmm` leaves behind: it comes to an end, and the state is sound and spares the kernel
-- and the modules.
use fruity_orange.Base.{
  ℕ, suc, ◌*◌, ◌/◌, ◌%◌, ◌^◌, ◌≤◌, ◌<◌, ◌≡◌, refl, false, some, length, arith, ◌∙◌,
}
use fruity_orange.Mm.Pmm.{Pmm, bit, page_size, bitmap_size, pmm_mark_used}
use fruity_orange.Mm.Pmm.Bitmap.{IsBitmap, mark_used-IsBitmap}
use fruity_orange.Mm.Pmm.Alloc.{IsSound, IsSound-uncached}
use fruity_orange.Mm.Pmm.Boot.{
  MultibootModule, Boot, walk_pages, clear_bitmap, release_map, occupy_modules, init_pmm, frames,
  mb_info_arg,
}
use fruity_orange.Mm.Pmm.Boot.Walk.{
  walk_total, walk_inv, walk_covers, Taken, mark_used-Taken, mark_used_own,
}
use fruity_orange.Mm.Pmm.Boot.Steps.{
  length-clear_bitmap, clear_bitmap-All, >>=-eq-some, Among, Fits, release_map_total,
  release_map_inv, occupy_total, occupy_inv, occupy_covers,
}

-- `init_pmm` comes to an end, with fuel for the 2 ^ 20 frames below 4 GB, if the kernel, the areas of
-- the memory map and the modules each end a page or more below 4 GB, and the kernel, the modules and
-- their list start below 4 GB.
pub init_pmm_total :
    (k : ℕ) (b : Boot) (s : Pmm)
    → Fits b
    → frames ≤ k
    → (s' : Pmm) × (init_pmm (suc k) b s ≡ some s')
unfolding init_pmm
init_pmm_total k b s f h =
    let (s2, e2) =
      release_map_total k b.mmap (record s { bitmap = clear_bitmap s.bitmap }) f.map_ends h in
    let (s3, e3) =
      walk_total pmm_mark_used k b.kernel_start_phys b.kernel_end_phys s2 f.kernel_start
        f.kernel_end (omega (arith, f.kernel_end)) in
    let (s5, e5) =
      occupy_total k b.modules (pmm_mark_used b.mods_addr (pmm_mark_used (mb_info_arg b) s3))
        f.mod_starts f.mod_ends h in
    (record (pmm_mark_used 0 s5) { can_do_fast_alloc = false }, rw (e2, e3, e5))

-- The states between the steps of a run that returned.
record Run (n : ℕ) (b : Boot) (s s' : Pmm) : Type 0 where
  released : Pmm
  kernel_used : Pmm
  modules_used : Pmm
  release : release_map n b.mmap (record s { bitmap = clear_bitmap s.bitmap }) ≡ some released
  kernel :
      walk_pages pmm_mark_used n b.kernel_start_phys b.kernel_end_phys released ≡ some kernel_used
  occupy :
      occupy_modules n b.modules
        (pmm_mark_used b.mods_addr (pmm_mark_used (mb_info_arg b) kernel_used))
      ≡ some modules_used
  result : s' ≡ record (pmm_mark_used 0 modules_used) { can_do_fast_alloc = false }

run_of : (n : ℕ) (b : Boot) (s s' : Pmm) → init_pmm n b s ≡ some s' → Run n b s s'
unfolding init_pmm
run_of n b s s' e =
    let (s2, e2, r2) =
      >>=-eq-some (release_map n b.mmap (record s { bitmap = clear_bitmap s.bitmap })) _ s' e in
    let (s3, e3, r3) =
      >>=-eq-some (walk_pages pmm_mark_used n b.kernel_start_phys b.kernel_end_phys s2) _ s' r2 in
    let (s5, e5, r5) =
      >>=-eq-some
        (occupy_modules n b.modules (pmm_mark_used b.mods_addr (pmm_mark_used (mb_info_arg b) s3)))
        _ s' r3 in
    record {
      released = s2;
      kernel_used = s3;
      modules_used = s5;
      release = e2;
      kernel = e3;
      occupy = e5;
      result = ground arith;
    }

module _ (n : ℕ) (b : Boot) (s s' : Pmm) (size : length s.bitmap ≡ bitmap_size) (fits : Fits b)
    (ran : init_pmm n b s ≡ some s') where
  run : Run n b s s'
  run = run_of n b s s' ran

  released_array : IsBitmap run.released.bitmap
  released_array =
      release_map_inv n b.mmap _ run.released
        (record { size = length-clear_bitmap s.bitmap ∙ size; words = clear_bitmap-All s.bitmap })
        run.release

  kernel_array : IsBitmap run.kernel_used.bitmap
  kernel_array =
      walk_inv (λ t. IsBitmap t.bitmap) pmm_mark_used (λ a t _ u. mark_used-IsBitmap a t u) n
        b.kernel_start_phys b.kernel_end_phys run.released run.kernel_used fits.kernel_start
        released_array run.kernel

  -- What the calls for the multiboot structure keep.
  past_info : (q : ℕ) → Taken q run.kernel_used → Taken q run.modules_used
  past_info q u =
      occupy_inv n q b.modules _ run.modules_used fits.mod_starts
        (mark_used-Taken q b.mods_addr _ fits.mods_ptr
          (mark_used-Taken q (mb_info_arg b) run.kernel_used (omega arith) u))
        run.occupy

  info_array :
      IsBitmap (pmm_mark_used b.mods_addr (pmm_mark_used (mb_info_arg b) run.kernel_used)).bitmap
  info_array =
      mark_used-IsBitmap b.mods_addr _
        (mark_used-IsBitmap (mb_info_arg b) run.kernel_used kernel_array)

  finish : (q : ℕ) → Taken q run.modules_used → bit s'.bitmap q ≡ 0
  finish q u = rw run.result (mark_used-Taken q 0 run.modules_used (omega arith) u).used

  mods_used : Taken (b.mods_addr / page_size) run.modules_used
  mods_used =
      occupy_inv n (b.mods_addr / page_size) b.modules _ run.modules_used fits.mod_starts
        (mark_used_own b.mods_addr (pmm_mark_used (mb_info_arg b) run.kernel_used) fits.mods_ptr
          (mark_used-IsBitmap (mb_info_arg b) run.kernel_used kernel_array))
        run.occupy

  null_step : Taken 0 (pmm_mark_used 0 run.modules_used)
  null_step = mark_used_own 0 run.modules_used (omega arith) mods_used.array

  -- The kernel, the areas of the memory map and the modules each end a page or more below 4 GB, and
  -- the kernel, the modules and their list start below 4 GB; the bitmap has its 2 ^ 15 words. Then,
  -- after `init_pmm` has returned, the state is sound: the bitmap is one of 2 ^ 15 words of 32 bits
  -- and NULL is not free. No pointer is kept for the fast path, so the first allocation searches
  -- the bitmap.
  pub init_pmm-IsSound : IsSound s' × (s'.can_do_fast_alloc ≡ false)
  init_pmm-IsSound =
      (rw run.result (IsSound-uncached null_step.array null_step.used refl), rw run.result refl)

  -- The kernel, the areas of the memory map and the modules each end a page or more below 4 GB, and
  -- the kernel, the modules and their list start below 4 GB; the bitmap has its 2 ^ 15 words. Then,
  -- after `init_pmm` has returned, no frame of the kernel is free, if the kernel starts at a page.
  pub init_pmm_kernel :
      (q : ℕ)
      → b.kernel_start_phys % page_size ≡ 0
      → b.kernel_start_phys / page_size ≤ q
      → q * page_size < b.kernel_end_phys
      → bit s'.bitmap q ≡ 0
  init_pmm_kernel q al lo hi = finish q (
      past_info q (
        walk_covers n b.kernel_start_phys b.kernel_end_phys q run.released run.kernel_used
          fits.kernel_start al (omega (arith, fits.kernel_end)) released_array lo hi run.kernel))

  -- The kernel, the areas of the memory map and the modules each end a page or more below 4 GB, and
  -- the kernel, the modules and their list start below 4 GB; the bitmap has its 2 ^ 15 words. Then,
  -- after `init_pmm` has returned, no frame of a module is free, if the module starts at a page.
  pub init_pmm_module :
      (q : ℕ) (m : MultibootModule)
      → Among m b.modules
      → m.mod_end ≤ 2 ^ 32
      → m.mod_start % page_size ≡ 0
      → m.mod_start / page_size ≤ q
      → q * page_size < m.mod_end
      → bit s'.bitmap q ≡ 0
  init_pmm_module q m a en al lo hi = finish q (
      occupy_covers n q b.modules _ run.modules_used m fits.mod_starts info_array run.occupy a al en
        lo hi)
