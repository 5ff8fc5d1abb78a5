-- ===== src/Mm/Pmm/Tests.antt =====
-- The theorems on kernel/mm/pmm.c at a bitmap whose frames 1 and 2 are free, and runs on a short
-- bitmap.
use fruity_orange.Base.{
  ℕ, suc, ◌^◌, ◌<◌, ◌≡◌, refl, false, some, [], ◌∷◌, replicate, arith, ap, length-replicate,
  All-replicate,
}
use fruity_orange.Mm.Pmm.{Pmm, bit, pmm_free, find_bit, scan, pmm_alloc}
use fruity_orange.Mm.Pmm.Alloc.{
  IsSound, Outcome, alloc-Outcome, alloc-IsSound, alloc-free, alloc_many, Distinct,
  alloc_many-Distinct,
}
use fruity_orange.Mm.Pmm.Boot.{Boot, MultibootModule, init_pmm, frames}
use fruity_orange.Mm.Pmm.Boot.Steps.{Fits}
use fruity_orange.Mm.Pmm.Boot.Init.{init_pmm_total, init_pmm-IsSound, init_pmm_kernel}

-- A short bitmap: frames 33 and 36 are free.
abbrev short : Pmm
short = record { bitmap = 0 ∷ 0x12 ∷ []; last_free_ptr = 0; can_do_fast_alloc = false }

alloc_runs : (pmm_alloc short).0 ≡ 0x21000
unfolding pmm_alloc scan find_bit
alloc_runs = refl

alloc_many_runs : alloc_many 3 short ≡ 0x21000 ∷ 0x24000 ∷ 0 ∷ []
unfolding alloc_many pmm_alloc scan find_bit
alloc_many_runs = refl

-- Nothing of the array but its first word is set.
start : Pmm
start = record { bitmap = 6 ∷ replicate 0x7fff 0; last_free_ptr = 0; can_do_fast_alloc = false }

start-IsSound : IsSound start
unfolding start
start-IsSound = record {
  array = record {
    size = ap suc (length-replicate {A = ℕ} 0x7fff 0);
    words = (omega arith, All-replicate (λ (w : ℕ). w < 2 ^ 32) 0x7fff 0 (omega arith));
  };
  null_used = refl;
  cached_ptr = λ e. absurd (ground arith);
  cached_page = λ e. absurd (ground arith);
  cached_free = λ e. absurd (ground arith);
}

frame_3_used : bit start.bitmap 3 ≡ 0
unfolding start
frame_3_used = refl

alloc-Outcome_example : Outcome start (pmm_alloc start).0 (pmm_alloc start).1
alloc-Outcome_example = alloc-Outcome start start-IsSound

alloc-IsSound_example : IsSound (pmm_alloc start).1
alloc-IsSound_example = alloc-IsSound start start-IsSound

alloc-free_example :
    let (addr, s') = pmm_alloc (pmm_free 0x3000 start) in
    (addr ≡ 0x3000) × (s'.bitmap ≡ start.bitmap)
alloc-free_example = alloc-free 0x3000 start start-IsSound (omega arith) frame_3_used

alloc_many-Distinct_example : Distinct (alloc_many 3 start)
alloc_many-Distinct_example = alloc_many-Distinct 3 start start-IsSound

-- A machine with 16 MB from 1 MB on, the kernel at 1 MB and one module behind it.
abbrev initrd : MultibootModule
initrd = record { mod_start = 0x12_0000; mod_end = 0x12_2345 }

abbrev machine : Boot
machine = record {
  mb_info = 0xc000_9500;
  mmap = record { base = 0x10_0000; size = 0x100_0000; kind = 1 } ∷ [];
  mods_addr = 0x1_0000;
  modules = initrd ∷ [];
  kernel_start_phys = 0x10_0000;
  kernel_end_phys = 0x11_8000;
}

machine-Fits : Fits machine
machine-Fits = omega arith

booted : (s' : Pmm) × (init_pmm (suc frames) machine start ≡ some s')
booted = init_pmm_total frames machine start machine-Fits (omega arith)

init_pmm_total_example : (s' : Pmm) × (init_pmm (suc frames) machine start ≡ some s')
init_pmm_total_example = init_pmm_total frames machine start machine-Fits (omega arith)

init_pmm-IsSound_example : IsSound booted.0 × (booted.0.can_do_fast_alloc ≡ false)
init_pmm-IsSound_example =
    init_pmm-IsSound (suc frames) machine start booted.0 start-IsSound.array.size machine-Fits
      booted.1

init_pmm_kernel_example : bit booted.0.bitmap 0x117 ≡ 0
init_pmm_kernel_example =
    init_pmm_kernel (suc frames) machine start booted.0 start-IsSound.array.size machine-Fits
      booted.1 0x117 (omega arith) (omega arith) (omega arith)
