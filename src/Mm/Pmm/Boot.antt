-- ===== src/Mm/Pmm/Boot.antt =====
-- `init_pmm` of kernel/mm/pmm.c: the bitmap from the multiboot memory map, less the kernel and
-- the modules. The map is the list of its entries (kernel/include/multiboot.h), and so are the
-- modules; the linker's symbols `kernel_start_phys` and `kernel_end_phys` are fields of `Boot`.
-- A walk over an area takes fuel: at most 2 ^ 20 frames lie below 4 GB.
mod Walk
pub mod Steps
pub mod Init
use fruity_orange.Base.{
  ℕ, zero, suc, ◌+◌, ◌-◌, ◌*◌, ◌/◌, ◌%◌, ◌^◌, ◌≤◌, ◌<◌, ◌≡◌, refl, Bool, true, false, Option, none,
  some, List, [], ◌∷◌, ◌==◌, ltb, if◌then◌else◌, length, All, Bool-cases, Option-cases, ◌⊎◌, inl,
  inr, arith, ◌∙◌, ap, digit-zero, get_or,
}
use fruity_orange.Mm.Pmm.{Pmm, bit, page_size, bitmap_size, pmm_free, pmm_mark_used}
use fruity_orange.Mm.Pmm.Bitmap.{
  IsBitmap, IsPtr, bit_free, bit_mark_used, free-IsBitmap, mark_used-IsBitmap,
}

-- `multiboot_mmap_t`: `base` and `length` have 64 bits.
pub record MultibootMmap : Type 0 where
  pub base : ℕ
  pub size : ℕ
  pub kind : ℕ

pub record MultibootModule : Type 0 where
  pub mod_start : ℕ
  pub mod_end : ℕ

-- What `init_pmm` reads: `mb_info` is the pointer that it is given.
pub record Boot : Type 0 where
  pub mb_info : ℕ
  pub mmap : List MultibootMmap
  pub mods_addr : ℕ
  pub modules : List MultibootModule
  pub kernel_start_phys : ℕ
  pub kernel_end_phys : ℕ

abbrev pub pmm_free_type : ℕ
pmm_free_type = 1

abbrev pub vaddr_kernel_start : ℕ
vaddr_kernel_start = 0xc000_0000

-- `sizeof(multiboot_info_t)`, by which a `multiboot_info_t*` is scaled.
abbrev multiboot_info_size : ℕ
multiboot_info_size = 80

-- The calls run one after the other.
infixl 5 ◌>>=◌
abbrev pub ◌>>=◌ : Option Pmm → (Pmm → Option Pmm) → Option Pmm
none >>= f = none
some s >>= f = f s

-- `while(addr < end) { step(addr); addr += PAGE_SIZE; }`; `none` where the fuel runs out.
pub walk_pages : (ℕ → Pmm → Pmm) → ℕ → ℕ → ℕ → Pmm → Option Pmm
walk_pages step zero addr end s = none
walk_pages step (suc n) addr end s =
    let rest = walk_pages step n ((addr + page_size) % 2 ^ 32) end (step addr s) in
    if ltb addr end then rest else some s

abbrev pub frames : ℕ
frames = 2 ^ 20

pub clear_bitmap : List ℕ → List ℕ
clear_bitmap [] = []
clear_bitmap (w ∷ ws) = 0 ∷ clear_bitmap ws

-- Step 2, one entry of the memory map.
pub release_entry : ℕ → MultibootMmap → Pmm → Option Pmm
unfolding walk_pages
release_entry fuel e s =
    if e.kind == pmm_free_type
    then walk_pages pmm_free fuel (e.base % 2 ^ 32) ((e.base % 2 ^ 32 + e.size) % 2 ^ 32) s
    else some s

pub release_map : ℕ → List MultibootMmap → Pmm → Option Pmm
unfolding release_entry
release_map fuel [] s = some s
release_map fuel (e ∷ es) s = release_entry fuel e s >>= release_map fuel es

-- Step 5.
pub occupy_modules : ℕ → List MultibootModule → Pmm → Option Pmm
unfolding walk_pages
occupy_modules fuel [] s = some s
occupy_modules fuel (m ∷ ms) s =
    walk_pages pmm_mark_used fuel m.mod_start m.mod_end s >>= occupy_modules fuel ms

-- `mb_info - VADDR_KERNEL_START`, as C scales it.
abbrev pub mb_info_arg : Boot → ℕ
mb_info_arg b = (b.mb_info + 2 ^ 32 - vaddr_kernel_start * multiboot_info_size % 2 ^ 32) % 2 ^ 32

pub init_pmm : ℕ → Boot → Pmm → Option Pmm
unfolding clear_bitmap release_map occupy_modules
init_pmm fuel b s = do
  s2 ← release_map fuel b.mmap (record s { bitmap = clear_bitmap s.bitmap })
  s3 ← walk_pages pmm_mark_used fuel b.kernel_start_phys b.kernel_end_phys s2
  s5 ← occupy_modules fuel b.modules (pmm_mark_used b.mods_addr (pmm_mark_used (mb_info_arg b) s3))
  some (record (pmm_mark_used 0 s5) { can_do_fast_alloc = false })
