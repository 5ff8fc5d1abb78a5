-- ===== src/Mm/Vmm.antt =====
-- The virtual memory manager, kernel/mm/vmm.c with the constants of kernel/include/mm.h: page
-- directories and page tables of 1024 words each, which are read and written through pointers that
-- the machine translates by the tables themselves.
-- A context is named by the physical address of its page directory, and its field `pagedir` is taken
-- to point there. The TLB is not modelled: every access walks the tables.
pub mod Walk
pub mod Table
pub mod Map
pub mod Unmap
pub mod Find
pub mod Contexts
pub mod Tests
use fruity_orange.Base.{
  ℕ, zero, suc, ◌+◌, ◌-◌, ◌*◌, ◌/◌, ◌%◌, ◌^◌, Bool, true, false, ◌&&◌, ◌||◌, not, Option, none,
  some, bit_and, bit_or, ◌==◌, ltb, leb, if◌then◌else◌,
}
use fruity_orange.Mm.Pmm.{Pmm, page_size, pmm_alloc, pmm_free}
use fruity_orange.Mm.Pmm.Boot.{vaddr_kernel_start}

abbrev pub table_size : ℕ
table_size = 1024

abbrev pub page_mask : ℕ
page_mask = 0xfffff000

abbrev pub page_index : ℕ → ℕ
page_index x = x / page_size

abbrev pub pd_index : ℕ → ℕ
pd_index x = x / table_size

abbrev pub pt_index : ℕ → ℕ
pt_index x = x % table_size

abbrev pub vmm_present : ℕ
vmm_present = 1

abbrev pub vmm_write : ℕ
vmm_write = 2

abbrev pub vmm_kernel_flags : ℕ
vmm_kernel_flags = 3

abbrev pub vmm_user_flags : ℕ
vmm_user_flags = 7

abbrev pub vaddr_user_start : ℕ
vaddr_user_start = 0x00001000

abbrev pub vaddr_user_end : ℕ
vaddr_user_end = 0xbfffffff

abbrev pub vaddr_kernel_end : ℕ
vaddr_kernel_end = 0xffffffff

abbrev pub vaddr_pt_start : ℕ
vaddr_pt_start = 0xf0000000

-- `PT_VADDR`: where the table `i` of the context that is current is seen.
abbrev pub pt_vaddr : ℕ → ℕ
pt_vaddr i = vaddr_pt_start + page_size * i

-- The words of the machine's page frames: `phys f i` is word `i` of frame `f`.
abbrev pub Words : Type 0
Words = ℕ → ℕ → ℕ

pub record Vmm : Type 0 where
  pub pmm : Pmm
  pub phys : Words
  pub current_context : ℕ
  pub paging_initalized : Bool

abbrev pub poke : ℕ → ℕ → ℕ → Words → Words
poke f i w m g j = if f == g then (if i == j then w else m g j) else m g j

abbrev pub is_present : ℕ → Bool
is_present e = not (bit_and e vmm_present == 0)

-- The frame that an entry of a directory or of a table names.
abbrev pub frame_of : ℕ → ℕ
frame_of e = bit_and e page_mask / page_size

-- The processor's walk from the directory in frame `dir`, for a page.
pub page_walk : Words → ℕ → ℕ → Option ℕ
page_walk m dir page =
    let e = m dir (pd_index page) in
    let t = m (frame_of e) (pt_index page) in
    if is_present e then (if is_present t then some (frame_of t) else none) else none

-- The frame behind a pointer. Until the first context is loaded, the two entries of boot.S stand:
-- the first 4 MB of memory at 0 and at the start of the kernel.
pub reach : Vmm → ℕ → Option ℕ
reach s vaddr =
    if s.paging_initalized
    then page_walk s.phys (s.current_context / page_size) (page_index vaddr)
    else if ltb vaddr 0x400000
    then some (page_index vaddr)
    else if leb vaddr_kernel_start vaddr && ltb vaddr (vaddr_kernel_start + 0x400000)
    then some (page_index (vaddr - vaddr_kernel_start))
    else none

-- `none` is a page fault, or a loop that does not end.
abbrev pub M : Type 0 → Type 0
M A = Vmm → Option (A × Vmm)

abbrev pub pure : {A : Type 0} → A → M A
pure a s = some (a, s)

abbrev pub fault : {A : Type 0} → M A
fault s = none

infixl 5 ◌>>=◌ ◌>>◌
abbrev pub ◌>>=◌ : {A B : Type 0} → M A → (A → M B) → M B
◌>>=◌ m f s = elim (m s) [ none ↦ none | some (a, s') ↦ f a s' ]

abbrev pub ◌>>◌ : {B : Type 0} → M (Unit {0}) → M B → M B
m >> k = m >>= λ _. k

-- Word `i` of the page that a pointer points to.
pub load_word : ℕ → ℕ → M ℕ
load_word vaddr i s = elim (reach s vaddr) [ none ↦ none | some f ↦ some (s.phys f i, s) ]

pub store_word : ℕ → ℕ → ℕ → M (Unit {0})
store_word vaddr i w s = elim (reach s vaddr) [
  | none ↦ none
  | some f ↦ some (tt, record s { phys = poke f i w s.phys })
]

abbrev pub blank_page : ℕ → Words → Words
blank_page f m g j = if f == g then 0 else m g j

-- `memclr(vaddr, PAGE_SIZE)`
pub clear_page : ℕ → M (Unit {0})
clear_page vaddr s = elim (reach s vaddr) [
  | none ↦ none
  | some f ↦ some (tt, record s { phys = blank_page f s.phys })
]

-- `context->pagedir[i]`, read and written.
abbrev pub dir_entry : Vmm → ℕ → ℕ → ℕ
dir_entry s context i = s.phys (context / page_size) i

abbrev pub set_entry : ℕ → ℕ → ℕ → Vmm → Vmm
set_entry context i w s = record s { phys = poke (context / page_size) i w s.phys }

abbrev pub put_entry : ℕ → ℕ → ℕ → M (Unit {0})
put_entry context i w s = some (tt, set_entry context i w s)

pub alloc_frame : M ℕ
alloc_frame s = some ((pmm_alloc s.pmm).0, record s { pmm = (pmm_alloc s.pmm).1 })

pub free_frame : ℕ → M (Unit {0})
free_frame ptr s = some (tt, record s { pmm = pmm_free ptr s.pmm })

-- How a table of another context is made visible is the argument `automap`, since that is itself done
-- by these functions, for the context that is current.
module _ (automap : ℕ → M ℕ) where
  pub get_pagetable : ℕ → ℕ → ℕ → M ℕ
  get_pagetable context index flags s =
      let s1 = set_entry context index (bit_or (dir_entry s context index) flags) s in
      let paddr = bit_and (dir_entry s1 context index) page_mask in
      if s.paging_initalized
      then if context == s.current_context then some (pt_vaddr index, s1) else automap paddr s1
      else some ((paddr + vaddr_kernel_start) % 2 ^ 32, s1)

  pub create_pagetable : ℕ → ℕ → ℕ → M ℕ
  unfolding alloc_frame get_pagetable clear_page
  create_pagetable context index flags = do
    frame ← alloc_frame
    put_entry context index (bit_or (bit_or (bit_or frame vmm_write) vmm_present) flags)
    pagetable ← get_pagetable context index flags
    clear_page pagetable
    pure pagetable

-- The loop of `vmm_unmap_page` that looks whether the table is empty. It goes on after it has given
-- the table back.
pub release_loop : ℕ → ℕ → ℕ → ℕ → ℕ → M (Unit {0})
unfolding load_word free_frame
release_loop zero context pd pt i = fault
release_loop (suc n) context pd pt i =
    let next = λ (j : ℕ). release_loop n context pd pt j in
    let free = (do put_entry context pd 0; free_frame pt; next i) in
    let check = λ (e : ℕ).
      if not (e == 0) then pure tt else if i == table_size - 1 then free else next (i + 1) in
    if ltb i table_size then load_word pt i >>= check else pure tt

-- More rounds than a table has entries.
abbrev pub release_rounds : ℕ
release_rounds = 1025

module _ (automap : ℕ → M ℕ) where
  pub unmap_page : ℕ → ℕ → M ℕ
  unfolding get_pagetable store_word release_loop
  unmap_page context vaddr = do
    pt ← get_pagetable automap context (pd_index (page_index vaddr)) 0
    store_word pt (pt_index (page_index vaddr)) 0
    release_loop release_rounds context (pd_index (page_index vaddr)) pt 0
    pure 0

abbrev pub minus_one : ℕ
minus_one = 0xffffffff

abbrev pub is_aligned : ℕ → Bool
is_aligned a = bit_and a 0xfff == 0

-- `hide` takes the window on a table of another context away.
module _ (automap : ℕ → M ℕ) (hide : ℕ → M ℕ) where
  pub table_for : ℕ → ℕ → ℕ → M ℕ
  unfolding get_pagetable create_pagetable
  table_for context pd flags s =
      if is_present (dir_entry s context pd)
      then get_pagetable automap context pd flags s
      else create_pagetable automap context pd flags s

  abbrev pub finish_map : ℕ → ℕ → M ℕ
  finish_map context pt s =
      if (context == s.current_context) || not s.paging_initalized
      then some (0, s)
      else (hide pt >>= λ _. pure 0) s

  pub map_aligned : ℕ → ℕ → ℕ → ℕ → M ℕ
  unfolding table_for store_word
  map_aligned context vaddr paddr flags = do
    pt ← table_for context (pd_index (page_index vaddr)) flags
    store_word pt (pt_index (page_index vaddr)) (bit_or (bit_or paddr flags) vmm_present)
    finish_map context pt

  pub map_page : ℕ → ℕ → ℕ → ℕ → M ℕ
  unfolding map_aligned
  map_page context vaddr paddr flags =
      if is_aligned vaddr && is_aligned paddr
      then map_aligned context vaddr paddr flags
      else pure minus_one
