-- ===== src/Mm/Vmm/Find.antt =====
-- `vmm_find` of kernel/mm/vmm.c and what is built on it: the mapping of a page or an area where there
-- is room, `vmm_alloc` and `vmm_alloc_area`, `vmm_paddr`, and the loops over an area.
-- The functions of the context that is current come first: the window on a table of another context is
-- made by them.
pub mod Seen
pub mod Loops
pub mod Room
pub mod Automap
pub mod Alloc
pub mod Area
pub mod Fill
use fruity_orange.Base.{
  ℕ, zero, suc, ◌+◌, ◌-◌, ◌*◌, ◌/◌, ◌%◌, ◌^◌, Option, some, ◌==◌, leb, if◌then◌else◌, bit_and,
}
use fruity_orange.Mm.Pmm.{page_size}
use fruity_orange.Mm.Pmm.Boot.{vaddr_kernel_start}
use fruity_orange.Mm.Vmm.{
  Vmm, M, pure, fault, ◌>>=◌, ◌>>◌, load_word, dir_entry, is_present, table_size, page_index,
  pd_index, pt_index, page_mask, get_pagetable, unmap_page, map_page, alloc_frame, vmm_kernel_flags,
  vmm_user_flags, vaddr_kernel_end, vaddr_user_start, vaddr_user_end,
}

-- Where the search of `vmm_find` stands: it has returned, or goes on with its `vaddr` and
-- `pages_found`.
pub data Progress : Type 0 where
  found : ℕ → Progress
  going : ℕ → ℕ → Progress

-- `PAGES_FOUND(l)`
pub pages_found : ℕ → ℕ → ℕ → ℕ → ℕ → Progress
pages_found num l page vaddr n =
    let v = if vaddr == 0 then page * page_size else vaddr in
    if leb num (n + l) then found v else going v (n + l)

abbrev pub go_on : (ℕ → ℕ → M Progress) → Progress → M Progress
go_on next (found a) = pure (found a)
go_on next (going a n) = next a n

-- The loop over the entries of the table at `pt`, with the rounds that are left.
pub pt_loop : ℕ → ℕ → ℕ → ℕ → ℕ → ℕ → ℕ → M Progress
unfolding load_word pages_found
pt_loop zero num pd pt i vaddr n = pure (going vaddr n)
pt_loop (suc k) num pd pt i vaddr n = do
  e ← load_word pt i
  go_on (λ a c. pt_loop k num pd pt (suc i) a c)
      (if is_present e then going 0 0 else pages_found num 1 (pd * table_size + i) vaddr n)

-- `pt_end - pt_index`
abbrev pub pt_rounds : ℕ → ℕ → ℕ → ℕ → ℕ
pt_rounds pd pd_end pt_end i = (if pd == pd_end then pt_end else table_size) - i

module _ (automap : ℕ → M ℕ) (context num pd_end pt_end : ℕ) where
  -- The loop over the directory.
  pub pd_loop : ℕ → ℕ → ℕ → ℕ → ℕ → M Progress
  unfolding get_pagetable pt_loop pages_found
  pd_loop zero pd i vaddr n s = some (going vaddr n, s)
  pd_loop (suc k) pd i vaddr n s =
      let next = pd_loop k (suc pd) in
      let search = get_pagetable automap context pd vmm_kernel_flags >>= λ pt.
      pt_loop (pt_rounds pd pd_end pt_end i) num pd pt i vaddr n >>= go_on (next 0) in
      if is_present (dir_entry s context pd)
      then search s
      else go_on (next i) (pages_found num table_size (pd * table_size + i) vaddr n) s

abbrev pub search_result : Progress → ℕ
search_result (found a) = a
search_result (going a n) = 0

module _ (automap : ℕ → M ℕ) where
  pub find : ℕ → ℕ → ℕ → ℕ → M ℕ
  unfolding pd_loop
  find context num limit_low limit_high = do
    let first = pd_index (page_index limit_low)
    let last = pd_index (page_index limit_high)
    p ←
        pd_loop automap context num last (pt_index (page_index limit_high)) (last + 1 - first) first
          (pt_index (page_index limit_low)) 0 0
    pure (search_result p)

-- Tables of the context that is current need no window.
pub no_window : ℕ → M ℕ
no_window paddr = fault

unfoldable pub the_context : M ℕ
the_context s = pure s.current_context s

pub unmap_current : ℕ → M ℕ
unfolding the_context unmap_page
unmap_current vaddr = do context ← the_context; unmap_page no_window context vaddr

-- `vmm_automap_kernel_page(current_context, paddr)`
pub window_on : ℕ → M ℕ
unfolding the_context find map_page unmap_current
window_on paddr = do
  context ← the_context
  vaddr ← find no_window context 1 vaddr_kernel_start vaddr_kernel_end
  r ← map_page no_window unmap_current context vaddr paddr vmm_kernel_flags
  pure vaddr

abbrev pub vmm_get_pagetable : ℕ → ℕ → ℕ → M ℕ
vmm_get_pagetable = get_pagetable window_on

abbrev pub vmm_find : ℕ → ℕ → ℕ → ℕ → M ℕ
vmm_find = find window_on

abbrev pub vmm_map_page : ℕ → ℕ → ℕ → ℕ → M ℕ
vmm_map_page = map_page window_on unmap_current

abbrev pub vmm_unmap_page : ℕ → ℕ → M ℕ
vmm_unmap_page = unmap_page window_on

pub vmm_map_area : ℕ → ℕ → ℕ → ℕ → ℕ → M ℕ
unfolding map_page
vmm_map_area context vaddr paddr zero flags = pure 0
vmm_map_area context vaddr paddr (suc pages) flags = do
  r ← vmm_map_page context vaddr paddr flags
  vmm_map_area context ((vaddr + page_size) % 2 ^ 32) ((paddr + page_size) % 2 ^ 32) pages flags

pub vmm_unmap_area : ℕ → ℕ → ℕ → M ℕ
unfolding unmap_page
vmm_unmap_area context vaddr zero = pure 0
vmm_unmap_area context vaddr (suc pages) = do
  r ← vmm_unmap_page context vaddr
  vmm_unmap_area context ((vaddr + page_size) % 2 ^ 32) pages

-- The four functions that map a page or an area where there is room.
module _ (low high flags : ℕ) where
  pub automap_page : ℕ → ℕ → M ℕ
  unfolding find map_page
  automap_page context paddr = do
    vaddr ← vmm_find context 1 low high
    r ← vmm_map_page context vaddr paddr flags
    pure vaddr

  pub automap_area : ℕ → ℕ → ℕ → M ℕ
  unfolding find vmm_map_area
  automap_area context paddr pages = do
    vaddr ← vmm_find context pages low high
    r ← vmm_map_area context vaddr paddr pages flags
    pure vaddr

abbrev pub vmm_automap_kernel_page : ℕ → ℕ → M ℕ
vmm_automap_kernel_page = automap_page vaddr_kernel_start vaddr_kernel_end vmm_kernel_flags

abbrev pub vmm_automap_kernel_area : ℕ → ℕ → ℕ → M ℕ
vmm_automap_kernel_area = automap_area vaddr_kernel_start vaddr_kernel_end vmm_kernel_flags

abbrev pub vmm_automap_user_page : ℕ → ℕ → M ℕ
vmm_automap_user_page = automap_page vaddr_user_start vaddr_user_end vmm_user_flags

abbrev pub vmm_automap_user_area : ℕ → ℕ → ℕ → M ℕ
vmm_automap_user_area = automap_area vaddr_user_start vaddr_user_end vmm_user_flags

pub vmm_alloc : M ℕ
unfolding alloc_frame find map_page the_context
vmm_alloc = do
  paddr ← alloc_frame
  context ← the_context
  vaddr ← vmm_find context 1 vaddr_user_start vaddr_user_end
  r ← vmm_map_page context vaddr paddr vmm_user_flags
  pure vaddr

-- A frame for each page of an area: the loops of `vmm_alloc_area`, of `heap_pages` and of
-- `syscall_malloc_pages`.
pub fill_area : ℕ → ℕ → ℕ → M (Unit {0})
unfolding alloc_frame map_page the_context
fill_area zero vaddr flags = pure tt
fill_area (suc pages) vaddr flags = do
  paddr ← alloc_frame
  context ← the_context
  r ← vmm_map_page context vaddr paddr flags
  fill_area pages ((vaddr + page_size) % 2 ^ 32) flags

pub vmm_alloc_area : ℕ → M ℕ
unfolding find fill_area the_context
vmm_alloc_area pages = do
  context ← the_context
  vaddr ← vmm_find context pages vaddr_user_start vaddr_user_end
  fill_area pages vaddr vmm_user_flags
  pure vaddr

pub vmm_paddr : ℕ → ℕ → M ℕ
unfolding get_pagetable load_word
vmm_paddr context vaddr = do
  pt ← vmm_get_pagetable context (pd_index (page_index vaddr)) 0
  e ← load_word pt (pt_index (page_index vaddr))
  pure (bit_and e page_mask)
