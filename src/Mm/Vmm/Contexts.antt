-- ===== src/Mm/Vmm/Contexts.antt =====
-- The contexts of kernel/mm/vmm.c: creation, copying, activation and the first one. The structure of a
-- context stands in a page of its own, with `pagedir` in word 0 and `pagedir_paddr` in word 1.
pub mod Kernel
use fruity_orange.Base.{
  ℕ, zero, suc, ◌+◌, ◌-◌, ◌*◌, ◌/◌, ◌%◌, ◌^◌, Bool, true, ◌&&◌, ◌||◌, Option, none, some, List, [],
  ◌∷◌, ◌==◌, leb, ltb, if◌then◌else◌, bit_and, bit_or,
}
use fruity_orange.Mm.Pmm.{page_size}
use fruity_orange.Mm.Pmm.Boot.{Boot, MultibootModule, vaddr_kernel_start}
use fruity_orange.Mm.Vmm.{
  Vmm, Words, M, pure, fault, ◌>>=◌, ◌>>◌, load_word, store_word, clear_page, dir_entry, put_entry,
  set_entry, reach, alloc_frame, create_pagetable, pd_index, page_index, page_mask, vmm_present,
  vmm_write, vmm_kernel_flags, vmm_user_flags, vaddr_kernel_end, vaddr_pt_start, table_size,
}
use fruity_orange.Mm.Vmm.Find.{
  window_on, the_context, vmm_get_pagetable, vmm_map_page, vmm_map_area, vmm_automap_kernel_page,
  automap_page,
}

-- `START` and `END` of `vmm_update_context`, and the entry of the window.
abbrev pub kernel_first : ℕ
kernel_first = pd_index (page_index vaddr_kernel_start)

abbrev pub kernel_last : ℕ
kernel_last = pd_index (page_index vaddr_kernel_end)

abbrev pub window : ℕ
window = pd_index (page_index vaddr_pt_start)

-- `memcpy` of the words from `low` on and below `high`, from frame `f` to frame `g`.
abbrev pub copy_words : ℕ → ℕ → ℕ → ℕ → Words → Words
copy_words f g low high m h j = if (g == h) && (leb low j && ltb j high) then m f j else m h j

pub vmm_update_context : ℕ → Vmm → Vmm
vmm_update_context context s =
    set_entry context window (bit_or (bit_or context vmm_present) vmm_write) (record s {
      phys =
          copy_words (s.current_context / page_size) (context / page_size) kernel_first kernel_last
            s.phys;
    })

pub vmm_activate_context : ℕ → Vmm → Vmm
unfolding vmm_update_context
vmm_activate_context context s =
    if (s.current_context == context) || (context == 0)
    then s
    else record (vmm_update_context context s) { current_context = context }

update : ℕ → M (Unit {0})
unfolding vmm_update_context
update context s = some (tt, vmm_update_context context s)

pub vmm_create_context : M ℕ
unfolding update
vmm_create_context = do
  paddr ← alloc_frame
  here ← the_context
  context ← vmm_automap_kernel_page here paddr
  clear_page context
  pd_paddr ← alloc_frame
  pagedir ← vmm_automap_kernel_page here pd_paddr
  clear_page pagedir
  store_word context 0 pagedir
  store_word context 1 pd_paddr
  update pd_paddr
  put_entry pd_paddr window (bit_or (bit_or pd_paddr vmm_present) vmm_write)
  pure pd_paddr

-- `memcpy(to, from, PAGE_SIZE)`
pub copy_page : ℕ → ℕ → M (Unit {0})
copy_page to from s = elim (reach s to) [
  | none ↦ none
  | some g ↦ elim (reach s from) [
    | none ↦ none
    | some f ↦ some (tt, record s { phys = copy_words f g 0 table_size s.phys })
  ]
]

-- The loop of `vmm_fork` from the entry `i` on, with the rounds that are left.
pub fork_tables : ℕ → ℕ → ℕ → ℕ → M (Unit {0})
unfolding copy_page
fork_tables zero context new i s = some (tt, s)
fork_tables (suc n) context new i s =
    let next = fork_tables n context new (suc i) in
    let copied = create_pagetable window_on new i vmm_user_flags >>= λ new_pt.
    vmm_get_pagetable context i vmm_user_flags >>= λ pt. copy_page new_pt pt >> next in
    if dir_entry s context i == 0 then next s else copied s

pub vmm_fork : ℕ → M ℕ
unfolding vmm_create_context fork_tables
vmm_fork context = do new ← vmm_create_context; fork_tables table_size context new 0; pure new

abbrev pub videomem_start : ℕ
videomem_start = 0xB8000

abbrev pub videomem_pages : ℕ
videomem_pages = (0xBFFFF - videomem_start) / page_size + 1

-- `while(addr < end) { vmm_map_page(...); addr += PAGE_SIZE; }`, on fuel.
pub map_module : ℕ → ℕ → ℕ → ℕ → M (Unit {0})
map_module zero context addr end = fault
map_module (suc n) context addr end =
    let next = vmm_map_page context addr addr vmm_kernel_flags >>= λ r.
    map_module n context ((addr + page_size) % 2 ^ 32) end in
    if ltb addr end then next else pure tt

pub map_modules : ℕ → List MultibootModule → M (Unit {0})
unfolding map_module
map_modules context [] = pure tt
map_modules context (m ∷ modules) = do
  map_module (2 ^ 20) context (bit_and m.mod_start page_mask) m.mod_end
  map_modules context modules

pub load_kernel_context : ℕ → M (Unit {0})
load_kernel_context pagedir_paddr s =
    some (tt, record s { current_context = pagedir_paddr; paging_initalized = true })

-- The handler of page faults that is set at the end is left out here.
pub init_vmm : Boot → M (Unit {0})
unfolding map_modules load_kernel_context
init_vmm b = do
  kernel_context_paddr ← alloc_frame
  let kernel_context = (kernel_context_paddr + vaddr_kernel_start) % 2 ^ 32
  clear_page kernel_context
  pagedir_paddr ← alloc_frame
  let pagedir = (pagedir_paddr + vaddr_kernel_start) % 2 ^ 32
  clear_page pagedir
  put_entry pagedir_paddr window (bit_or pagedir_paddr vmm_kernel_flags)
  store_word kernel_context 0 pagedir
  store_word kernel_context 1 pagedir_paddr
  r1 ←
      vmm_map_area pagedir_paddr vaddr_kernel_start 0 ((b.kernel_end_phys + page_size) / page_size)
        vmm_kernel_flags
  r2 ← vmm_map_area pagedir_paddr videomem_start videomem_start videomem_pages vmm_kernel_flags
  let info = bit_and b.mb_info page_mask
  r3 ←
      vmm_map_page pagedir_paddr info ((info + 2 ^ 32 - vaddr_kernel_start) % 2 ^ 32)
        vmm_kernel_flags
  let mods = bit_and b.mods_addr page_mask
  r4 ← vmm_map_page pagedir_paddr mods mods vmm_kernel_flags
  map_modules pagedir_paddr b.modules
  pd ← vmm_automap_kernel_page pagedir_paddr pagedir_paddr
  ct ← vmm_automap_kernel_page pagedir_paddr kernel_context_paddr
  store_word kernel_context 0 pd
  load_kernel_context pagedir_paddr

pub vmm_enable : Vmm → Vmm
vmm_enable s = record s { paging_initalized = true }
