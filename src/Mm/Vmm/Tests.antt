-- ===== src/Mm/Vmm/Tests.antt =====
-- The theorems on kernel/mm/vmm.c in a context with one table for user space and one for the kernel.
use fruity_orange.Base.{
  ℕ, suc, ◌*◌, ◌/◌, ◌^◌, ◌<◌, ◌≤◌, ◌≡◌, ◌≢◌, refl, true, false, none, some, ◌∷◌, replicate, arith,
  ap, sym, ◌∙◌, inl, inr, ◌⊎◌, length-replicate, All-replicate, if◌then◌else◌, ◌==◌, Bool-cases,
}
use fruity_orange.Mm.Pmm.{Pmm, bit, pmm_alloc, scan, find_bit}
use fruity_orange.Mm.Pmm.Alloc.{IsSound}
use fruity_orange.Mm.Vmm.{Vmm, Words, unmap_page, is_present, frame_of}
use fruity_orange.Mm.Vmm.Table.{translation, directory, IsWellFormed, IsOutside}
use fruity_orange.Mm.Vmm.Map.{Mapped, update, map_page-update}
use fruity_orange.Mm.Vmm.Unmap.{IsTabled, unmap_page-update, unmap_page-last}
use fruity_orange.Mm.Vmm.Find.{
  find, window_on, unmap_current, vmm_map_page, vmm_map_area, vmm_alloc,
}
use fruity_orange.Mm.Vmm.Find.Seen.{Still}
use fruity_orange.Mm.Vmm.Find.Room.{Room, find-Room}
use fruity_orange.Mm.Vmm.Find.Alloc.{taken, vmm_alloc-update}
use fruity_orange.Mm.Vmm.Contexts.{vmm_activate_context}
use fruity_orange.Mm.Vmm.Contexts.Kernel.{activate_kernel}
use fruity_orange.Mm.Vmm.Find.Area.{update_area, map_area-update}

-- Frames 8, 9 and 10 are free.
pub few_frames : Pmm
few_frames = record {
  bitmap = 0x700 ∷ replicate 0x7fff 0;
  last_free_ptr = 0;
  can_do_fast_alloc = false;
}

few_frames-IsSound : IsSound few_frames
unfolding few_frames
few_frames-IsSound = record {
  array = record {
    size = ap suc (length-replicate {A = ℕ} 0x7fff 0);
    words = (omega arith, All-replicate (λ (w : ℕ). w < 2 ^ 32) 0x7fff 0 (omega arith));
  };
  null_used = refl;
  cached_ptr = λ e. absurd (ground arith);
  cached_page = λ e. absurd (ground arith);
  cached_free = λ e. absurd (ground arith);
}

-- The directory is in frame 5, the table of the lowest pages in frame 6 and that of the kernel in
-- frame 7. Pages 2 and 3 are mapped.
pub words : Words
words f i =
    if f == 5
    then if i == 0 then 0x6003 else if i == 768 then 0x7003 else if i == 960 then 0x5003 else 0
    else if f == 6
    then if i == 2 then 0x20003 else if i == 3 then 0x21003 else 0
    else if f == 7
    then if i == 1 then 0x1003 else 0
    else 0

pub machine : Vmm
machine = record {
  pmm = few_frames;
  phys = words;
  current_context = 0x5000;
  paging_initalized = true;
}

row : (i : ℕ) → is_present (words 5 i) ≡ true → (i ≡ 0) ⊎ ((i ≡ 768) ⊎ (i ≡ 960))
unfolding words
row i h = ground arith

-- The entry that names a frame.
slot : ℕ → ℕ
slot f = if f == 6 then 0 else if f == 7 then 768 else 960

slot_lem : (i : ℕ) → is_present (words 5 i) ≡ true → i ≡ slot (frame_of (words 5 i))
unfolding words slot
slot_lem i p = elim (row i p) [
  | inl z ↦ rw z refl
  | inr (inl z) ↦ rw z refl
  | inr (inr z) ↦ rw z refl
]

table_used :
    (i : ℕ) → is_present (words 5 i) ≡ true → bit few_frames.bitmap (frame_of (words 5 i)) ≡ 0
unfolding words few_frames
table_used i p = elim (row i p) [
  | inl z ↦ rw z refl
  | inr (inl z) ↦ rw z refl
  | inr (inr z) ↦ rw z refl
]

pub machine-IsWellFormed : IsWellFormed machine
unfolding machine words
machine-IsWellFormed = record {
  paging = refl;
  sound = few_frames-IsSound;
  tree = record {
    window = refl;
    itself = refl;
    apart = λ i j hi hj ne p q e. ne (slot_lem i p ∙ ap slot e ∙ sym (slot_lem j q));
  };
  used = λ j hj p. table_used j p;
}

pub left : (pmm_alloc machine.pmm).0 ≢ 0
unfolding machine few_frames pmm_alloc scan find_bit
left = omega arith

pub left_again : (pmm_alloc (taken machine).pmm).0 ≢ 0
unfolding machine few_frames pmm_alloc scan find_bit
left_again = omega arith

map_page-update_example :
    (s' : Vmm) × (vmm_map_page machine.current_context 0x4000 0x30000 7 machine ≡ some (0, s'))
    × Mapped machine 0x4000 0x30000 s'
map_page-update_example =
    map_page-update window_on unmap_current machine 0x4000 0x30000 7 machine-IsWellFormed
      (omega arith) (omega arith) (omega arith) (omega arith) (omega arith) (omega arith) (inr left)

low-IsTabled : IsTabled machine 0x2000
unfolding machine words
low-IsTabled = record { inside = omega arith; outside = omega arith; present = refl }

unmap_page-update_example :
    (s' : Vmm) × (unmap_page window_on machine.current_context 0x2000 machine ≡ some (0, s'))
    × IsWellFormed s'
    × ((q : ℕ) → IsOutside q → translation s' q ≡ (if 2 == q then none else translation machine q))
unfolding machine words
unmap_page-update_example =
    unmap_page-update window_on machine 0x2000 3 machine-IsWellFormed low-IsTabled (omega arith)
      (omega arith) third
  where
    third : machine.phys 6 3 ≢ 0
    third = omega arith

kernel-IsTabled : IsTabled machine 0xc0001000
unfolding machine words
kernel-IsTabled = record { inside = omega arith; outside = omega arith; present = refl }

alone : (j : ℕ) → j < 1024 → j ≢ 1 → words 7 j ≡ 0
unfolding words
alone j h ne = ground arith

unmap_page-last_example : unmap_page window_on machine.current_context 0xc0001000 machine ≡ none
unmap_page-last_example =
    unmap_page-last window_on machine 0xc0001000 machine-IsWellFormed kernel-IsTabled
      (unfold machine words in alone)

find-Room_example :
    (a : ℕ) × (s' : Vmm) × (find window_on machine.current_context 3 0xe0000000 0xefffffff machine
      ≡ some (a, s'))
    × Still (translation machine) machine s'
    × Room (translation machine) 0xe0000 3 (960 * 1024) a
find-Room_example =
    find-Room window_on machine 3 0xe0000000 0xefffffff machine-IsWellFormed (omega arith)
      (omega arith) (omega arith) (inl refl)

vmm_alloc-update_example :
    (a frame : ℕ) × (s' : Vmm) × (vmm_alloc machine ≡ some (a, s'))
    × Room (translation machine) 1 1 (768 * 1024) a
    × (bit machine.pmm.bitmap frame ≡ 1)
    × IsWellFormed s'
    × ((q : ℕ) → IsOutside q → translation s' q ≡ update (translation machine) (a / 4096) frame q)
vmm_alloc-update_example = vmm_alloc-update machine machine-IsWellFormed left left_again

map_area-update_example :
    (s' : Vmm) × (vmm_map_area machine.current_context 0x4000 0x30000 5 3 machine ≡ some (0, s'))
    × IsWellFormed s'
    × ((q : ℕ) → IsOutside q → translation s' q ≡ update_area (translation machine) 4 0x30 5 q)
map_area-update_example =
    map_area-update 5 machine 0x4000 0x30000 3 machine-IsWellFormed (omega arith) (omega arith)
      (omega arith) (omega arith) (omega arith)
      (λ q a b.
        let z : q / 1024 ≡ 0 = omega arith in (omega arith, rw z (unfold machine words in refl)))

tables_apart : (j : ℕ) → 768 ≤ j → j < 1023 → frame_of (words 5 j) ≢ 9
unfolding words
tables_apart j a b = elim (Bool-cases (j == 768)) [
  | inl e ↦ let k : j ≡ 768 = ground arith in rw k (omega arith)
  | inr e ↦ elim (Bool-cases (j == 960)) [
    | inl k ↦ let k : j ≡ 960 = ground arith in rw k (omega arith)
    | inr k ↦ let z : (j == 0) ≡ false = ground arith in rw (z, e, k) (omega arith)
  ]
]

activate_kernel_example :
    let s' = vmm_activate_context 0x9000 machine in
    ((q : ℕ)
      → 768 * 1024 ≤ q
      → q < 1023 * 1024
      → q / 1024 ≢ 960
      → translation s' q ≡ translation machine q)
    × (frame_of (s'.phys (directory s') 960) ≡ directory s')
    × (is_present (s'.phys (directory s') 960) ≡ true)
    × (s'.phys 9 1023 ≡ machine.phys 9 1023)
activate_kernel_example =
    activate_kernel machine 0x9000 (unfold machine in omega arith) (omega arith) (omega arith)
      (unfold machine in tables_apart)
