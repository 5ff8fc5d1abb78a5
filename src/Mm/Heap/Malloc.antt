-- ===== src/Mm/Heap/Malloc.antt =====
-- What `malloc` of kernel/mm/heap.c gives, in the context that is current.
use fruity_orange.Base.{
  ℕ, ◌+◌, ◌*◌, ◌%◌, ◌^◌, ◌≤◌, ◌≡◌, refl, ◌∙◌, sym, false, some, arith, inl, ◌==◌, if◌then◌else◌,
  bit_and-page_lem,
}
use mathlib.Core.Path.{subst}
use fruity_orange.Mm.Pmm.{Pmm, page_size}
use fruity_orange.Mm.Vmm.{Vmm, page_index, ◌>>=◌, pure}
use fruity_orange.Mm.Vmm.Table.{translation, IsWellFormed, IsOutside, bind_some}
use fruity_orange.Mm.Vmm.Find.{vmm_find, fill_area, the_context, window_on}
use fruity_orange.Mm.Vmm.Find.Seen.{AreFree}
use fruity_orange.Mm.Vmm.Find.Room.{no_room, room, find-Room}
use fruity_orange.Mm.Vmm.Find.Fill.{FramesLeft, twice, Filled, fill_area-Filled}
use fruity_orange.Mm.Heap.{heap_pages, malloc}
use fruity_orange.Vfs.Inode.{num_pages}

-- The pages `b` to `b + n` of the kernel's heap were not mapped and are mapped now, and no other
-- page outside of the window is mapped otherwise; or NULL, and nothing is mapped otherwise.
pub data Area (s : Vmm) (n a : ℕ) (s' : Vmm) : Type 0 where
  exhausted : a ≡ 0 → ((q : ℕ) → translation s' q ≡ translation s q) → Area s n a s'
  allocated :
      (b : ℕ)
      → 0xe0000 ≤ b
      → b + n ≤ 0xf0000
      → a ≡ b * page_size
      → AreFree (translation s) b n
      → ((q : ℕ) → IsOutside q → Filled (translation s) (translation s') b n q)
      → Area s n a s'

heap_found :
    (n : ℕ) (s s1 : Vmm) (a : ℕ)
    → (vmm_find s.current_context n 0xe0000000 0xefffffff s ≡ some (a, s1))
    → heap_pages n s ≡ (if a == 0 then pure 0 else (fill_area n a 3 >>= λ _. pure a)) s1
unfolding heap_pages the_context
heap_found n s s1 a e = bind_some (vmm_find s.current_context n 0xe0000000 0xefffffff) _ s e

heap_pages-Area :
    (n : ℕ) (s : Vmm)
    → IsWellFormed s
    → FramesLeft (twice n) s.pmm
    → (a : ℕ) × (s' : Vmm) × (heap_pages n s ≡ some (a, s')) × IsWellFormed s' × Area s n a s'
heap_pages-Area n s v left =
    let (a, s1, run, still, r) =
      find-Room window_on s n 0xe0000000 0xefffffff v (omega arith) (omega arith) (omega arith)
        (inl refl) in
    elim r [
      | no_room z ↦
          (0, s1, heap_found n s s1 a run ∙ rw z refl, still.well, exhausted refl still.same)
      | room b lb e top unused ↦
          let nonzero : (a == 0) ≡ false = ground arith in
          let at : page_index a ≡ b = omega arith in
          let (s2, run2, well, same, fills) =
            fill_area-Filled n s1 a 3 still.well (omega arith) (omega arith) (omega arith)
              (λ q h k. omega arith)
              (subst (λ (p : Pmm). FramesLeft (twice n) p) (sym still.same_pmm) left) in
          (
            a,
            s2,
            heap_found n s s1 a run ∙ rw nonzero (bind_some (fill_area n a 3) _ s1 run2),
            well,
            allocated b lb top e unused (λ q o.
                let f =
                  subst (λ (x : ℕ). Filled (translation s1) (translation s2) x n q) at
                    (fills q o) in
                (f.0, λ c. f.1 c ∙ still.same q)),
          )
    ]

-- In a well-formed state with two frames left for each page of a request of at most 4 GB less a page, `malloc`
-- returns, and the state stays well-formed: either NULL, with every page mapped as before, or the
-- address of an area of the kernel's heap of at least as many bytes, no page of which was mapped and
-- all pages of which are mapped now. In that case every page that is neither in the area nor in the
-- window on the tables (the 4 MB from 0xf0000000) is mapped as before; what the window maps to is not stated.
pub malloc-Area :
    (bytes : ℕ) (s : Vmm)
    → IsWellFormed s
    → bytes + page_size ≤ 2 ^ 32
    → FramesLeft (twice (num_pages bytes)) s.pmm
    → (a : ℕ) × (s' : Vmm) × (malloc bytes s ≡ some (a, s'))
      × IsWellFormed s'
      × Area s (num_pages bytes) a s'
      × (bytes ≤ num_pages bytes * page_size)
unfolding malloc
malloc-Area bytes s v h left =
    let (a, s', run, well, area) = heap_pages-Area (num_pages bytes) s v left in
    (a, s', run, well, area, omega (arith, bit_and-page_lem ((bytes + 0xfff) % 2 ^ 32)))
