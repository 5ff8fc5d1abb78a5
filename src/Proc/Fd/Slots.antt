-- ===== src/Proc/Fd/Slots.antt =====
-- Which descriptor `proc_get_unused_fd` of kernel/proc/proc.c hands out.
use fruity_orange.Base.{
  ℕ, zero, suc, ◌+◌, ◌<◌, ◌≡◌, ◌≢◌, refl, sym, ◌∙◌, ap, true, false, ltb, Option, none, some, [],
  ◌∷◌, ◌++◌, length, get_elem?, set, length-append, get_elem?-set_self, get_elem?-set_ne, ◌⊎◌, inl,
  inr, arith,
}
use fruity_orange.Proc.Fd.{FdState, Fds, free_slot, proc_get_unused_fd}

-- Every descriptor is in use.
abbrev pub Full : Fds → Type 0
Full fds = (j : ℕ) → get_elem? fds j ≢ some none

-- The lowest slot from `i` on that is not in use.
record IsLowest (i : ℕ) (fds : Fds) (id : ℕ) : Type 0 where
  slot : ℕ
  place : id ≡ i + slot
  inside : slot < length fds
  unused : get_elem? fds slot ≡ some none
  lowest : (j : ℕ) → j < slot → get_elem? fds j ≢ some none

shift_up :
    (i : ℕ) (f : FdState) (fds : Fds) (id : ℕ)
    → IsLowest (suc i) fds id
    → IsLowest i (some f ∷ fds) id
shift_up i f fds id l = record {
  slot = suc l.slot;
  place = omega (arith, l.place);
  inside = omega (arith, l.inside);
  unused = l.unused;
  lowest = lower;
}
  where
    lower : (j : ℕ) → j < suc l.slot → get_elem? (some f ∷ fds) j ≢ some none
    lower zero h e = absurd (ground (arith, e))
    lower (suc j) h e = l.lowest j (omega arith) e

still-Full : (f : FdState) (fds : Fds) → Full fds → Full (some f ∷ fds)
still-Full f fds full zero e = absurd (ground (arith, e))
still-Full f fds full (suc j) e = full j e

free_slot_cases :
    (i : ℕ) (fds : Fds)
    → ((id : ℕ) × (free_slot i fds ≡ some id) × IsLowest i fds id)
      ⊎ ((free_slot i fds ≡ none) × Full fds)
unfolding free_slot
free_slot_cases i [] = inr (refl, λ j e. absurd (ground (arith, e)))
free_slot_cases i (none ∷ fds) = inl (
  i,
  refl,
  record {
    slot = 0;
    place = omega arith;
    inside = omega arith;
    unused = refl;
    lowest = λ j h. absurd (omega arith);
  },
)
free_slot_cases i (some f ∷ fds) = elim (free_slot_cases (suc i) fds) [
  | inl c ↦ inl (c.0, c.1, shift_up i f fds c.0 c.2)
  | inr c ↦ inr (c.0, still-Full f fds c.1)
]

-- What `proc_get_unused_fd` may do: hand out the lowest descriptor that is not in use, with the
-- fresh structure in its slot, and leave the others alone; or, when all are in use, write behind
-- its array.
abbrev pub Outcome : FdState → Fds → Option (ℕ × Fds) → Type 0
Outcome fresh fds r =
    ((id : ℕ) × (fds' : Fds) × (r ≡ some (id, fds'))
      × (get_elem? fds id ≡ some none)
      × ((j : ℕ) → j < id → get_elem? fds j ≢ some none)
      × (get_elem? fds' id ≡ some (some fresh))
      × ((j : ℕ) → id ≢ j → get_elem? fds' j ≡ get_elem? fds j))
    ⊎ (Full fds × (r ≡ none))

-- `proc_get_unused_fd` hands out the lowest descriptor that is not in use, with a fresh structure
-- in its slot, and leaves the others alone; or, when all are in use, it writes behind its array.
pub unused_fd-Outcome :
    (fresh : FdState) (fds : Fds) → Outcome fresh fds (proc_get_unused_fd fresh fds)
unfolding proc_get_unused_fd
unused_fd-Outcome fresh fds = elim (free_slot_cases 0 fds) [
  | inl c ↦
      let l = c.2 in
      let at : l.slot ≡ c.0 = omega (arith, l.place) in
      let room : ltb c.0 (length fds) ≡ true = ground (arith, l.inside, at) in
      inl (
        c.0,
        set fds c.0 (some fresh),
        rw c.1 (rw room refl),
        ap (λ (v : ℕ). get_elem? fds v) (sym at) ∙ l.unused,
        (λ j h. l.lowest j (omega (arith, at))),
        get_elem?-set_self fds c.0 (some fresh) (omega (arith, l.inside, at)),
        (λ j ne. get_elem?-set_ne fds (some fresh) ne),
      )
  | inr c ↦
      let no_room : ltb (length fds + 1) (length (fds ++ none ∷ [])) ≡ false =
        ground (arith, length-append fds (none ∷ [])) in
      inr (c.1, rw c.0 (rw no_room refl))
]
