-- ===== src/Interrupt/Laws.antt =====
-- The tables of handlers and the descriptors of kernel/interrupt.
use fruity_orange.Base.{
  ℕ, zero, suc, ◌+◌, ◌*◌, ◌/◌, ◌%◌, ◌^◌, ◌<◌, ◌≡◌, ◌≢◌, refl, ap, true, false, ◌==◌, ◌&&◌, leb,
  some, List, [], ◌∷◌, get_elem?, set, length, arith, Bool-cases, inl, inr, get_elem?-set_self,
  get_elem?-set_ne,
}
use fruity_orange.Interrupt.{
  idt_entry, setup_syscall, handle_syscall, dispatch, send_eoi, common_eoi,
}

-- The processor finds in a descriptor what `set_interrupt` was given: the offset in its two
-- halves, the selector, the kind of gate, the privilege level, and that it is present.
pub idt_entry-fields :
    (offset selector type dpl : ℕ)
    → offset < 2 ^ 32
    → selector < 2 ^ 16
    → type < 8
    → let e = idt_entry offset selector type dpl in
      (e < 2 ^ 64)
      × (e % 2 ^ 16 + e / 2 ^ 48 * 2 ^ 16 ≡ offset)
      × (e / 2 ^ 16 % 2 ^ 16 ≡ selector)
      × (e / 2 ^ 40 % 8 ≡ type)
      × (e / 2 ^ 45 % 4 ≡ dpl % 4)
      × (e / 2 ^ 47 % 2 ≡ 1)
unfolding idt_entry
idt_entry-fields offset selector type dpl ho hs ht =
    (omega arith, omega arith, omega arith, omega arith, omega arith, omega arith)

-- An interrupt of the controllers is ended in the same way by its number at the controllers and by
-- its number at the processor.
pub send_eoi-common_eoi : (irq : ℕ) → irq < 16 → common_eoi (irq + 0x20) ≡ send_eoi irq
unfolding send_eoi common_eoi
send_eoi-common_eoi irq h = elim (Bool-cases (leb 8 irq)) [
  | inl e ↦
      let a : (leb 0x20 (irq + 0x20) && leb (irq + 0x20) 0x2f) ≡ true = ground arith in
      let b : leb 0x28 (irq + 0x20) ≡ true = ground (arith, e) in rw a (rw b (rw e refl))
  | inr e ↦
      let a : (leb 0x20 (irq + 0x20) && leb (irq + 0x20) 0x2f) ≡ true = ground arith in
      let b : leb 0x28 (irq + 0x20) ≡ false = ground (arith, e) in rw a (rw b (rw e refl))
]

in_table : (xs : List ℕ) (i v : ℕ) → get_elem? xs i ≡ some v → i < length xs
in_table [] i v e = absurd (ground (arith, e))
in_table (x ∷ xs) zero v e = omega arith
in_table (x ∷ xs) (suc i) v e = omega (arith, in_table xs i v e)

-- A system call that is set up on a free number is the one that is called for it, also when the
-- number is set up again, and no other number is changed.
pub setup-handle :
    (id first again : ℕ) (table : List ℕ)
    → get_elem? table id ≡ some 0
    → first ≢ 0
    → (one two : List ℕ) × (setup_syscall id first table ≡ some one)
      × (setup_syscall id again one ≡ some two)
      × (handle_syscall id two ≡ some (some first))
      × ((other : ℕ) → id ≢ other → handle_syscall other two ≡ handle_syscall other table)
unfolding setup_syscall handle_syscall
setup-handle id first again table free ne =
    let there = get_elem?-set_self table id first (in_table table id 0 free) in
    let taken : (first == 0) ≡ false = ground arith in
    (
      set table id first,
      set table id first,
      rw free refl,
      rw there (rw taken refl),
      rw there (rw taken refl),
      λ other d. ap dispatch (get_elem?-set_ne table first d),
    )
