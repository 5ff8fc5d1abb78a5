-- ===== src/Interrupt.antt =====
-- kernel/interrupt: the descriptors of idt.c, the tables of handlers of handler/irq.c,
-- handler/exception.c and handler/syscall.c, and the ends of interrupts of pic.c. A handler is its
-- address, 0 being NULL; what is written to ports is a list of port and value.
pub mod Laws
pub mod Gates
pub mod Segments
use fruity_orange.Base.{
  ℕ, ◌+◌, ◌-◌, ◌*◌, ◌/◌, ◌%◌, ◌^◌, Bool, true, false, ◌==◌, ◌&&◌, ltb, leb, if◌then◌else◌, Option,
  none, some, List, [], ◌∷◌, get_elem?, set, length,
}

-- `idt[i] = conv.entry` of `set_interrupt`: the 64 bits of a descriptor, `ist` and `reserved`
-- being 0 and `d` and `present` 1. `selector` has 16 bits and `type` 3.
pub idt_entry : ℕ → ℕ → ℕ → ℕ → ℕ
idt_entry offset selector type dpl =
    offset % 2 ^ 16
    + selector * 2 ^ 16
    + type * 2 ^ 40
    + 1 * 2 ^ 43
    + dpl % 4 * 2 ^ 45
    + 1 * 2 ^ 47
    + offset / 2 ^ 16 * 2 ^ 48

-- The table after `set_irq_handler` or `set_exception_handler`, and the result: 1 when the place is
-- taken. A place behind the table is `none`.
abbrev pub put_handler : ℕ → ℕ → List ℕ → Option ℕ → Option (ℕ × List ℕ)
put_handler id handler table none = none
put_handler id handler table (some old) =
    if old == 0 then some (0, set table id handler) else some (1, table)

pub set_irq_handler : ℕ → ℕ → List ℕ → Option (ℕ × List ℕ)
set_irq_handler irq handler table = put_handler irq handler table (get_elem? table irq)

pub set_exception_handler : ℕ → ℕ → List ℕ → Option (ℕ × List ℕ)
set_exception_handler id handler table = put_handler id handler table (get_elem? table id)

abbrev pub pic_master_comm : ℕ
pic_master_comm = 0x20

abbrev pub pic_slave_comm : ℕ
pic_slave_comm = 0xa0

abbrev pub pic_eoi : ℕ
pic_eoi = 0x20

abbrev pub Writes : Type 0
Writes = List (ℕ × ℕ)

pub send_eoi : ℕ → Writes
send_eoi irq =
    if leb 8 irq
    then (pic_slave_comm, pic_eoi) ∷ (pic_master_comm, pic_eoi) ∷ []
    else (pic_master_comm, pic_eoi) ∷ []

pub common_eoi : ℕ → Writes
common_eoi intrpt =
    if leb 0x20 intrpt && leb intrpt 0x2f
    then (if leb 0x28 intrpt
        then (pic_slave_comm, pic_eoi) ∷ (pic_master_comm, pic_eoi) ∷ []
        else (pic_master_comm, pic_eoi) ∷ [])
    else []

-- The handler that `handle_irq` calls, if any, and what it writes at its end. A number outside of
-- the table is `none`.
abbrev pub called : ℕ → Option ℕ
called handler = if handler == 0 then none else some handler

abbrev pub after_call : ℕ → Option ℕ → Option (Option ℕ × Writes)
after_call intr none = none
after_call intr (some handler) = some (called handler, common_eoi intr)

pub handle_irq : ℕ → List ℕ → Option (Option ℕ × Writes)
unfolding common_eoi
handle_irq intr table =
    if leb 0x20 intr then after_call intr (get_elem? table (intr - 0x20)) else none

-- The table of system calls after `setup_syscall`, which keeps what is there.
abbrev pub put_syscall : ℕ → ℕ → List ℕ → Option ℕ → Option (List ℕ)
put_syscall id handler table none = none
put_syscall id handler table (some old) =
    if old == 0 then some (set table id handler) else some table

pub setup_syscall : ℕ → ℕ → List ℕ → Option (List ℕ)
setup_syscall id handler table = put_syscall id handler table (get_elem? table id)

-- The handler that `handle_syscall` calls, if any.
abbrev pub dispatch : Option ℕ → Option (Option ℕ)
dispatch none = none
dispatch (some handler) = some (called handler)

pub handle_syscall : ℕ → List ℕ → Option (Option ℕ)
handle_syscall eax table = dispatch (get_elem? table eax)
