-- ===== src/Interrupt/Gates.antt =====
-- `init_idt` of kernel/interrupt/idt.c: the gates that it sets, in its order. `handler` gives the
-- addresses of the entry stubs, which are assembly.
use fruity_orange.Base.{
  ℕ, zero, suc, ◌+◌, ◌≡◌, refl, ◌==◌, if◌then◌else◌, List, [], ◌∷◌, map, set, replicate,
}
use fruity_orange.Interrupt.{idt_entry}

-- The arguments of a call of `set_interrupt`, without the selector, which is 8 for all.
pub record Gate : Type 0 where
  pub index : ℕ
  pub kind : ℕ
  pub dpl : ℕ

abbrev interrupt_gate : ℕ → ℕ → Gate
interrupt_gate i dpl = record { index = i; kind = 6; dpl = dpl }

abbrev trap_gate : ℕ → ℕ → Gate
trap_gate i dpl = record { index = i; kind = 7; dpl = dpl }

abbrev pub gates : List Gate
gates =
    interrupt_gate 0x0 0
    ∷ interrupt_gate 0x1 0
    ∷ interrupt_gate 0x2 0
    ∷ interrupt_gate 0x3 3
    ∷ trap_gate 0x4 3
    ∷ trap_gate 0x5 3
    ∷ interrupt_gate 0x6 0
    ∷ interrupt_gate 0x7 0
    ∷ interrupt_gate 0x8 0
    ∷ interrupt_gate 0x9 0
    ∷ interrupt_gate 0xa 0
    ∷ interrupt_gate 0xb 0
    ∷ interrupt_gate 0xc 0
    ∷ interrupt_gate 0xd 0
    ∷ interrupt_gate 0xe 0
    ∷ interrupt_gate 0xf 0
    ∷ interrupt_gate 0x10 0
    ∷ interrupt_gate 0x11 0
    ∷ interrupt_gate 0x12 0
    ∷ interrupt_gate 0x13 0
    ∷ interrupt_gate 0x14 0
    ∷ interrupt_gate 0x15 0
    ∷ interrupt_gate 0x16 0
    ∷ interrupt_gate 0x17 0
    ∷ interrupt_gate 0x18 0
    ∷ interrupt_gate 0x19 0
    ∷ interrupt_gate 0x1a 0
    ∷ interrupt_gate 0x1b 0
    ∷ interrupt_gate 0x1c 0
    ∷ interrupt_gate 0x1d 0
    ∷ interrupt_gate 0x1e 0
    ∷ interrupt_gate 0x1f 0
    ∷ interrupt_gate 0x20 0
    ∷ interrupt_gate 0x21 0
    ∷ interrupt_gate 0x22 0
    ∷ interrupt_gate 0x23 0
    ∷ interrupt_gate 0x24 0
    ∷ interrupt_gate 0x25 0
    ∷ interrupt_gate 0x26 0
    ∷ interrupt_gate 0x27 0
    ∷ interrupt_gate 0x28 0
    ∷ interrupt_gate 0x29 0
    ∷ interrupt_gate 0x2a 0
    ∷ interrupt_gate 0x2b 0
    ∷ interrupt_gate 0x2c 0
    ∷ interrupt_gate 0x2d 0
    ∷ interrupt_gate 0x2e 0
    ∷ interrupt_gate 0x2f 0
    ∷ trap_gate 0x30 3
    ∷ []

-- The calls of `set_interrupt` one after the other.
abbrev pub set_gates : (ℕ → ℕ) → List Gate → List ℕ → List ℕ
set_gates handler [] idt = idt
set_gates handler (g ∷ gs) idt =
    set_gates handler gs (set idt g.index (idt_entry (handler g.index) 8 g.kind g.dpl))

-- The table has 255 entries.
pub init_idt : (ℕ → ℕ) → List ℕ
init_idt handler = set_gates handler gates (replicate 255 0)

abbrev count_up : ℕ → ℕ → List ℕ
count_up zero i = []
count_up (suc n) i = i ∷ count_up n (i + 1)

-- The gates are those from 0 to 48, each of them once.
gates_in_order : map (λ g. g.index) gates ≡ count_up 49 0
gates_in_order = refl

abbrev user_gates : List Gate → List ℕ
user_gates [] = []
user_gates (g ∷ gs) = let rest = user_gates gs in if g.dpl == 3 then g.index ∷ rest else rest

-- A program may raise the exceptions 3, 4 and 5 and the system call, and nothing else.
user_gates_lem : user_gates gates ≡ 3 ∷ 4 ∷ 5 ∷ 0x30 ∷ []
user_gates_lem = refl
