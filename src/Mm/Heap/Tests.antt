-- ===== src/Mm/Heap/Tests.antt =====
-- The theorems on kernel/mm/heap.c at a machine with three frames left, and at a heap of two blocks.
use fruity_orange.Base.{ℕ, ◌+◌, ◌*◌, ◌≤◌, ◌≡◌, some, ◌==◌, if◌then◌else◌, arith}
use fruity_orange.Mm.Vmm.{Vmm}
use fruity_orange.Mm.Vmm.Table.{IsWellFormed}
use fruity_orange.Mm.Vmm.Tests.{machine, machine-IsWellFormed, left, left_again}
use fruity_orange.Mm.Heap.{malloc}
use fruity_orange.Mm.Heap.Malloc.{Area, malloc-Area}
use fruity_orange.Mm.Heap.Blocks.{Heap}

malloc-Area_example :
    (a : ℕ) × (s' : Vmm) × (malloc 100 machine ≡ some (a, s'))
    × IsWellFormed s'
    × Area machine 1 a s'
    × (100 ≤ 1 * 4096)
malloc-Area_example =
    malloc-Area 100 machine machine-IsWellFormed (omega arith) (left, (left_again, tt))

abbrev two_blocks : Heap
two_blocks = record {
  blocks = λ p.
      if p == 0x20
      then record { size = 8; base = 0x34; status = 1; prev = 0; next = 0x10 }
      else if p == 0x10
      then record { size = 8; base = 0x24; status = 0; prev = 0x20; next = 0 }
      else record { size = 4; base = p + 0x14; status = 0; prev = 0; next = 0 };
  first_block = 0x20;
}
