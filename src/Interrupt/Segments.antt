-- ===== src/Interrupt/Segments.antt =====
-- kernel/init/gdt.c: the segment descriptors. Loading them is assembly.
use fruity_orange.Base.{ℕ, ◌+◌, ◌*◌, ◌/◌, ◌%◌, ◌^◌, ◌<◌, ◌≡◌, List, [], ◌∷◌, arith, bit_or}

-- The 64 bits that `create_gdt_entry` returns.
pub create_gdt_entry : ℕ → ℕ → ℕ → ℕ
create_gdt_entry limit base flags =
    limit % 2 ^ 16
    + base % 2 ^ 16 * 2 ^ 16
    + base / 2 ^ 16 % 256 * 2 ^ 32
    + flags % 256 * 2 ^ 40
    + limit / 2 ^ 16 % 16 * 2 ^ 48
    + flags / 256 % 16 * 2 ^ 52
    + base / 2 ^ 24 % 256 * 2 ^ 56

-- GDT_PRESENT, GDT_SEGMENT, GDT_RING3, GDT_CODESEG_RD, GDT_DATASEG_WR, GDT_TSS, GDT_4K_GRAN and
-- GDT_32_BIT.
abbrev gdt_present : ℕ
gdt_present = 0x80

abbrev gdt_segment : ℕ
gdt_segment = 0x10

abbrev gdt_ring3 : ℕ
gdt_ring3 = 0x60

abbrev gdt_codeseg_rd : ℕ
gdt_codeseg_rd = 0x0a

abbrev gdt_dataseg_wr : ℕ
gdt_dataseg_wr = 0x02

abbrev gdt_tss : ℕ
gdt_tss = 0x09

abbrev gdt_4k_gran : ℕ
gdt_4k_gran = 0x800

abbrev gdt_32_bit : ℕ
gdt_32_bit = 0x400

-- The size of `tss`: 32 words.
abbrev tss_bytes : ℕ
tss_bytes = 128

abbrev wide : ℕ
wide = bit_or gdt_32_bit gdt_4k_gran

-- The table after `init_gdt`; `tss` is the address of the task state segment.
pub init_gdt : ℕ → List ℕ
unfolding create_gdt_entry
init_gdt tss =
    0
    ∷ create_gdt_entry 0xfffff 0
        (bit_or (bit_or (bit_or gdt_codeseg_rd gdt_segment) gdt_present) wide)
    ∷ create_gdt_entry 0xfffff 0
        (bit_or (bit_or (bit_or gdt_dataseg_wr gdt_segment) gdt_present) wide)
    ∷ create_gdt_entry 0xfffff 0
        (bit_or (bit_or (bit_or (bit_or gdt_codeseg_rd gdt_segment) gdt_ring3) gdt_present) wide)
    ∷ create_gdt_entry 0xfffff 0
        (bit_or (bit_or (bit_or (bit_or gdt_dataseg_wr gdt_segment) gdt_ring3) gdt_present) wide)
    ∷ create_gdt_entry tss_bytes tss (bit_or (bit_or gdt_tss gdt_present) gdt_ring3)
    ∷ []

-- The processor finds in a segment descriptor what `create_gdt_entry` was given: the limit in its
-- two parts, the base in its three, and the two parts of the flags.
create_gdt_entry-fields :
    (limit base flags : ℕ)
    → limit < 2 ^ 20
    → base < 2 ^ 32
    → flags < 2 ^ 12
    → let e = create_gdt_entry limit base flags in
      (e % 2 ^ 16 + e / 2 ^ 48 % 16 * 2 ^ 16 ≡ limit)
      × (e / 2 ^ 16 % 2 ^ 24 + e / 2 ^ 56 * 2 ^ 24 ≡ base)
      × (e / 2 ^ 40 % 256 + e / 2 ^ 52 % 16 * 256 ≡ flags)
unfolding create_gdt_entry
create_gdt_entry-fields limit base flags hl hb hf = (omega arith, omega arith, omega arith)
