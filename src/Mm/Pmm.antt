-- ===== src/Mm/Pmm.antt =====
-- The physical memory manager, kernel/mm/pmm.c: a bitmap with one bit for each page frame, set
-- when the frame is free, and a one-entry cache of the frame that was freed last.
-- The global array is a list of words; `Bitmap` says when a list is such an array.
pub mod Bitmap
pub mod Scan
pub mod Alloc
pub mod Boot
pub mod Tests
use fruity_orange.Base.{
  ℕ, zero, suc, ◌+◌, ◌-◌, ◌*◌, ◌/◌, ◌%◌, ◌^◌, ◌≡◌, Bool, true, false, Option, none, some, List, [],
  ◌∷◌, bit_and, bit_or, and_not, shl_one, ◌==◌, ltb, if◌then◌else◌, get_or, set, length, digit,
}

abbrev pub page_size : ℕ
page_size = 0x1000

abbrev pub bitmap_size : ℕ
bitmap_size = 0x8000

pub record Pmm : Type 0 where
  pub bitmap : List ℕ
  pub last_free_ptr : ℕ
  pub can_do_fast_alloc : Bool

-- `i` and `j` of `pmm_free` and `pmm_mark_used`: the word of the bitmap and the bit in it.
abbrev pub word_of : ℕ → ℕ
word_of ptr = ptr / page_size / 32

abbrev pub bit_of : ℕ → ℕ
bit_of ptr = ptr / page_size % 32

-- `1 << j` is a power of two here; with j = 31 it overflows an `int`, which the compiler wraps.
pub pmm_free : ℕ → Pmm → Pmm
pmm_free ptr s = record s {
  last_free_ptr = ptr;
  can_do_fast_alloc = true;
  bitmap =
      set s.bitmap (word_of ptr) (bit_or (get_or s.bitmap (word_of ptr) 0) (shl_one (bit_of ptr)));
}

pub pmm_mark_used : ℕ → Pmm → Pmm
pmm_mark_used ptr s = record s {
  bitmap =
      set s.bitmap (word_of ptr) (and_not (get_or s.bitmap (word_of ptr) 0) (shl_one (bit_of ptr)));
}

-- The loop over `j`, with the rounds that are left: the first bit of `w` that is set.
unfoldable pub find_bit : ℕ → ℕ → ℕ → Option ℕ
find_bit zero j w = none
find_bit (suc n) j w =
    let rest = find_bit n (suc j) w in if bit_and w (shl_one j) == 0 then rest else some j

-- The frame `(i * 32 + j) * PAGE_SIZE` of the bit `j` of word `i`.
abbrev pub frame_addr : ℕ → ℕ → ℕ
frame_addr i j = (i * 32 + j) * page_size

abbrev pub keep_word : ℕ → Option (ℕ × List ℕ) → Option (ℕ × List ℕ)
keep_word w none = none
keep_word w (some (addr, ws)) = some (addr, w ∷ ws)

abbrev pub take_bit : ℕ → ℕ → List ℕ → Option (ℕ × List ℕ) → Option ℕ → Option (ℕ × List ℕ)
take_bit i w ws rest none = keep_word w rest
take_bit i w ws rest (some j) = some (frame_addr i j, and_not w (shl_one j) ∷ ws)

-- The loop over `i`, which stands at the word `i` of the array: the frame that is taken, and
-- the words with its bit cleared.
unfoldable pub scan : ℕ → List ℕ → Option (ℕ × List ℕ)
scan i [] = none
scan i (w ∷ ws) =
    let rest = scan (i + 1) ws in
    if w == 0 then keep_word w rest else take_bit i w ws rest (find_bit 32 0 w)

abbrev pub scanned : Pmm → Option (ℕ × List ℕ) → ℕ × Pmm
scanned s none = (0, s)
scanned s (some (addr, b)) = (addr, record s { bitmap = b })

-- The frame (0, which is NULL, where none is left), and the state after the call.
unfoldable pub pmm_alloc : Pmm → ℕ × Pmm
pmm_alloc s =
    if s.can_do_fast_alloc
    then (s.last_free_ptr, pmm_mark_used s.last_free_ptr (record s { can_do_fast_alloc = false }))
    else scanned s (scan 0 s.bitmap)

-- What the bitmap says of a frame: 1 if it is free.
abbrev pub bit : List ℕ → ℕ → ℕ
bit b p = digit (get_or b (p / 32) 0) (p % 32)
