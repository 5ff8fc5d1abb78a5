-- ===== src/Mm/Pmm/Bitmap.antt =====
-- What the two writes of pmm.c do to the bitmap, frame by frame.
use fruity_orange.Base.{
  ℕ, ◌/◌, ◌%◌, ◌^◌, ◌<◌, ◌≡◌, ap, List, bit_or, and_not, ◌==◌, if◌then◌else◌, get_or, set, length,
  length-set, digit, digit_set, digit_clear, bit_or_pow-lt, get_or-set, All, All-set, All-get_or,
  arith, ◌∙◌,
}
use fruity_orange.Mm.Pmm.{
  Pmm, bit, pmm_free, pmm_mark_used, word_of, bit_of, page_size, bitmap_size,
}

-- The array of pmm.c: 0x8000 words of 32 bits, for the 2 ^ 20 frames of 4 GB.
pub record IsBitmap (b : List ℕ) : Type 0 where
  pub size : length b ≡ bitmap_size
  pub words : All (λ w. w < 2 ^ 32) b

-- A pointer of 32 bits.
abbrev pub IsPtr : ℕ → Type 0
IsPtr ptr = ptr < 2 ^ 32

word_in : {ptr : ℕ} {b : List ℕ} → IsBitmap b → IsPtr ptr → word_of ptr < length b
word_in v h = omega arith

bit-set :
    (b : List ℕ) (i v q : ℕ)
    → i < length b
    → bit (set b i v) q ≡ (if i == q / 32 then digit v (q % 32) else bit b q)
bit-set b i v q h = ground (arith, ap (λ (t : ℕ). digit t (q % 32)) (get_or-set b i (q / 32) v 0 h))

pub bit_free :
    (ptr q : ℕ) (s : Pmm)
    → IsBitmap s.bitmap
    → IsPtr ptr
    → bit (pmm_free ptr s).bitmap q ≡ (if ptr / page_size == q then 1 else bit s.bitmap q)
unfolding pmm_free
bit_free ptr q s v h = ground (
  arith,
  word_in v h,
  bit-set s.bitmap (word_of ptr) (bit_or (get_or s.bitmap (word_of ptr) 0) (2 ^ bit_of ptr)) q,
  digit_set (get_or s.bitmap (word_of ptr) 0) (bit_of ptr) (q % 32),
)

pub bit_mark_used :
    (ptr q : ℕ) (s : Pmm)
    → IsBitmap s.bitmap
    → IsPtr ptr
    → bit (pmm_mark_used ptr s).bitmap q ≡ (if ptr / page_size == q then 0 else bit s.bitmap q)
unfolding pmm_mark_used
bit_mark_used ptr q s v h = ground (
  arith,
  word_in v h,
  bit-set s.bitmap (word_of ptr) (and_not (get_or s.bitmap (word_of ptr) 0) (2 ^ bit_of ptr)) q,
  digit_clear (get_or s.bitmap (word_of ptr) 0) (bit_of ptr) (q % 32),
)

word-lt : (b : List ℕ) (i : ℕ) → IsBitmap b → get_or b i 0 < 2 ^ 32
word-lt b i v = All-get_or (λ (w : ℕ). w < 2 ^ 32) b i 0 v.words (omega arith)

pub free-IsBitmap : (ptr : ℕ) (s : Pmm) → IsBitmap s.bitmap → IsBitmap (pmm_free ptr s).bitmap
unfolding pmm_free
free-IsBitmap ptr s v = record {
  size = length-set s.bitmap (word_of ptr) _ ∙ v.size;
  words =
      All-set (λ (w : ℕ). w < 2 ^ 32) s.bitmap (word_of ptr) _ v.words
        (bit_or_pow-lt 32 (get_or s.bitmap (word_of ptr) 0) (bit_of ptr)
          (word-lt s.bitmap (word_of ptr) v) (omega arith));
}

pub mark_used-IsBitmap :
    (ptr : ℕ) (s : Pmm) → IsBitmap s.bitmap → IsBitmap (pmm_mark_used ptr s).bitmap
unfolding pmm_mark_used
mark_used-IsBitmap ptr s v = record {
  size = length-set s.bitmap (word_of ptr) _ ∙ v.size;
  words =
      All-set (λ (w : ℕ). w < 2 ^ 32) s.bitmap (word_of ptr) _ v.words
        (omega (arith, word-lt s.bitmap (word_of ptr) v));
}
