-- ===== src/Clib/Format/Lengths.antt =====
-- How long the text gets that lib/common/string/vsprintf.c writes for a number: it fits into `t`.
use fruity_orange.Base.{
  ℕ, zero, suc, ◌+◌, ◌-◌, ◌/◌, ◌%◌, ◌≤◌, ◌≡◌, refl, true, false, some, [], ◌∷◌, ltb, leb, arith, ap,
  length,
}
use fruity_orange.Clib.Str.{CString}
use fruity_orange.Clib.Format.{
  word_bits, magnitude, min_chars, digit_char, digit_loop, pad, wider, general_uintformat,
}

pub length-digit_loop :
    (k b v i : ℕ) (tmp : CString)
    → length (digit_loop k b v tmp i).0 + i ≡ length tmp + (digit_loop k b v tmp i).1
unfolding digit_loop
length-digit_loop zero b v i tmp = refl
length-digit_loop (suc k) b v i tmp =
    ground (arith, length-digit_loop k b (v / b) (i + 1) (digit_char (v % b) ∷ tmp))

pub length-pad : (n : ℕ) (tmp : CString) → length (pad n tmp) ≡ n + length tmp
unfolding pad
length-pad zero tmp = omega arith
length-pad (suc n) tmp = omega (arith, length-pad n (48 ∷ tmp))

-- The text that `general_uintformat` writes.
pub text : ℕ → ℕ → ℕ → CString
text value base num_chr =
    pad
      (wider (min_chars word_bits base (magnitude value)) num_chr
        - (digit_loop word_bits base value [] 0).1)
      (digit_loop word_bits base value [] 0).0

pub text_lem :
    (v b w : ℕ)
    → text v b w
      ≡ pad
          (wider (min_chars word_bits b (magnitude v)) w - (digit_loop word_bits b v [] 0).1)
          (digit_loop word_bits b v [] 0).0
unfolding text
text_lem v b w = refl

count-le : (k b v i : ℕ) (tmp : CString) → (digit_loop k b v tmp i).1 ≤ i + k
unfolding digit_loop
count-le zero b v i tmp = omega arith
count-le (suc k) b v i tmp = ground (arith, count-le k b (v / b) (i + 1) (digit_char (v % b) ∷ tmp))

min_chars-le : (k b d : ℕ) → min_chars k b d ≤ k
unfolding min_chars
min_chars-le zero b d = omega arith
min_chars-le (suc k) b d = ground (arith, min_chars-le k b (d / b))

wider-le : (n w : ℕ) → n ≤ 64 → w ≤ 64 → wider n w ≤ 64
wider-le n w h k = ground arith

text-fits : (v b w : ℕ) → w ≤ 64 → length (text v b w) ≤ 64
text-fits v b w h = omega (
  arith,
  ap length (text_lem v b w),
  length-pad (wider n w - (digit_loop 32 b v [] 0).1) (digit_loop 32 b v [] 0).0,
  length-digit_loop 32 b v 0 [],
  count-le 32 b v 0 [],
  wider-le n w (omega (arith, min_chars-le 32 b (magnitude v))) h,
)
  where
    n : ℕ
    n = min_chars 32 b (magnitude v)

pub general_uintformat-text :
    (v b w : ℕ) → b ≤ 16 → w ≤ 64 → general_uintformat v b w ≡ some (text v b w)
unfolding general_uintformat text
general_uintformat-text v b w h k =
    let f : ltb 16 b ≡ false = ground arith in
    let g : leb (length (text v b w)) 64 ≡ true = ground (arith, text-fits v b w k) in rw (f, g)
