-- ===== src/Clib/Format/Width.antt =====
-- How many characters lib/common/string/vsprintf.c writes for a number.
use native.Mathlib.Nat.{
  pow-suc, pow-zero, div-lt_iff_lt-mul, le-div_iff_mul-le, div-mul-le_self, le_trans,
}
use fruity_orange.Base.{
  ℕ, zero, suc, ◌+◌, ◌-◌, ◌/◌, ◌%◌, ◌^◌, ◌≤◌, ◌<◌, ◌≡◌, ◌≢◌, refl, some, [], ◌∷◌, ◌==◌, arith, ap,
  Bool-cases, inl, inr, ◌⊎◌, length, max,
}
use fruity_orange.Clib.Str.{CString}
use fruity_orange.Clib.Format.{
  magnitude, min_chars, digit_char, digit_loop, wider, general_uintformat,
}
use fruity_orange.Clib.Format.Lengths.{
  text, text_lem, length-digit_loop, length-pad, general_uintformat-text,
}
use fruity_orange.Clib.Format.Numbers.{div_smaller, digit_loop_end, digit_loop_next}

div_mono : (b d v : ℕ) → 2 ≤ b → d ≤ v → d / b ≤ v / b
div_mono b d v lo h = (le-div_iff_mul-le {y = v} (omega arith)).1 (le_trans (div-mul-le_self d b) h)

pow_below : (b v m : ℕ) → 2 ≤ b → v < b ^ suc m → v / b < b ^ m
pow_below b v m lo h = (div-lt_iff_lt-mul {y = b ^ m} (omega arith)).1 (rw (pow-suc b m) at h)

pow_above : (b v m : ℕ) → 2 ≤ b → b ^ suc m ≤ v → b ^ m ≤ v / b
pow_above b v m lo h = (le-div_iff_mul-le {y = v} (omega arith)).1 (rw (pow-suc b m) at h)

pow_pos : (b m : ℕ) → 2 ≤ b → 0 < b ^ m
pow_pos b zero lo = omega (arith, pow-zero b)
pow_pos b (suc m) lo = grind (arith, pow-suc b m, pow_pos b m lo)

min_chars_end : (k b d : ℕ) → d / b ≡ 0 → min_chars (suc k) b d ≡ 0
unfolding min_chars
min_chars_end k b d e = ground arith

min_chars_next : (k b d : ℕ) → d / b ≢ 0 → min_chars (suc k) b d ≡ suc (min_chars k b (d / b))
unfolding min_chars
min_chars_next k b d e = ground arith

count_end : (k b v i : ℕ) (tmp : CString) → v / b ≡ 0 → (digit_loop (suc k) b v tmp i).1 ≡ i + 1
count_end k b v i tmp e = ap (λ r. r.1) (digit_loop_end k b v i tmp e)

count_next :
    (k b v i : ℕ) (tmp : CString)
    → v / b ≢ 0
    → (digit_loop (suc k) b v tmp i).1
      ≡ (digit_loop k b (v / b) (digit_char (v % b) ∷ tmp) (i + 1)).1
count_next k b v i tmp e = ap (λ r. r.1) (digit_loop_next k b v i tmp e)

count-gt : (k b v i : ℕ) (tmp : CString) → i ≤ (digit_loop k b v tmp i).1
unfolding digit_loop
count-gt zero b v i tmp = omega arith
count-gt (suc k) b v i tmp = ground (arith, count-gt k b (v / b) (i + 1) (digit_char (v % b) ∷ tmp))

min_chars-lt_end :
    (k b d v i : ℕ) (tmp : CString)
    → d / b ≡ 0
    → min_chars (suc k) b d + i < (digit_loop (suc k) b v tmp i).1
min_chars-lt_end k b d v i tmp z = elim (Bool-cases (v / b == 0)) [
  | inl done ↦ omega (arith, min_chars_end k b d z, count_end k b v i tmp (ground arith))
  | inr more ↦ omega (
    arith,
    min_chars_end k b d z,
    count_next k b v i tmp (ground arith),
    count-gt k b (v / b) (i + 1) (digit_char (v % b) ∷ tmp),
  )
]

-- The loop that counts for the padding sees fewer digits than are written.
min_chars-lt :
    (k b d v i : ℕ) (tmp : CString)
    → 2 ≤ b
    → d ≤ v
    → v < 2 ^ suc k
    → min_chars (suc k) b d + i < (digit_loop (suc k) b v tmp i).1
min_chars-lt zero b d v i tmp lo le h =
    min_chars-lt_end zero b d v i tmp (omega (arith, div_smaller b v 0 lo h, div_mono b d v lo le))
min_chars-lt (suc k) b d v i tmp lo le h = elim (Bool-cases (d / b == 0)) [
  | inl small ↦ min_chars-lt_end (suc k) b d v i tmp (ground arith)
  | inr big ↦
      let nd : d / b ≢ 0 = ground arith in
      omega (
        arith,
        min_chars_next (suc k) b d nd,
        count_next (suc k) b v i tmp (omega (arith, div_mono b d v lo le)),
        min_chars-lt k b (d / b) (v / b) (i + 1) (digit_char (v % b) ∷ tmp) lo
            (div_mono b d v lo le) (div_smaller b v (suc k) lo h),
      )
]

-- The digits that are written are those of the number.
digit_loop-ge :
    (k b v i m : ℕ) (tmp : CString)
    → 2 ≤ b
    → v < 2 ^ suc k
    → (m ≡ 0) ⊎ (b ^ m ≤ v)
    → i + suc m ≤ (digit_loop (suc k) b v tmp i).1
digit_loop-ge k b v i zero tmp lo h low = ground (
  arith,
  count_end k b v i tmp,
  count_next k b v i tmp,
  count-gt k b (v / b) (i + 1) (digit_char (v % b) ∷ tmp),
)
digit_loop-ge zero b v i (suc m) tmp lo h low =
    absurd (omega (arith, div_smaller b v 0 lo h, high, pow_pos b m lo))
  where
    high : b ^ m ≤ v / b
    high = pow_above b v m lo (omega arith)
digit_loop-ge (suc k) b v i (suc m) tmp lo h low = omega (
  arith,
  count_next (suc k) b v i tmp (omega (arith, high, pow_pos b m lo)),
  digit_loop-ge k b (v / b) (i + 1) m (digit_char (v % b) ∷ tmp) lo (div_smaller b v (suc k) lo h)
      (inr high),
)
  where
    high : b ^ m ≤ v / b
    high = pow_above b v m lo (omega arith)

digit_loop-le :
    (k b v i m : ℕ) (tmp : CString) → 2 ≤ b → v < b ^ suc m → (digit_loop k b v tmp i).1 ≤ i + suc m
digit_loop-le zero b v i m tmp lo h = unfold digit_loop in omega arith
digit_loop-le (suc k) b v i zero tmp lo h =
    let z : v / b ≡ 0 = omega (arith, pow_below b v 0 lo h, pow-zero b) in
    omega (arith, count_end k b v i tmp z)
digit_loop-le (suc k) b v i (suc m) tmp lo h = ground (
  arith,
  count_end k b v i tmp,
  count_next k b v i tmp,
  digit_loop-le k b (v / b) (i + 1) m (digit_char (v % b) ∷ tmp) lo (pow_below b v (suc m) lo h),
)

wider_lem : (n w : ℕ) → wider n w ≡ max n w
wider_lem n w = ground arith

length-text :
    (v b w m : ℕ)
    → 2 ≤ b
    → v < 2 ^ 32
    → (m ≡ 0) ⊎ (b ^ m ≤ v)
    → v < b ^ suc m
    → length (text v b w) ≡ max w (suc m)
length-text v b w m lo h low high = omega (
  arith,
  ap length (text_lem v b w),
  length-pad (wider n w - (digit_loop 32 b v [] 0).1) (digit_loop 32 b v [] 0).0,
  length-digit_loop 32 b v 0 [],
  digit_loop-ge 31 b v 0 m [] lo h low,
  digit_loop-le 32 b v 0 m [] lo high,
  min_chars-lt 31 b (magnitude v) v 0 [] lo (ground arith) h,
  wider_lem n w,
)
  where
    n : ℕ
    n = min_chars 32 b (magnitude v)

-- As many characters are written as the number has digits, or as the width asks for, which is
-- at most 64, if that is more: `m + 1` is the number of digits of `v` in base `b`.
pub length-general_uintformat :
    (v b w m : ℕ)
    → 2 ≤ b
    → b ≤ 16
    → v < 2 ^ 32
    → (m ≡ 0) ⊎ (b ^ m ≤ v)
    → v < b ^ suc m
    → w ≤ 64
    → (s : CString) × (general_uintformat v b w ≡ some s) × (length s ≡ max w (suc m))
length-general_uintformat v b w m lo hi h low high fits =
    (text v b w, general_uintformat-text v b w hi fits, length-text v b w m lo h low high)

-- An unsigned word without a width is one to ten digits.
pub length-unsigned :
    (v : ℕ) → v < 2 ^ 32 → (1 ≤ length (text v 10 1)) × (length (text v 10 1) ≤ 10)
length-unsigned v h = (omega (arith, len, low, less), omega (arith, len, high, less))
  where
    n : ℕ
    n = min_chars 32 10 (magnitude v)

    len : length (text v 10 1) ≡ max 1 n - (digit_loop 32 10 v [] 0).1 + (digit_loop 32 10 v [] 0).1
    len = omega (
      arith,
      ap length (text_lem v 10 1),
      length-pad (wider n 1 - (digit_loop 32 10 v [] 0).1) (digit_loop 32 10 v [] 0).0,
      length-digit_loop 32 10 v 0 [],
      wider_lem n 1,
    )

    low : 1 ≤ (digit_loop 32 10 v [] 0).1
    low = digit_loop-ge 31 10 v 0 0 [] (omega arith) h (inl refl)

    high : (digit_loop 32 10 v [] 0).1 ≤ 10
    high = digit_loop-le 32 10 v 0 9 [] (omega arith) (omega arith)

    less : n < (digit_loop 32 10 v [] 0).1
    less = omega (arith, min_chars-lt 31 10 (magnitude v) v 0 [] (omega arith) (ground arith) h)
