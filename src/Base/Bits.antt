-- ===== src/Base/Bits.antt =====
-- Single bits of a word: `w & (1 << j)`, `w |= 1 << j` and `w &= ~(1 << j)`, and the laws that
-- relate them to the digits of the number.
use Prim.Native.Nat.{
  ℕ, zero, suc, ◌+◌, ◌-◌, ◌*◌, ◌/◌, ◌%◌, ◌^◌, ◌≤◌, ◌<◌, min, max, bit_and, bit_or, digits,
  bit_and-bitwise, bit_or-bitwise,
}
use mathlib.Core.Path.{◌≡◌, refl, ap}
use native.Mathlib.Omega.{arith}
use native.Mathlib.Nat.{pow-suc}
use fruity_orange.Base.Tests.{◌==◌, if◌then◌else◌}

-- The j-th binary digit of `w`.
abbrev pub digit : ℕ → ℕ → ℕ
digit w zero = w % 2
digit w (suc j) = digit (w / 2) j

abbrev pub shl_one : ℕ → ℕ
shl_one j = 2 ^ j

-- `w & ~m`: the bits of `w` that are not in `m`.
abbrev pub and_not : ℕ → ℕ → ℕ
and_not w m = w - bit_and w m

-- Both operations go over the digits of the first number, with an end and a rule for a digit.
-- Rounds beyond the first number change nothing.
module _ (end : ℕ → ℕ) (rule : ℕ → ℕ → ℕ) where
  more_rounds : (x y n m : ℕ) → x ≤ n → n ≤ m → digits end rule m x y ≡ digits end rule n x y
  more_rounds zero y zero zero h k = refl
  more_rounds zero y zero (suc m) h k = refl
  more_rounds zero y (suc n) zero h k = refl
  more_rounds zero y (suc n) (suc m) h k = refl
  more_rounds (suc x) y (suc n) (suc m) h k =
      omega (arith, more_rounds (suc x / 2) (y / 2) n m (omega arith) (omega arith))
  more_rounds (suc x) y zero m h k = absurd (omega arith)
  more_rounds (suc x) y (suc n) zero h k = absurd (omega arith)

pub bit_and_step : (v w : ℕ) → bit_and v w ≡ min (v % 2) (w % 2) + 2 * bit_and (v / 2) (w / 2)
bit_and_step zero w = omega (arith, bit_and-bitwise 0 (w / 2), bit_and-bitwise 0 w)
bit_and_step (suc v) w =
    let r =
      more_rounds (λ y. zero) min (suc v / 2) (w / 2) (suc v / 2) v (omega arith) (omega arith) in
    omega (arith, r, bit_and-bitwise (suc v / 2) (w / 2), bit_and-bitwise (suc v) w)

pub bit_or_step : (v w : ℕ) → bit_or v w ≡ max (v % 2) (w % 2) + 2 * bit_or (v / 2) (w / 2)
bit_or_step zero w = omega (arith, bit_or-bitwise 0 (w / 2), bit_or-bitwise 0 w)
bit_or_step (suc v) w =
    let r =
      more_rounds (λ y. y) max (suc v / 2) (w / 2) (suc v / 2) v (omega arith) (omega arith) in
    omega (arith, r, bit_or-bitwise (suc v / 2) (w / 2), bit_or-bitwise (suc v) w)

-- Zero on the right, for words of at most `n` digits.
and_zero_below : (n w : ℕ) → w < 2 ^ n → bit_and w 0 ≡ 0
and_zero_below zero w h =
    let z : w ≡ 0 = omega arith in omega (arith, ap (λ (t : ℕ). bit_and t 0) z, bit_and-bitwise 0 0)
and_zero_below (suc n) w h =
    omega (arith, and_zero_below n (w / 2) (omega (arith, pow-suc 2 n)), bit_and_step w 0)

or_zero_below : (n w : ℕ) → w < 2 ^ n → bit_or w 0 ≡ w
or_zero_below zero w h =
    let z : w ≡ 0 = omega arith in omega (arith, ap (λ (t : ℕ). bit_or t 0) z, bit_or-bitwise 0 0)
or_zero_below (suc n) w h =
    omega (arith, or_zero_below n (w / 2) (omega (arith, pow-suc 2 n)), bit_or_step w 0)

below_pow : (w : ℕ) → w < 2 ^ w
below_pow zero = omega arith
below_pow (suc w) = omega (arith, below_pow w, pow-suc 2 w)

pub bit_and-zero : (w : ℕ) → bit_and w 0 ≡ 0
bit_and-zero w = and_zero_below w w (below_pow w)

pub bit_or-zero : (w : ℕ) → bit_or w 0 ≡ w
bit_or-zero w = or_zero_below w w (below_pow w)

half_pow : (j : ℕ) → 2 ^ suc j / 2 ≡ 2 ^ j
half_pow j = omega (arith, pow-suc 2 j)

pub digit-le-one : (w j : ℕ) → digit w j ≤ 1
digit-le-one w zero = omega arith
digit-le-one w (suc j) = digit-le-one (w / 2) j

-- `w & (1 << j)` is the j-th digit in its place.
pub bit_and_pow : (w j : ℕ) → bit_and w (2 ^ j) ≡ digit w j * 2 ^ j
bit_and_pow w zero = omega (arith, bit_and_step w 1, bit_and-zero (w / 2))
bit_and_pow w (suc j) = omega (
  arith,
  bit_and_step w (2 ^ suc j),
  pow-suc 2 j,
  ap (λ (t : ℕ). bit_and (w / 2) t) (half_pow j),
  bit_and_pow (w / 2) j,
  ap (λ (t : ℕ). digit (w / 2) j * t) (pow-suc 2 j),
)

pub bit_and_pow-le : (w j : ℕ) → bit_and w (2 ^ j) ≤ w
bit_and_pow-le w zero = omega (arith, bit_and_pow w 0)
bit_and_pow-le w (suc j) = omega (
  arith,
  bit_and_pow-le (w / 2) j,
  bit_and_step w (2 ^ suc j),
  pow-suc 2 j,
  ap (λ (t : ℕ). bit_and (w / 2) t) (half_pow j),
)

-- `w |= 1 << j` adds the j-th power unless it is there.
pub bit_or_pow : (w j : ℕ) → bit_or w (2 ^ j) ≡ w + (1 - digit w j) * 2 ^ j
bit_or_pow w zero = omega (arith, bit_or_step w 1, bit_or-zero (w / 2))
bit_or_pow w (suc j) = omega (
  arith,
  bit_or_step w (2 ^ suc j),
  pow-suc 2 j,
  ap (λ (t : ℕ). bit_or (w / 2) t) (half_pow j),
  bit_or_pow (w / 2) j,
  ap (λ (t : ℕ). (1 - digit (w / 2) j) * t) (pow-suc 2 j),
)

or_half : (w i : ℕ) → bit_or w (2 ^ suc i) / 2 ≡ bit_or (w / 2) (2 ^ i)
or_half w i =
    omega
      (arith, bit_or_step w (2 ^ suc i), pow-suc 2 i, ap (λ (t : ℕ). bit_or (w / 2) t) (half_pow i))

and_double : (w i : ℕ) → bit_and w (2 ^ suc i) ≡ bit_and (w / 2) (2 ^ i) * 2
and_double w i =
    omega (
      arith,
      bit_and_step w (2 ^ suc i),
      pow-suc 2 i,
      ap (λ (t : ℕ). bit_and (w / 2) t) (half_pow i),
    )

and_not_half : (w i : ℕ) → and_not w (2 ^ suc i) / 2 ≡ and_not (w / 2) (2 ^ i)
and_not_half w i = omega (arith, and_double w i)

pow_pos : (j : ℕ) → 0 < 2 ^ j
pow_pos zero = omega arith
pow_pos (suc j) = omega (arith, pow_pos j, pow-suc 2 j)

or_one_half : (w : ℕ) → bit_or w (2 ^ 0) / 2 ≡ w / 2
or_one_half w = omega (arith, bit_or_step w 1, bit_or-zero (w / 2))

and_not_one_half : (w : ℕ) → and_not w (2 ^ 0) / 2 ≡ w / 2
and_not_one_half w = omega (arith, bit_and_step w 1, bit_and-zero (w / 2))

pub digit_set : (w i j : ℕ) → digit (bit_or w (2 ^ i)) j ≡ (if i == j then 1 else digit w j)
digit_set w zero zero = omega (arith, bit_or_step w 1)
digit_set w zero (suc j) = ground (arith, ap (λ (t : ℕ). digit t j) (or_one_half w))
digit_set w (suc i) zero = ground (arith, bit_or_step w (2 ^ suc i), pow-suc 2 i)
digit_set w (suc i) (suc j) =
    ground (arith, ap (λ (t : ℕ). digit t j) (or_half w i), digit_set (w / 2) i j)

pub digit_clear : (w i j : ℕ) → digit (and_not w (2 ^ i)) j ≡ (if i == j then 0 else digit w j)
digit_clear w zero zero = omega (arith, bit_and_step w 1, bit_and-zero (w / 2))
digit_clear w zero (suc j) = ground (arith, ap (λ (t : ℕ). digit t j) (and_not_one_half w))
digit_clear w (suc i) zero = ground (arith, and_double w i, bit_and_pow-le w (suc i))
digit_clear w (suc i) (suc j) =
    ground (arith, ap (λ (t : ℕ). digit t j) (and_not_half w i), digit_clear (w / 2) i j)

-- Clearing a bit that was just set gives the word back, if the bit was not set before.
pub and_not-bit_or : (w j : ℕ) → digit w j ≡ 0 → and_not (bit_or w (2 ^ j)) (2 ^ j) ≡ w
and_not-bit_or w j h =
    ground (arith, bit_and_pow (bit_or w (2 ^ j)) j, digit_set w j j, bit_or_pow w j)

-- `w & (1 << j)` is zero exactly when the digit is.
pub bit_test : (w j : ℕ) → (bit_and w (2 ^ j) == 0) ≡ (digit w j == 0)
bit_test w j = ground (arith, bit_and_pow w j, digit-le-one w j, pow_pos j)

-- A word of `n` bits, all of them zero, is zero.
pub zero_of_digits : (n w : ℕ) → w < 2 ^ n → ((j : ℕ) → j < n → digit w j ≡ 0) → w ≡ 0
zero_of_digits zero w h z = omega arith
zero_of_digits (suc n) w h z = omega (
  arith,
  z 0 (omega arith),
  zero_of_digits n (w / 2) (omega (arith, pow-suc 2 n)) (λ j hj. z (suc j) (omega arith)),
)

pub digit-zero : (j : ℕ) → digit 0 j ≡ 0
digit-zero zero = refl
digit-zero (suc j) = digit-zero j

-- A word of `n` bits stays one when a bit below `n` is set.
pub bit_or_pow-lt : (n w j : ℕ) → w < 2 ^ n → j < n → bit_or w (2 ^ j) < 2 ^ n
bit_or_pow-lt zero w j h k = absurd (omega arith)
bit_or_pow-lt (suc n) w zero h k =
    omega (arith, bit_or_step w 1, bit_or-zero (w / 2), pow-suc 2 n, pow_pos n)
bit_or_pow-lt (suc n) w (suc j) h k = omega (
  arith,
  or_half w j,
  pow-suc 2 n,
  bit_or_pow-lt n (w / 2) j (omega (arith, pow-suc 2 n)) (omega arith),
)
