-- ===== src/Base/Masks.antt =====
-- Whole fields of a word: masks of low and of high bits, and the laws of `|` on disjoint fields.
use Prim.Native.Nat.{ℕ, zero, suc, ◌+◌, ◌*◌, ◌/◌, ◌%◌, ◌^◌, ◌<◌, bit_and, bit_or}
use mathlib.Core.Path.{◌≡◌, ap, ap₂}
use native.Mathlib.Omega.{arith}
use native.Mathlib.Nat.{pow-suc}
use fruity_orange.Base.Bits.{bit_and_step, bit_or_step, bit_and-zero, bit_or-zero}

pub bit_or-lt : (n v w : ℕ) → v < 2 ^ n → w < 2 ^ n → bit_or v w < 2 ^ n
bit_or-lt zero v w h k =
    let a : v ≡ 0 = omega arith in
    let b : w ≡ 0 = omega arith in
    omega (arith, ap (λ (t : ℕ). bit_or t w) a, ap (λ (t : ℕ). bit_or 0 t) b, bit_or-zero 0)
bit_or-lt (suc n) v w h k =
    let p = pow-suc 2 n in
    omega
      (arith, p, bit_or_step v w, bit_or-lt n (v / 2) (w / 2) (omega (arith, p)) (omega (arith, p)))

-- `q` above the lowest `n` bits and `r` in them.
pub bit_or-fields : (n q r : ℕ) → r < 2 ^ n → bit_or (q * 2 ^ n) r ≡ q * 2 ^ n + r
bit_or-fields zero q r h =
    let a : r ≡ 0 = omega arith in
    let b : q * 2 ^ 0 ≡ q = omega arith in
    omega (arith, ap₂ (λ (s t : ℕ). bit_or s t) b a, bit_or-zero q)
bit_or-fields (suc n) q r h =
    let p = pow-suc 2 n in
    let d : q * 2 ^ suc n ≡ 2 * (q * 2 ^ n) = grind (arith, ap (λ (t : ℕ). q * t) p) in
    let half : q * 2 ^ suc n / 2 ≡ q * 2 ^ n = omega arith in
    omega (
      arith,
      d,
      bit_or_step (q * 2 ^ suc n) r,
      ap (λ (t : ℕ). bit_or t (r / 2)) half,
      bit_or-fields n q (r / 2) (omega (arith, p)),
    )

-- The low three bits do not reach the others.
pub bit_or-high : (v w : ℕ) → w < 8 → bit_or v w / 8 ≡ v / 8
bit_or-high v w h =
    let z : w / 2 / 2 / 2 ≡ 0 = omega arith in
    omega (
      arith,
      bit_or_step v w,
      bit_or_step (v / 2) (w / 2),
      bit_or_step (v / 2 / 2) (w / 2 / 2),
      ap (λ (t : ℕ). bit_or (v / 2 / 2 / 2) t) z,
      bit_or-zero (v / 2 / 2 / 2),
    )

pub bit_or-odd : (v w : ℕ) → bit_or v w % 2 ≡ 0 → (v % 2 ≡ 0) × (w % 2 ≡ 0)
bit_or-odd v w h = omega (arith, bit_or_step v w)

pub bit_and-one : (v : ℕ) → bit_and v 1 ≡ v % 2
bit_and-one v = omega (arith, bit_and_step v 1, bit_and-zero (v / 2))

-- A mask, from its lowest bit on.
and_ones : (v m : ℕ) → bit_and v (2 * m + 1) ≡ v % 2 + 2 * bit_and (v / 2) m
and_ones v m =
    let half : (2 * m + 1) / 2 ≡ m = omega arith in
    omega (arith, bit_and_step v (2 * m + 1), ap (λ (t : ℕ). bit_and (v / 2) t) half)

and_even : (v m : ℕ) → bit_and v (2 * m) ≡ 2 * bit_and (v / 2) m
and_even v m =
    let half : 2 * m / 2 ≡ m = omega arith in
    omega (arith, bit_and_step v (2 * m), ap (λ (t : ℕ). bit_and (v / 2) t) half)

-- The mask of the low twelve bits.
pub bit_and-offset : (v : ℕ) → bit_and v 0xfff ≡ v % 4096
bit_and-offset v = omega (
  arith,
  and_ones v 0x7ff,
  and_ones (v / 2) 0x3ff,
  and_ones (v / 2 / 2) 0x1ff,
  and_ones (v / 2 / 2 / 2) 0xff,
  and_ones (v / 2 / 2 / 2 / 2) 0x7f,
  and_ones (v / 2 / 2 / 2 / 2 / 2) 0x3f,
  and_ones (v / 2 / 2 / 2 / 2 / 2 / 2) 0x1f,
  and_ones (v / 2 / 2 / 2 / 2 / 2 / 2 / 2) 0xf,
  and_ones (v / 2 / 2 / 2 / 2 / 2 / 2 / 2 / 2) 0x7,
  and_ones (v / 2 / 2 / 2 / 2 / 2 / 2 / 2 / 2 / 2) 0x3,
  and_ones (v / 2 / 2 / 2 / 2 / 2 / 2 / 2 / 2 / 2 / 2) 0x1,
  and_ones (v / 2 / 2 / 2 / 2 / 2 / 2 / 2 / 2 / 2 / 2 / 2) 0x0,
  bit_and-zero (v / 2 / 2 / 2 / 2 / 2 / 2 / 2 / 2 / 2 / 2 / 2 / 2),
)

and_all : (n m v : ℕ) → m + 1 ≡ 2 ^ n → v < 2 ^ n → bit_and v m ≡ v
and_all zero m v e h =
    let z : m ≡ 0 = omega arith in omega (arith, ap (λ (t : ℕ). bit_and v t) z, bit_and-zero v)
and_all (suc n) m v e h =
    let p = pow-suc 2 n in
    omega (arith, bit_and_step v m, and_all n (m / 2) (v / 2) (omega (arith, p)) (omega (arith, p)))

-- The mask of a page's address, `PAGE_MASK`.
pub bit_and-page : (v : ℕ) → bit_and v 0xfffff000 ≡ 4096 * bit_and (v / 4096) 0xfffff
bit_and-page v =
    let deep : v / 2 / 2 / 2 / 2 / 2 / 2 / 2 / 2 / 2 / 2 / 2 / 2 ≡ v / 4096 = omega arith in
    omega (
      arith,
      ap (λ (t : ℕ). bit_and t 0xfffff) deep,
      and_even v 0x7ffff800,
      and_even (v / 2) 0x3ffffc00,
      and_even (v / 2 / 2) 0x1ffffe00,
      and_even (v / 2 / 2 / 2) 0xfffff00,
      and_even (v / 2 / 2 / 2 / 2) 0x7ffff80,
      and_even (v / 2 / 2 / 2 / 2 / 2) 0x3ffffc0,
      and_even (v / 2 / 2 / 2 / 2 / 2 / 2) 0x1ffffe0,
      and_even (v / 2 / 2 / 2 / 2 / 2 / 2 / 2) 0xfffff0,
      and_even (v / 2 / 2 / 2 / 2 / 2 / 2 / 2 / 2) 0x7ffff8,
      and_even (v / 2 / 2 / 2 / 2 / 2 / 2 / 2 / 2 / 2) 0x3ffffc,
      and_even (v / 2 / 2 / 2 / 2 / 2 / 2 / 2 / 2 / 2 / 2) 0x1ffffe,
      and_even (v / 2 / 2 / 2 / 2 / 2 / 2 / 2 / 2 / 2 / 2 / 2) 0xfffff,
    )

pub bit_and-page_lem : (v : ℕ) → v < 2 ^ 32 → bit_and v 0xfffff000 ≡ v / 4096 * 4096
bit_and-page_lem v h =
    omega (arith, bit_and-page v, and_all 20 0xfffff (v / 4096) (omega arith) (omega arith))
