-- ===== src/Clib/Tar/Size.antt =====
-- `tar_getsize` of lib/common/tar/tar.c reads eleven octal digits.
use native.Mathlib.Nat.{div-add-mod'}
use fruity_orange.Base.{ℕ, zero, suc, ◌+◌, ◌-◌, ◌*◌, ◌%◌, ◌^◌, ◌≤◌, ◌<◌, ◌≡◌, arith, ap, ◌∙◌}
use fruity_orange.Clib.Mem.{Memory}
use fruity_orange.Clib.Tar.{getsize_loop, tar_getsize}

-- The number that `n` octal digits from `p` on stand for, the first one being the highest.
abbrev pub octal : ℕ → Memory → ℕ → ℕ
octal zero m p = 0
octal (suc n) m p = octal n m p * 8 + (m (p + n) - 48)

-- `n` octal digits stand at `p`.
abbrev pub IsOctal : ℕ → Memory → ℕ → Type 0
IsOctal n m p = (i : ℕ) → i < n → (48 ≤ m (p + i)) × (m (p + i) ≤ 55)

round_shifted :
    (size x count rest : ℕ)
    → ((size + (x + 2 ^ 32) * count) % 2 ^ 32 + count * 8 % 2 ^ 32 * rest) % 2 ^ 32
      ≡ (size + count * (rest * 8 + x)) % 2 ^ 32
round_shifted size x count rest =
    omega (arith, ap (λ (t : ℕ). t * rest) (div-add-mod' (count * 8) (2 ^ 32)))

-- One round: the digit is added in its place, and the count is multiplied.
round :
    (size d count rest : ℕ)
    → 48 ≤ d
    → ((size + (d + 2 ^ 32 - 48) * count) % 2 ^ 32 + count * 8 % 2 ^ 32 * rest) % 2 ^ 32
      ≡ (size + count * (rest * 8 + (d - 48))) % 2 ^ 32
round size d count rest h =
    let e : d + 2 ^ 32 - 48 ≡ d - 48 + 2 ^ 32 = omega arith in
    rw e (round_shifted size (d - 48) count rest)

getsize_loop-octal :
    (n : ℕ) (m : Memory) (p size count : ℕ)
    → IsOctal n m p
    → getsize_loop n m p size count % 2 ^ 32 ≡ (size + count * octal n m p) % 2 ^ 32
unfolding getsize_loop
getsize_loop-octal zero m p size count h = omega arith
getsize_loop-octal (suc n) m p size count h =
    getsize_loop-octal n m p ((size + (m (p + n) + 2 ^ 32 - 48) * count) % 2 ^ 32)
      (count * 8 % 2 ^ 32) (λ i l. h i (omega arith))
    ∙ round size (m (p + n)) count (octal n m p) (h n (omega arith)).0

getsize_loop-lt :
    (n : ℕ) (m : Memory) (p size count : ℕ) → size < 2 ^ 32 → getsize_loop n m p size count < 2 ^ 32
unfolding getsize_loop
getsize_loop-lt zero m p size count h = h
getsize_loop-lt (suc n) m p size count h =
    getsize_loop-lt n m p _ (count * 8 % 2 ^ 32) (omega arith)

-- The size field of eleven octal digits is read as the number that they stand for, wrapped to 32
-- bits: eleven digits hold 33.
pub tar_getsize-octal :
    (m : Memory) (p : ℕ) → IsOctal 11 m p → tar_getsize m p ≡ octal 11 m p % 2 ^ 32
unfolding tar_getsize
tar_getsize-octal m p h =
    omega (arith, getsize_loop-octal 11 m p 0 1 h, getsize_loop-lt 11 m p 0 1 (omega arith))
