-- ===== src/Clib/Mem/Laws.antt =====
-- What the loops of lib/common/string/mem.c leave at every address.
use fruity_orange.Base.{
  ℕ, zero, suc, ◌+◌, ◌-◌, ◌%◌, ◌≤◌, ◌<◌, ◌≡◌, ◌≢◌, refl, ◌&&◌, ◌==◌, leb, ltb, if◌then◌else◌, ◌⊎◌,
  inl, inr, arith, Bool-cases, ap,
}
use fruity_orange.Clib.Mem.{Memory, write, memcpy, memmove, memset, memclr}

-- The address lies in an area.
abbrev pub In : ℕ → ℕ → ℕ → Type 0
In x start n = (start ≤ x) × (x < start + n)

pub write_self : (p v : ℕ) (m : Memory) → write p v m p ≡ v
unfolding write
write_self p v m = ground arith

pub write_other : (p v x : ℕ) (m : Memory) → p ≢ x → write p v m x ≡ m x
unfolding write
write_other p v x m h = ground arith

-- `memcpy` writes nothing outside the destination, whether the areas overlap or not.
memcpy_outside : (d s n : ℕ) (m : Memory) (x : ℕ) → (x < d) ⊎ (d + n ≤ x) → memcpy d s n m x ≡ m x
unfolding memcpy
memcpy_outside d s zero m x h = refl
memcpy_outside d s (suc n) m x h = ground (
  arith,
  memcpy_outside (d + 1) (s + 1) n (write d (m s) m) x (omega arith),
  write_other d (m s) x m (omega arith),
)

memcpy_inside :
    (d s n k x y : ℕ) (m : Memory)
    → k < n
    → (d ≤ s) ⊎ (s + n ≤ d)
    → x ≡ d + k
    → y ≡ s + k
    → memcpy d s n m x ≡ m y
unfolding memcpy
memcpy_inside d s zero k x y m h o ex ey = absurd (omega arith)
memcpy_inside d s (suc n) zero x y m h o ex ey = ground (
  arith,
  memcpy_outside (d + 1) (s + 1) n (write d (m s) m) x (omega arith),
  write_self d (m s) m,
  ap (λ (t : ℕ). write d (m s) m t) (let e : x ≡ d = omega arith in e),
  ap m (let e : y ≡ s = omega arith in e),
)
memcpy_inside d s (suc n) (suc k) x y m h o ex ey = ground (
  arith,
  memcpy_inside (d + 1) (s + 1) n k x y (write d (m s) m) (omega arith) (omega arith) (omega arith)
      (omega arith),
  write_other d (m s) y m (omega arith),
)

-- `memcpy` copies the `n` bytes of the source, if the areas are apart or the destination starts
-- at or below the source, and writes nothing else.
pub memcpy_lem :
    (d s n x : ℕ) (m : Memory)
    → (d ≤ s) ⊎ (s + n ≤ d)
    → memcpy d s n m x ≡ (if leb d x && ltb x (d + n) then m (s + (x - d)) else m x)
memcpy_lem d s n x m o = elim (Bool-cases (leb d x && ltb x (d + n))) [
  | inl inside ↦
      rw inside (memcpy_inside d s n (x - d) x (s + (x - d)) m (ground arith) o (ground arith) refl)
  | inr outside ↦ rw outside (memcpy_outside d s n m x (ground arith))
]

memmove_outside : (d s n x : ℕ) (m : Memory) → (x ≤ d) ⊎ (d + n < x) → memmove d s n m x ≡ m x
unfolding memmove
memmove_outside d s zero x m h = refl
memmove_outside d s (suc n) x m h = ground (
  arith,
  memmove_outside d s n x (write (d + suc n) (m (s + suc n)) m) (omega arith),
  write_other (d + suc n) (m (s + suc n)) x m (omega arith),
)

memmove_inside :
    (d s n k : ℕ) (m : Memory)
    → k < n
    → (s ≤ d) ⊎ (d + n ≤ s)
    → memmove d s n m (d + suc k) ≡ m (s + suc k)
unfolding memmove
memmove_inside d s zero k m h o = absurd (omega arith)
memmove_inside d s (suc n) k m h o = elim (Bool-cases (k == n)) [
  | inl last ↦
      let e : k ≡ n = ground arith in
      rw e (
        ground (
          arith,
          memmove_outside d s n (d + suc n) (write (d + suc n) (m (s + suc n)) m) (omega arith),
          write_self (d + suc n) (m (s + suc n)) m,
        ))
  | inr before ↦ ground (
    arith,
    memmove_inside d s n k (write (d + suc n) (m (s + suc n)) m) (ground arith) (omega arith),
    write_other (d + suc n) (m (s + suc n)) (s + suc k) m (ground arith),
  )
]

-- `memmove` copies one byte too far: the bytes 1 to `n` of the source go to the bytes 1 to `n`
-- of the destination, if the areas do not overlap with the destination below. The byte 0 of the
-- destination is not written.
pub memmove_lem :
    (d s n x : ℕ) (m : Memory)
    → (s ≤ d) ⊎ (d + n ≤ s)
    → memmove d s n m x ≡ (if ltb d x && leb x (d + n) then m (s + (x - d)) else m x)
memmove_lem d s n x m o = elim (Bool-cases (ltb d x && leb x (d + n))) [
  | inl inside ↦
      let ex : d + suc (x - d - 1) ≡ x = ground arith in
      let ey : s + suc (x - d - 1) ≡ s + (x - d) = ground arith in
      rw inside (rw (ex, ey) at (memmove_inside d s n (x - d - 1) m (ground arith) o))
  | inr outside ↦ rw outside (memmove_outside d s n x m (ground arith))
]

memset_outside : (p v n x : ℕ) (m : Memory) → (x < p) ⊎ (p + n ≤ x) → memset p v n m x ≡ m x
unfolding memset
memset_outside p v zero x m h = refl
memset_outside p v (suc n) x m h = ground (
  arith,
  memset_outside (p + 1) v n x (write p (v % 256) m) (omega arith),
  write_other p (v % 256) x m (omega arith),
)

-- `memset` fills the area with the low byte of the value, and writes nothing else.
pub memset_lem :
    (p v n x : ℕ) (m : Memory)
    → memset p v n m x ≡ (if leb p x && ltb x (p + n) then v % 256 else m x)
unfolding memset
memset_lem p v zero x m = ground arith
memset_lem p v (suc n) x m = ground (
  arith,
  memset_lem (p + 1) v n x (write p (v % 256) m),
  memset_outside (p + 1) v n x (write p (v % 256) m),
  write_self p (v % 256) m,
  write_other p (v % 256) x m,
)

-- `memclr` is `memset` with 0.
pub memclr-memset : (p n : ℕ) (m : Memory) → memclr p n m ≡ memset p 0 n m
unfolding memclr memset
memclr-memset p zero m = refl
memclr-memset p (suc n) m = memclr-memset (p + 1) n (write p 0 m)
