-- ===== src/Clib/Str/Writes/Copy.antt =====
-- What `strcpy` and `strcat` of lib/common/string/string.c write.
use fruity_orange.Base.{ℕ, zero, suc, ◌+◌, ◌<◌, ◌≤◌, ◌≡◌, ◌≢◌, ◌⊎◌, inl, sym, ap, ◌∙◌, some, arith}
use fruity_orange.Clib.Mem.{Memory, write}
use fruity_orange.Clib.Mem.Laws.{write_self, write_other}
use fruity_orange.Clib.Str.Writes.{strcpy}

-- A string of `n` bytes at `p`.
pub record IsString (m : Memory) (p n : ℕ) : Type 0 where
  pub bytes : (i : ℕ) → i < n → m (p + i) ≢ 0
  pub ends : m (p + n) ≡ 0

-- The areas of a string of `n` bytes at `src` and of its copy at `dest` have no byte in common.
abbrev pub Apart : ℕ → ℕ → ℕ → Type 0
Apart dest src n = (dest + n < src) ⊎ (src + n < dest)

-- A byte that is written in front of the string leaves the rest of it a string.
pub rest-IsString :
    (m : Memory) (dest src n x : ℕ)
    → IsString m src (suc n)
    → Apart dest src (suc n)
    → IsString (write dest x m) (src + 1) n
rest-IsString m dest src n x v a = record {
  bytes = λ i h z.
      let e : src + 1 + i ≡ src + suc i = omega arith in
      v.bytes (suc i) (omega arith)
        (ap m (sym e) ∙ sym (write_other dest x (src + 1 + i) m (ground arith)) ∙ z);
  ends =
      write_other dest x (src + 1 + n) m (ground arith)
      ∙ ap m {x = src + 1 + n} {y = src + suc n} (omega arith)
      ∙ v.ends;
}

-- The bytes of `m` from `src` to `src + n` stand at `dest` in `m'`, which is as `m` elsewhere.
pub record IsCopy (m m' : Memory) (dest src n : ℕ) : Type 0 where
  pub same : (i : ℕ) → i ≤ n → m' (dest + i) ≡ m (src + i)
  pub kept : (j : ℕ) → (j < dest) ⊎ (dest + n < j) → m' j ≡ m j

pub one-IsCopy : (m : Memory) (dest src : ℕ) → IsCopy m (write dest (m src) m) dest src 0
one-IsCopy m dest src = record {
  same = λ i h.
      ap (write dest (m src) m) {x = dest + i} {y = dest} (omega arith)
      ∙ write_self dest (m src) m
      ∙ ap m {x = src} {y = src + i} (omega arith);
  kept = λ j h. write_other dest (m src) j m (ground arith);
}

-- The places of a copy of the rest, made after the first byte, and the one of that byte.
more_same :
    (m m' : Memory) (dest src n : ℕ)
    → Apart dest src (suc n)
    → IsCopy (write dest (m src) m) m' (dest + 1) (src + 1) n
    → (i : ℕ) → i ≤ suc n
    → m' (dest + i) ≡ m (src + i)
more_same m m' dest src n a c zero h =
    ap m' {x = dest + 0} {y = dest} (omega arith)
    ∙ c.kept dest (inl (omega arith))
    ∙ write_self dest (m src) m
    ∙ ap m {x = src} {y = src + 0} (omega arith)
more_same m m' dest src n a c (suc i) h =
    ap m' {x = dest + suc i} {y = dest + 1 + i} (omega arith)
    ∙ c.same i (omega arith)
    ∙ write_other dest (m src) (src + 1 + i) m (ground arith)
    ∙ ap m {x = src + 1 + i} {y = src + suc i} (omega arith)

-- A copy of the rest, made after the first byte, is a copy of all.
pub more-IsCopy :
    (m m' : Memory) (dest src n : ℕ)
    → Apart dest src (suc n)
    → IsCopy (write dest (m src) m) m' (dest + 1) (src + 1) n
    → IsCopy m m' dest src (suc n)
more-IsCopy m m' dest src n a c = record {
  same = more_same m m' dest src n a c;
  kept = λ j h. c.kept j (ground arith) ∙ write_other dest (m src) j m (ground arith);
}

-- The round at the zero, and a round before it.
strcpy-last :
    (k dest src : ℕ) (m : Memory)
    → m src ≡ 0
    → strcpy (suc k) dest src m ≡ some (write dest (m src) m)
unfolding strcpy
strcpy-last k dest src m z = ground (arith)

strcpy-next :
    (k dest src : ℕ) (m : Memory)
    → m src ≢ 0
    → strcpy (suc k) dest src m ≡ strcpy k (dest + 1) (src + 1) (write dest (m src) m)
unfolding strcpy
strcpy-next k dest src m z = ground (arith)

-- `strcpy` to an area apart from the string, with more rounds than the string has bytes, copies it with its zero and writes nothing else.
pub strcpy-IsCopy :
    (n k dest src : ℕ) (m : Memory)
    → n < k
    → IsString m src n
    → Apart dest src n
    → (m' : Memory) × (strcpy k dest src m ≡ some m') × IsCopy m m' dest src n
strcpy-IsCopy n zero dest src m h v a = absurd (omega arith)
strcpy-IsCopy zero (suc k) dest src m h v a = (
  write dest (m src) m,
  strcpy-last k dest src m (ap m {x = src} {y = src + 0} (omega arith) ∙ v.ends),
  one-IsCopy m dest src,
)
strcpy-IsCopy (suc n) (suc k) dest src m h v a =
    let r =
      strcpy-IsCopy n k (dest + 1) (src + 1) (write dest (m src) m) (omega arith)
        (rest-IsString m dest src n (m src) v a) (ground arith) in
    (
      r.0,
      strcpy-next k dest src m
            (λ z. v.bytes 0 (omega arith) (ap m {x = src + 0} {y = src} (omega arith) ∙ z))
          ∙ r.1,
      more-IsCopy m r.0 dest src n a r.2,
    )
