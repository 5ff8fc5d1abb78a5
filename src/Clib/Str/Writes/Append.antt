-- ===== src/Clib/Str/Writes/Append.antt =====
-- What `strcat` of lib/common/string/string.c writes.
use fruity_orange.Base.{ℕ, zero, suc, ◌+◌, ◌<◌, ◌≡◌, ◌≢◌, refl, inr, ap, sym, ◌∙◌, some, arith}
use fruity_orange.Clib.Mem.{Memory, write}
use fruity_orange.Clib.Str.Writes.{find_end, append_loop, strcat}
use fruity_orange.Clib.Str.Writes.Copy.{
  IsString, Apart, IsCopy, rest-IsString, one-IsCopy, more-IsCopy,
}

-- A round that the next byte ends, and one that it does not.
append_last :
    (k dest src : ℕ) (m : Memory)
    → write dest (m src) m (src + 1) ≡ 0
    → append_loop (suc k) dest src m ≡ some (dest + 1, write dest (m src) m)
unfolding append_loop
append_last k dest src m z = ground (arith)

append_next :
    (k dest src : ℕ) (m : Memory)
    → write dest (m src) m (src + 1) ≢ 0
    → append_loop (suc k) dest src m ≡ append_loop k (dest + 1) (src + 1) (write dest (m src) m)
unfolding append_loop
append_next k dest src m z = ground (arith)

-- The loop copies the bytes of a string that is not empty, without its zero.
append_loop-IsCopy :
    (n k dest src : ℕ) (m : Memory)
    → n < k
    → IsString m src (suc n)
    → Apart dest src (suc n)
    → (m' : Memory) × (append_loop k dest src m ≡ some (dest + suc n, m')) × IsCopy m m' dest src n
append_loop-IsCopy n zero dest src m h v a = absurd (omega arith)
append_loop-IsCopy zero (suc k) dest src m h v a =
    let s = rest-IsString m dest src 0 (m src) v a in
    let e : src + 1 + 0 ≡ src + 1 = omega arith in
    (
      write dest (m src) m,
      append_last k dest src m (ap (write dest (m src) m) (sym e) ∙ s.ends),
      one-IsCopy m dest src,
    )
append_loop-IsCopy (suc n) (suc k) dest src m h v a =
    let s = rest-IsString m dest src (suc n) (m src) v a in
    let e : src + 1 + 0 ≡ src + 1 = omega arith in
    let d : dest + 1 + suc n ≡ dest + suc (suc n) = omega arith in
    let r =
      append_loop-IsCopy n k (dest + 1) (src + 1) (write dest (m src) m) (omega arith) s
        (ground arith) in
    (
      r.0,
      append_next k dest src m (λ z. s.bytes 0 (omega arith) (ap (write dest (m src) m) e ∙ z))
          ∙ r.1
          ∙ ap (λ (x : ℕ). some (x, r.0)) d,
      more-IsCopy m r.0 dest src n (ground arith) r.2,
    )

find_last : (k dest : ℕ) (m : Memory) → m dest ≡ 0 → find_end (suc k) dest m ≡ some dest
unfolding find_end
find_last k dest m z = ground (arith)

find_next :
    (k dest : ℕ) (m : Memory) → m dest ≢ 0 → find_end (suc k) dest m ≡ find_end k (dest + 1) m
unfolding find_end
find_next k dest m z = ground (arith)

-- The rest of a string.
tail-IsString : (m : Memory) (p n : ℕ) → IsString m p (suc n) → IsString m (p + 1) n
tail-IsString m p n v = record {
  bytes = λ i h z.
      v.bytes (suc i) (omega arith) (ap m {x = p + suc i} {y = p + 1 + i} (omega arith) ∙ z);
  ends = ap m {x = p + 1 + n} {y = p + suc n} (omega arith) ∙ v.ends;
}

-- With more rounds than the string has bytes, its end is found.
find_end_lem : (n k p : ℕ) (m : Memory) → n < k → IsString m p n → find_end k p m ≡ some (p + n)
find_end_lem n zero p m h v = absurd (omega arith)
find_end_lem zero (suc k) p m h v =
    find_last k p m (ap m {x = p} {y = p + 0} (omega arith) ∙ v.ends)
    ∙ ap some {x = p} {y = p + 0} (omega arith)
find_end_lem (suc n) (suc k) p m h v =
    find_next k p m (λ z. v.bytes 0 (omega arith) (ap m {x = p + 0} {y = p} (omega arith) ∙ z))
    ∙ find_end_lem n k (p + 1) m (omega arith) (tail-IsString m p n v)
    ∙ ap some {x = p + 1 + n} {y = p + suc n} (omega arith)

strcat-found :
    (k dest src end : ℕ) (m : Memory)
    → find_end k dest m ≡ some end
    → strcat k dest src m ≡ append_loop k end src m
unfolding strcat
strcat-found k dest src end m e = rw (e, strcat) refl

-- `strcat` of a string of `d` bytes and one of `n + 1`, which lies apart from the place behind the first, with enough rounds, copies the `n + 1` bytes to that place, writes nothing else, the byte behind them included, and returns the place of that byte.
pub strcat_lem :
    (d n k dest src : ℕ) (m : Memory)
    → d < k
    → n < k
    → IsString m dest d
    → IsString m src (suc n)
    → Apart (dest + d) src (suc n)
    → (m' : Memory) × (strcat k dest src m ≡ some (dest + d + suc n, m'))
      × IsCopy m m' (dest + d) src n
      × (m' (dest + d + suc n) ≡ m (dest + d + suc n))
strcat_lem d n k dest src m h l u v a =
    let r = append_loop-IsCopy n k (dest + d) src m l v a in
    (
      r.0,
      strcat-found k dest src (dest + d) m (find_end_lem d k dest m h u) ∙ r.1,
      r.2,
      r.2.kept (dest + d + suc n) (inr (omega arith)),
    )
