-- ===== src/Mm/Pmm/Scan.antt =====
-- The search of `pmm_alloc` through the bitmap finds the lowest free frame.
use fruity_orange.Base.{
  ℕ, zero, suc, ◌+◌, ◌-◌, ◌*◌, ◌/◌, ◌%◌, ◌^◌, ◌≤◌, ◌<◌, ◌≡◌, ◌≢◌, refl, sym, ap, Option, none, some,
  List, [], ◌∷◌, and_not, ◌==◌, ltb, if◌then◌else◌, length, digit, digit_clear, digit-zero,
  digit-le-one, bit_test, All, Bool-cases, Option-cases, ◌⊎◌, inl, inr, arith, shl_one, ◌∙◌,
}
use fruity_orange.Mm.Pmm.{bit, find_bit, frame_addr, keep_word, scan, page_size}

-- The bit that the inner loop stops at.
record FirstBit (w j n k : ℕ) : Type 0 where
  above : j ≤ k
  below : k < j + n
  set_bit : digit w k ≡ 1
  first : (m : ℕ) → j ≤ m → m < k → digit w m ≡ 0

find_bit-some : (n j w k : ℕ) → find_bit n j w ≡ some k → FirstBit w j n k
unfolding find_bit
find_bit-some zero j w k e = absurd (ground arith)
find_bit-some (suc n) j w k e = elim (Bool-cases (digit w j == 0)) [
  | inl z ↦
      let r : FirstBit w (suc j) n k = find_bit-some n (suc j) w k (ground (arith, bit_test w j)) in
      record {
        above = omega arith;
        below = omega arith;
        set_bit = r.set_bit;
        first = λ m a b. ground (arith, r.first m, Dec-eq m j);
      }
  | inr p ↦
      let e' : j ≡ k = ground (arith, bit_test w j) in
      record {
        above = omega arith;
        below = omega arith;
        set_bit = ground (arith, digit-le-one w j, ap (λ (t : ℕ). digit w t) e');
        first = λ m a b. absurd (omega arith);
      }
]
  where
    Dec-eq : (m j : ℕ) → (m ≡ j) ⊎ (m ≢ j)
    Dec-eq m j = ground arith

find_bit-none : (n j w m : ℕ) → find_bit n j w ≡ none → j ≤ m → m < j + n → digit w m ≡ 0
unfolding find_bit
find_bit-none zero j w m e a b = absurd (omega arith)
find_bit-none (suc n) j w m e a b = elim (Bool-cases (m == j)) [
  | inl q ↦ let e' : m ≡ j = ground arith in rw e' (ground (arith, bit_test w j))
  | inr q ↦ find_bit-none n (suc j) w m (ground (arith, bit_test w j)) (ground arith) (ground arith)
]

-- The bits of the first word, and those of the others.
bit-cons_low : (w : ℕ) (ws : List ℕ) (q : ℕ) → q < 32 → bit (w ∷ ws) q ≡ digit w q
bit-cons_low w ws q h =
    let a : q / 32 ≡ 0 = omega arith in let b : q % 32 ≡ q = omega arith in rw (a, b)

bit-cons_high : (w : ℕ) (ws : List ℕ) (q : ℕ) → bit (w ∷ ws) (q + 32) ≡ bit ws q
bit-cons_high w ws q =
    let a : (q + 32) / 32 ≡ suc (q / 32) = omega arith in
    let b : (q + 32) % 32 ≡ q % 32 = omega arith in rw (a, b)

-- The frame that the search takes: the lowest one that is free, and its bit is cleared.
pub record Taken (b : List ℕ) (i addr : ℕ) (b' : List ℕ) : Type 0 where
  pub frame : ℕ
  pub address : addr ≡ (i * 32 + frame) * page_size
  pub was_free : bit b frame ≡ 1
  pub lowest : (q : ℕ) → q < frame → bit b q ≡ 0
  pub inside : frame < 32 * length b
  pub cleared : (q : ℕ) → bit b' q ≡ (if frame == q then 0 else bit b q)
  pub size : length b' ≡ length b
  pub words : All (λ w. w < 2 ^ 32) b'

data Place (q : ℕ) : Type 0 where
  low : q < 32 → Place q
  high : (r : ℕ) → q ≡ r + 32 → Place q

place : (q : ℕ) → Place q
place q = elim (Bool-cases (ltb q 32)) [
  | inl h ↦ low (ground arith)
  | inr h ↦ high (q - 32) (ground arith)
]

bit-cons_eq :
    (w v : ℕ) (ws us : List ℕ) (q : ℕ)
    → (q < 32 → digit v q ≡ digit w q)
    → ((r : ℕ) → q ≡ r + 32 → bit us r ≡ bit ws r)
    → bit (v ∷ us) q ≡ bit (w ∷ ws) q
bit-cons_eq w v ws us q lo hi = elim (place q) [
  | low h ↦ bit-cons_low v us q h ∙ lo h ∙ sym (bit-cons_low w ws q h)
  | high r e ↦ rw e (bit-cons_high v us r ∙ hi r e ∙ sym (bit-cons_high w ws r))
]

-- The first word has no free frame, and the search went on.
later :
    (w i addr : ℕ) (ws us : List ℕ)
    → w < 2 ^ 32
    → ((m : ℕ) → m < 32 → digit w m ≡ 0)
    → Taken ws (i + 1) addr us
    → Taken (w ∷ ws) i addr (w ∷ us)
later w i addr ws us small zeros t = record {
  frame = t.frame + 32;
  address = omega (arith, t.address);
  was_free = bit-cons_high w ws t.frame ∙ t.was_free;
  lowest = λ q h. elim (place q) [
    | low l ↦ bit-cons_low w ws q l ∙ zeros q l
    | high r e ↦ rw e (bit-cons_high w ws r ∙ t.lowest r (omega arith))
  ];
  inside = omega (arith, t.inside);
  cleared = λ q. elim (place q) [
    | low l ↦ ground (arith, bit-cons_low w us q l, bit-cons_low w ws q l)
    | high r e ↦ rw e (ground (arith, bit-cons_high w us r, bit-cons_high w ws r, t.cleared r))
  ];
  size = ap suc t.size;
  words = (small, t.words);
}

-- The first word has a free frame.
here :
    (w i k : ℕ) (ws : List ℕ)
    → w < 2 ^ 32
    → All (λ (v : ℕ). v < 2 ^ 32) ws
    → FirstBit w 0 32 k
    → Taken (w ∷ ws) i (frame_addr i k) (and_not w (shl_one k) ∷ ws)
here w i k ws small rest f = record {
  frame = k;
  address = refl;
  was_free = bit-cons_low w ws k f.below ∙ f.set_bit;
  lowest = λ q h. bit-cons_low w ws q (omega (arith, f.below)) ∙ f.first q (omega arith) h;
  inside = omega (arith, f.below);
  cleared = λ q. elim (place q) [
    | low l ↦ ground (
      arith,
      bit-cons_low (and_not w (shl_one k)) ws q l,
      bit-cons_low w ws q l,
      digit_clear w k q,
    )
    | high r e ↦
        rw e (
          ground (arith, bit-cons_high (and_not w (shl_one k)) ws r, bit-cons_high w ws r, f.below))
  ];
  size = refl;
  words = (omega arith, rest);
}

keep_word-some :
    (w addr : ℕ) (o : Option (ℕ × List ℕ)) (b' : List ℕ)
    → keep_word w o ≡ some (addr, b')
    → (us : List ℕ) × (o ≡ some (addr, us)) × (b' ≡ w ∷ us)
keep_word-some w addr none b' e = absurd (ground arith)
keep_word-some w addr (some (a, us)) b' e = (us, ground arith, ground arith)

skip :
    (w i addr : ℕ) (ws b' : List ℕ)
    → w < 2 ^ 32
    → ((us : List ℕ) → scan (i + 1) ws ≡ some (addr, us) → Taken ws (i + 1) addr us)
    → ((m : ℕ) → m < 32 → digit w m ≡ 0)
    → keep_word w (scan (i + 1) ws) ≡ some (addr, b')
    → Taken (w ∷ ws) i addr b'
skip w i addr ws b' small ih zeros e =
    let (us, e1, e2) = keep_word-some w addr (scan (i + 1) ws) b' e in
    rw e2 (later w i addr ws us small zeros (ih us e1))

pub scan-some :
    (b : List ℕ) (i addr : ℕ) (b' : List ℕ)
    → All (λ (w : ℕ). w < 2 ^ 32) b
    → scan i b ≡ some (addr, b')
    → Taken b i addr b'
unfolding scan
scan-some [] i addr b' v e = absurd (ground arith)
scan-some (w ∷ ws) i addr b' v e = elim (Bool-cases (w == 0)) [
  | inl z ↦
      skip w i addr ws b' v.0 (λ us. scan-some ws (i + 1) addr us v.1)
        (λ m h. let z' : w ≡ 0 = ground arith in rw z' (digit-zero m)) (ground arith)
  | inr nz ↦ elim (Option-cases (find_bit 32 0 w)) [
    | inl no_bit ↦
        skip w i addr ws b' v.0 (λ us. scan-some ws (i + 1) addr us v.1)
          (λ m h. find_bit-none 32 0 w m no_bit (omega arith) h) (ground arith)
    | inr (k, found) ↦
        let ea : addr ≡ frame_addr i k = ground arith in
        let eb : b' ≡ and_not w (shl_one k) ∷ ws = ground arith in
        rw (ea, eb) (here w i k ws v.0 v.1 (find_bit-some 32 0 w k found))
  ]
]

keep_word-none : (w : ℕ) (o : Option (ℕ × List ℕ)) → keep_word w o ≡ none → o ≡ none
keep_word-none w none e = refl
keep_word-none w (some x) e = absurd (ground arith)

record Skipped (w i : ℕ) (ws : List ℕ) : Type 0 where
  rest : scan (i + 1) ws ≡ none
  zeros : (m : ℕ) → m < 32 → digit w m ≡ 0

scan-none_cons : (w i : ℕ) (ws : List ℕ) → scan i (w ∷ ws) ≡ none → Skipped w i ws
unfolding scan
scan-none_cons w i ws e = elim (Bool-cases (w == 0)) [
  | inl z ↦ record {
    rest = keep_word-none w (scan (i + 1) ws) (ground arith);
    zeros = λ m h. let z' : w ≡ 0 = ground arith in rw z' (digit-zero m);
  }
  | inr nz ↦ elim (Option-cases (find_bit 32 0 w)) [
    | inl no_bit ↦ record {
      rest = keep_word-none w (scan (i + 1) ws) (ground arith);
      zeros = λ m h. find_bit-none 32 0 w m no_bit (omega arith) h;
    }
    | inr (k, found) ↦ absurd (ground arith)
  ]
]

-- The search fails only if no frame is free.
pub scan-none : (b : List ℕ) (i q : ℕ) → scan i b ≡ none → bit b q ≡ 0
scan-none [] i q e = digit-zero (q % 32)
scan-none (w ∷ ws) i q e = elim (place q) [
  | low l ↦ bit-cons_low w ws q l ∙ s.zeros q l
  | high r eq ↦ rw eq (bit-cons_high w ws r ∙ scan-none ws (i + 1) r s.rest)
]
  where
    s : Skipped w i ws
    s = scan-none_cons w i ws e
