-- ===== src/Clib/Str/Tokens.antt =====
-- A loop over `strtok` sees the pieces between the delimiters, empty ones included.
use fruity_orange.Base.{
  ℕ, zero, suc, ◌+◌, ◌≤◌, ◌<◌, ◌≡◌, refl, Bool, Option, none, some, List, [], ◌∷◌, ◌++◌, ◌==◌,
  if◌then◌else◌, length, arith, ap, ◌∙◌, Bool-cases, inl, inr,
}
use fruity_orange.Clib.Str.{CString, Strtok, is_delimiter, scan_token, strtok, token_loop, tokens}

abbrev add_to_first : ℕ → List CString → List CString
add_to_first c [] = (c ∷ []) ∷ []
add_to_first c (p ∷ ps) = (c ∷ p) ∷ ps

-- The pieces of a string between the bytes that satisfy a test.
unfoldable pub split : (ℕ → Bool) → CString → List CString
split del [] = [] ∷ []
split del (c ∷ s) = let rest = split del s in if del c then [] ∷ rest else add_to_first c rest

abbrev more : (ℕ → Bool) → Option CString → List CString
more del none = []
more del (some s) = split del s

split-scan_token :
    (n : ℕ) (ds s : CString)
    → split (is_delimiter n ds) s
      ≡ (scan_token n ds s).0 ∷ more (is_delimiter n ds) (scan_token n ds s).1
unfolding split scan_token
split-scan_token n ds [] = refl
split-scan_token n ds (c ∷ s) = elim (Bool-cases (is_delimiter n ds c)) [
  | inl d ↦ rw d
  | inr d ↦ rw (d, split-scan_token n ds s)
]

abbrev rest_size : Option CString → ℕ
rest_size none = 0
rest_size (some s) = suc (length s)

scan_token-shrinks : (n : ℕ) (ds s : CString) → rest_size (scan_token n ds s).1 ≤ length s
unfolding scan_token
scan_token-shrinks n ds [] = omega arith
scan_token-shrinks n ds (c ∷ s) = elim (Bool-cases (is_delimiter n ds c)) [
  | inl d ↦ rw d (omega arith)
  | inr d ↦ rw d (omega (arith, scan_token-shrinks n ds s))
]

resume-split :
    (k n : ℕ) (ds : CString) (r : Option CString)
    → rest_size r < k
    → token_loop k ds (strtok none ds (record { s = r; num_del = n })) ≡ more (is_delimiter n ds) r
unfolding token_loop strtok
resume-split zero n ds r h = absurd (omega arith)
resume-split (suc k) n ds none h = refl
resume-split (suc k) n ds (some s) h = rw (split-scan_token n ds s) (
    ap (λ t. (scan_token n ds s).0 ∷ t)
      (resume-split k n ds (scan_token n ds s).1 (omega (arith, scan_token-shrinks n ds s))))

-- The tokens of a path are the pieces between the delimiters, from whatever state `strtok` is
-- called in: the loop ends, and an empty piece is a token too.
pub tokens-split :
    (path ds : CString) (st : Strtok) → tokens path ds st ≡ split (is_delimiter (length ds) ds) path
unfolding tokens
tokens-split path ds st =
    let n : length path + 2 ≡ suc (length path + 1) = omega arith in
    rw (n, token_loop, strtok)
      (rw (split-scan_token (length ds) ds path) (
        ap (λ t. (scan_token (length ds) ds path).0 ∷ t)
          (resume-split (length path + 1) (length ds) ds (scan_token (length ds) ds path).1
            (omega (arith, scan_token-shrinks (length ds) ds path)))))

abbrev join_tail : ℕ → List CString → CString
join_tail d [] = []
join_tail d (p ∷ ps) = d ∷ (p ++ join_tail d ps)

-- The pieces with the delimiter between them.
abbrev pub join : ℕ → List CString → CString
join d [] = []
join d (p ∷ ps) = p ++ join_tail d ps

join-add_to_first : (c d : ℕ) (ps : List CString) → join d (add_to_first c ps) ≡ c ∷ join d ps
join-add_to_first c d [] = refl
join-add_to_first c d (p ∷ ps) = refl

record Pieces (d : ℕ) (s : CString) (ps : List CString) : Type 0 where
  first : CString
  others : List CString
  shape : ps ≡ first ∷ others
  joined : join d ps ≡ s

join_tail-shape :
    (d : ℕ) (ps : List CString) {s p : CString} {r : List CString}
    → ps ≡ p ∷ r
    → join d ps ≡ s
    → join_tail d ps ≡ d ∷ s
join_tail-shape d [] e j = absurd (ground arith)
join_tail-shape d (q ∷ qs) e j = ap (λ t. d ∷ t) j

Pieces-cons :
    (d c : ℕ) (s : CString) (ps : List CString)
    → Pieces d s ps
    → Pieces d (c ∷ s) (if c == d then [] ∷ ps else add_to_first c ps)
Pieces-cons d c s ps ih = elim (Bool-cases (c == d)) [
  | inl same ↦
      let e : c ≡ d = ground arith in
      rw same (record {
        first = [];
        others = ps;
        shape = refl;
        joined = rw e (join_tail-shape d ps ih.shape ih.joined);
      })
  | inr other ↦ rw other (record {
    first = c ∷ ih.first;
    others = ih.others;
    shape = rw ih.shape;
    joined = join-add_to_first c d ps ∙ ap (λ t. c ∷ t) ih.joined;
  })
]

is_delimiter_one : (d c : ℕ) → is_delimiter 1 (d ∷ []) c ≡ (c == d)
unfolding is_delimiter
is_delimiter_one d c = ground arith

split-Pieces : (d : ℕ) (s : CString) → Pieces d s (split (is_delimiter 1 (d ∷ [])) s)
unfolding split
split-Pieces d [] = record { first = []; others = []; shape = refl; joined = refl }
split-Pieces d (c ∷ s) =
    rw (is_delimiter_one d c)
      (Pieces-cons d c s (split (is_delimiter 1 (d ∷ [])) s) (split-Pieces d s))

-- The tokens of a path with the delimiter put back between them are the path.
pub join-tokens : (d : ℕ) (path : CString) (st : Strtok) → join d (tokens path (d ∷ []) st) ≡ path
join-tokens d path st = rw (tokens-split path (d ∷ []) st) (split-Pieces d path).joined
