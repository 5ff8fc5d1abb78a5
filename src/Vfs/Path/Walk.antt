-- ===== src/Vfs/Path/Walk.antt =====
-- The lookup of paths by `vfs_path_lookup` of kernel/vfs/pathname_lookup.c.
use fruity_orange.Base.{
  ℕ, ◌≡◌, ◌≢◌, refl, sym, ◌∙◌, ap, Bool, true, false, ◌==◌, Option, some, List, [], ◌∷◌, ◌++◌, All,
  arith, append-nil, drop, Bool-cases, inl, inr,
}
use fruity_orange.Clib.Str.{CString, Strtok, strcmp, tokens, is_delimiter}
use fruity_orange.Clib.Str.Compare.{strcmp_iff}
use fruity_orange.Clib.Str.Tokens.{split, tokens-split, join}
use fruity_orange.Vfs.Path.{Tree, slash, walk, strip_slash, vfs_path_lookup}

-- A name of a file: not empty, and without a slash.
abbrev pub IsName : CString → Type 0
IsName [] = ⊥
IsName (c ∷ s) = (c ≢ 47) × All (λ d. d ≢ 47) s

test : ℕ → Bool
test = is_delimiter 1 (47 ∷ [])

test_slash : test 47 ≡ true
unfolding test is_delimiter
test_slash = refl

test_other : (c : ℕ) → c ≢ 47 → test c ≡ false
unfolding test is_delimiter
test_other c ne = ground arith

split-whole : (p : CString) → All (λ d. d ≢ 47) p → split test p ≡ p ∷ []
unfolding split
split-whole [] h = refl
split-whole (c ∷ p) h = rw (test_other c h.0) (rw (split-whole p h.1) refl)

split-first : (p s : CString) → All (λ d. d ≢ 47) p → split test (p ++ 47 ∷ s) ≡ p ∷ split test s
unfolding split
split-first [] s h = rw test_slash refl
split-first (c ∷ p) s h = rw (test_other c h.0) (rw (split-first p s h.1) refl)

no_slash : (p : CString) → IsName p → All (λ d. d ≢ 47) p
no_slash [] h = elim h [ ]
no_slash (c ∷ p) h = h

-- Names joined by slashes fall into these names.
split-join :
    (p : CString) (ps : List CString)
    → IsName p
    → All IsName ps
    → split test (join 47 (p ∷ ps)) ≡ p ∷ ps
split-join p [] h hs = ap (split test) (append-nil p) ∙ split-whole p (no_slash p h)
split-join p (q ∷ qs) h hs =
    split-first p (join 47 (q ∷ qs)) (no_slash p h) ∙ ap (λ t. p ∷ t) (split-join q qs hs.0 hs.1)

-- A name keeps its end.
strip-name : (p : CString) → All (λ d. d ≢ 47) p → strip_slash p ≡ p
unfolding strip_slash
strip-name [] h = refl
strip-name (c ∷ []) h = let e : (c == slash) ≡ false = ground (arith, h.0) in rw e refl
strip-name (c ∷ d ∷ p) h = ap (λ t. c ∷ t) (strip-name (d ∷ p) h.1)

strip-append :
    (p : CString) (d : ℕ) (s : CString) → strip_slash (p ++ d ∷ s) ≡ p ++ strip_slash (d ∷ s)
unfolding strip_slash
strip-append [] d s = refl
strip-append (c ∷ []) d s = refl
strip-append (c ∷ e ∷ p) d s = ap (λ t. c ∷ t) (strip-append (e ∷ p) d s)

strip-join :
    (p : CString) (ps : List CString)
    → IsName p
    → All IsName ps
    → strip_slash (join 47 (p ∷ ps)) ≡ join 47 (p ∷ ps)
unfolding strip_slash
strip-join p [] h hs =
    ap strip_slash (append-nil p) ∙ strip-name p (no_slash p h) ∙ sym (append-nil p)
strip-join p ([] ∷ qs) h hs = elim hs.0 [ ]
strip-join p ((c ∷ q) ∷ qs) h hs =
    strip-append p 47 (join 47 ((c ∷ q) ∷ qs))
    ∙ ap (λ t. p ++ 47 ∷ t) (strip-join (c ∷ q) qs hs.0 hs.1)

strip-end : (s : CString) → strip_slash (s ++ 47 ∷ []) ≡ s
unfolding strip_slash
strip-end s = strip-append s 47 [] ∙ append-nil s

strcmp-other : (s u : CString) → s ≢ u → strcmp s u ≡ false
strcmp-other s u ne = elim (Bool-cases (strcmp s u)) [
  | inl e ↦ absurd (ne ((strcmp_iff s u).0 e))
  | inr e ↦ e
]

-- An absolute path is none of the special ones, and starts at the root.
absolute :
    (t : Tree) (work_dir c : ℕ) (s : CString) (st : Strtok)
    → vfs_path_lookup t work_dir (47 ∷ c ∷ s) st
      ≡ some (walk t t.root (tokens (strip_slash (c ∷ s)) (47 ∷ []) st))
unfolding vfs_path_lookup
absolute t work_dir c s st =
    rw (strcmp-other (47 ∷ c ∷ s) (46 ∷ []) (λ e. absurd (ground (arith, e)))) (
      rw (strcmp-other (47 ∷ c ∷ s) (46 ∷ 46 ∷ []) (λ e. absurd (ground (arith, e))))
        (rw (strcmp-other (47 ∷ c ∷ s) (47 ∷ []) (λ e. absurd (ground (arith, e)))) refl))

tokens-names :
    (p : CString) (ps : List CString) (st : Strtok)
    → IsName p
    → All IsName ps
    → tokens (join 47 (p ∷ ps)) (47 ∷ []) st ≡ p ∷ ps
unfolding test
tokens-names p ps st h hs = tokens-split (join 47 (p ∷ ps)) (47 ∷ []) st ∙ split-join p ps h hs

-- What is behind the first byte.
abbrev tail_of : ℕ → CString → List CString → CString
tail_of c p ps = drop 1 (join 47 ((c ∷ p) ∷ ps))

-- The lookup of the names of an absolute path, with slashes between them, goes along these names
-- from the root, with or without a slash at the end of the path, wherever the process is.
pub lookup-walk :
    (t : Tree) (work_dir : ℕ) (p : CString) (ps : List CString) (st : Strtok)
    → IsName p
    → All IsName ps
    → (vfs_path_lookup t work_dir (47 ∷ join 47 (p ∷ ps)) st ≡ some (walk t t.root (p ∷ ps)))
      × (vfs_path_lookup t work_dir (47 ∷ (join 47 (p ∷ ps) ++ 47 ∷ [])) st
          ≡ some (walk t t.root (p ∷ ps)))
lookup-walk t work_dir [] ps st h hs = elim h [ ]
lookup-walk t work_dir (c ∷ p) ps st h hs =
    let names : tokens (join 47 ((c ∷ p) ∷ ps)) (47 ∷ []) st ≡ (c ∷ p) ∷ ps =
      tokens-names (c ∷ p) ps st h hs in
    let go : CString → Option ℕ = λ s. some (walk t t.root (tokens s (47 ∷ []) st)) in
    let found : go (join 47 ((c ∷ p) ∷ ps)) ≡ some (walk t t.root ((c ∷ p) ∷ ps)) =
      ap (λ (l : List CString). some (walk t t.root l)) names in
    (
      absolute t work_dir c (tail_of c p ps) st ∙ ap go (strip-join (c ∷ p) ps h hs) ∙ found,
      absolute t work_dir c (tail_of c p ps ++ 47 ∷ []) st
          ∙ ap go (strip-end (join 47 ((c ∷ p) ∷ ps)))
          ∙ found,
    )
