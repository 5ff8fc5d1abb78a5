-- ===== src/Mm/Pmm/Alloc.antt =====
-- What `pmm_alloc` and `pmm_free` promise: frames are handed out once, until they are freed.
use fruity_orange.Base.{
  ℕ, zero, suc, ◌*◌, ◌/◌, ◌%◌, ◌^◌, ◌<◌, ◌≡◌, ◌≢◌, refl, ap, true, false, List, [], ◌∷◌, ◌==◌,
  if◌then◌else◌, All, Bool-cases, Option-cases, ◌⊎◌, inl, inr, arith, ◌∙◌, set, get_or,
  and_not-bit_or, bit_or, and_not, set-set, set-get_or, get_or-set,
}
use fruity_orange.Mm.Pmm.{
  Pmm, bit, scan, scanned, page_size, pmm_free, pmm_mark_used, pmm_alloc, word_of, bit_of,
}
use fruity_orange.Mm.Pmm.Bitmap.{
  IsBitmap, IsPtr, bit_free, bit_mark_used, free-IsBitmap, mark_used-IsBitmap,
}
use fruity_orange.Mm.Pmm.Scan.{Taken, scan-some, scan-none}

-- The manager's state is sound: the array is one, and a frame that the fast path would hand out
-- is page-aligned, is not NULL and is free. `NULL` itself is never free.
pub record IsSound (s : Pmm) : Type 0 where
  pub array : IsBitmap s.bitmap
  pub null_used : bit s.bitmap 0 ≡ 0
  pub cached_ptr : s.can_do_fast_alloc ≡ true → IsPtr s.last_free_ptr
  pub cached_page : s.can_do_fast_alloc ≡ true → s.last_free_ptr % page_size ≡ 0
  pub cached_free : s.can_do_fast_alloc ≡ true → bit s.bitmap (s.last_free_ptr / page_size) ≡ 1

-- What one call of `pmm_alloc` did: no frame was free and nothing changed, or a free frame was
-- taken and no other one changed.
pub data Outcome (s : Pmm) (addr : ℕ) (s' : Pmm) : Type 0 where
  exhausted : addr ≡ 0 → s' ≡ s → ((q : ℕ) → bit s.bitmap q ≡ 0) → Outcome s addr s'
  allocated :
      (frame : ℕ)
      → addr ≡ frame * page_size
      → 0 < frame
      → frame < 2 ^ 20
      → bit s.bitmap frame ≡ 1
      → ((q : ℕ) → bit s'.bitmap q ≡ (if frame == q then 0 else bit s.bitmap q))
      → Outcome s addr s'

not_null : (b : List ℕ) (f : ℕ) → bit b 0 ≡ 0 → bit b f ≡ 1 → 0 < f
not_null b zero z h = absurd (omega arith)
not_null b (suc f) z h = omega arith

-- The state that the fast path hands to `pmm_mark_used`.
abbrev uncached : Pmm → Pmm
uncached s = record s { can_do_fast_alloc = false }

fast :
    (s : Pmm) → IsSound s → s.can_do_fast_alloc ≡ true → Outcome s (pmm_alloc s).0 (pmm_alloc s).1
unfolding pmm_alloc
fast s v e = rw e (
    allocated (s.last_free_ptr / page_size) (omega (arith, v.cached_page e))
      (not_null s.bitmap (s.last_free_ptr / page_size) v.null_used (v.cached_free e))
      (omega (arith, v.cached_ptr e)) (v.cached_free e)
      (λ q. bit_mark_used s.last_free_ptr q (uncached s) v.array (v.cached_ptr e)))

slow :
    (s : Pmm) → IsSound s → s.can_do_fast_alloc ≡ false → Outcome s (pmm_alloc s).0 (pmm_alloc s).1
unfolding pmm_alloc
slow s v e = elim (Option-cases (scan 0 s.bitmap)) [
  | inl n ↦ rw (e, n) (exhausted refl refl (λ q. scan-none s.bitmap 0 q n))
  | inr ((addr, b), f) ↦
      let t : Taken s.bitmap 0 addr b = scan-some s.bitmap 0 addr b v.array.words f in
      rw (e, f)
        (allocated t.frame (omega (arith, t.address))
          (not_null s.bitmap t.frame v.null_used t.was_free) (omega (arith, t.inside, v.array.size))
          t.was_free t.cleared)
]

-- `pmm_alloc` in a sound state, on both of its paths: either no frame at all is free, NULL is returned and
-- nothing changes; or a frame below 4 GB other than frame 0 that was free is returned, and its
-- bit alone is cleared.
pub alloc-Outcome : (s : Pmm) → IsSound s → Outcome s (pmm_alloc s).0 (pmm_alloc s).1
alloc-Outcome s v = elim (Bool-cases s.can_do_fast_alloc) [
  | inl e ↦ fast s v e
  | inr e ↦ slow s v e
]

pub IsSound-uncached :
    {s : Pmm} → IsBitmap s.bitmap → bit s.bitmap 0 ≡ 0 → s.can_do_fast_alloc ≡ false → IsSound s
IsSound-uncached v z e = record {
  array = v;
  null_used = z;
  cached_ptr = λ c. absurd (ground arith);
  cached_page = λ c. absurd (ground arith);
  cached_free = λ c. absurd (ground arith);
}

alloc_fast :
    (s : Pmm)
    → s.can_do_fast_alloc ≡ true
    → pmm_alloc s ≡ (s.last_free_ptr, pmm_mark_used s.last_free_ptr (uncached s))
unfolding pmm_alloc
alloc_fast s e = simp e

alloc_slow : (s : Pmm) → s.can_do_fast_alloc ≡ false → pmm_alloc s ≡ scanned s (scan 0 s.bitmap)
unfolding pmm_alloc
alloc_slow s e = simp e

mark_used_flag : (ptr : ℕ) (s : Pmm) → (pmm_mark_used ptr s).can_do_fast_alloc ≡ s.can_do_fast_alloc
unfolding pmm_mark_used
mark_used_flag ptr s = refl

-- `pmm_alloc` keeps the state sound.
pub alloc-IsSound : (s : Pmm) → IsSound s → IsSound (pmm_alloc s).1
alloc-IsSound s v = elim (Bool-cases s.can_do_fast_alloc) [
  | inl e ↦ simp (alloc_fast s e) (
      IsSound-uncached (mark_used-IsBitmap s.last_free_ptr (uncached s) v.array)
        (ground (
          arith,
          bit_mark_used s.last_free_ptr 0 (uncached s) v.array (v.cached_ptr e),
          v.null_used,
        ))
        (mark_used_flag s.last_free_ptr (uncached s)))
  | inr e ↦ elim (Option-cases (scan 0 s.bitmap)) [
    | inl n ↦ simp (alloc_slow s e, n) v
    | inr ((addr, b), f) ↦
        let t : Taken s.bitmap 0 addr b = scan-some s.bitmap 0 addr b v.array.words f in
        simp (alloc_slow s e, f)
          (IsSound-uncached (record { size = t.size ∙ v.array.size; words = t.words })
            (ground (arith, t.cleared 0, v.null_used)) e)
  ]
]

free_last : (ptr : ℕ) (s : Pmm) → (pmm_free ptr s).last_free_ptr ≡ ptr
unfolding pmm_free
free_last ptr s = refl

-- `pmm_free` of a page-aligned frame other than NULL keeps the state sound, also when the frame
-- was free before.
pub free-IsSound :
    (ptr : ℕ) (s : Pmm)
    → IsSound s
    → IsPtr ptr
    → ptr % page_size ≡ 0
    → 0 < ptr
    → IsSound (pmm_free ptr s)
free-IsSound ptr s v h a z = record {
  array = free-IsBitmap ptr s v.array;
  null_used = ground (arith, bit_free ptr 0 s v.array h, v.null_used);
  cached_ptr = λ _. ptr_ok;
  cached_page = λ _. ptr_page;
  cached_free = λ _. ptr_free;
}
  where
    last : (pmm_free ptr s).last_free_ptr ≡ ptr
    last = free_last ptr s

    ptr_ok : IsPtr (pmm_free ptr s).last_free_ptr
    ptr_ok = rw last h

    ptr_page : (pmm_free ptr s).last_free_ptr % page_size ≡ 0
    ptr_page = rw last a

    ptr_free : bit (pmm_free ptr s).bitmap ((pmm_free ptr s).last_free_ptr / page_size) ≡ 1
    ptr_free = rw last (ground (arith, bit_free ptr (ptr / page_size) s v.array h))

-- In a sound state, a frame that was in use and is freed is the one that the next `pmm_alloc` returns, with the
-- bitmap that stood before `pmm_free`.
pub alloc-free :
    (ptr : ℕ) (s : Pmm)
    → IsSound s
    → IsPtr ptr
    → bit s.bitmap (ptr / page_size) ≡ 0
    → let (addr, s') = pmm_alloc (pmm_free ptr s) in (addr ≡ ptr) × (s'.bitmap ≡ s.bitmap)
unfolding pmm_free pmm_mark_used pmm_alloc
alloc-free ptr s v h used = (
  refl,
  ap (λ (t : ℕ). set (set b i (bit_or w m)) i (and_not t m)) read
      ∙ set-set b i (bit_or w m) (and_not (bit_or w m) m)
      ∙ ap (set b i) (and_not-bit_or w (bit_of ptr) used)
      ∙ set-get_or b i 0,
)
  where
    b : List ℕ
    b = s.bitmap

    i : ℕ
    i = word_of ptr

    w : ℕ
    w = get_or b i 0

    m : ℕ
    m = 2 ^ bit_of ptr

    read : get_or (set b i (bit_or w m)) i 0 ≡ bit_or w m
    read = ground (arith, get_or-set b i i (bit_or w m) 0 (omega (arith, v.array.size)))

-- In a sound state, a frame that is marked used right after it was freed is still handed out next: the fast path
-- does not look at the bitmap.
pub alloc-mark_used-free :
    (ptr : ℕ) (s : Pmm)
    → IsSound s
    → IsPtr ptr
    → let s' = pmm_mark_used ptr (pmm_free ptr s) in
      (bit s'.bitmap (ptr / page_size) ≡ 0) × ((pmm_alloc s').0 ≡ ptr)
alloc-mark_used-free ptr s v h = (
  ground
      (arith, bit_mark_used ptr (ptr / page_size) (pmm_free ptr s) (free-IsBitmap ptr s v.array) h),
  cached,
)
  where
    cached : (pmm_alloc (pmm_mark_used ptr (pmm_free ptr s))).0 ≡ ptr
    cached = unfold pmm_alloc pmm_mark_used pmm_free in refl

-- `n` calls of `pmm_alloc` in a row.
unfoldable pub alloc_many : ℕ → Pmm → List ℕ
alloc_many zero s = []
alloc_many (suc n) s = (pmm_alloc s).0 ∷ alloc_many n (pmm_alloc s).1

-- No address but NULL stands in the list twice.
abbrev pub Distinct : List ℕ → Type 0
Distinct [] = Unit
Distinct (a ∷ l) = All (λ b. (b ≡ 0) ⊎ (b ≢ a)) l × Distinct l

-- A frame that is in use is not handed out, and stays in use.
alloc_used :
    (s : Pmm) (f : ℕ)
    → IsSound s
    → bit s.bitmap f ≡ 0
    → (((pmm_alloc s).0 ≡ 0) ⊎ ((pmm_alloc s).0 ≢ f * page_size))
      × (bit (pmm_alloc s).1.bitmap f ≡ 0)
alloc_used s f v used = elim (alloc-Outcome s v) [
  | exhausted z same all ↦ (inl z, rw same used)
  | allocated g addr pos below free rest ↦
      (inr (λ e. absurd (differ g free (omega arith))), ground (arith, rest f))
]
  where
    differ : (g : ℕ) → bit s.bitmap g ≡ 1 → g ≢ f
    differ g free e = omega (arith, ap (λ (t : ℕ). bit s.bitmap t) e)

many_avoid :
    (n : ℕ) (s : Pmm) (f : ℕ)
    → IsSound s
    → bit s.bitmap f ≡ 0
    → All (λ b. (b ≡ 0) ⊎ (b ≢ f * page_size)) (alloc_many n s)
unfolding alloc_many
many_avoid zero s f v used = tt
many_avoid (suc n) s f v used =
    let (now, still) = alloc_used s f v used in
    (now, many_avoid n (pmm_alloc s).1 f (alloc-IsSound s v) still)

-- From a sound state on and as long as nothing is freed, no frame is handed out twice.
pub alloc_many-Distinct : (n : ℕ) (s : Pmm) → IsSound s → Distinct (alloc_many n s)
unfolding alloc_many
alloc_many-Distinct zero s v = tt
alloc_many-Distinct (suc n) s v = (rest, alloc_many-Distinct n (pmm_alloc s).1 (alloc-IsSound s v))
  where
    after : IsSound (pmm_alloc s).1
    after = alloc-IsSound s v

    from :
        (f : ℕ)
        → (pmm_alloc s).0 ≡ f * page_size
        → bit (pmm_alloc s).1.bitmap f ≡ 0
        → All (λ b. (b ≡ 0) ⊎ (b ≢ (pmm_alloc s).0)) (alloc_many n (pmm_alloc s).1)
    from f e used = rw e (many_avoid n (pmm_alloc s).1 f after used)

    rest : All (λ b. (b ≡ 0) ⊎ (b ≢ (pmm_alloc s).0)) (alloc_many n (pmm_alloc s).1)
    rest = elim (alloc-Outcome s v) [
      | exhausted z same all ↦ from 0 z (rw same (all 0))
      | allocated g addr pos below free others ↦ from g addr (ground (arith, others g))
    ]
