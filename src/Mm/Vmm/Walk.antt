-- ===== src/Mm/Vmm/Walk.antt =====
-- What the writes of vmm.c to directories and tables change of the processor's walk.
use fruity_orange.Base.{
  ℕ, ◌+◌, ◌/◌, ◌%◌, ◌^◌, ◌<◌, ◌≡◌, ◌≢◌, ap, sym, refl, ◌&&◌, fun_ext, ap₂, ◌∙◌, true, false, none,
  some, bit_and, bit_or, ◌==◌, if◌then◌else◌, arith, Bool-cases, inl, inr, bit_and-one,
  bit_and-page, bit_and-page_lem, bit_or-high, bit_or_step,
}
use fruity_orange.Mm.Vmm.{Words, page_walk, is_present, frame_of, poke, blank_page}

pub present_odd : (e : ℕ) → is_present e ≡ (e % 2 == 1)
present_odd e = ground (arith, bit_and-one e)

frame_of_high : (e d : ℕ) → e / 4096 ≡ d / 4096 → frame_of e ≡ frame_of d
frame_of_high e d h =
    omega (arith, bit_and-page e, bit_and-page d, ap (λ (t : ℕ). bit_and t 0xfffff) h)

pub frame_of-bit_or : (e w : ℕ) → w < 8 → frame_of (bit_or e w) ≡ frame_of e
frame_of-bit_or e w h = frame_of_high (bit_or e w) e (omega (arith, bit_or-high e w h))

pub present-bit_or : (e w : ℕ) → is_present e ≡ true → is_present (bit_or e w) ≡ true
present-bit_or e w h = ground (arith, present_odd e, present_odd (bit_or e w), bit_or_step e w)

pub present-flag : (e w : ℕ) → w % 2 ≡ 1 → is_present (bit_or e w) ≡ true
present-flag e w h = ground (arith, present_odd (bit_or e w), bit_or_step e w)

pub frame_of-page : (p : ℕ) → p < 2 ^ 32 → frame_of p ≡ p / 4096
frame_of-page p h = omega (arith, bit_and-page_lem p h)

-- Entries that differ in their flags only.
pub record Agree (m m' : Words) : Type 0 where
  pub frames : (f i : ℕ) → frame_of (m' f i) ≡ frame_of (m f i)
  pub presents : (f i : ℕ) → is_present (m' f i) ≡ is_present (m f i)

pub page_walk-Agree :
    (m m' : Words) (dir q : ℕ) → Agree m m' → page_walk m' dir q ≡ page_walk m dir q
unfolding page_walk
page_walk-Agree m m' dir q v =
    rw
      (
        v.frames dir (q / 1024),
        v.presents dir (q / 1024),
        v.frames (frame_of (m dir (q / 1024))) (q % 1024),
        v.presents (frame_of (m dir (q / 1024))) (q % 1024),
      )
      refl

-- The directory in frame `dir` sees itself through its entry 960, and no two entries share a table.
pub record IsTree (m : Words) (dir : ℕ) : Type 0 where
  pub window : is_present (m dir 960) ≡ true
  pub itself : frame_of (m dir 960) ≡ dir
  pub apart :
      (i j : ℕ)
      → i < 1024
      → j < 1024
      → i ≢ j
      → is_present (m dir i) ≡ true
      → is_present (m dir j) ≡ true
      → frame_of (m dir i) ≢ frame_of (m dir j)

pub IsTree-Agree : (m m' : Words) (dir : ℕ) → Agree m m' → IsTree m dir → IsTree m' dir
IsTree-Agree m m' dir v t = record {
  window = v.presents dir 960 ∙ t.window;
  itself = v.frames dir 960 ∙ t.itself;
  apart = λ i j hi hj ne pi pj e.
      t.apart i j hi hj ne (sym (v.presents dir i) ∙ pi) (sym (v.presents dir j) ∙ pj)
        (sym (v.frames dir i) ∙ e ∙ v.frames dir j);
}

-- Flags that are added to an entry that is present.
pub Agree-flags :
    (m : Words) (f i w : ℕ)
    → w < 8
    → is_present (m f i) ≡ true
    → Agree m (poke f i (bit_or (m f i) w) m)
Agree-flags m f i w h p = record {
  frames = λ g j. ground (arith, frame_of-bit_or (m f i) w h);
  presents = λ g j. ground (arith, present-bit_or (m f i) w p);
}

unfoldable pub with_table : Words → ℕ → ℕ → ℕ → Words
with_table m dir pd w = blank_page (frame_of w) (poke dir pd w m)

module _ (m : Words) (dir : ℕ) (t : IsTree m dir) where
  not_dir : (i : ℕ) → i < 1024 → i ≢ 960 → is_present (m dir i) ≡ true → frame_of (m dir i) ≢ dir
  not_dir i h ne p e = t.apart i 960 h (omega arith) ne p t.window (e ∙ sym t.itself)

  module _ (pd i w : ℕ) (h : pd < 1024) (out : pd ≢ 960) (p : is_present (m dir pd) ≡ true) where
    -- A write to a table leaves the directory alone.
    pub poke_dir : (j : ℕ) → poke (frame_of (m dir pd)) i w m dir j ≡ m dir j
    poke_dir j = ground (arith, not_dir pd h out p)

    pub IsTree-poke : IsTree (poke (frame_of (m dir pd)) i w m) dir
    IsTree-poke = record {
      window = rw (poke_dir 960) t.window;
      itself = rw (poke_dir 960) t.itself;
      apart = λ a b. rw (poke_dir a, poke_dir b) (t.apart a b);
    }

    -- It is seen at the one page of the entry that is written.
    pub page_walk-poke :
        (q : ℕ)
        → q < 2 ^ 20
        → q / 1024 ≢ 960
        → page_walk (poke (frame_of (m dir pd)) i w m) dir q ≡ (
            if (pd == q / 1024) && (i == q % 1024)
            then (if is_present w then some (frame_of w) else none)
            else page_walk m dir q)
    unfolding page_walk
    page_walk-poke q hq o =
        rw (poke_dir (q / 1024)) (elim (Bool-cases (is_present (m dir (q / 1024)))) [
          | inl e ↦ ground (arith, t.apart pd (q / 1024) h, ap (λ (k : ℕ). m dir k))
          | inr e ↦ ground (arith, ap (λ (k : ℕ). m dir k))
        ])

  -- A new, empty table in a frame that no entry has.
  module _ (pd w : ℕ) (h : pd < 1024) (absent : is_present (m dir pd) ≡ false)
      (present : is_present w ≡ true)
      (fresh : (j : ℕ)
        → j < 1024
        → is_present (m dir j) ≡ true
        → frame_of (m dir j) ≢ frame_of w) where
    fresh_dir : frame_of w ≢ dir
    fresh_dir e = fresh 960 (omega arith) t.window (t.itself ∙ sym e)

    pub with_table-dir : (j : ℕ) → with_table m dir pd w dir j ≡ (if pd == j then w else m dir j)
    unfolding with_table
    with_table-dir j = ground (arith, fresh_dir)

    pub IsTree-with_table : IsTree (with_table m dir pd w) dir
    IsTree-with_table = record {
      window = ground (arith, with_table-dir 960, t.window, absent, ap (λ (k : ℕ). m dir k));
      itself =
          ground (arith, with_table-dir 960, t.window, t.itself, absent, ap (λ (k : ℕ). m dir k));
      apart = λ a b ha hb ne.
          rw (with_table-dir a, with_table-dir b)
            (ground (arith, t.apart a b, fresh a, fresh b, ne));
    }

    pub page_walk-with_table :
        (q : ℕ)
        → q < 2 ^ 20
        → q / 1024 ≢ 960
        → page_walk (with_table m dir pd w) dir q ≡ page_walk m dir q
    unfolding page_walk
    page_walk-with_table q hq o = rw (with_table-dir (q / 1024)) (
        unfold with_table in
        elim (Bool-cases (is_present (m dir (q / 1024)))) [
          | inl e ↦
              ground (arith, fresh (q / 1024), not_dir (q / 1024), absent, ap (λ (k : ℕ). m dir k))
          | inr e ↦ elim (Bool-cases (pd == q / 1024)) [
            | inl k ↦ rw k (ground (arith, ap (λ (k : ℕ). m dir k)))
            | inr k ↦ rw k (ground (arith, ap (λ (k : ℕ). m dir k)))
          ]
        ])

-- Through the window of entry 960, the directory is its own table: page `i` of the window is table `i`.
pub page_walk-window :
    (m : Words) (dir i : ℕ)
    → is_present (m dir 960) ≡ true
    → frame_of (m dir 960) ≡ dir
    → i < 1024
    → page_walk m dir (0xf0000 + i)
      ≡ (if is_present (m dir i) then some (frame_of (m dir i)) else none)
unfolding page_walk
page_walk-window m dir i p e h =
    let a : (0xf0000 + i) / 1024 ≡ 960 = omega arith in
    let b : (0xf0000 + i) % 1024 ≡ i = omega arith in rw (a, b, p, e) refl

pub poke-poke : (m : Words) (f i v w : ℕ) → poke f i w (poke f i v m) ≡ poke f i w m
poke-poke m f i v w = fun_ext λ g. fun_ext λ j. ground arith

pub poke_same : (m : Words) (f i : ℕ) → poke f i (m f i) m ≡ m
poke_same m f i = fun_ext λ g. fun_ext λ j. ground (arith, ap₂ (λ (x y : ℕ). m x y))
