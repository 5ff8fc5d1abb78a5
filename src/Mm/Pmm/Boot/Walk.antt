-- ===== src/Mm/Pmm/Boot/Walk.antt =====
-- The walks of `init_pmm` over an area: when they end, what they keep and what they cover.
use fruity_orange.Base.{
  ℕ, zero, suc, ◌+◌, ◌*◌, ◌/◌, ◌%◌, ◌^◌, ◌≤◌, ◌<◌, ◌≡◌, true, some, ◌==◌, ltb, Bool-cases, inl, inr,
  arith,
}
use fruity_orange.Mm.Pmm.{Pmm, bit, page_size, pmm_mark_used}
use fruity_orange.Mm.Pmm.Bitmap.{IsBitmap, IsPtr, bit_mark_used, mark_used-IsBitmap}
use fruity_orange.Mm.Pmm.Boot.{walk_pages}

-- A walk that ends at least one page below 4 GB comes to an end.
pub walk_total :
    (step : ℕ → Pmm → Pmm) (k addr end : ℕ) (s : Pmm)
    → IsPtr addr
    → end + page_size ≤ 2 ^ 32
    → end ≤ addr + k * page_size
    → (s' : Pmm) × (walk_pages step (suc k) addr end s ≡ some s')
unfolding walk_pages
walk_total step zero addr end s p e h = (s, ground arith)
walk_total step (suc k) addr end s p e h = elim (Bool-cases (ltb addr end)) [
  | inl more ↦
      let r : (s' : Pmm) × (walk_pages step (suc k) ((addr + page_size) % 2 ^ 32) end (step addr s)
            ≡ some s') =
        walk_total step k ((addr + page_size) % 2 ^ 32) end (step addr s) (omega arith) e
          (ground arith) in
      (r.0, rw more r.1)
  | inr done ↦ (s, rw done)
]

-- What every step keeps, a walk keeps.
pub walk_inv :
    (P : Pmm → Type 0) (step : ℕ → Pmm → Pmm)
    → ((addr : ℕ) (s : Pmm) → IsPtr addr → P s → P (step addr s))
    → (n addr end : ℕ) (s s' : Pmm) → IsPtr addr
    → P s
    → walk_pages step n addr end s ≡ some s'
    → P s'
unfolding walk_pages
walk_inv P step keep zero addr end s s' p h e = absurd (ground arith)
walk_inv P step keep (suc n) addr end s s' p h e = elim (Bool-cases (ltb addr end)) [
  | inl more ↦
      walk_inv P step keep n ((addr + page_size) % 2 ^ 32) end (step addr s) s' (omega arith)
        (keep addr s p h) (rw more at e)
  | inr done ↦ let same : s ≡ s' = ground arith in rw same at h
]

-- The bitmap is an array, NULL is used, and so is the frame `q`.
pub record Taken (q : ℕ) (s : Pmm) : Type 0 where
  pub array : IsBitmap s.bitmap
  pub used : bit s.bitmap q ≡ 0

pub mark_used-Taken :
    (q addr : ℕ) (s : Pmm) → IsPtr addr → Taken q s → Taken q (pmm_mark_used addr s)
mark_used-Taken q addr s p u = record {
  array = mark_used-IsBitmap addr s u.array;
  used = ground (arith, bit_mark_used addr q s u.array p, u.used);
}

pub mark_used_own :
    (addr : ℕ) (s : Pmm)
    → IsPtr addr
    → IsBitmap s.bitmap
    → Taken (addr / page_size) (pmm_mark_used addr s)
mark_used_own addr s p v = record {
  array = mark_used-IsBitmap addr s v;
  used = ground (arith, bit_mark_used addr (addr / page_size) s v p);
}

-- A walk that marks frames used covers the whole area, if it starts at a page.
pub walk_covers :
    (n addr end q : ℕ) (s s' : Pmm)
    → IsPtr addr
    → addr % page_size ≡ 0
    → end ≤ 2 ^ 32
    → IsBitmap s.bitmap
    → addr / page_size ≤ q
    → q * page_size < end
    → walk_pages pmm_mark_used n addr end s ≡ some s'
    → Taken q s'
unfolding walk_pages
walk_covers zero addr end q s s' p a b v lo hi e = absurd (ground arith)
walk_covers (suc n) addr end q s s' p a b v lo hi e = elim (Bool-cases (addr / page_size == q)) [
  | inl now ↦
      let own : addr / page_size ≡ q = ground arith in
      walk_inv (Taken q) pmm_mark_used (mark_used-Taken q) n next end (pmm_mark_used addr s) s'
        (omega arith) (rw own at (mark_used_own addr s p v)) on
  | inr not_yet ↦
      walk_covers n next end q (pmm_mark_used addr s) s' (omega arith) (omega arith) b
        (mark_used-IsBitmap addr s v) (ground arith) hi on
]
  where
    next : ℕ
    next = (addr + page_size) % 2 ^ 32

    more : ltb addr end ≡ true
    more = ground arith

    on : walk_pages pmm_mark_used n next end (pmm_mark_used addr s) ≡ some s'
    on = rw more at e
