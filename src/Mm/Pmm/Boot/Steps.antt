-- ===== src/Mm/Pmm/Boot/Steps.antt =====
-- The steps of `init_pmm` that go through the memory map and the modules.
use fruity_orange.Base.{
  ℕ, suc, ◌+◌, ◌*◌, ◌/◌, ◌%◌, ◌^◌, ◌≤◌, ◌<◌, ◌≡◌, refl, Option, none, some, List, [], ◌∷◌, ◌==◌,
  length, All, Bool-cases, ◌⊎◌, inl, inr, arith, ap,
}
use fruity_orange.Mm.Pmm.{Pmm, page_size, pmm_free, pmm_mark_used}
use fruity_orange.Mm.Pmm.Bitmap.{IsBitmap, IsPtr, free-IsBitmap, mark_used-IsBitmap}
use fruity_orange.Mm.Pmm.Boot.{
  MultibootMmap, MultibootModule, Boot, walk_pages, clear_bitmap, release_entry, release_map,
  occupy_modules, frames, pmm_free_type, ◌>>=◌,
}
use fruity_orange.Mm.Pmm.Boot.Walk.{walk_total, walk_inv, walk_covers, Taken, mark_used-Taken}

pub length-clear_bitmap : (b : List ℕ) → length (clear_bitmap b) ≡ length b
unfolding clear_bitmap
length-clear_bitmap [] = refl
length-clear_bitmap (w ∷ ws) = ap suc (length-clear_bitmap ws)

pub clear_bitmap-All : (b : List ℕ) → All (λ (w : ℕ). w < 2 ^ 32) (clear_bitmap b)
unfolding clear_bitmap
clear_bitmap-All [] = tt
clear_bitmap-All (w ∷ ws) = (omega arith, clear_bitmap-All ws)

pub >>=-eq-some :
    (m : Option Pmm) (f : Pmm → Option Pmm) (s' : Pmm)
    → (m >>= f) ≡ some s'
    → (s : Pmm) × (m ≡ some s) × (f s ≡ some s')
>>=-eq-some none f s' e = absurd (ground arith)
>>=-eq-some (some s) f s' e = (s, refl, e)

-- `m` is one of the modules.
abbrev pub Among : MultibootModule → List MultibootModule → Type 0
Among m [] = ⊥
Among m (k ∷ ms) = (m ≡ k) ⊎ Among m ms

-- Where the walks of `init_pmm` end: the areas that the code walks over stop a page below 4 GB.
pub record Fits (b : Boot) : Type 0 where
  pub kernel_start : IsPtr b.kernel_start_phys
  pub kernel_end : b.kernel_end_phys + page_size ≤ 2 ^ 32
  pub map_ends :
      All (λ (e : MultibootMmap). (e.base % 2 ^ 32 + e.size) % 2 ^ 32 + page_size ≤ 2 ^ 32) b.mmap
  pub mod_starts : All (λ (m : MultibootModule). IsPtr m.mod_start) b.modules
  pub mod_ends : All (λ (m : MultibootModule). m.mod_end + page_size ≤ 2 ^ 32) b.modules
  pub mods_ptr : IsPtr b.mods_addr

pub release_map_total :
    (k : ℕ) (es : List MultibootMmap) (s : Pmm)
    → All (λ (e : MultibootMmap). (e.base % 2 ^ 32 + e.size) % 2 ^ 32 + page_size ≤ 2 ^ 32) es
    → frames ≤ k
    → (s' : Pmm) × (release_map (suc k) es s ≡ some s')
unfolding release_map
release_map_total k [] s h f = (s, refl)
release_map_total k (e ∷ es) s h f = elim (Bool-cases (e.kind == pmm_free_type)) [
  | inl free ↦
      let (s1, r1) =
        walk_total pmm_free k (e.base % 2 ^ 32) ((e.base % 2 ^ 32 + e.size) % 2 ^ 32) s
          (omega arith) h.0 (omega arith) in
      let (s2, r2) = release_map_total k es s1 h.1 f in (s2, rw (free, r1) r2)
  | inr used ↦ let (s2, r2) = release_map_total k es s h.1 f in (s2, rw used r2)
]

pub release_map_inv :
    (n : ℕ) (es : List MultibootMmap) (s s' : Pmm)
    → IsBitmap s.bitmap
    → release_map n es s ≡ some s'
    → IsBitmap s'.bitmap
unfolding release_map
release_map_inv n [] s s' v e = let same : s ≡ s' = ground arith in rw same at v
release_map_inv n (m ∷ es) s s' v e =
    let (s1, e1, e2) = >>=-eq-some (release_entry n m s) (release_map n es) s' e in
    release_map_inv n es s1 s' (entry s1 e1) e2
  where
    entry : (s1 : Pmm) → release_entry n m s ≡ some s1 → IsBitmap s1.bitmap
    entry s1 e1 = elim (Bool-cases (m.kind == pmm_free_type)) [
      | inl free ↦
          walk_inv (λ t. IsBitmap t.bitmap) pmm_free (λ a t _ u. free-IsBitmap a t u) n
            (m.base % 2 ^ 32) ((m.base % 2 ^ 32 + m.size) % 2 ^ 32) s s1 (omega arith) v
            (rw free at e1)
      | inr used ↦ let same : s ≡ s1 = ground arith in rw same at v
    ]

pub occupy_total :
    (k : ℕ) (ms : List MultibootModule) (s : Pmm)
    → All (λ (m : MultibootModule). IsPtr m.mod_start) ms
    → All (λ (m : MultibootModule). m.mod_end + page_size ≤ 2 ^ 32) ms
    → frames ≤ k
    → (s' : Pmm) × (occupy_modules (suc k) ms s ≡ some s')
unfolding occupy_modules
occupy_total k [] s h l f = (s, refl)
occupy_total k (m ∷ ms) s h l f =
    let (s1, r1) = walk_total pmm_mark_used k m.mod_start m.mod_end s h.0 l.0 (omega arith) in
    let (s2, r2) = occupy_total k ms s1 h.1 l.1 f in (s2, rw r1 r2)

pub occupy_inv :
    (n q : ℕ) (ms : List MultibootModule) (s s' : Pmm)
    → All (λ (m : MultibootModule). IsPtr m.mod_start) ms
    → Taken q s
    → occupy_modules n ms s ≡ some s'
    → Taken q s'
unfolding occupy_modules
occupy_inv n q [] s s' h u e = let same : s ≡ s' = ground arith in rw same at u
occupy_inv n q (m ∷ ms) s s' h u e =
    let (s1, e1, e2) =
      >>=-eq-some (walk_pages pmm_mark_used n m.mod_start m.mod_end s) (occupy_modules n ms) s' e in
    occupy_inv n q ms s1 s' h.1
      (walk_inv (Taken q) pmm_mark_used (mark_used-Taken q) n m.mod_start m.mod_end s s1 h.0 u e1)
      e2

-- Every frame of a module is used afterwards, if the modules start at pages.
pub occupy_covers :
    (n q : ℕ) (ms : List MultibootModule) (s s' : Pmm) (m : MultibootModule)
    → All (λ (m : MultibootModule). IsPtr m.mod_start) ms
    → IsBitmap s.bitmap
    → occupy_modules n ms s ≡ some s'
    → Among m ms
    → m.mod_start % page_size ≡ 0
    → m.mod_end ≤ 2 ^ 32
    → m.mod_start / page_size ≤ q
    → q * page_size < m.mod_end
    → Taken q s'
unfolding occupy_modules
occupy_covers n q [] s s' m h v e a al en lo hi = absurd a
occupy_covers n q (k ∷ ms) s s' m h v e a al en lo hi =
    let (s1, e1, e2) =
      >>=-eq-some (walk_pages pmm_mark_used n k.mod_start k.mod_end s) (occupy_modules n ms) s' e in
    elim a [
      | inl same ↦
          occupy_inv n q ms s1 s' h.1
            (walk_covers n m.mod_start m.mod_end q s s1 (rw same h.0) al en v lo hi (rw same e1)) e2
      | inr later ↦
          occupy_covers n q ms s1 s' m h.1
            (walk_inv (λ t. IsBitmap t.bitmap) pmm_mark_used (λ a t _ u. mark_used-IsBitmap a t u) n
              k.mod_start k.mod_end s s1 h.0 v e1)
            e2 later al en lo hi
    ]
