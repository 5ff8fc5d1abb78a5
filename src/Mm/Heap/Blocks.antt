-- ===== src/Mm/Heap/Blocks.antt =====
-- The list of blocks of kernel/mm/heap.c. The blocks stand in a store from addresses, as their links
-- are written one by one; 0 is NULL.
use fruity_orange.Base.{
  ℕ, zero, suc, ◌≡◌, ◌≢◌, refl, Option, none, some, List, [], ◌∷◌, ◌==◌, if◌then◌else◌, arith, All,
  false,
}

pub record AllocBlock : Type 0 where
  pub size : ℕ
  pub base : ℕ
  pub status : ℕ
  pub prev : ℕ
  pub next : ℕ

pub record Heap : Type 0 where
  pub blocks : ℕ → AllocBlock
  pub first_block : ℕ

abbrev pub modify_block : ℕ → (AllocBlock → AllocBlock) → (ℕ → AllocBlock) → ℕ → AllocBlock
modify_block p f m q = if p == q then f (m q) else m q

pub heap_insert_block : ℕ → Heap → Heap
heap_insert_block block h =
    let linked =
      if h.first_block == 0
      then h.blocks
      else modify_block h.first_block (λ b. record b { prev = block }) h.blocks in
    record {
      blocks = modify_block block (λ b. record b { next = h.first_block; prev = 0 }) linked;
      first_block = block;
    }

-- From the block that `block` points to, with the rounds that are left: the block of that base, or 0.
pub find_block_from : ℕ → ℕ → Heap → ℕ → Option ℕ
find_block_from zero ptr h block = none
find_block_from (suc n) ptr h block =
    let rest = find_block_from n ptr h (h.blocks block).next in
    if block == 0 then some 0 else if (h.blocks block).base == ptr then some block else rest

pub heap_find_block : ℕ → ℕ → Heap → Option ℕ
unfolding find_block_from
heap_find_block rounds ptr h = find_block_from rounds ptr h h.first_block

-- The blocks of the list `bs`, none of them NULL, are linked from `p` on.
abbrev pub Chain : (ℕ → AllocBlock) → ℕ → List ℕ → Type 0
Chain m p [] = p ≡ 0
Chain m p (b ∷ bs) = (p ≡ b) × (b ≢ 0) × Chain m (m b).next bs

-- Two stores that agree on the links and bases of the blocks of a list.
abbrev Alike : (ℕ → AllocBlock) → (ℕ → AllocBlock) → List ℕ → Type 0
Alike m m' bs = All (λ q. ((m' q).next ≡ (m q).next) × ((m' q).base ≡ (m q).base)) bs

find-Alike :
    (n ptr p : ℕ) (bs : List ℕ) (h h' : Heap)
    → Chain h.blocks p bs
    → Alike h.blocks h'.blocks bs
    → find_block_from n ptr h' p ≡ find_block_from n ptr h p
unfolding find_block_from
find-Alike zero ptr p bs h h' c a = refl
find-Alike (suc n) ptr p [] h h' c a = ground arith
find-Alike (suc n) ptr p (b ∷ bs) h h' c a =
    let rest = find-Alike n ptr (h.blocks b).next bs h h' c.2 a.1 in
    rw (c.0, a.0.0, a.0.1, rest) refl

insert-Alike :
    (block : ℕ) (h : Heap) (bs : List ℕ)
    → All (λ q. q ≢ block) bs
    → Alike h.blocks (heap_insert_block block h).blocks bs
unfolding heap_insert_block
insert-Alike block h [] a = tt
insert-Alike block h (b ∷ bs) a =
    ((ground (arith, a.0), ground (arith, a.0)), insert-Alike block h bs a.1)

inserted :
    (block : ℕ) (h : Heap)
    → let h' = heap_insert_block block h in
      (h'.first_block ≡ block)
      × ((h'.blocks block).base ≡ (h.blocks block).base)
      × ((h'.blocks block).next ≡ h.first_block)
unfolding heap_insert_block
inserted block h = (refl, ground arith, ground arith)

-- Where the blocks of the heap are linked as a list and a block that is not NULL and none of them is inserted,
-- `heap_find_block`, with one more round, finds it by its base, and looks in the old list for any other address.
pub find-insert :
    (n ptr block : ℕ) (h : Heap) (bs : List ℕ)
    → Chain h.blocks h.first_block bs
    → All (λ q. q ≢ block) bs
    → block ≢ 0
    → heap_find_block (suc n) ptr (heap_insert_block block h)
      ≡ (if (h.blocks block).base == ptr then some block else heap_find_block n ptr h)
unfolding heap_find_block find_block_from heap_insert_block
find-insert n ptr block h bs c a nz =
    let (first, same_base, linked) = inserted block h in
    let nonzero : (block == 0) ≡ false = ground arith in
    rw
      (
        first,
        nonzero,
        same_base,
        linked,
        find-Alike n ptr h.first_block bs h (heap_insert_block block h) c
            (insert-Alike block h bs a),
      )
      refl
