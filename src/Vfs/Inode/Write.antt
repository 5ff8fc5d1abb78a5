-- ===== src/Vfs/Inode/Write.antt =====
-- What `vfs_write` of kernel/vfs/inode.c leaves in an inode and in memory.
use fruity_orange.Base.{
  ℕ, ◌+◌, ◌-◌, ◌^◌, ◌≡◌, ◌≢◌, ◌<◌, ◌≤◌, refl, ◌∙◌, ap, true, false, ◌==◌, ◌&&◌, if◌then◌else◌, inl,
  arith, ltb, leb, max, ◌⊎◌,
}
use fruity_orange.Clib.Mem.{Memory, memcpy, memmove}
use fruity_orange.Clib.Mem.Laws.{memcpy_lem, memmove_lem}
use fruity_orange.Vfs.Inode.{Inode, writable, num_pages, grow, provide, vfs_write, vfs_read}

-- A write that may not be done changes nothing.
pub write_refused :
    (uid gid ptr : ℕ) (inode : Inode) (off src bytes : ℕ) (m : Memory)
    → writable uid gid inode ≡ false
    → vfs_write uid gid ptr inode off src bytes m ≡ (inode, m)
unfolding vfs_write
write_refused uid gid ptr inode off src bytes m e = rw e refl

not_less : (a b : ℕ) → b ≤ a → ltb a b ≡ false
not_less a b h = ground arith

less : (a b : ℕ) → a < b → ltb a b ≡ true
less a b h = ground arith

length-grow :
    (off bytes : ℕ) (inode : Inode)
    → off + bytes < 2 ^ 32
    → (grow off bytes inode).length ≡ max inode.length (off + bytes)
unfolding grow
length-grow off bytes inode h = ground arith

base-grow : (off bytes : ℕ) (inode : Inode) → (grow off bytes inode).base ≡ inode.base
unfolding grow
base-grow off bytes inode = ground arith

-- A write that `vfs_write` permits (the owner, the group or others may write) and that ends below 4 GB
-- and fits into the pages that the file has: the bytes that are written stand in the file
-- at their offset, nothing else in memory changes, the file ends where it ended before or behind
-- the bytes, whichever is later, and it stays where it is. The bytes must not overlap with the
-- place that they are copied to, unless from above.
pub write-read :
    (uid gid ptr : ℕ) (inode : Inode) (off src bytes x : ℕ) (m : Memory)
    → writable uid gid inode ≡ true
    → off + bytes < 2 ^ 32
    → inode.base ≢ 0
    → num_pages (max inode.length (off + bytes)) ≤ num_pages inode.length
    → (vfs_read inode off ≤ src) ⊎ (src + bytes ≤ vfs_read inode off)
    → let after = vfs_write uid gid ptr inode off src bytes m in
      (after.0.length ≡ max inode.length (off + bytes))
      × (after.0.base ≡ inode.base)
      × (after.1 x ≡ (
          if leb (vfs_read inode off) x && ltb x (vfs_read inode off + bytes)
          then m (src + (x - vfs_read inode off))
          else m x))
unfolding vfs_write provide
write-read uid gid ptr inode off src bytes x m w fits some_base pages apart =
    let len = length-grow off bytes inode fits in
    let base = base-grow off bytes inode in
    let based : ((grow off bytes inode).base == 0) ≡ false = ground (arith, base) in
    let small : ltb (num_pages inode.length) (num_pages (grow off bytes inode).length) ≡ false =
      ap (λ (v : ℕ). ltb (num_pages inode.length) (num_pages v)) len
      ∙ not_less (num_pages inode.length) (num_pages (max inode.length (off + bytes))) pages in
    rw w (
      rw based (
        rw small (
          len,
          base,
          ap (λ (v : ℕ). memcpy (v + off) src bytes m x) base
              ∙ memcpy_lem (inode.base + off) src bytes x m apart,
        )))

-- A write for which the file needs more pages: the file moves to the new pages, and the bytes in
-- front of the offset are copied, but for the first one, which stays what it was in the new
-- memory.
pub write_moves :
    (uid gid ptr : ℕ) (inode : Inode) (off src bytes i : ℕ) (m : Memory)
    → writable uid gid inode ≡ true
    → off + bytes < 2 ^ 32
    → inode.base ≢ 0
    → num_pages inode.length < num_pages (max inode.length (off + bytes))
    → inode.base ≤ ptr
    → (ptr + off ≤ src) ⊎ (src + bytes ≤ ptr + off)
    → i < off
    → let after = vfs_write uid gid ptr inode off src bytes m in
      (after.0.base ≡ ptr) × (after.1 (ptr + i) ≡ (if i == 0 then m ptr else m (inode.base + i)))
unfolding vfs_write provide
write_moves uid gid ptr inode off src bytes i m w fits some_base pages behind apart front =
    let grown = grow off bytes inode in
    let len = length-grow off bytes inode fits in
    let base = base-grow off bytes inode in
    let based : (grown.base == 0) ≡ false = ground (arith, base) in
    let big : ltb (num_pages inode.length) (num_pages grown.length) ≡ true =
      ap (λ (v : ℕ). ltb (num_pages inode.length) (num_pages v)) len
      ∙ less (num_pages inode.length) (num_pages (max inode.length (off + bytes))) pages in
    let moved : Memory = memmove ptr grown.base grown.length m in
    let kept : memcpy (ptr + off) src bytes moved (ptr + i) ≡ moved (ptr + i) =
      ground (arith, memcpy_lem (ptr + off) src bytes (ptr + i) moved apart) in
    let before : grown.base ≤ ptr = omega (arith, base) in
    let copied : moved (ptr + i) ≡ (if i == 0 then m ptr else m (grown.base + i)) = ground (
      arith,
      memmove_lem ptr grown.base grown.length (ptr + i) m (inl before),
      len,
      ap (λ (v : ℕ). m (grown.base + v)) (the_rest ptr i),
      at_start ptr i,
    ) in
    rw w (
      rw based
        (rw big (refl, kept ∙ copied ∙ ap (λ (v : ℕ). if i == 0 then m ptr else m (v + i)) base)))
  where
    the_rest : (p j : ℕ) → p + j - p ≡ j
    the_rest p j = omega arith

    at_start : (p j : ℕ) → j ≡ 0 → m (p + j) ≡ m p
    at_start p j e = ap (λ (v : ℕ). m v) (omega (arith, e))
