-- ===== src/Vfs/Calls/ReadBack.antt =====
-- What is read back after a write, by the system calls of kernel/vfs/syscall_wrappers.c.
use fruity_orange.Base.{
  ℕ, zero, suc, ◌+◌, ◌-◌, ◌^◌, ◌<◌, ◌≤◌, ◌≡◌, ◌≢◌, refl, sym, ◌∙◌, ap, Bool, true, false, ◌==◌,
  ◌||◌, ◌&&◌, ltb, leb, max, if◌then◌else◌, bit_or, digit, digit_set, bit_test, ◌⊎◌, arith,
}
use fruity_orange.Clib.Mem.{Memory, memcpy}
use fruity_orange.Clib.Mem.Laws.{memcpy_lem}
use fruity_orange.Proc.Fd.{FdState}
use fruity_orange.Vfs.Inode.{Inode, has_bit, vfs_write, vfs_read, writable, num_pages}
use fruity_orange.Vfs.Inode.Write.{write-read}
use fruity_orange.Vfs.Calls.{
  syscall_seek, syscall_read, syscall_write, advance, o_rdonly, o_rdwr, o_append, o_wronly,
  append_flag, seek_set,
}

or_true : (b : Bool) → (b || true) ≡ true
or_true true = refl
or_true false = refl

-- A descriptor that was opened for reading and writing and not used yet.
pub record IsFresh (f : FdState) : Type 0 where
  pub both : has_bit f.flags o_rdwr ≡ true
  pub start : has_bit f.flags o_append ≡ false

module _ (uid gid ptr buf len : ℕ) (f : FdState) (inode : Inode) (m : Memory) (h : IsFresh f) where
  abbrev after : ℕ × FdState × Inode × Memory
  after = syscall_write uid gid ptr buf len f inode m

  abbrev written : Inode × Memory
  written = vfs_write uid gid ptr inode 1 buf len m

  after_inode : after.2 ≡ written.0
  unfolding syscall_write
  after_inode = rw h.both (rw (or_true (has_bit f.flags o_wronly)) (rw h.start refl))

  after_memory : after.3 ≡ written.1
  unfolding syscall_write
  after_memory = rw h.both (rw (or_true (has_bit f.flags o_wronly)) (rw h.start refl))

  advance_flags : (g : FdState) → (advance len g).flags ≡ g.flags
  advance_flags g = ground arith

  after_flags : after.1.flags ≡ bit_or f.flags append_flag
  unfolding syscall_write
  after_flags = rw h.both (
      rw (or_true (has_bit f.flags o_wronly))
        (rw h.start (advance_flags (record f { pos = 0; flags = bit_or f.flags append_flag }))))

-- O_RDWR stays set when O_APPEND is set.
rdwr_append :
    (flags : ℕ) → has_bit flags o_rdwr ≡ true → has_bit (bit_or flags append_flag) o_rdwr ≡ true
rdwr_append flags e =
    let before : digit flags 2 ≢ 0 = ground (arith, bit_test flags 2, e) in
    let same_digit : digit (bit_or flags 8) 2 ≡ digit flags 2 = digit_set flags 3 2 in
    ground (arith, bit_test (bit_or flags 8) 2, same_digit, before)

read_start :
    (dst len : ℕ) (g : FdState) (inode : Inode) (m : Memory)
    → has_bit g.flags o_rdwr ≡ true
    → g.pos ≡ 0
    → inode.base ≢ 0
    → ((syscall_read dst len g inode m).0 ≡ len)
      × ((syscall_read dst len g inode m).2 ≡ memcpy dst (inode.base + 0) len m)
unfolding syscall_read
read_start dst len g inode m e p ne =
    let found : (vfs_read inode g.pos == 0) ≡ false = ground (arith, p) in
    rw e (
      rw (or_true (has_bit g.flags o_rdonly))
        (rw found (refl, ap (λ (v : ℕ). memcpy dst (inode.base + v) len m) p)))

seek_start :
    (length : ℕ) (g : FdState)
    → ((syscall_seek 0 seek_set length g).1.pos ≡ 0)
      × ((syscall_seek 0 seek_set length g).1.flags ≡ bit_or g.flags append_flag)
unfolding syscall_seek
seek_start length g = (refl, refl)

copied_byte :
    (d s n i : ℕ) (m : Memory) → (d ≤ s) ⊎ (s + n ≤ d) → i < n → memcpy d s n m (d + i) ≡ m (s + i)
copied_byte d s n i m apart h =
    let back : d + i - d ≡ i = omega arith in
    ground (arith, memcpy_lem d s n (d + i) m apart, ap (λ (v : ℕ). m (s + v)) back)

late_byte :
    (base buf len i : ℕ) (m : Memory)
    → i < len
    → (if leb (base + 1) (base + 0 + i) && ltb (base + 0 + i) (base + 1 + len)
        then m (buf + (base + 0 + i - (base + 1)))
        else m (base + 0 + i))
      ≡ (if i == 0 then m base else m (buf + (i - 1)))
late_byte base buf len zero m h =
    let start : base + 0 + 0 ≡ base = omega arith in ground (arith, ap (λ (v : ℕ). m v) start)
late_byte base buf len (suc i) m h =
    let back : base + 0 + suc i - (base + 1) ≡ i = omega arith in
    ground (arith, ap (λ (v : ℕ). m (buf + v)) back)

-- What is written to a file by a descriptor that was just opened for reading and writing, and read
-- back from its start, is one byte late: the byte `i` that is read is the byte `i - 1` that was
-- written, and the first one is what the file began with. The permissions of the inode let
-- `vfs_write` write it (the owner, the group or others may write), the file has its memory already,
-- and the bytes, written at offset 1, fit into its pages and end below 4 GB. What is written may overlap
-- with the place in the file only from above, and the buffer that is read to only from below.
pub write-seek-read :
    (uid gid ptr buf dst len i : ℕ) (f : FdState) (inode : Inode) (m : Memory)
    → IsFresh f
    → writable uid gid inode ≡ true
    → 1 + len < 2 ^ 32
    → inode.base ≢ 0
    → num_pages (max inode.length (1 + len)) ≤ num_pages inode.length
    → (inode.base + 1 ≤ buf) ⊎ (buf + len ≤ inode.base + 1)
    → (dst ≤ inode.base + 0) ⊎ (inode.base + 0 + len ≤ dst)
    → i < len
    → let w = syscall_write uid gid ptr buf len f inode m in
      let s = syscall_seek 0 seek_set w.2.length w.1 in
      let r = syscall_read dst len s.1 w.2 w.3 in
      (r.0 ≡ len) × (r.2 (dst + i) ≡ (if i == 0 then m inode.base else m (buf + (i - 1))))
write-seek-read uid gid ptr buf dst len i f inode m h may fits some_base pages apart apart' front =
    let w = syscall_write uid gid ptr buf len f inode m in
    let s = syscall_seek 0 seek_set w.2.length w.1 in
    let wrote =
      write-read uid gid ptr inode 1 buf len (inode.base + 0 + i) m may fits some_base pages
        apart in
    let base : w.2.base ≡ inode.base =
      ap (λ (n : Inode). n.base) (after_inode uid gid ptr buf len f inode m h) ∙ wrote.1 in
    let seek = seek_start w.2.length w.1 in
    let flags : has_bit s.1.flags o_rdwr ≡ true =
      ap (λ (v : ℕ). has_bit v o_rdwr) seek.1
      ∙ rdwr_append w.1.flags (
          ap (λ (v : ℕ). has_bit v o_rdwr) (after_flags uid gid ptr buf len f inode m h)
          ∙ rdwr_append f.flags h.both) in
    let read = read_start dst len s.1 w.2 w.3 flags seek.0 (λ e. some_base (sym base ∙ e)) in
    let copied : memcpy dst (inode.base + 0) len w.3 (dst + i) ≡ w.3 (inode.base + 0 + i) =
      copied_byte dst (inode.base + 0) len i w.3 apart' front in
    (
      read.0,
      ap (λ (t : Memory). t (dst + i)) read.1
          ∙ ap (λ (v : ℕ). memcpy dst (v + 0) len w.3 (dst + i)) base
          ∙ copied
          ∙ ap (λ (t : Memory). t (inode.base + 0 + i))
              (after_memory uid gid ptr buf len f inode m h)
          ∙ wrote.2
          ∙ late_byte inode.base buf len i m front,
    )
