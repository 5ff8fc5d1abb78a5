-- ===== src/Vfs/Inode.antt =====
-- Inodes and what may be done with them: `vfs_access`, `vfs_write` and `vfs_read` of
-- kernel/vfs/inode.c, with the permissions of include/sys/stat.h and the page-wise `malloc` and
-- `realloc` of kernel/mm/heap.c. The contents of files stand in memory; what `malloc` returns is an
-- argument. A mode and a length have 32 bits.
pub mod Access
pub mod Write
use fruity_orange.Base.{
  ℕ, ◌+◌, ◌-◌, ◌*◌, ◌/◌, ◌%◌, ◌^◌, Bool, true, false, ◌==◌, ◌||◌, ◌&&◌, not, ltb, if◌then◌else◌,
  bit_and, shl_one,
}
use fruity_orange.Clib.Mem.{Memory, memcpy, memmove}

-- `vfs_inode_t` and its `stat_t`, without the name, the parent and the times.
pub record Inode : Type 0 where
  pub mode : ℕ
  pub size : ℕ
  pub id : ℕ
  pub uid : ℕ
  pub gid : ℕ
  pub base : ℕ
  pub length : ℕ

-- `(x & (1 << j)) != 0`
abbrev pub has_bit : ℕ → ℕ → Bool
has_bit x j = not (bit_and x (shl_one j) == 0)

-- The numbers of the bits of R_OK, W_OK and X_OK, and of S_IRUSR, S_IRGRP and S_IROTH; the bits for
-- writing and executing follow the one for reading.
abbrev pub r_ok : ℕ
r_ok = 0

abbrev pub w_ok : ℕ
w_ok = 1

abbrev pub x_ok : ℕ
x_ok = 2

abbrev pub s_irusr : ℕ
s_irusr = 4

abbrev pub s_irgrp : ℕ
s_irgrp = 7

abbrev pub s_iroth : ℕ
s_iroth = 10

-- The three tests of one branch of `vfs_access`: what is asked for and not granted.
abbrev pub refused : ℕ → ℕ → ℕ → Bool
refused modus mode first =
    (has_bit modus r_ok && not (has_bit mode first))
    || (has_bit modus w_ok && not (has_bit mode (first + 1)))
    || (has_bit modus x_ok && not (has_bit mode (first + 2)))

-- 0, or -1 when the access is refused. `uid` and `gid` are the static variables of the file.
unfoldable pub vfs_access : ℕ → ℕ → Inode → ℕ → ℕ
vfs_access uid gid inode modus =
    if inode.uid == uid
    then (if refused modus inode.mode s_irusr then 2 ^ 32 - 1 else 0)
    else if inode.gid == gid
    then (if refused modus inode.mode s_irgrp then 2 ^ 32 - 1 else 0)
    else if refused modus inode.mode s_iroth
    then 2 ^ 32 - 1
    else 0

-- The first part of `vfs_write`.
unfoldable pub writable : ℕ → ℕ → Inode → Bool
writable uid gid inode =
    if (inode.uid == uid) && has_bit inode.mode (s_irusr + 1)
    then true
    else if (inode.gid == gid) && has_bit inode.mode (s_irgrp + 1)
    then true
    else if has_bit inode.mode (s_iroth + 1)
    then true
    else false

-- `NUM_PAGES(n)`: `(((n) + ~PAGE_MASK) & PAGE_MASK) / PAGE_SIZE`
abbrev pub num_pages : ℕ → ℕ
num_pages n = bit_and ((n + 0xfff) % 2 ^ 32) 0xffff_f000 / 0x1000

-- `if((off + bytes) > inode->length) { ... }`
pub grow : ℕ → ℕ → Inode → Inode
grow off bytes inode =
    let need = (off + bytes) % 2 ^ 32 in
    if ltb inode.length need then record inode { length = need; size = need } else inode

-- The base that is written to, and the memory after `realloc` has copied the contents. `ptr` is
-- what `malloc` returns.
pub provide : ℕ → ℕ → Inode → Memory → Inode × Memory
provide ptr old_len inode m =
    if inode.base == 0
    then (record inode { base = ptr }, m)
    else if ltb (num_pages old_len) (num_pages inode.length)
    then (record inode { base = ptr }, memmove ptr inode.base inode.length m)
    else (inode, m)

abbrev pub store : ℕ → ℕ → ℕ → Inode × Memory → Inode × Memory
store off src bytes (inode, m) = (inode, memcpy (inode.base + off) src bytes m)

-- The inode and the memory after `vfs_write`, which returns `bytes` in any case.
pub vfs_write : ℕ → ℕ → ℕ → Inode → ℕ → ℕ → ℕ → Memory → Inode × Memory
unfolding grow provide writable
vfs_write uid gid ptr inode off src bytes m =
    if writable uid gid inode
    then store off src bytes (provide ptr inode.length (grow off bytes inode) m)
    else (inode, m)

abbrev pub vfs_read : Inode → ℕ → ℕ
vfs_read inode off = inode.base + off
