-- ===== src/Clib/Tar.antt =====
-- lib/common/tar/tar.c, and the walk over the archive that kernel/vfs/initrd.c repeats. The
-- archive is memory; `int` and pointers have 32 bits.
pub mod Size
pub mod Entries
use fruity_orange.Base.{
  ℕ, zero, suc, ◌+◌, ◌-◌, ◌*◌, ◌/◌, ◌%◌, ◌^◌, Bool, true, false, Option, none, some, ◌==◌,
  if◌then◌else◌,
}
use fruity_orange.Clib.Mem.{Memory}

abbrev pub tar_size : ℕ
tar_size = 512

-- The offset of `size` in `tar_header_t` (include/tar.h).
abbrev pub size_field : ℕ
size_field = 124

-- `for (i = 11; i > 0; i--, count *= 8) size += (in[i - 1] - '0') * count`
unfoldable pub getsize_loop : ℕ → Memory → ℕ → ℕ → ℕ → ℕ
getsize_loop zero m in_ptr size count = size
getsize_loop (suc i) m in_ptr size count =
    getsize_loop i m in_ptr ((size + (m (in_ptr + i) + 2 ^ 32 - 48) * count) % 2 ^ 32)
      (count * 8 % 2 ^ 32)

unfoldable pub tar_getsize : Memory → ℕ → ℕ
unfolding getsize_loop
tar_getsize m in_ptr = getsize_loop 11 m in_ptr 0 1

-- `addr += ((size / TAR_SIZE) + 1) * TAR_SIZE; if(size % TAR_SIZE) addr += TAR_SIZE;`
unfoldable pub tar_next : ℕ → ℕ → ℕ
tar_next addr size =
    if size % tar_size == 0
    then addr + (size / tar_size + 1) * tar_size
    else addr + (size / tar_size + 1) * tar_size + tar_size

-- The loop `while(header->name[0])`, on fuel; `none` where it runs out. The header that is tested
-- is the one that the round before has read. `i` is an int, so -1 is 2 ^ 32 - 1.
pub entries_loop : ℕ → Memory → ℕ → ℕ → ℕ → Option ℕ
entries_loop zero m header addr i = none
entries_loop (suc k) m header addr i =
    let rest =
      entries_loop k m addr (tar_next addr (tar_getsize m (addr + size_field)))
        ((i + 1) % 2 ^ 32) in
    if m header == 0 then some i else rest

pub tar_get_num_entries : ℕ → Memory → ℕ → Option ℕ
tar_get_num_entries fuel m addr = entries_loop fuel m addr addr (2 ^ 32 - 1)
