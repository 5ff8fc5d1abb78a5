-- ===== src/Vfs/Calls.antt =====
-- The system calls of kernel/vfs/syscall_wrappers.c that read and write an open file: on the
-- structure of its descriptor, its inode and memory. The result is what is left in `ebx`. What
-- `syscall_write` prints for the first three descriptors is left out.
pub mod ReadBack
use fruity_orange.Base.{
  ℕ, ◌+◌, ◌-◌, ◌%◌, ◌^◌, Bool, true, false, ◌==◌, ◌||◌, ◌&&◌, not, ltb, if◌then◌else◌, bit_or,
}
use fruity_orange.Clib.Mem.{Memory, memcpy}
use fruity_orange.Proc.Fd.{FdState}
use fruity_orange.Vfs.Inode.{Inode, has_bit, vfs_write, vfs_read}

-- The numbers of the bits O_RDONLY, O_WRONLY, O_RDWR and O_APPEND.
abbrev pub o_rdonly : ℕ
o_rdonly = 0

abbrev pub o_wronly : ℕ
o_wronly = 1

abbrev pub o_rdwr : ℕ
o_rdwr = 2

abbrev pub o_append : ℕ
o_append = 3

abbrev pub append_flag : ℕ
append_flag = 0x08

-- `whence` of `syscall_seek`
abbrev pub seek_set : ℕ
seek_set = 1

abbrev pub seek_cur : ℕ
seek_cur = 2

abbrev pub seek_end : ℕ
seek_end = 3

abbrev pub at_position : FdState → ℕ → ℕ × FdState
at_position f pos = (pos, record f { pos = pos })

-- The flag is set whatever `whence` is.
pub syscall_seek : ℕ → ℕ → ℕ → FdState → ℕ × FdState
syscall_seek off whence length f0 =
    let f = record f0 { flags = bit_or f0.flags append_flag } in
    if whence == seek_set
    then at_position f off
    else if whence == seek_cur
    then at_position f ((f.pos + off) % 2 ^ 32)
    else if whence == seek_end
    then at_position f ((length + 2 ^ 32 - off) % 2 ^ 32)
    else (2 ^ 32 - 1, f)

-- The result, the descriptor and the memory.
pub syscall_read : ℕ → ℕ → FdState → Inode → Memory → ℕ × FdState × Memory
syscall_read buf len f inode m =
    if has_bit f.flags o_rdonly || has_bit f.flags o_rdwr
    then (if vfs_read inode f.pos == 0 then (2 ^ 32 - 1, f, m) else (
      len,
      record f { pos = (f.pos + len) % 2 ^ 32 },
      memcpy buf (vfs_read inode f.pos) len m,
    ))
    else (2 ^ 32 - 1, f, m)

-- Without O_APPEND the position is set to the start, once.
abbrev pub rewound : FdState → FdState
rewound f =
    if has_bit f.flags o_append then f else record f { pos = 0; flags = bit_or f.flags append_flag }

abbrev pub advance : ℕ → FdState → FdState
advance len f =
    if ltb 0 len && ltb len (2 ^ 31) then record f { pos = (f.pos + len) % 2 ^ 32 } else f

-- The result, the descriptor, the inode and the memory. `uid`, `gid` and `ptr` are those of
-- `vfs_write`.
pub syscall_write : ℕ → ℕ → ℕ → ℕ → ℕ → FdState → Inode → Memory → ℕ × FdState × Inode × Memory
syscall_write uid gid ptr buf len f0 inode m =
    if has_bit f0.flags o_wronly || has_bit f0.flags o_rdwr
    then (let f = rewound f0 in
        let (inode', m') = vfs_write uid gid ptr inode ((f.pos + 1) % 2 ^ 32) buf len m in
        (len, advance len f, inode', m'))
    else (2 ^ 32 - 1, f0, inode, m)
