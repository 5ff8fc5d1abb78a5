-- ===== src/Proc/Fd.antt =====
-- The file descriptors of a process: `proc_get_unused_fd` of kernel/proc/proc.c, `syscall_close`
-- and `syscall_seek` of kernel/vfs/syscall_wrappers.c. `fd` is a list with NULL as `none`; its
-- length is what was allocated, and the two are the same where the code keeps them so.
pub mod Slots
use fruity_orange.Base.{
  ℕ, zero, suc, ◌+◌, ◌-◌, ◌%◌, ◌^◌, Bool, true, false, ◌==◌, ltb, if◌then◌else◌, Option, none, some,
  List, [], ◌∷◌, length, set, get_elem?, ◌++◌, bit_or,
}

-- `fd_st_t`, with the inode as its address.
pub record FdState : Type 0 where
  pub inode : ℕ
  pub mode : ℕ
  pub flags : ℕ
  pub pos : ℕ

abbrev pub Fds : Type 0
Fds = List (Option FdState)

-- `while(id < proc->num_fd)`: the first NULL from `id` on.
pub free_slot : ℕ → Fds → Option ℕ
free_slot id [] = none
free_slot id (none ∷ fds) = some id
free_slot id (some f ∷ fds) = free_slot (suc id) fds

-- `proc->fd[id] = malloc(...)`; `none` where `id` is behind the array.
abbrev pub put_slot : FdState → ℕ → Fds → Option (ℕ × Fds)
put_slot fresh id fds = if ltb id (length fds) then some (id, set fds id (some fresh)) else none

-- With no free slot the array grows by one, and `id` is the new size. `fresh` is what stands in
-- the memory of the new structure.
abbrev pub take_slot : FdState → Fds → Option ℕ → Option (ℕ × Fds)
take_slot fresh fds (some id) = put_slot fresh id fds
take_slot fresh fds none = put_slot fresh (length fds + 1) (fds ++ none ∷ [])

pub proc_get_unused_fd : FdState → Fds → Option (ℕ × Fds)
unfolding free_slot
proc_get_unused_fd fresh fds = take_slot fresh fds (free_slot 0 fds)

-- `none` where `fd` is behind the array, which the code reads all the same.
pub syscall_close : ℕ → Fds → Option Fds
syscall_close fd fds = if ltb fd (length fds) then some (set fds fd none) else none
