-- ===== src/Vfs/Tests.antt =====
-- The theorems on kernel/vfs at a file of five bytes.
use fruity_orange.Base.{
  ℕ, ◌+◌, ◌≡◌, refl, true, if◌then◌else◌, ◌==◌, inl, inr, arith, ◌↔◌, [], ◌∷◌, some, none,
}
use fruity_orange.Clib.Mem.{Memory}
use fruity_orange.Vfs.Inode.{Inode, vfs_access, vfs_write, writable}
use fruity_orange.Vfs.Inode.Access.{Granted, class, vfs_access_iff}
use fruity_orange.Vfs.Inode.Write.{write-read}
use fruity_orange.Proc.Fd.{FdState}
use fruity_orange.Vfs.Calls.{syscall_write, syscall_seek, syscall_read, seek_set}
use fruity_orange.Vfs.Calls.ReadBack.{write-seek-read}
use fruity_orange.Clib.Str.{Strtok}
use fruity_orange.Vfs.Path.{Tree, walk, vfs_path_lookup}
use fruity_orange.Vfs.Path.Walk.{lookup-walk}

-- The owner, 1, may read and write, the group, 2, may read.
abbrev file : Inode
file = record { mode = 0xb0; size = 5; id = 3; uid = 1; gid = 2; base = 0x8000; length = 5 }

abbrev bytes : Memory
bytes a = a

vfs_access_iff_example : (vfs_access 0 2 file 3 ≡ 0) ↔ Granted 3 0xb0 (class 0 2 file)
vfs_access_iff_example = vfs_access_iff 0 2 file 3

owner_may : vfs_access 1 0 file 2 ≡ 0
unfolding vfs_access
owner_may = refl

file-writable : writable 1 0 file ≡ true
unfolding writable
file-writable = refl

write-read_example :
    ((vfs_write 1 0 0x20000 file 4 0x100 3 bytes).0.length ≡ 7)
    × ((vfs_write 1 0 0x20000 file 4 0x100 3 bytes).0.base ≡ 0x8000)
    × ((vfs_write 1 0 0x20000 file 4 0x100 3 bytes).1 0x8005 ≡ 0x101)
write-read_example =
    write-read 1 0 0x20000 file 4 0x100 3 0x8005 bytes file-writable (omega arith) (omega arith)
      (omega arith) (inr (omega arith))

-- Opened with O_RDWR.
abbrev opened : FdState
opened = record { inode = 0x500; mode = 0; flags = 4; pos = 0 }

abbrev wrote : ℕ × FdState × Inode × Memory
wrote = syscall_write 1 0 0x20000 0x100 3 opened file bytes

abbrev sought : ℕ × FdState
sought = syscall_seek 0 seek_set wrote.2.length wrote.1

write-seek-read_example :
    ((syscall_read 0x200 3 sought.1 wrote.2 wrote.3).0 ≡ 3)
    × ((syscall_read 0x200 3 sought.1 wrote.2 wrote.3).2 (0x200 + 2) ≡ 0x101)
write-seek-read_example =
    write-seek-read 1 0 0x20000 0x100 0x200 3 2 opened file bytes
      (record { both = refl; start = refl }) file-writable (omega arith) (omega arith) (omega arith)
      (inr (omega arith)) (inl (omega arith)) (omega arith)

-- The root, 1, has the directory "a", 2, with the file "b", 3.
abbrev tree : Tree
tree = record {
  root = 1;
  entries = λ d. if d == 1 then (97 ∷ [], 2) ∷ [] else if d == 2 then (98 ∷ [], 3) ∷ [] else [];
  parent = λ d. 1;
}

abbrev new_strtok : Strtok
new_strtok = record { s = none; num_del = 0 }

lookup-walk_example :
    (vfs_path_lookup tree 3 (47 ∷ 97 ∷ 47 ∷ 98 ∷ []) new_strtok
      ≡ some (walk tree 1 ((97 ∷ []) ∷ (98 ∷ []) ∷ [])))
    × (vfs_path_lookup tree 3 (47 ∷ 97 ∷ 47 ∷ 98 ∷ 47 ∷ []) new_strtok
        ≡ some (walk tree 1 ((97 ∷ []) ∷ (98 ∷ []) ∷ [])))
lookup-walk_example =
    lookup-walk tree 3 (97 ∷ []) ((98 ∷ []) ∷ []) new_strtok (omega arith, tt)
      ((omega arith, tt), tt)
