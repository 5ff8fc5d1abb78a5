-- ===== src/Vfs/Path.antt =====
-- `vfs_path_lookup` of kernel/vfs/pathname_lookup.c. The entries of a directory are what its
-- contents hold, as names with the addresses of their inodes, 0 being NULL. The static variables of
-- `strtok` do not matter: the lookup starts it anew.
pub mod Walk
use fruity_orange.Base.{
  ℕ, ◌-◌, ◌^◌, Bool, true, false, ◌==◌, if◌then◌else◌, Option, none, some, List, [], ◌∷◌,
}
use fruity_orange.Clib.Str.{CString, Strtok, strcmp, tokens}

pub record Tree : Type 0 where
  pub root : ℕ
  pub entries : ℕ → List (CString × ℕ)
  pub parent : ℕ → ℕ

abbrev pub slash : ℕ
slash = 47

abbrev pub dot : ℕ
dot = 46

-- The loop over `entries`: it does not stop at an entry that it finds, so the last one counts.
pub find_entry : CString → List (CString × ℕ) → Option ℕ → Option ℕ
find_entry str [] found = found
find_entry str ((name, inode) ∷ es) found =
    find_entry str es (if strcmp str name then some inode else found)

abbrev pub follow : (ℕ → ℕ) → Option ℕ → ℕ
follow go none = 0
follow go (some next) = go next

-- `while(str != NULL) { ... }`: from an inode along the tokens; 0 when one is not found.
pub walk : Tree → ℕ → List CString → ℕ
walk t inode [] = inode
walk t inode (str ∷ rest) =
    follow (λ next. walk t next rest) (find_entry str (t.entries inode) none)

-- `if(path[len-1] == '/') path[len-1] = '\0'`
pub strip_slash : CString → CString
strip_slash [] = []
strip_slash (c ∷ []) = if c == slash then [] else c ∷ []
strip_slash (c ∷ d ∷ s) = c ∷ strip_slash (d ∷ s)

-- Where the walk starts, and along which path. The empty path is `none`: the code reads in front of
-- it.
abbrev pub start : Tree → ℕ → CString → Option (ℕ × CString)
start t work_dir [] = none
start t work_dir (c ∷ path) = if c == slash then some (t.root, path) else some (work_dir, c ∷ path)

abbrev pub walk_from : Tree → Option (ℕ × CString) → Strtok → Option ℕ
walk_from t none st = none
walk_from t (some (inode, path)) st =
    some (walk t inode (tokens (strip_slash path) (slash ∷ []) st))

pub vfs_path_lookup : Tree → ℕ → CString → Strtok → Option ℕ
unfolding walk strip_slash
vfs_path_lookup t work_dir path st =
    if strcmp path (dot ∷ [])
    then some work_dir
    else if strcmp path (dot ∷ dot ∷ [])
    then some (t.parent work_dir)
    else if strcmp path (slash ∷ [])
    then some t.root
    else walk_from t (start t work_dir path) st

-- `syscall_chdir` of kernel/vfs/syscall_wrappers.c: the working directory and what is left in `ecx`.
abbrev pub change_to : (ℕ → Bool) → ℕ → Option ℕ → Option (ℕ × ℕ)
change_to is_dir work_dir none = none
change_to is_dir work_dir (some inode) =
    if inode == 0
    then some (work_dir, 2 ^ 32 - 2)
    else if is_dir inode
    then some (inode, 0)
    else some (work_dir, 2 ^ 32 - 1)

pub syscall_chdir : Tree → (ℕ → Bool) → ℕ → CString → Strtok → Option (ℕ × ℕ)
unfolding vfs_path_lookup
syscall_chdir t is_dir work_dir path st =
    change_to is_dir work_dir (vfs_path_lookup t work_dir path st)
