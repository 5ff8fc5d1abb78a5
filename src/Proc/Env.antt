-- ===== src/Proc/Env.antt =====
-- The environment of a process: `syscall_putenv` and `syscall_getenv` of
-- kernel/proc/syscall_wrappers.c and `proc_copy_env` of kernel/proc/proc.c. The linked list of
-- `env_t` is a list, its head first. Names and values are taken to fit into their 100 bytes.
pub mod Laws
use fruity_orange.Base.{ℕ, Bool, true, false, if◌then◌else◌, Option, none, some, List, [], ◌∷◌}
use fruity_orange.Clib.Str.{CString, strcmp}

pub record EnvVar : Type 0 where
  pub name : CString
  pub value : CString

abbrev pub Env : Type 0
Env = List EnvVar

abbrev pub putenv : CString → CString → Env → Env
putenv name value env = record { name = name; value = value } ∷ env

-- What is copied to the buffer; `none` when nothing is.
pub getenv : CString → Env → Option CString
getenv name [] = none
getenv name (v ∷ env) = if strcmp name v.name then some v.value else getenv name env

-- The loop over the parent's list, which puts each entry in front of the child's.
pub proc_copy_env : Env → Env → Env
proc_copy_env [] child = child
proc_copy_env (v ∷ parent) child =
    proc_copy_env parent (record { name = v.name; value = v.value } ∷ child)
