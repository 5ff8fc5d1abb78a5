-- ===== src/Proc/Env/Laws.antt =====
-- Looking up what was put into an environment, and what a child sees of its parent's.
use fruity_orange.Base.{
  ◌≡◌, ◌≢◌, refl, sym, ◌∙◌, true, false, Option, none, some, [], ◌∷◌, All, Bool-cases, inl, inr,
}
use mathlib.Core.Path.{subst}
use fruity_orange.Clib.Str.{CString, strcmp}
use fruity_orange.Clib.Str.Compare.{strcmp_iff}
use fruity_orange.Proc.Env.{Env, putenv, getenv, proc_copy_env}

strcmp-false : (s t : CString) → s ≢ t → strcmp s t ≡ false
strcmp-false s t ne = elim (Bool-cases (strcmp s t)) [
  | inl e ↦ absurd (ne ((strcmp_iff s t).0 e))
  | inr e ↦ e
]

-- A variable that was put has its new value, and every other one what it had.
pub getenv-putenv :
    (name value other : CString) (env : Env)
    → (getenv name (putenv name value env) ≡ some value)
      × (other ≢ name → getenv other (putenv name value env) ≡ getenv other env)
unfolding getenv
getenv-putenv name value other env =
    let same : strcmp name name ≡ true = (strcmp_iff name name).1 refl in
    (rw same refl, λ ne. rw (strcmp-false other name ne) refl)

-- The name is not in the environment.
abbrev pub Unset : CString → Env → Type 0
Unset name env = All (λ v. name ≢ v.name) env

-- No name is in the environment twice.
abbrev pub DistinctNames : Env → Type 0
DistinctNames [] = Unit
DistinctNames (v ∷ env) = Unset v.name env × DistinctNames env

getenv-Unset : (name : CString) (env : Env) → Unset name env → getenv name env ≡ none
unfolding getenv
getenv-Unset name [] u = refl
getenv-Unset name (v ∷ env) u = rw (strcmp-false name v.name u.0) (getenv-Unset name env u.1)

abbrev or_else : Option CString → Option CString → Option CString
or_else none b = b
or_else (some a) b = some a

-- With distinct names it does not matter where an entry stands.
getenv-copy_env_onto :
    (name : CString) (parent child : Env)
    → DistinctNames parent
    → getenv name (proc_copy_env parent child) ≡ or_else (getenv name parent) (getenv name child)
unfolding getenv proc_copy_env
getenv-copy_env_onto name [] child d = refl
getenv-copy_env_onto name (v ∷ parent) child d = elim (Bool-cases (strcmp name v.name)) [
  | inl e ↦
      let u : Unset name parent =
        subst (λ n. Unset n parent) (sym ((strcmp_iff name v.name).0 e)) d.0 in
      getenv-copy_env_onto name parent (v ∷ child) d.1 ∙ rw (getenv-Unset name parent u) (rw e refl)
  | inr e ↦ getenv-copy_env_onto name parent (v ∷ child) d.1 ∙ rw e refl
]

-- A child that starts with an empty environment finds what its parent finds, if no name is in the
-- parent's environment twice.
pub getenv-copy_env :
    (name : CString) (parent : Env)
    → DistinctNames parent
    → getenv name (proc_copy_env parent []) ≡ getenv name parent
unfolding getenv
getenv-copy_env name parent d = getenv-copy_env_onto name parent [] d ∙ or_none (getenv name parent)
  where
    or_none : (a : Option CString) → or_else a none ≡ a
    or_none none = refl
    or_none (some a) = refl

-- A variable that the parent has put twice: the child finds the older value.
pub getenv-copy_env_older :
    (name old new : CString)
    → (getenv name (putenv name new (putenv name old [])) ≡ some new)
      × (getenv name (proc_copy_env (putenv name new (putenv name old [])) []) ≡ some old)
unfolding getenv proc_copy_env
getenv-copy_env_older name old new =
    let same : strcmp name name ≡ true = (strcmp_iff name name).1 refl in
    (rw same refl, rw same refl)
