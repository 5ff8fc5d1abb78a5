-- ===== src/Clib/Str.antt =====
-- lib/common/string/string.c and lib/common/stdlib/atoX.c. A C string that is only read is the
-- list of its bytes before the terminating NUL. What `strtok` copies into fresh memory is the
-- token that it returns; its static variables are the record `Strtok`.
pub mod Compare
pub mod Tokens
pub mod Writes
use fruity_orange.Base.{
  ℕ, zero, suc, ◌+◌, ◌-◌, ◌*◌, ◌%◌, ◌^◌, Bool, true, false, ◌||◌, Option, none, some, List, [], ◌∷◌,
  ◌==◌, if◌then◌else◌, length,
}

abbrev pub CString : Type 0
CString = List ℕ

-- `for(i=0;*s!='\0';s++,i++)` on an int.
pub strlen_from : ℕ → CString → ℕ
strlen_from i [] = i
strlen_from i (c ∷ s) = strlen_from ((i + 1) % 2 ^ 32) s

pub strlen : CString → ℕ
unfolding strlen_from
strlen s = strlen_from 0 s

-- The result of `strcmp` is TRUE or FALSE.
pub strcmp : CString → CString → Bool
strcmp [] [] = true
strcmp [] (d ∷ t) = false
strcmp (c ∷ s) [] = false
strcmp (c ∷ s) (d ∷ t) = if c == d then strcmp s t else false

-- The string from the first `c` on, or NULL.
pub strchr : CString → ℕ → Option CString
strchr [] c = none
strchr (a ∷ s) c = if a == c then some (a ∷ s) else strchr s c

-- `num += *string++ - '0'` on an int, which wraps.
pub atoi_from : ℕ → CString → ℕ
atoi_from num [] = num
atoi_from num (c ∷ s) = atoi_from ((num * 10 + c + 2 ^ 32 - 48) % 2 ^ 32) s

pub atoi : CString → ℕ
unfolding atoi_from
atoi s = atoi_from 0 s

pub record Strtok : Type 0 where
  pub s : Option CString
  pub num_del : ℕ

-- The loop over `i`: is `*s` one of the first `num_del` delimiters?
unfoldable pub is_delimiter : ℕ → CString → ℕ → Bool
is_delimiter zero ds c = false
is_delimiter (suc n) [] c = false
is_delimiter (suc n) (d ∷ ds) c = (c == d) || is_delimiter n ds c

abbrev pub push_byte : ℕ → CString × Option CString → CString × Option CString
push_byte c (t, r) = (c ∷ t, r)

-- The loop over `*s`: the bytes before the first delimiter, and where `s` stands afterwards.
pub scan_token : ℕ → CString → CString → CString × Option CString
scan_token n ds [] = ([], none)
scan_token n ds (c ∷ s) =
    if is_delimiter n ds c then ([], some s) else push_byte c (scan_token n ds s)

abbrev pub next_token : ℕ → CString → CString → Option CString × Strtok
next_token n ds s =
    let (token, rest) = scan_token n ds s in (some token, record { s = rest; num_del = n })

abbrev pub resume : CString → Strtok → Option CString → Option CString × Strtok
resume ds st none = (none, st)
resume ds st (some s) = next_token st.num_del ds s

pub strtok : Option CString → CString → Strtok → Option CString × Strtok
unfolding scan_token is_delimiter
strtok none ds st = resume ds st st.s
strtok (some string) ds st = next_token (length ds) ds string

-- `str = strtok(path, del); while(str != NULL) { ...; str = strtok(NULL, del); }`: the tokens
-- that the loop sees, with fuel.
pub token_loop : ℕ → CString → Option CString × Strtok → List CString
token_loop zero ds r = []
token_loop (suc n) ds (none, st) = []
token_loop (suc n) ds (some t, st) = t ∷ token_loop n ds (strtok none ds st)

pub tokens : CString → CString → Strtok → List CString
unfolding token_loop strtok
tokens path ds st = token_loop (length path + 2) ds (strtok (some path) ds st)
