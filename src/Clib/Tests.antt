-- ===== src/Clib/Tests.antt =====
-- The theorems on lib/common at concrete memories, strings, numbers and times, and runs.
use fruity_orange.Base.{
  ◌+◌, ◌≡◌, refl, none, some, [], ◌∷◌, arith, inl, if◌then◌else◌, leb, ◌==◌, ◌&&◌,
}
use fruity_orange.Clib.Mem.{Memory, memmove}
use fruity_orange.Clib.Mem.Laws.{memmove_lem}
use fruity_orange.Clib.Str.{CString, Strtok, tokens, is_delimiter}
use fruity_orange.Clib.Str.Tokens.{tokens-split, split}
use fruity_orange.Clib.Str.Writes.{strcat}
use fruity_orange.Clib.Str.Writes.Copy.{IsString, IsCopy}
use fruity_orange.Clib.Str.Writes.Append.{strcat_lem}
use fruity_orange.Clib.Tar.{tar_getsize, getsize_loop, tar_next}
use fruity_orange.Clib.Tar.Entries.{Archive, end, entry}
use fruity_orange.Clib.Time.{Tm, mktime, gmtime}
use fruity_orange.Clib.Time.Calendar.{IsDate}
use fruity_orange.Clib.Time.RoundTrip.{mktime-gmtime}

-- Each byte is its address.
abbrev bytes : Memory
bytes a = a

memmove_lem_example : memmove 20 10 3 bytes 23 ≡ 13
memmove_lem_example = memmove_lem 20 10 3 23 bytes (inl (omega arith))

-- "ab/c"
abbrev path : CString
path = 97 ∷ 98 ∷ 47 ∷ 99 ∷ []

abbrev slash : CString
slash = 47 ∷ []

abbrev idle : Strtok
idle = record { s = none; num_del = 0 }

tokens-split_example : tokens path slash idle ≡ (97 ∷ 98 ∷ []) ∷ (99 ∷ []) ∷ []
unfolding split is_delimiter
tokens-split_example = tokens-split path slash idle

-- A header at 0 with the name "a" and the size 01750, which is 1000, and nothing behind it.
abbrev archive : Memory
archive a =
    if a == 0
    then 97
    else if leb 124 a && leb a 131
    then 48
    else if a == 132
    then 49
    else if a == 133
    then 55
    else if a == 134
    then 53
    else if a == 135
    then 48
    else if a == 1024 + 512
    then 0
    else 0

one : Archive archive 0 1
unfolding tar_next tar_getsize getsize_loop
one = entry 0 0 (λ e. absurd (ground arith)) (end _ refl)

-- 2000-03-01 12:34:56
abbrev noon : Tm
noon = record { sec = 56; min = 34; hour = 12; mon = 3; mday = 1; wday = 0; yday = 0; year = 2000 }

noon-IsDate : IsDate 0 noon
noon-IsDate = record {
  year = refl;
  century = omega arith;
  mon_low = omega arith;
  mon_high = omega arith;
  day_low = omega arith;
  day_high = omega arith;
  time = omega arith;
}

mktime-gmtime_example : (tm : Tm) × (gmtime 1 5000000 ≡ some tm) × (mktime tm ≡ some 5000000)
mktime-gmtime_example = mktime-gmtime 0 5000000 (omega arith)

-- "a" at 10 and "bc" at 20, with a byte that is not zero behind the place where "abc" ends.
abbrev two_strings : Memory
two_strings a =
    if a == 10 then 97 else if a == 20 then 98 else if a == 21 then 99 else if a == 13 then 7 else 0

first : IsString two_strings 10 1
first = record { bytes = λ i h. ground (arith); ends = refl }

second : IsString two_strings 20 2
second = record { bytes = λ i h. ground (arith); ends = refl }

strcat_lem_example :
    (m' : Memory) × (strcat 4 10 20 two_strings ≡ some (13, m'))
    × IsCopy two_strings m' 11 20 1
    × (m' 13 ≡ two_strings 13)
strcat_lem_example =
    strcat_lem 1 1 4 10 20 two_strings (omega arith) (omega arith) first second (inl (omega arith))
