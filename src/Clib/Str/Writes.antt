-- ===== src/Clib/Str/Writes.antt =====
-- The functions of lib/common/string/string.c that write strings, on a memory of bytes. A loop that
-- looks for the end of a string takes rounds, and is `none` where they run out.
pub mod Copy
pub mod Append
use fruity_orange.Base.{ℕ, zero, suc, ◌+◌, ◌*◌, Option, none, some, ◌==◌, ltb, if◌then◌else◌}
use fruity_orange.Clib.Mem.{Memory, write, memcpy}

-- `while((*dest++ = *src++));`
pub strcpy : ℕ → ℕ → ℕ → Memory → Option Memory
strcpy zero dest src m = none
strcpy (suc k) dest src m =
    let m' = write dest (m src) m in
    let rest = strcpy k (dest + 1) (src + 1) m' in if m src == 0 then some m' else rest

-- `while (*dest) dest++;`
pub find_end : ℕ → ℕ → Memory → Option ℕ
find_end zero dest m = none
find_end (suc k) dest m =
    let rest = find_end k (dest + 1) m in if m dest == 0 then some dest else rest

-- `do { *dest++ = *src++; } while (*src != 0);`
pub append_loop : ℕ → ℕ → ℕ → Memory → Option (ℕ × Memory)
append_loop zero dest src m = none
append_loop (suc k) dest src m =
    let m' = write dest (m src) m in
    let rest = append_loop k (dest + 1) (src + 1) m' in
    if m' (src + 1) == 0 then some (dest + 1, m') else rest

pub strcat : ℕ → ℕ → ℕ → Memory → Option (ℕ × Memory)
unfolding find_end append_loop
strcat k dest src m = elim (find_end k dest m) [ none ↦ none | some end ↦ append_loop k end src m ]

-- `while(*s != '\0') { *os2++ = *s++; }`: where the second string ends.
pub copy_rest : ℕ → ℕ → ℕ → Memory → Option (ℕ × Memory)
copy_rest zero os2 s m = none
copy_rest (suc k) os2 s m =
    let rest = copy_rest k (os2 + 1) (s + 1) (write os2 (m s) m) in
    if m s == 0 then some (os2, m) else rest

-- Both pointers have moved when the zeros are written behind them at the index `pos`.
pub cut : ℕ → ℕ → ℕ → ℕ → ℕ → Memory → Option Memory
unfolding copy_rest
cut k s pos os1 os2 m =
    elim (copy_rest k os2 (s + pos) (write (os1 + pos + pos) 0 (memcpy os1 s pos m))) [
      | none ↦ none
      | some (end, m') ↦ some (write (end + pos) 0 m')
    ]

-- `for(...; rs[j] != '\0'; i++, j++) s[i] = rs[j];`: the place behind, and the memory.
pub overwrite : ℕ → ℕ → ℕ → Memory → Option (ℕ × Memory)
overwrite zero to from m = none
overwrite (suc k) to from m =
    let rest = overwrite k (to + 1) (from + 1) (write to (m from) m) in
    if m from == 0 then some (to, m) else rest

pub replace : ℕ → ℕ → ℕ → ℕ → Memory → Option Memory
unfolding overwrite
replace k s pos rs m = elim (overwrite k (s + pos) rs m) [
  | none ↦ none
  | some (end, m') ↦ some (write end 0 m')
]
