-- ===== src/Clib/Format.antt =====
-- The number formats of lib/common/string/vsprintf.c. The buffer `t`, which is filled from its
-- end, is a list that grows at the front; it has room for 64 characters and the zero. `unsigned long` and `long` have 32 bits. Each loop that
-- divides takes fuel; 32 rounds are enough for 32 bits and a base of at least 2.
pub mod Lengths
pub mod Numbers
pub mod Width
use fruity_orange.Base.{
  ℕ, zero, suc, ◌+◌, ◌-◌, ◌*◌, ◌/◌, ◌%◌, ◌^◌, Bool, true, false, ◌&&◌, Option, none, some, List, [],
  ◌∷◌, length, ◌==◌, ltb, leb, if◌then◌else◌, max,
}
use fruity_orange.Clib.Str.{CString}

abbrev pub word_bits : ℕ
word_bits = 32

-- `long dummy = value`: the size of the number that the word stands for.
abbrev pub magnitude : ℕ → ℕ
magnitude value = if ltb value (2 ^ 31) then value else 2 ^ 32 - value

-- `while((dummy /= base)) min_num_chr++`
pub min_chars : ℕ → ℕ → ℕ → ℕ
min_chars zero base dummy = 0
min_chars (suc k) base dummy =
    let rest = suc (min_chars k base (dummy / base)) in if dummy / base == 0 then 0 else rest

-- `n > 9 ? n + ('A' - 10) : n + '0'`
pub digit_char : ℕ → ℕ
digit_char n = if ltb 9 n then n + 55 else n + 48

-- `do { *--tmp = ...; value /= base; i++; } while (value)`
pub digit_loop : ℕ → ℕ → ℕ → CString → ℕ → CString × ℕ
digit_loop zero base value tmp i = (tmp, i)
digit_loop (suc k) base value tmp i =
    let rest = digit_loop k base (value / base) (digit_char (value % base) ∷ tmp) (i + 1) in
    if value / base == 0 then (digit_char (value % base) ∷ tmp, i + 1) else rest

-- `while(i++ < num_chr) *--tmp = '0'`, with the rounds that are left.
pub pad : ℕ → CString → CString
pad zero tmp = tmp
pad (suc n) tmp = pad n (48 ∷ tmp)

abbrev pub wider : ℕ → ℕ → ℕ
wider min_num_chr num_chr = if ltb num_chr min_num_chr then min_num_chr else num_chr

-- `t` has 65 bytes; with more characters the code writes in front of it.
abbrev pub in_t : CString → Option CString
in_t s = if leb (length s) 64 then some s else none

-- What is written to `buf`; `none` where the base is refused and `buf` is left alone, or where the
-- text does not fit into `t`.
pub general_uintformat : ℕ → ℕ → ℕ → Option CString
unfolding digit_loop pad min_chars digit_char
general_uintformat value base num_chr =
    if ltb 16 base
    then none
    else let (tmp, i) = digit_loop word_bits base value [] 0 in
      in_t (pad (wider (min_chars word_bits base (magnitude value)) num_chr - i) tmp)

-- `(num_chr-1) ? num_chr : 8`
pub hex_str : ℕ → ℕ → Option CString
hex_str value num_chr = general_uintformat value 16 (if num_chr == 1 then 8 else num_chr)

pub oct_str : ℕ → ℕ → Option CString
oct_str value num_chr = general_uintformat value 8 (if num_chr == 1 then 4 else num_chr)

abbrev pub minus_sign : Option CString → Option CString
minus_sign none = none
minus_sign (some s) = some (45 ∷ s)

pub int_dec_str : ℕ → ℕ → Bool → Option CString
int_dec_str value num_chr signd =
    if (value / 2 ^ 31 % 2 == 1) && signd
    then minus_sign (general_uintformat ((2 ^ 32 - value) % 2 ^ 32) 10 num_chr)
    else general_uintformat value 10 num_chr
