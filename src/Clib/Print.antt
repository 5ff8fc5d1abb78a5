-- ===== src/Clib/Print.antt =====
-- `vsprintf` of lib/common/string/vsprintf.c: the format string and the arguments, and the text that
-- is written to the buffer. The digits of a width and the text of a number are written to the literal
-- "" that `tmp` points to. `room` is the number of bytes from there on that nothing else uses: C
-- promises one, the rest is up to the linker. `none` where more than `room` bytes are written there,
-- where an argument is missing or of the other kind, or where the code reads behind the format
-- string. The loop is on fuel.
pub mod Text
use fruity_orange.Base.{
  ℕ, zero, suc, ◌+◌, ◌%◌, ◌≤◌, Bool, true, false, ◌==◌, ◌||◌, ◌&&◌, leb, ltb, if◌then◌else◌, Option,
  none, some, List, [], ◌∷◌, ◌++◌, drop, length,
}
use fruity_orange.Clib.Str.{CString, atoi}
use fruity_orange.Clib.Format.{hex_str, oct_str, int_dec_str}

-- What `va_arg` reads: a word or a string.
pub data Arg : Type 0 where
  word : ℕ → Arg
  text : CString → Arg

-- `IS_FMT_NUM`
abbrev pub is_fmt_num : ℕ → Bool
is_fmt_num c = leb 48 c && leb c 57

abbrev pub push_digit : ℕ → CString × CString → CString × CString
push_digit c (ds, rest) = (c ∷ ds, rest)

-- The digits at the start of the format, and the rest.
pub take_digits : CString → CString × CString
take_digits [] = ([], [])
take_digits (c ∷ fmt) =
    let more = take_digits fmt in if is_fmt_num c then push_digit c more else ([], c ∷ fmt)

-- `num_chr = atoi(tmp+1)`, which leaves out the first digit.
abbrev pub width : CString → ℕ
width [] = 1
width (d ∷ ds) = atoi ds

-- `COPY`, and what follows.
abbrev pub copy : Option CString → Option CString → Option CString
copy none rest = none
copy (some s) none = none
copy (some s) (some rest) = some (s ++ rest)

abbrev pub Rest : Type 0
Rest = CString → List Arg → Option CString

-- `char *tmp = ""`: a text and its zero are written to the bytes at the literal.
abbrev pub in_room : ℕ → Option CString → Option CString
in_room room none = none
in_room room (some s) = if ltb (length s) room then some s else none

-- `*tmp++ = *fmt++` for each digit of a width, and `*tmp = '\0'`.
abbrev pub digits_fit : ℕ → CString → Bool
digits_fit room [] = true
digits_fit room (d ∷ ds) = ltb (length (d ∷ ds)) room

-- A directive that prints a word.
abbrev pub print_word : (ℕ → Option CString) → Rest → CString → List Arg → Option CString
print_word print go fmt (Arg.word n ∷ args) = copy (print n) (go fmt args)
print_word print go fmt _ = none

abbrev pub print_text : Rest → CString → List Arg → Option CString
print_text go fmt (Arg.text s ∷ args) = copy (some s) (go fmt args)
print_text go fmt _ = none

-- The letter `c` in upper or in lower case.
abbrev pub letter : ℕ → ℕ → Bool
letter c l = (c == l) || (c == l + 32)

-- `case 'L'` and `case 'l'`: the letter behind it.
abbrev pub long_directive : ℕ → Rest → ℕ → CString → List Arg → Option CString
long_directive room go num_chr [] args = none
long_directive room go num_chr (c ∷ fmt) args =
    if letter c 68
    then print_word (λ n. in_room room (int_dec_str n num_chr true)) go fmt args
    else if letter c 85
    then print_word (λ n. in_room room (int_dec_str n num_chr false)) go fmt args
    else go fmt args

-- The `switch` on the letter of a directive. `%%` goes on to the case of `%x`.
pub directive : ℕ → Rest → ℕ → CString → List Arg → Option CString
directive room go num_chr [] args = none
directive room go num_chr (c ∷ fmt) args =
    if c == 37
    then copy (some (37 ∷ [])) (print_word (λ n. in_room room (hex_str n num_chr)) go fmt args)
    else if letter c 88
    then print_word (λ n. in_room room (hex_str n num_chr)) go fmt args
    else if letter c 68
    then print_word (λ n. in_room room (int_dec_str n num_chr true)) go fmt args
    else if letter c 85
    then print_word (λ n. in_room room (int_dec_str n num_chr false)) go fmt args
    else if letter c 76
    then long_directive room go num_chr fmt args
    else if letter c 79
    then print_word (λ n. in_room room (oct_str n num_chr)) go fmt args
    else if letter c 67
    then print_word (λ n. some (n % 256 ∷ [])) go fmt args
    else if letter c 83
    then print_text go fmt args
    else go fmt args

pub vsprintf : ℕ → ℕ → CString → List Arg → Option CString
unfolding directive take_digits
vsprintf room zero fmt args = none
vsprintf room (suc k) [] args = some []
vsprintf room (suc k) (c ∷ fmt) args =
    let go = vsprintf room k in
    if c == 37
    then (if digits_fit room (take_digits fmt).0
        then directive room go (width (take_digits fmt).0) (take_digits fmt).1 args
        else none)
    else copy (some (c ∷ [])) (go fmt args)

pub sprintf : ℕ → CString → List Arg → Option CString
unfolding vsprintf
sprintf room format args = vsprintf room (suc (length format)) format args
