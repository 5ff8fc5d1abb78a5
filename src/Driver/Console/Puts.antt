-- ===== src/Driver/Console/Puts.antt =====
-- `parse_ansi`, `puts` and `printf` of kernel/driver/console/console.c: text with escape sequences.
pub mod Text
pub mod Row
pub mod Position
use fruity_orange.Base.{
  ℕ, zero, suc, ◌+◌, ◌-◌, ◌*◌, ◌/◌, ◌%◌, ◌^◌, Bool, true, false, ◌&&◌, ◌||◌, not, Option, none,
  some, List, [], ◌∷◌, ◌==◌, leb, ltb, if◌then◌else◌, get_elem?, set, length, take,
}
use fruity_orange.Clib.Print.{Arg, sprintf}
use fruity_orange.Driver.Ports.{set_color, set_foreground_color, set_background_color}
use fruity_orange.Driver.Console.{
  Screen, increment, decrement, put_c, newline, move_cursor, clearscreen, videotext_control,
  tabulator_size,
}

pub data AnsiStatus : Type 0 where
  success invalid incomplete : AnsiStatus

-- The variables of the loop of `parse_ansi`.
pub record Codes : Type 0 where
  pub n1 : ℕ
  pub n2 : ℕ
  pub have_n1 : Bool
  pub have_n2 : Bool
  pub have_delemiter : Bool

abbrev pub no_codes : Codes
no_codes = record { n1 = 0; n2 = 0; have_n1 = false; have_n2 = false; have_delemiter = false }

abbrev pub is_digit : ℕ → Bool
is_digit c = leb b'0' c && leb c b'9'

pub add_digit : ℕ → Codes → Codes
add_digit c p =
    if not p.have_delemiter
    then record p { n1 = (p.n1 * 10 + (c - b'0')) % 2 ^ 32; have_n1 = true }
    else record p { n2 = (p.n2 * 10 + (c - b'0')) % 2 ^ 32; have_n2 = true }

-- The case 'H'.
pub position : Codes → Screen → AnsiStatus × Screen
position p s =
    if p.have_n1 && p.have_n2 && p.have_delemiter
    then (success, move_cursor (record s { x = decrement p.n2; y = decrement p.n1 }))
    else (invalid, s)

-- The case 'm'.
pub colors : Codes → Screen → AnsiStatus × Screen
colors p s =
    if p.have_n1
    then (if p.have_n2
        then (
          success,
          record s {
            color = set_foreground_color (p.n2 % 256) (set_background_color (p.n1 % 256) s.color);
          },
        )
        else (success, record s { color = set_color p.n1 }))
    else (invalid, s)

-- The case 'J'.
pub erase : Codes → Screen → AnsiStatus × Screen
erase p s =
    if p.have_delemiter || not p.have_n1 || p.have_n2 || not (p.n1 == 2)
    then (invalid, s)
    else (success, clearscreen s)

-- The loop of `parse_ansi` over the rest of the characters.
pub parse_codes : List ℕ → Codes → Screen → AnsiStatus × Screen
unfolding add_digit position colors erase
parse_codes [] p s = (incomplete, s)
parse_codes (c ∷ cs) p s =
    let next = λ (q : Codes). parse_codes cs q s in
    if is_digit c
    then next (add_digit c p)
    else if c == b';'
    then (if p.have_delemiter then (invalid, s) else next (record p { have_delemiter = true }))
    else if c == b'H'
    then position p s
    else if c == b'm'
    then colors p s
    else if c == b'J'
    then erase p s
    else (invalid, s)

pub parse_ansi : List ℕ → Screen → AnsiStatus × Screen
unfolding parse_codes
parse_ansi [] s = (incomplete, s)
parse_ansi (c ∷ []) s = if c == 27 then (incomplete, s) else (invalid, s)
parse_ansi (c ∷ d ∷ cs) s =
    if not (c == 27)
    then (invalid, s)
    else if not (d == b'[')
    then (invalid, s)
    else parse_codes cs no_codes s

-- `while(++x % TABULATOR_SIZE != 0);`, with the rounds that are left.
pub next_stop : ℕ → ℕ → ℕ
next_stop zero w = w
next_stop (suc n) w =
    let rest = next_stop n (increment w) in
    if increment w % tabulator_size == 0 then increment w else rest

-- A character outside of an escape sequence.
pub plain : ℕ → Screen → Screen
unfolding newline next_stop put_c
plain c s =
    if c == b'\n'
    then newline s
    else if c == b'\t'
    then record s { x = next_stop tabulator_size s.x }
    else if c == b'\r'
    then (let t = put_c b' ' (record s { x = decrement s.x }) in record t { x = decrement t.x })
    else put_c c s

pub put_many : ℕ → ℕ → Screen → Screen
put_many zero c s = s
put_many (suc n) c s = put_many n c (put_c c s)

-- The case of an invalid sequence prints one character of the buffer again and again.
pub print_sequence : ℕ → Screen → Option Screen
unfolding put_many
print_sequence i s = elim (get_elem? s.ansi_buf i) [
  | none ↦ none
  | some c ↦ some (record (put_many s.ansi_length c s) { ansi_length = 0 })
]

pub end_sequence : ℕ → AnsiStatus × Screen → Option Screen
unfolding print_sequence
end_sequence i (success, s) = some (record s { ansi_length = 0 })
end_sequence i (invalid, s) = print_sequence i s
end_sequence i (incomplete, s) = if leb s.ansi_length 16 then some s else print_sequence i s

-- A character of an escape sequence; `i` counts the characters of the text.
pub sequence : ℕ → ℕ → Screen → Option Screen
unfolding parse_ansi end_sequence
sequence i c s =
    let buf = set s.ansi_buf s.ansi_length c in
    let n = s.ansi_length + 1 in
    let t = record s { ansi_buf = buf; ansi_length = n } in
    if ltb s.ansi_length (length s.ansi_buf)
    then end_sequence i (parse_ansi (take n buf) t)
    else none

pub print_char : ℕ → ℕ → Screen → Option Screen
unfolding sequence plain
print_char i c s = if (c == 27) || ltb 0 s.ansi_length then sequence i c s else some (plain c s)

abbrev pub go_puts : (Screen → Option (ℕ × Screen)) → Option Screen → Option (ℕ × Screen)
go_puts next none = none
go_puts next (some t) = next (videotext_control t)

-- The loop of `puts`, up to a zero or the end: the characters printed, and the screen.
pub puts_loop : List ℕ → ℕ → Screen → Option (ℕ × Screen)
unfolding print_char videotext_control
puts_loop [] i s = some (i, s)
puts_loop (c ∷ cs) i s =
    let next = go_puts (puts_loop cs (i + 1)) (print_char i c s) in
    if c == 0 then some (i, s) else next

pub puts : List ℕ → Screen → Option (ℕ × Screen)
unfolding puts_loop
puts str s = elim (puts_loop str 0 s) [ none ↦ none | some (i, t) ↦ some (i, move_cursor t) ]

-- The result, -1 as 32 bits where `vsprintf` and `puts` do not count alike. The text has to fit in the
-- buffer of 1024 bytes, and `room` is the one of Clib/Print.
pub printf : ℕ → List ℕ → List Arg → Screen → Option (ℕ × Screen)
unfolding puts
printf room format args s = elim (sprintf room format args) [
  | none ↦ none
  | some buffer ↦
      if ltb (length buffer) 1024
      then elim (puts buffer s) [
        | none ↦ none
        | some (j, t) ↦ some ((if j == length buffer then j else 2 ^ 32 - 1), t)
      ]
      else none
]
