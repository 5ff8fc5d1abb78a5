-- ===== src/Driver/Console.antt =====
-- The text on the console, kernel/driver/console/console.c. `x` and `y` are `int`s and stand as their
-- 32 bits: from 2 ^ 31 on they are negative. The cells of the video memory are a function of an index
-- of 32 bits. A read or a write outside of `ansi_buf` is the result `none`.
pub mod Puts
pub mod Scroll
pub mod Tests
use fruity_orange.Base.{
  ℕ, zero, suc, ◌+◌, ◌-◌, ◌*◌, ◌/◌, ◌%◌, ◌^◌, Bool, true, false, ◌&&◌, ◌||◌, not, Option, none,
  some, List, [], ◌∷◌, ◌==◌, leb, ltb, if◌then◌else◌, bit_or, get_elem?, set, length, take, drop,
}
use fruity_orange.Driver.Ports.{
  videotext_width, set_cursor, set_color, set_foreground_color, set_background_color,
}

abbrev pub tabulator_size : ℕ
tabulator_size = 8

abbrev pub videotext_height : ℕ
videotext_height = 25

pub record Screen : Type 0 where
  pub video_mem : ℕ → ℕ
  pub color : ℕ
  pub x : ℕ
  pub y : ℕ
  -- What was written to the ports of the cursor last.
  pub cursor : List (ℕ × ℕ)
  pub ansi_buf : List ℕ
  pub ansi_length : ℕ

abbrev pub is_negative : ℕ → Bool
is_negative w = leb (2 ^ 31) w

-- `a > b` and `a >= b` for an `int` and a constant.
abbrev pub above : ℕ → ℕ → Bool
above w b = not (is_negative w) && ltb b w

abbrev pub at_least : ℕ → ℕ → Bool
at_least w b = not (is_negative w) && leb b w

abbrev pub increment : ℕ → ℕ
increment w = (w + 1) % 2 ^ 32

abbrev pub decrement : ℕ → ℕ
decrement w = (w + (2 ^ 32 - 1)) % 2 ^ 32

-- A `char` is negative from 128 on, and its sign fills the upper byte of the cell.
abbrev pub cell : ℕ → ℕ → ℕ
cell color c = bit_or (if ltb c 128 then c else c + 0xff00) (color * 256)

abbrev pub write_cell : ℕ → ℕ → (ℕ → ℕ) → ℕ → ℕ
write_cell i v m j = if i == j then v else m j

-- `PUTC`
pub put_c : ℕ → Screen → Screen
put_c c s = record s {
  video_mem = write_cell ((s.x + s.y * 80) % 2 ^ 32) (cell s.color c) s.video_mem;
  x = increment s.x;
}

-- `NEWLINE`
pub newline : Screen → Screen
newline s = record s { y = increment s.y; x = 0 }

abbrev pub move_cursor : Screen → Screen
move_cursor s = record s { cursor = set_cursor s.x s.y }

-- `for(i = ...; ...; i++) { video_mem[i] = video_mem[i + videotext_width]; }`
pub copy_rows : ℕ → ℕ → (ℕ → ℕ) → ℕ → ℕ
copy_rows zero i m = m
copy_rows (suc n) i m = copy_rows n (i + 1) (write_cell i (m (i + videotext_width)) m)

pub fill_cells : ℕ → ℕ → ℕ → (ℕ → ℕ) → ℕ → ℕ
fill_cells zero i v m = m
fill_cells (suc n) i v m = fill_cells n (i + 1) v (write_cell i v m)

abbrev pub upper_cells : ℕ
upper_cells = videotext_width * (videotext_height - 1)

pub scroll : Screen → Screen
scroll s =
    let up = move_cursor (record s { y = decrement s.y }) in
    record up {
      video_mem =
          fill_cells upper_cells upper_cells (s.color * 256) (copy_rows upper_cells 0 s.video_mem);
    }

pub clearscreen : Screen → Screen
clearscreen s = move_cursor (record s {
  video_mem = fill_cells (videotext_width * videotext_height) 0 (s.color * 256) s.video_mem;
  x = 0;
  y = 0;
})

-- The three tests of `videotext_control`, one after the other.
pub wrap : Screen → Screen
unfolding newline
wrap s =
    if above s.x videotext_width
    then newline s
    else if is_negative s.x
    then record s { x = videotext_width - 1; y = decrement s.y }
    else s

pub end_of_screen : Screen → Screen
unfolding newline
end_of_screen s =
    if (s.y == videotext_height - 1) && (s.x == videotext_width) then newline (scroll s) else s

pub keep_height : Screen → Screen
keep_height s = if at_least s.y videotext_height then scroll s else s

pub videotext_control : Screen → Screen
unfolding wrap end_of_screen keep_height
videotext_control s = keep_height (end_of_screen (wrap s))

pub putchar : ℕ → Screen → Screen
unfolding put_c videotext_control
putchar chr s = move_cursor (videotext_control (put_c chr s))
