-- ===== src/Driver/Console/Tests.antt =====
-- The theorems on kernel/driver/console/console.c at an empty screen, and escape sequences.
use fruity_orange.Base.{
  ℕ, ◌+◌, ◌-◌, ◌*◌, ◌≤◌, ◌≡◌, refl, ◌&&◌, some, [], ◌∷◌, leb, ltb, if◌then◌else◌, arith, get_or,
  replicate,
}
use fruity_orange.Driver.Console.{Screen, putchar, cell, scroll, move_cursor}
use fruity_orange.Driver.Console.Scroll.{IsOnScreen, scroll_lem}
use fruity_orange.Driver.Console.Puts.{puts, parse_ansi, success}
use fruity_orange.Driver.Console.Puts.Position.{parse_ansi_position}
use fruity_orange.Driver.Console.Puts.Text.{puts-IsOnScreen}
use fruity_orange.Driver.Console.Puts.Row.{puts-row, putchar-putchar}

at_place : ℕ → ℕ → Screen
at_place x y = record {
  video_mem = λ i. 0;
  color = 7;
  x = x;
  y = y;
  cursor = [];
  ansi_buf = replicate 16 0;
  ansi_length = 0;
}

-- "ESC[3;14H"
parse_ansi_position_example :
    parse_ansi (27 ∷ b'[' ∷ b'3' ∷ b';' ∷ b'1' ∷ b'4' ∷ b'H' ∷ []) (at_place 0 0)
    ≡ (success, move_cursor (record (at_place 0 0) { x = 13; y = 2 }))
parse_ansi_position_example =
    parse_ansi_position b'3' b'1' [] (b'4' ∷ []) (at_place 0 0) (omega arith) (omega arith)
      (omega arith) (omega arith)

top : IsOnScreen (at_place 5 24)
unfolding at_place
top = record { column = omega arith; row = omega arith; not_last = λ e. omega arith }

scroll_lem_example : (scroll (at_place 5 24)).video_mem 2000 ≡ (
    if ltb 2000 1920
    then (at_place 5 24).video_mem (2000 + 80)
    else if ltb 2000 3840
    then (at_place 5 24).color * 256
    else (at_place 5 24).video_mem 2000)
scroll_lem_example = scroll_lem (at_place 5 24) 2000

puts-IsOnScreen_example :
    (t : Screen) × (puts (b'a' ∷ b'\n' ∷ b'b' ∷ []) (at_place 5 24) ≡ some (3, t))
    × IsOnScreen t
    × ((j : ℕ) → 3840 ≤ j → t.video_mem j ≡ (at_place 5 24).video_mem j)
puts-IsOnScreen_example =
    puts-IsOnScreen (b'a' ∷ b'\n' ∷ b'b' ∷ []) (at_place 5 24) (omega arith)
      (unfold at_place in refl) top

puts-row_example :
    (t : Screen) × (puts (b'a' ∷ b'b' ∷ []) (at_place 5 3) ≡ some (2, t))
    × (t.x ≡ (at_place 5 3).x + 2)
    × (t.y ≡ (at_place 5 3).y)
    × ((j : ℕ)
        → t.video_mem j ≡ (
            let i = (at_place 5 3).x + (at_place 5 3).y * 80 in
            if leb i j && ltb j (i + 2)
            then cell (at_place 5 3).color (get_or (b'a' ∷ b'b' ∷ []) (j - i) 0)
            else (at_place 5 3).video_mem j))
puts-row_example =
    puts-row (b'a' ∷ b'b' ∷ []) (at_place 5 3) (omega arith) (unfold at_place in refl)
      (unfold at_place in omega arith) (unfold at_place in omega arith)

putchar-putchar_example :
    let t = putchar b'a' (at_place 80 3) in
    let u = putchar b'b' t in
    (t.video_mem (((at_place 80 3).y + 1) * 80) ≡ cell (at_place 80 3).color b'a')
    × (t.x ≡ 0)
    × (t.y ≡ (at_place 80 3).y + 1)
    × (u.video_mem (((at_place 80 3).y + 1) * 80) ≡ cell (at_place 80 3).color b'b')
    × (u.x ≡ 1)
putchar-putchar_example =
    putchar-putchar (at_place 80 3) b'a' b'b' (unfold at_place in refl)
      (unfold at_place in omega arith)
