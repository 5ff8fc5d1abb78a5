-- ===== src/Driver/Console/Puts/Row.antt =====
-- Where `puts` and `putchar` of kernel/driver/console/console.c write text, within a row and at its end.
use fruity_orange.Base.{
  ℕ, suc, ◌+◌, ◌-◌, ◌*◌, ◌%◌, ◌^◌, ◌<◌, ◌≤◌, ◌≡◌, ◌≢◌, inl, inr, refl, ap, ◌∙◌, true, false, ◌&&◌,
  ◌==◌, leb, ltb, if◌then◌else◌, arith, Bool-cases, ap₂, Option, some, List, [], ◌∷◌, length, All,
  get_or,
}
use fruity_orange.Driver.Console.{
  Screen, write_cell, increment, put_c, newline, wrap, end_of_screen, keep_height,
  videotext_control, putchar, cell, at_least, above, is_negative, move_cursor,
}
use fruity_orange.Driver.Console.Puts.{plain, puts_loop, puts}
use fruity_orange.Driver.Console.Puts.Text.{print_plain, puts_next, puts_end}

-- Characters that are written in a cell.
abbrev pub Ordinary : ℕ → Type 0
Ordinary c = (c ≢ 27) × (c ≢ b'\r') × (c ≢ b'\n') × (c ≢ b'\t') × (c ≢ 0)

-- A text in the cells from `i` on.
write_text : ℕ → List ℕ → ℕ → (ℕ → ℕ) → ℕ → ℕ
write_text color [] i m = m
write_text color (c ∷ str) i m = write_text color str (i + 1) (write_cell i (cell color c) m)

write_text_lem :
    (color : ℕ) (str : List ℕ) (i j : ℕ) (m : ℕ → ℕ)
    → write_text color str i m j
      ≡ (if leb i j && ltb j (i + length str) then cell color (get_or str (j - i) 0) else m j)
unfolding write_text
write_text_lem color [] i j m = ground arith
write_text_lem color (c ∷ str) i j m =
    write_text_lem color str (i + 1) j (write_cell i (cell color c) m)
    ∙ elim (Bool-cases (ltb i j)) [
      | inl e ↦ let far : j - i ≡ suc (j - (i + 1)) = ground arith in rw far (ground arith)
      | inr e ↦ elim (Bool-cases (i == j)) [
        | inl k ↦ let none_left : j - i ≡ 0 = ground arith in rw none_left (ground arith)
        | inr k ↦ ground arith
      ]
    ]

-- The screen after a text in a row.
advanced : List ℕ → Screen → Screen
advanced str s = record s {
  video_mem = write_text s.color str (s.x + s.y * 80) s.video_mem;
  x = s.x + length str;
}

control_stays : (s : Screen) → s.x ≤ 80 → s.y < 24 → videotext_control s ≡ s
unfolding videotext_control wrap end_of_screen keep_height
control_stays s h k =
    let a : above s.x 80 ≡ false = ground arith in
    let b : is_negative s.x ≡ false = ground arith in
    let c : (s.y == 24) ≡ false = ground arith in
    let d : at_least s.y 25 ≡ false = ground arith in rw (a, b, c, d) refl

plain-Ordinary : (c : ℕ) (s : Screen) → Ordinary c → plain c s ≡ put_c c s
unfolding plain
plain-Ordinary c s o =
    let a : (c == b'\n') ≡ false = ground arith in
    let b : (c == b'\t') ≡ false = ground arith in
    let d : (c == b'\r') ≡ false = ground arith in rw (a, b, d) refl

put_c_lem :
    (c : ℕ) (s : Screen)
    → s.x < 80
    → s.y < 24
    → put_c c s ≡ record s {
      video_mem = write_cell (s.x + s.y * 80) (cell s.color c) s.video_mem;
      x = s.x + 1;
    }
unfolding put_c
put_c_lem c s h k =
    let a : (s.x + s.y * 80) % 2 ^ 32 ≡ s.x + s.y * 80 = omega arith in
    let b : increment s.x ≡ s.x + 1 = omega arith in rw (a, b) refl

row_loop :
    (str : List ℕ) (i : ℕ) (s : Screen)
    → All Ordinary str
    → s.ansi_length ≡ 0
    → s.x + length str ≤ 80
    → s.y < 24
    → puts_loop str i s ≡ some (i + length str, advanced str s)
unfolding puts_loop advanced write_text
row_loop [] i s a z h k =
    ap₂ (λ (n x : ℕ). some (n, record s { x = x })) (omega arith) (omega arith)
row_loop (c ∷ str) i s a z h k =
    puts_next i c str s (plain c s) a.0.4 (print_plain i c s a.0.0 z)
    ∙ ap (λ (t : Screen). puts_loop str (i + 1) (videotext_control t))
        (plain-Ordinary c s a.0 ∙ put_c_lem c s (omega arith) k)
    ∙ ap (puts_loop str (i + 1)) (control_stays s1 (omega arith) k)
    ∙ row_loop str (i + 1) s1 a.1 z (omega arith) k
    ∙ ap (λ (n : ℕ). shown n (s.x + 1 + s.y * 80) (s.x + 1 + length str)) (omega arith)
    ∙ ap₂ (shown (i + suc (length str))) (omega arith) (omega arith)
  where
    m : ℕ → ℕ
    m = write_cell (s.x + s.y * 80) (cell s.color c) s.video_mem

    s1 : Screen
    s1 = record s { video_mem = m; x = s.x + 1 }

    shown : ℕ → ℕ → ℕ → Option (ℕ × Screen)
    shown n j x = some (n, record s { video_mem = write_text s.color str j m; x = x })

-- With no sequence begun, `puts` of a text of ordinary characters that fits in the rest of a row above the last
-- one puts each character in its cell with the color, leaves all other cells alone, and moves the
-- place behind the text.
pub puts-row :
    (str : List ℕ) (s : Screen)
    → All Ordinary str
    → s.ansi_length ≡ 0
    → s.x + length str ≤ 80
    → s.y < 24
    → (t : Screen) × (puts str s ≡ some (length str, t))
      × (t.x ≡ s.x + length str)
      × (t.y ≡ s.y)
      × ((j : ℕ)
          → t.video_mem j ≡ (
              let i = s.x + s.y * 80 in
              if leb i j && ltb j (i + length str)
              then cell s.color (get_or str (j - i) 0)
              else s.video_mem j))
unfolding advanced
puts-row str s a z h k = (
  move_cursor (advanced str s),
  puts_end (0 + length str) str s (advanced str s) (row_loop str 0 s a z h k)
      ∙ ap (λ (n : ℕ). some (n, move_cursor (advanced str s))) (omega arith),
  refl,
  refl,
  λ j. write_text_lem s.color str (s.x + s.y * 80) j s.video_mem,
)

control_wraps :
    (s : Screen) → s.x ≡ 81 → s.y < 23 → videotext_control s ≡ record s { x = 0; y = s.y + 1 }
unfolding videotext_control wrap end_of_screen keep_height newline
control_wraps s h k =
    let a : above s.x 80 ≡ true = ground arith in
    let b : increment s.y ≡ s.y + 1 = omega arith in
    let c : (s.y + 1 == 24) ≡ false = ground arith in
    let d : at_least (s.y + 1) 25 ≡ false = ground arith in rw (a, b, c, d) refl

putchar_full :
    (s : Screen) (c : ℕ)
    → s.x ≡ 80
    → s.y < 23
    → putchar c s
      ≡ move_cursor (record s {
        video_mem = write_cell ((s.y + 1) * 80) (cell s.color c) s.video_mem;
        x = 0;
        y = s.y + 1;
      })
unfolding putchar put_c
putchar_full s c h k =
    let a : (s.x + s.y * 80) % 2 ^ 32 ≡ (s.y + 1) * 80 = omega arith in
    ap move_cursor (
      control_wraps (put_c c s) (omega arith) k
      ∙ ap
          (λ (i : ℕ). record s {
            video_mem = write_cell i (cell s.color c) s.video_mem;
            x = 0;
            y = s.y + 1;
          })
          a)

putchar_row :
    (s : Screen) (d : ℕ)
    → s.x < 80
    → s.y < 24
    → putchar d s
      ≡ move_cursor (record s {
        video_mem = write_cell (s.x + s.y * 80) (cell s.color d) s.video_mem;
        x = s.x + 1;
      })
unfolding putchar
putchar_row s d h k =
    ap (λ (t : Screen). move_cursor (videotext_control t)) (put_c_lem d s h k)
    ∙ ap move_cursor (control_stays _ (omega arith) k)

-- The character that `putchar` writes behind a full row, one of the first 23, stands at the start of the
-- next row, and the one after it is written over it.
pub putchar-putchar :
    (s : Screen) (c d : ℕ)
    → s.x ≡ 80
    → s.y < 23
    → let t = putchar c s in
      let u = putchar d t in
      (t.video_mem ((s.y + 1) * 80) ≡ cell s.color c)
      × (t.x ≡ 0)
      × (t.y ≡ s.y + 1)
      × (u.video_mem ((s.y + 1) * 80) ≡ cell s.color d)
      × (u.x ≡ 1)
putchar-putchar s c d h k =
    let m : ℕ → ℕ = write_cell ((s.y + 1) * 80) (cell s.color c) s.video_mem in
    let t : Screen = move_cursor (record s { video_mem = m; x = 0; y = s.y + 1 }) in
    let e : putchar c s ≡ t = putchar_full s c h k in
    let f = ap (putchar d) e ∙ putchar_row t d (omega arith) (omega arith) in
    (
      ap (λ (u : Screen). u.video_mem ((s.y + 1) * 80)) e ∙ ground arith,
      ap (λ (u : Screen). u.x) e,
      ap (λ (u : Screen). u.y) e,
      ap (λ (u : Screen). u.video_mem ((s.y + 1) * 80)) f ∙ ground arith,
      ap (λ (u : Screen). u.x) f ∙ omega arith,
    )
