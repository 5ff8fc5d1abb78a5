-- ===== src/Driver/Console/Puts/Text.antt =====
-- What `puts` of kernel/driver/console/console.c does with text that has no escape sequence.
use fruity_orange.Base.{
  ℕ, zero, suc, ◌+◌, ◌*◌, ◌/◌, ◌%◌, ◌^◌, ◌<◌, ◌≤◌, ◌≡◌, ◌≢◌, inl, inr, refl, ap, ◌∙◌, false, ◌&&◌,
  ◌==◌, ltb, arith, Bool-cases, some, List, [], ◌∷◌, length, All,
}
use fruity_orange.Driver.Console.{
  Screen, scroll, increment, put_c, newline, wrap, end_of_screen, keep_height, videotext_control,
  at_least, move_cursor,
}
use fruity_orange.Driver.Console.Puts.{next_stop, plain, print_char, puts_loop, puts}
use fruity_orange.Driver.Console.Scroll.{scroll_lem, IsOnScreen, IsMoved, control-IsOnScreen}

-- A column goes to the next multiple of the tabulator.
next_stop_lem : (n w : ℕ) → w < 2 ^ 31 → 8 ≤ w % 8 + n → n ≤ 8 → next_stop n w ≡ (w / 8 + 1) * 8
unfolding next_stop
next_stop_lem zero w h k l = absurd (omega arith)
next_stop_lem (suc n) w h k l = elim (Bool-cases (increment w % 8 == 0)) [
  | inl e ↦ rw e (ground arith)
  | inr e ↦
      let i : increment w ≡ w + 1 = omega arith in
      let more : (w + 1) % 8 ≢ 0 = ground arith in
      rw e (
        ap (λ (x : ℕ). next_stop n x) i
        ∙ next_stop_lem n (w + 1) (omega arith) (omega arith) (omega arith)
        ∙ omega arith)
]

-- Nothing behind the second half of the cells that `scroll` clears is written, and no sequence begins.
record Keeps (s t : Screen) : Type 0 where
  cells : (j : ℕ) → 3840 ≤ j → t.video_mem j ≡ s.video_mem j
  length_same : t.ansi_length ≡ s.ansi_length

Keeps-refl : (s : Screen) → Keeps s s
Keeps-refl s = record { cells = λ j h. refl; length_same = refl }

Keeps-trans : (s t u : Screen) → Keeps s t → Keeps t u → Keeps s u
Keeps-trans s t u k l = record {
  cells = λ j h. l.cells j h ∙ k.cells j h;
  length_same = l.length_same ∙ k.length_same;
}

scroll-Keeps : (s : Screen) → Keeps s (scroll s)
unfolding scroll
scroll-Keeps s = record { cells = λ j h. scroll_lem s j ∙ ground arith; length_same = refl }

wrap-Keeps : (s : Screen) → Keeps s (wrap s)
unfolding wrap newline
wrap-Keeps s = record { cells = λ j h. ground arith; length_same = ground arith }

end-Keeps : (s : Screen) → Keeps s (end_of_screen s)
unfolding end_of_screen newline
end-Keeps s = elim (Bool-cases ((s.y == 24) && (s.x == 80))) [
  | inl e ↦
      rw e (record { cells = (scroll-Keeps s).cells; length_same = (scroll-Keeps s).length_same })
  | inr e ↦ rw e (Keeps-refl s)
]

height-Keeps : (s : Screen) → Keeps s (keep_height s)
unfolding keep_height
height-Keeps s = elim (Bool-cases (at_least s.y 25)) [
  | inl e ↦ rw e (scroll-Keeps s)
  | inr e ↦ rw e (Keeps-refl s)
]

control-Keeps : (s : Screen) → Keeps s (videotext_control s)
unfolding videotext_control
control-Keeps s =
    Keeps-trans s (end_of_screen (wrap s)) (keep_height (end_of_screen (wrap s)))
      (Keeps-trans s (wrap s) (end_of_screen (wrap s)) (wrap-Keeps s) (end-Keeps (wrap s)))
      (height-Keeps (end_of_screen (wrap s)))

-- The characters but for the escape, the carriage return and zero.
abbrev pub Printable : ℕ → Type 0
Printable c = (c ≢ 27) × (c ≢ b'\r') × (c ≢ 0)

plain-IsMoved : (c : ℕ) (s : Screen) → Printable c → IsOnScreen s → IsMoved (plain c s)
unfolding plain newline put_c
plain-IsMoved c s p v = elim (Bool-cases (c == b'\n')) [
  | inl e ↦ rw e (record {
    column = inl (omega arith);
    row = ground arith;
    right = λ h. absurd (omega arith);
    below = λ h. refl;
    left = λ h. absurd (omega arith);
  })
  | inr e ↦ elim (Bool-cases (c == b'\t')) [
    | inl k ↦
        let n : next_stop 8 s.x ≡ (s.x / 8 + 1) * 8 =
          next_stop_lem 8 s.x (omega (arith, v.column)) (omega arith) (omega arith) in
        rw (e, k)
          (record {
            column = inl (omega (arith, v.column));
            row = omega (arith, v.row);
            right = λ h. ground (arith, v.not_last);
            below = λ h. absurd (omega (arith, v.row));
            left = λ h. absurd (omega (arith, v.column));
          })
    | inr k ↦
        let r : (c == b'\r') ≡ false = ground arith in
        rw (e, k, r)
          (record {
            column = inl (ground (arith, v.column));
            row = omega (arith, v.row);
            right = λ h. ground (arith, v.not_last);
            below = λ h. absurd (omega (arith, v.row));
            left = λ h. absurd (ground (arith, v.column));
          })
  ]
]

plain-Keeps : (c : ℕ) (s : Screen) → Printable c → IsOnScreen s → Keeps s (plain c s)
unfolding plain newline put_c
plain-Keeps c s p v = record {
  cells = λ j h. ground (arith, v.column, v.row);
  length_same = ground arith;
}

pub print_plain :
    (i c : ℕ) (s : Screen) → c ≢ 27 → s.ansi_length ≡ 0 → print_char i c s ≡ some (plain c s)
unfolding print_char
print_plain i c s h e =
    let a : (c == 27) ≡ false = ground arith in
    let b : ltb 0 s.ansi_length ≡ false = ground arith in rw (a, b) refl

pub puts_next :
    (i c : ℕ) (str : List ℕ) (s t : Screen)
    → c ≢ 0
    → print_char i c s ≡ some t
    → puts_loop (c ∷ str) i s ≡ puts_loop str (i + 1) (videotext_control t)
unfolding puts_loop
puts_next i c str s t n e = let z : (c == 0) ≡ false = ground arith in rw (z, e) refl

pub puts_end :
    (n : ℕ) (str : List ℕ) (s t : Screen)
    → puts_loop str 0 s ≡ some (n, t)
    → puts str s ≡ some (n, move_cursor t)
unfolding puts
puts_end n str s t e = rw (puts, e) refl

puts_loop_lem :
    (str : List ℕ) (i : ℕ) (s : Screen)
    → All Printable str
    → s.ansi_length ≡ 0
    → IsOnScreen s
    → (t : Screen) × (puts_loop str i s ≡ some (i + length str, t)) × IsOnScreen t × Keeps s t
unfolding puts_loop
puts_loop_lem [] i s a z v = (s, ap (λ (n : ℕ). some (n, s)) (omega arith), v, Keeps-refl s)
puts_loop_lem (c ∷ str) i s a z v =
    let s1 : Screen = videotext_control (plain c s) in
    let k : Keeps s s1 =
      Keeps-trans s (plain c s) s1 (plain-Keeps c s a.0 v) (control-Keeps (plain c s)) in
    let (t, run, w, l) =
      puts_loop_lem str (i + 1) s1 a.1 (k.length_same ∙ z)
        (control-IsOnScreen (plain c s) (plain-IsMoved c s a.0 v)) in
    (
      t,
      puts_next i c str s (plain c s) a.0.2 (print_plain i c s a.0.0 z)
          ∙ run
          ∙ ap (λ (n : ℕ). some (n, t)) (omega arith),
      w,
      Keeps-trans s s1 t k l,
    )

-- With no sequence begun and the place on the screen, `puts` of a text of any length without escape characters, zeros and
-- carriage returns prints all of its characters, leaves the place on the screen, and writes no cell
-- behind the rows that `scroll` clears.
pub puts-IsOnScreen :
    (str : List ℕ) (s : Screen)
    → All Printable str
    → s.ansi_length ≡ 0
    → IsOnScreen s
    → (t : Screen) × (puts str s ≡ some (length str, t))
      × IsOnScreen t
      × ((j : ℕ) → 3840 ≤ j → t.video_mem j ≡ s.video_mem j)
puts-IsOnScreen str s a z v =
    let (t, run, w, k) = puts_loop_lem str 0 s a z v in
    (
      move_cursor t,
      puts_end (0 + length str) str s t run ∙ ap (λ (n : ℕ). some (n, move_cursor t)) (omega arith),
      record { column = w.column; row = w.row; not_last = w.not_last },
      k.cells,
    )
