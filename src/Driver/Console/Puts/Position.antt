-- ===== src/Driver/Console/Puts/Position.antt =====
-- The escape sequence of kernel/driver/console/console.c that moves the cursor.
use fruity_orange.Base.{
  ℕ, ◌+◌, ◌-◌, ◌*◌, ◌%◌, ◌^◌, ◌<◌, ◌≤◌, ◌≡◌, refl, ap, ◌∙◌, Bool, true, false, arith, List, [], ◌∷◌,
  ◌++◌,
}
use fruity_orange.Clib.Str.Compare.{Decimal, decimal_value}
use fruity_orange.Driver.Console.{Screen, decrement, move_cursor}
use fruity_orange.Driver.Console.Puts.{
  success, Codes, no_codes, is_digit, add_digit, position, parse_codes, parse_ansi,
}

value-ge : (s : List ℕ) (acc : ℕ) → acc ≤ decimal_value acc s
value-ge [] acc = omega arith
value-ge (c ∷ s) acc = omega (arith, value-ge s (acc * 10 + (c - 48)))

-- Whether a number was seen, after more characters of it.
abbrev seen : Bool → List ℕ → Bool
seen b [] = b
seen b (c ∷ s) = true

digit_step :
    (c : ℕ) (cs : List ℕ) (p : Codes) (s : Screen)
    → 48 ≤ c
    → c < 58
    → parse_codes (c ∷ cs) p s ≡ parse_codes cs (add_digit c p) s
unfolding parse_codes
digit_step c cs p s h k = let d : is_digit c ≡ true = ground arith in rw d refl

still_seen : (ds : List ℕ) → seen true ds ≡ true
still_seen [] = refl
still_seen (c ∷ ds) = refl

-- The digits of the first number, and those of the second one, behind the delimiter.
first_number :
    (ds rest : List ℕ) (p : Codes) (s : Screen)
    → Decimal ds
    → p.have_delemiter ≡ false
    → decimal_value p.n1 ds < 2 ^ 32
    → parse_codes (ds ++ rest) p s
      ≡ parse_codes rest (record p { n1 = decimal_value p.n1 ds; have_n1 = seen p.have_n1 ds }) s
unfolding add_digit
first_number [] rest p s d e h = refl
first_number (c ∷ ds) rest p s d e h =
    digit_step c (ds ++ rest) p s d.0.0 (omega (arith, d.0.1))
    ∙ ap (λ (q : Codes). parse_codes (ds ++ rest) q s) added
    ∙ first_number ds rest (record p { n1 = p.n1 * 10 + (c - 48); have_n1 = true }) s d.1 e h
    ∙ ap
        (λ (b : Bool).
          parse_codes rest (record p { n1 = decimal_value (p.n1 * 10 + (c - 48)) ds; have_n1 = b })
            s)
        (still_seen ds)
  where
    small : (p.n1 * 10 + (c - 48)) % 2 ^ 32 ≡ p.n1 * 10 + (c - 48)
    small = omega (arith, value-ge ds (p.n1 * 10 + (c - 48)))

    added : add_digit c p ≡ record p { n1 = p.n1 * 10 + (c - 48); have_n1 = true }
    added = rw (e, small) refl

second_number :
    (ds rest : List ℕ) (p : Codes) (s : Screen)
    → Decimal ds
    → p.have_delemiter ≡ true
    → decimal_value p.n2 ds < 2 ^ 32
    → parse_codes (ds ++ rest) p s
      ≡ parse_codes rest (record p { n2 = decimal_value p.n2 ds; have_n2 = seen p.have_n2 ds }) s
unfolding add_digit
second_number [] rest p s d e h = refl
second_number (c ∷ ds) rest p s d e h =
    digit_step c (ds ++ rest) p s d.0.0 (omega (arith, d.0.1))
    ∙ ap (λ (q : Codes). parse_codes (ds ++ rest) q s) added
    ∙ second_number ds rest (record p { n2 = p.n2 * 10 + (c - 48); have_n2 = true }) s d.1 e h
    ∙ ap
        (λ (b : Bool).
          parse_codes rest (record p { n2 = decimal_value (p.n2 * 10 + (c - 48)) ds; have_n2 = b })
            s)
        (still_seen ds)
  where
    small : (p.n2 * 10 + (c - 48)) % 2 ^ 32 ≡ p.n2 * 10 + (c - 48)
    small = omega (arith, value-ge ds (p.n2 * 10 + (c - 48)))

    added : add_digit c p ≡ record p { n2 = p.n2 * 10 + (c - 48); have_n2 = true }
    added = rw (e, small) refl

-- The sequence "ESC [ row ; column H" with two decimal numbers of 32 bits is complete, and puts the place at that row and
-- column, counted from 1.
pub parse_ansi_position :
    (c d : ℕ) (row column : List ℕ) (s : Screen)
    → Decimal (c ∷ row)
    → Decimal (d ∷ column)
    → decimal_value 0 (c ∷ row) < 2 ^ 32
    → decimal_value 0 (d ∷ column) < 2 ^ 32
    → parse_ansi (27 ∷ b'[' ∷ ((c ∷ row) ++ (b';' ∷ ((d ∷ column) ++ (b'H' ∷ []))))) s ≡ (
      success,
      move_cursor (record s {
        x = decrement (decimal_value 0 (d ∷ column));
        y = decrement (decimal_value 0 (c ∷ row));
      }),
    )
unfolding parse_ansi parse_codes position
parse_ansi_position c d row column s dr dc hr hc =
    first_number (c ∷ row) (b';' ∷ ((d ∷ column) ++ (b'H' ∷ []))) no_codes s dr refl hr
    ∙ second_number (d ∷ column) (b'H' ∷ [])
        (record no_codes { n1 = decimal_value 0 (c ∷ row); have_n1 = true; have_delemiter = true })
        s dc refl hc
