-- ===== src/Driver/Keyboard/Translate.antt =====
-- The tables of kernel/driver/kbc/translate.c: from scan codes to key codes, and from these to
-- characters. A read outside of a table is `none`.
use fruity_orange.Base.{ℕ, Option, none, some, List, [], ◌∷◌, get_elem?}

abbrev pub std_scancode_keycode : List ℕ
std_scancode_keycode =
    0 ∷ 1 ∷ 15 ∷ 16 ∷ 17 ∷ 18 ∷ 19 ∷ 20 ∷ 21 ∷ 22 ∷ 23 ∷ 24 ∷ 25 ∷ 26 ∷ 65 ∷ 27 ∷ 28 ∷ 29 ∷ 30 ∷ 31
    ∷ 32 ∷ 33 ∷ 34 ∷ 35 ∷ 36 ∷ 37 ∷ 38 ∷ 39 ∷ 66 ∷ 68 ∷ 41 ∷ 42 ∷ 43 ∷ 44 ∷ 45 ∷ 46 ∷ 47 ∷ 48 ∷ 49
    ∷ 50 ∷ 51 ∷ 14 ∷ 53 ∷ 52 ∷ 55 ∷ 56 ∷ 57 ∷ 58 ∷ 59 ∷ 60 ∷ 61 ∷ 62 ∷ 63 ∷ 64 ∷ 67 ∷ 76 ∷ 56 ∷ 71
    ∷ 40 ∷ 2 ∷ 3 ∷ 4 ∷ 5 ∷ 6 ∷ 7 ∷ 8 ∷ 9 ∷ 10 ∷ 11 ∷ 0 ∷ 0 ∷ 0 ∷ 76 ∷ 0 ∷ 0 ∷ 77 ∷ 0 ∷ 79 ∷ 0 ∷ 0
    ∷ 78 ∷ 0 ∷ 0 ∷ 0 ∷ 0 ∷ 0 ∷ 0 ∷ 12 ∷ 13 ∷ []

abbrev pub de_normal : List ℕ
de_normal =
    0 ∷ 69 ∷ 70 ∷ 70 ∷ 70 ∷ 70 ∷ 70 ∷ 70 ∷ 70 ∷ 70 ∷ 70 ∷ 70 ∷ 70 ∷ 70 ∷ 94 ∷ 49 ∷ 50 ∷ 51 ∷ 52 ∷ 53
    ∷ 54 ∷ 55 ∷ 56 ∷ 57 ∷ 48 ∷ 225 ∷ 96 ∷ 9 ∷ 113 ∷ 119 ∷ 101 ∷ 114 ∷ 116 ∷ 122 ∷ 117 ∷ 105 ∷ 111
    ∷ 112 ∷ 0 ∷ 43 ∷ 0 ∷ 97 ∷ 115 ∷ 100 ∷ 102 ∷ 103 ∷ 104 ∷ 106 ∷ 107 ∷ 108 ∷ 148 ∷ 132 ∷ 35 ∷ 0
    ∷ 60 ∷ 121 ∷ 120 ∷ 99 ∷ 118 ∷ 98 ∷ 110 ∷ 109 ∷ 44 ∷ 46 ∷ 45 ∷ 13 ∷ 10 ∷ 0 ∷ 0 ∷ 0 ∷ 0 ∷ 32 ∷ 0
    ∷ 0 ∷ 0 ∷ 0 ∷ []

abbrev pub de_shift : List ℕ
de_shift =
    0 ∷ 69 ∷ 70 ∷ 70 ∷ 70 ∷ 70 ∷ 70 ∷ 70 ∷ 70 ∷ 70 ∷ 70 ∷ 70 ∷ 70 ∷ 70 ∷ 0 ∷ 33 ∷ 34 ∷ 245 ∷ 36 ∷ 37
    ∷ 38 ∷ 47 ∷ 40 ∷ 41 ∷ 61 ∷ 63 ∷ 96 ∷ 9 ∷ 81 ∷ 87 ∷ 69 ∷ 82 ∷ 84 ∷ 90 ∷ 85 ∷ 73 ∷ 79 ∷ 80 ∷ 154
    ∷ 42 ∷ 0 ∷ 65 ∷ 83 ∷ 68 ∷ 70 ∷ 71 ∷ 72 ∷ 74 ∷ 75 ∷ 76 ∷ 153 ∷ 142 ∷ 39 ∷ 0 ∷ 62 ∷ 89 ∷ 88 ∷ 67
    ∷ 86 ∷ 66 ∷ 78 ∷ 77 ∷ 59 ∷ 58 ∷ 95 ∷ 0 ∷ 10 ∷ 0 ∷ 0 ∷ 0 ∷ 0 ∷ 32 ∷ 0 ∷ 0 ∷ 0 ∷ 0 ∷ []

abbrev pub de_alt_gr : List ℕ
de_alt_gr =
    0 ∷ 69 ∷ 70 ∷ 70 ∷ 70 ∷ 70 ∷ 70 ∷ 70 ∷ 70 ∷ 70 ∷ 70 ∷ 70 ∷ 70 ∷ 70 ∷ 0 ∷ 0 ∷ 0 ∷ 0 ∷ 0 ∷ 0 ∷ 0
    ∷ 123 ∷ 91 ∷ 93 ∷ 125 ∷ 92 ∷ 0 ∷ 9 ∷ 64 ∷ 119 ∷ 101 ∷ 114 ∷ 116 ∷ 122 ∷ 117 ∷ 105 ∷ 111 ∷ 112
    ∷ 0 ∷ 126 ∷ 0 ∷ 97 ∷ 115 ∷ 100 ∷ 102 ∷ 103 ∷ 104 ∷ 106 ∷ 107 ∷ 108 ∷ 0 ∷ 94 ∷ 0 ∷ 0 ∷ 124 ∷ 175
    ∷ 174 ∷ 99 ∷ 118 ∷ 98 ∷ 110 ∷ 109 ∷ 44 ∷ 46 ∷ 45 ∷ 0 ∷ 10 ∷ 0 ∷ 0 ∷ 0 ∷ 0 ∷ 32 ∷ 0 ∷ 0 ∷ 0 ∷ 0
    ∷ []

abbrev pub us_normal : List ℕ
us_normal =
    0 ∷ 69 ∷ 70 ∷ 70 ∷ 70 ∷ 70 ∷ 70 ∷ 70 ∷ 70 ∷ 70 ∷ 70 ∷ 70 ∷ 70 ∷ 70 ∷ 126 ∷ 49 ∷ 50 ∷ 51 ∷ 52
    ∷ 53 ∷ 54 ∷ 55 ∷ 56 ∷ 57 ∷ 48 ∷ 45 ∷ 61 ∷ 9 ∷ 113 ∷ 119 ∷ 101 ∷ 114 ∷ 116 ∷ 121 ∷ 117 ∷ 105
    ∷ 111 ∷ 112 ∷ 91 ∷ 93 ∷ 0 ∷ 97 ∷ 115 ∷ 100 ∷ 102 ∷ 103 ∷ 104 ∷ 106 ∷ 107 ∷ 108 ∷ 59 ∷ 39 ∷ 92
    ∷ 0 ∷ 92 ∷ 122 ∷ 120 ∷ 99 ∷ 118 ∷ 98 ∷ 110 ∷ 109 ∷ 44 ∷ 46 ∷ 47 ∷ 0 ∷ 10 ∷ 0 ∷ 0 ∷ 0 ∷ 0 ∷ 32
    ∷ 0 ∷ 0 ∷ 0 ∷ 0 ∷ []

abbrev pub us_shift : List ℕ
us_shift =
    0 ∷ 69 ∷ 70 ∷ 70 ∷ 70 ∷ 70 ∷ 70 ∷ 70 ∷ 70 ∷ 70 ∷ 70 ∷ 70 ∷ 70 ∷ 70 ∷ 96 ∷ 33 ∷ 64 ∷ 35 ∷ 36 ∷ 37
    ∷ 94 ∷ 38 ∷ 42 ∷ 40 ∷ 41 ∷ 95 ∷ 43 ∷ 9 ∷ 81 ∷ 87 ∷ 69 ∷ 82 ∷ 84 ∷ 89 ∷ 85 ∷ 73 ∷ 79 ∷ 80 ∷ 123
    ∷ 125 ∷ 0 ∷ 65 ∷ 83 ∷ 68 ∷ 70 ∷ 71 ∷ 72 ∷ 74 ∷ 75 ∷ 76 ∷ 58 ∷ 34 ∷ 124 ∷ 0 ∷ 124 ∷ 90 ∷ 88 ∷ 67
    ∷ 86 ∷ 66 ∷ 78 ∷ 77 ∷ 60 ∷ 62 ∷ 63 ∷ 0 ∷ 10 ∷ 0 ∷ 0 ∷ 0 ∷ 0 ∷ 32 ∷ 0 ∷ 0 ∷ 0 ∷ 0 ∷ []

abbrev pub us_alt_gr : List ℕ
us_alt_gr =
    0 ∷ 69 ∷ 70 ∷ 70 ∷ 70 ∷ 70 ∷ 70 ∷ 70 ∷ 70 ∷ 70 ∷ 70 ∷ 70 ∷ 70 ∷ 70 ∷ 0 ∷ 0 ∷ 0 ∷ 0 ∷ 0 ∷ 0 ∷ 0
    ∷ 123 ∷ 91 ∷ 93 ∷ 125 ∷ 92 ∷ 0 ∷ 9 ∷ 113 ∷ 119 ∷ 101 ∷ 114 ∷ 116 ∷ 121 ∷ 117 ∷ 105 ∷ 111 ∷ 112
    ∷ 0 ∷ 126 ∷ 0 ∷ 97 ∷ 115 ∷ 100 ∷ 102 ∷ 103 ∷ 104 ∷ 106 ∷ 107 ∷ 108 ∷ 0 ∷ 94 ∷ 0 ∷ 0 ∷ 124 ∷ 175
    ∷ 174 ∷ 99 ∷ 118 ∷ 98 ∷ 110 ∷ 109 ∷ 44 ∷ 46 ∷ 45 ∷ 0 ∷ 10 ∷ 0 ∷ 0 ∷ 0 ∷ 0 ∷ 32 ∷ 0 ∷ 0 ∷ 0 ∷ 0
    ∷ []

-- For each assignment the rows for no modifier, for Shift and for Alt Gr.
abbrev pub keycode_ascii : List (List (List ℕ))
keycode_ascii =
    (de_normal ∷ de_shift ∷ de_alt_gr ∷ []) ∷ (us_normal ∷ us_shift ∷ us_alt_gr ∷ []) ∷ []

-- SNC_TYPE_STD, SNC_TYPE_E0 and SNC_TYPE_E1
pub data ScanType : Type 0 where
  snc_std snc_e0 snc_e1 : ScanType

unfoldable pub translate_scancode : ScanType → ℕ → Option ℕ
translate_scancode ScanType.snc_std scancode = get_elem? std_scancode_keycode scancode
translate_scancode _ scancode = some 0

abbrev select {ℓ} : {A : Type ℓ} → Option (List A) → ℕ → Option A
select none i = none
select (some xs) i = get_elem? xs i

-- `keycode_ascii[kbd_assignment_id][modus][keycode]`
unfoldable pub translate_keycode : ℕ → ℕ → ℕ → Option ℕ
translate_keycode assignment modus keycode =
    select (select (get_elem? keycode_ascii assignment) modus) keycode
