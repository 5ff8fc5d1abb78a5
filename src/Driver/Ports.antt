-- ===== src/Driver/Ports.antt =====
-- What kernel/driver/console/console.c and kernel/driver/pit/pit.c write to their ports, as lists of
-- port and byte, and the colors of the console.
use fruity_orange.Base.{ℕ, ◌+◌, ◌*◌, ◌/◌, ◌%◌, ◌^◌, ◌≡◌, refl, List, [], ◌∷◌, bit_and, bit_or}

abbrev pub videotext_width : ℕ
videotext_width = 80

-- `outb` takes a byte, `tmp` has 16 bits; `cx` and `cy` stand as their 32 bits.
pub set_cursor : ℕ → ℕ → List (ℕ × ℕ)
set_cursor cx cy =
    let tmp = (cy * videotext_width + cx) % 2 ^ 16 in
    (0x3d4, 14) ∷ (0x3d5, tmp / 256) ∷ (0x3d4, 15) ∷ (0x3d5, tmp % 256) ∷ []

-- The static variable `color` has 8 bits.
abbrev pub set_color : ℕ → ℕ
set_color ncolor = ncolor % 256

abbrev pub set_foreground_color : ℕ → ℕ → ℕ
set_foreground_color fcolor color = bit_or (bit_and color 0xf0) fcolor % 256

abbrev pub set_background_color : ℕ → ℕ → ℕ
set_background_color bcolor color = bit_or (bit_and color 0x0f) (bcolor * 16) % 256

-- `init_pit`: the rate that is asked for, as the count that the timer takes for it.
pub init_pit : ℕ → List (ℕ × ℕ)
init_pit freq =
    let count = 1193182 / freq in
    (0x43, 0x34) ∷ (0x40, count % 256) ∷ (0x40, count / 256 % 256) ∷ []

-- The rate of the scheduler is a count of two bytes.
timer_runs : init_pit 50 ≡ (0x43, 0x34) ∷ (0x40, 0x37) ∷ (0x40, 0x5d) ∷ []
unfolding init_pit
timer_runs = refl
