-- ===== src/Clib/Format/Numbers.antt =====
-- The characters that lib/common/string/vsprintf.c writes stand for the number.
use fruity_orange.Base.{
  ℕ, zero, suc, ◌+◌, ◌-◌, ◌*◌, ◌/◌, ◌%◌, ◌^◌, ◌≤◌, ◌<◌, ◌≡◌, ◌≢◌, refl, Bool, true, false, some, [],
  ◌∷◌, ◌==◌, ltb, leb, if◌then◌else◌, arith, ap, ◌∙◌, Bool-cases, inl, inr, ◌⊎◌,
}
use native.Mathlib.Nat.{pow-suc, mod-lt, div-add-mod'}
use fruity_orange.Clib.Str.{CString, atoi}
use fruity_orange.Clib.Str.Compare.{Decimal, decimal_value, atoi_lem}
use fruity_orange.Clib.Format.Lengths.{text, text_lem, general_uintformat-text}
use fruity_orange.Clib.Format.{
  word_bits, magnitude, digit_char, digit_loop, pad, general_uintformat, int_dec_str, minus_sign,
}

-- The digit that a character stands for, and the number that characters stand for.
abbrev pub char_digit : ℕ → ℕ
char_digit c = if leb c 57 then c - 48 else c - 55

abbrev pub read : ℕ → ℕ → CString → ℕ
read base acc [] = acc
read base acc (c ∷ s) = read base (acc * base + char_digit c) s

char_digit-digit_char : (n : ℕ) → n < 16 → char_digit (digit_char n) ≡ n
unfolding digit_char
char_digit-digit_char n h = ground arith

pub div_smaller : (b v k : ℕ) → 2 ≤ b → v < 2 ^ suc k → v / b < 2 ^ k
div_smaller b v k h l = grind (arith, pow-suc 2 k)

-- The last digit, put back behind the others.
last_digit : (b v : ℕ) → 2 ≤ b → b ≤ 16 → v / b * b + char_digit (digit_char (v % b)) ≡ v
last_digit b v lo hi = omega (
  arith,
  char_digit-digit_char (v % b) (omega (arith, mod-lt v {m = b} (omega arith))),
  div-add-mod' v b,
)

pub digit_loop_end :
    (k b v i : ℕ) (tmp : CString)
    → v / b ≡ 0
    → digit_loop (suc k) b v tmp i ≡ (digit_char (v % b) ∷ tmp, i + 1)
unfolding digit_loop
digit_loop_end k b v i tmp e = ground arith

pub digit_loop_next :
    (k b v i : ℕ) (tmp : CString)
    → v / b ≢ 0
    → digit_loop (suc k) b v tmp i ≡ digit_loop k b (v / b) (digit_char (v % b) ∷ tmp) (i + 1)
unfolding digit_loop
digit_loop_next k b v i tmp e = ground arith

read-digit_loop_end :
    (k b v i : ℕ) (tmp : CString)
    → 2 ≤ b
    → b ≤ 16
    → v / b ≡ 0
    → read b 0 (digit_loop (suc k) b v tmp i).0 ≡ read b v tmp
read-digit_loop_end k b v i tmp lo hi z =
    let last : 0 * b + char_digit (digit_char (v % b)) ≡ v =
      omega (arith, last_digit b v lo hi, ap (λ (t : ℕ). t * b) z) in
    rw (digit_loop_end k b v i tmp z) (ap (λ (t : ℕ). read b t tmp) last)

-- Reading what the loop puts in front of `tmp` reads the value first, then `tmp`.
read-digit_loop :
    (k b v i : ℕ) (tmp : CString)
    → 2 ≤ b
    → b ≤ 16
    → v < 2 ^ suc k
    → read b 0 (digit_loop (suc k) b v tmp i).0 ≡ read b v tmp
read-digit_loop zero b v i tmp lo hi h =
    read-digit_loop_end zero b v i tmp lo hi (omega (arith, div_smaller b v 0 lo h))
read-digit_loop (suc k) b v i tmp lo hi h = elim (Bool-cases (v / b == 0)) [
  | inl done ↦ read-digit_loop_end (suc k) b v i tmp lo hi (ground arith)
  | inr more ↦
      let nz : v / b ≢ 0 = ground arith in
      rw (digit_loop_next (suc k) b v i tmp nz) (
        read-digit_loop k b (v / b) (i + 1) (digit_char (v % b) ∷ tmp) lo hi
          (div_smaller b v (suc k) lo h)
        ∙ ap (λ (t : ℕ). read b t tmp) (last_digit b v lo hi))
]

read-pad : (b n : ℕ) (tmp : CString) → read b 0 (pad n tmp) ≡ read b 0 tmp
unfolding pad
read-pad b zero tmp = refl
read-pad b (suc n) tmp =
    let z : 0 * b + 0 ≡ 0 = omega arith in read-pad b n (48 ∷ tmp) ∙ ap (λ (t : ℕ). read b t tmp) z

pub read-text : (v b w : ℕ) → 2 ≤ b → b ≤ 16 → v < 2 ^ 32 → read b 0 (text v b w) ≡ v
read-text v b w lo hi h =
    ap (read b 0) (text_lem v b w)
    ∙ read-pad b _ (digit_loop word_bits b v [] 0).0
    ∙ read-digit_loop 31 b v 0 [] lo hi h

-- Read back in its base, the text that is written for a word in a base from 2 to 16 is the word,
-- whatever the width asked for, up to 64.
pub read-general_uintformat :
    (v b w : ℕ)
    → 2 ≤ b
    → b ≤ 16
    → v < 2 ^ 32
    → w ≤ 64
    → (s : CString) × (general_uintformat v b w ≡ some s) × (read b 0 s ≡ v)
read-general_uintformat v b w lo hi h fits =
    (text v b w, general_uintformat-text v b w hi fits, read-text v b w lo hi h)

-- In base 10 all characters are decimal digits.
Decimal-digit_loop : (k v i : ℕ) (tmp : CString) → Decimal tmp → Decimal (digit_loop k 10 v tmp i).0
unfolding digit_loop digit_char
Decimal-digit_loop zero v i tmp d = d
Decimal-digit_loop (suc k) v i tmp d = elim (Bool-cases (v / 10 == 0)) [
  | inl done ↦ rw done (here, d)
  | inr more ↦ rw more (Decimal-digit_loop k (v / 10) (i + 1) (digit_char (v % 10) ∷ tmp) (here, d))
]
  where
    here : (48 ≤ digit_char (v % 10)) × (digit_char (v % 10) ≤ 57)
    here = ground arith

Decimal-pad : (n : ℕ) (tmp : CString) → Decimal tmp → Decimal (pad n tmp)
unfolding pad
Decimal-pad zero tmp d = d
Decimal-pad (suc n) tmp d = Decimal-pad n (48 ∷ tmp) ((omega arith, omega arith), d)

decimal_value-read : (s : CString) (acc : ℕ) → Decimal s → decimal_value acc s ≡ read 10 acc s
decimal_value-read [] acc d = refl
decimal_value-read (c ∷ s) acc d =
    let e : char_digit c ≡ c - 48 = ground arith in
    rw e (decimal_value-read s (acc * 10 + (c - 48)) d.1)

Decimal-text : (v w : ℕ) → Decimal (text v 10 w)
Decimal-text v w =
    rw (text_lem v 10 w)
      (Decimal-pad _ (digit_loop word_bits 10 v [] 0).0 (Decimal-digit_loop word_bits v 0 [] tt))

text_value : (v w : ℕ) → v < 2 ^ 32 → decimal_value 0 (text v 10 w) ≡ v
text_value v w h =
    decimal_value-read (text v 10 w) 0 (Decimal-text v w)
    ∙ read-text v 10 w (omega arith) (omega arith) h

int_dec_str_digits :
    (v w : ℕ) (signd : Bool)
    → (signd ≡ false) ⊎ (v < 2 ^ 31)
    → int_dec_str v w signd ≡ general_uintformat v 10 w
unfolding int_dec_str
int_dec_str_digits v w signd h = ground arith

int_dec_str_minus :
    (v w : ℕ)
    → 2 ^ 31 ≤ v
    → v < 2 ^ 32
    → int_dec_str v w true ≡ minus_sign (general_uintformat ((2 ^ 32 - v) % 2 ^ 32) 10 w)
unfolding int_dec_str
int_dec_str_minus v w l h = ground arith

pub int_dec_str-text : (v w : ℕ) → w ≤ 64 → int_dec_str v w false ≡ some (text v 10 w)
int_dec_str-text v w fits =
    int_dec_str_digits v w false (inl refl) ∙ general_uintformat-text v 10 w (omega arith) fits

-- `atoi` reads back the digits of a number.
pub atoi-text : (v w : ℕ) → v < 2 ^ 32 → atoi (text v 10 w) ≡ v
atoi-text v w h =
    atoi_lem (text v 10 w) (Decimal-text v w) (omega (arith, text_value v w h)) ∙ text_value v w h

-- Printed as signed, a word with the top bit set is a minus sign and the digits of its distance
-- to 2 ^ 32; every other word is its digits.
pub int_dec_str_signed :
    (v w : ℕ)
    → v < 2 ^ 32
    → w ≤ 64
    → (s : CString) × (int_dec_str v w true ≡ some (if ltb v (2 ^ 31) then s else 45 ∷ s))
      × (read 10 0 s ≡ magnitude v)
int_dec_str_signed v w h fits = elim (Bool-cases (ltb v (2 ^ 31))) [
  | inl small ↦ (
    text v 10 w,
    rw small (
        int_dec_str_digits v w true (inr (ground arith))
        ∙ general_uintformat-text v 10 w (omega arith) fits),
    rw small (read-text v 10 w (omega arith) (omega arith) h),
  )
  | inr big ↦
      let u : (2 ^ 32 - v) % 2 ^ 32 ≡ 2 ^ 32 - v = ground arith in
      (
        text ((2 ^ 32 - v) % 2 ^ 32) 10 w,
        rw big (
            int_dec_str_minus v w (ground arith) h
            ∙ ap minus_sign
                (general_uintformat-text ((2 ^ 32 - v) % 2 ^ 32) 10 w (omega arith) fits)),
        rw big
            (read-text ((2 ^ 32 - v) % 2 ^ 32) 10 w (omega arith) (omega arith) (omega arith) ∙ u),
      )
]
