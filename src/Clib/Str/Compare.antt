-- ===== src/Clib/Str/Compare.antt =====
-- Comparing and searching strings, and `atoi`.
use fruity_orange.Base.{
  length, ℕ, ◌+◌, ◌-◌, ◌*◌, ◌%◌, ◌^◌, ◌≤◌, ◌<◌, ◌≡◌, ◌≢◌, ◌↔◌, refl, true, none, some, [], ◌∷◌,
  ◌++◌, ◌==◌, arith, ap, ap₂, All, Bool-cases, inl, inr,
}
use fruity_orange.Clib.Str.{strlen, strlen_from, CString, strcmp, strchr, atoi, atoi_from}

strcmp_refl : (s : CString) → strcmp s s ≡ true
unfolding strcmp
strcmp_refl [] = refl
strcmp_refl (c ∷ s) = ground (arith, strcmp_refl s)

eq_of_strcmp : (s t : CString) → strcmp s t ≡ true → s ≡ t
unfolding strcmp
eq_of_strcmp [] [] h = refl
eq_of_strcmp [] (d ∷ t) h = absurd (ground arith)
eq_of_strcmp (c ∷ s) [] h = absurd (ground arith)
eq_of_strcmp (c ∷ s) (d ∷ t) h =
    let e : c ≡ d = ground arith in ap₂ ◌∷◌ e (eq_of_strcmp s t (ground arith))

-- `strcmp` is TRUE exactly on equal strings: it does not order them as the C library's does.
pub strcmp_iff : (s t : CString) → (strcmp s t ≡ true) ↔ (s ≡ t)
strcmp_iff s t = (eq_of_strcmp s t, λ e. rw e (strcmp_refl t))

-- `strchr` splits the string at the first `c`: the bytes before it differ from `c`.
pub strchr-some :
    (s : CString) (c : ℕ) (r : CString)
    → strchr s c ≡ some r
    → (front back : CString) × (s ≡ front ++ r) × (r ≡ c ∷ back) × All (λ a. a ≢ c) front
unfolding strchr
strchr-some [] c r e = absurd (ground arith)
strchr-some (a ∷ s) c r e = elim (Bool-cases (a == c)) [
  | inl found ↦ ([], s, ground arith, ground arith, tt)
  | inr on ↦
      let (front, back, e1, e2, e3) = strchr-some s c r (ground arith) in
      (a ∷ front, back, ap (λ t. a ∷ t) e1, e2, (ground arith, e3))
]

-- `strchr` is NULL only if `c` is not in the string.
pub strchr-none : (s : CString) (c : ℕ) → strchr s c ≡ none → All (λ a. a ≢ c) s
unfolding strchr
strchr-none [] c e = tt
strchr-none (a ∷ s) c e = (ground arith, strchr-none s c (ground arith))

-- A string of decimal digits.
abbrev pub Decimal : CString → Type 0
Decimal = All (λ c. (48 ≤ c) × (c ≤ 57))

-- The number that decimal digits stand for, read after `acc`.
abbrev pub decimal_value : ℕ → CString → ℕ
decimal_value acc [] = acc
decimal_value acc (c ∷ s) = decimal_value (acc * 10 + (c - 48)) s

decimal_value-ge : (s : CString) (acc : ℕ) → acc ≤ decimal_value acc s
decimal_value-ge [] acc = omega arith
decimal_value-ge (c ∷ s) acc = omega (arith, decimal_value-ge s (acc * 10 + (c - 48)))

atoi_from-decimal_value :
    (s : CString) (acc : ℕ)
    → Decimal s
    → decimal_value acc s < 2 ^ 32
    → atoi_from acc s ≡ decimal_value acc s
unfolding atoi_from
atoi_from-decimal_value [] acc d h = refl
atoi_from-decimal_value (c ∷ s) acc d h = ground (
  arith,
  ap (λ (t : ℕ). atoi_from t s) step,
  atoi_from-decimal_value s (acc * 10 + (c - 48)) d.1 h,
)
  where
    step : (acc * 10 + c + 2 ^ 32 - 48) % 2 ^ 32 ≡ acc * 10 + (c - 48)
    step = omega (arith, decimal_value-ge s (acc * 10 + (c - 48)))

-- `atoi` reads a string of decimal digits as its value, if that fits in 32 bits.
pub atoi_lem : (s : CString) → Decimal s → decimal_value 0 s < 2 ^ 32 → atoi s ≡ decimal_value 0 s
unfolding atoi
atoi_lem s d h = atoi_from-decimal_value s 0 d h

strlen_from_lem : (i : ℕ) (s : CString) → i + length s < 2 ^ 32 → strlen_from i s ≡ i + length s
unfolding strlen_from
strlen_from_lem i [] h = omega arith
strlen_from_lem i (c ∷ s) h =
    let next : (i + 1) % 2 ^ 32 ≡ i + 1 = omega arith in
    rw next (omega (arith, strlen_from_lem (i + 1) s (omega arith)))

-- `strlen` counts the bytes of a string that is not longer than a word can tell.
strlen-length : (s : CString) → length s < 2 ^ 32 → strlen s ≡ length s
unfolding strlen
strlen-length s h = omega (arith, strlen_from_lem 0 s (omega arith))
