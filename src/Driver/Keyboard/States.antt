-- ===== src/Driver/Keyboard/States.antt =====
-- The states that the interrupt handler of kernel/driver/kbc/keyboard.c can come to, and the reads
-- of the tables of kernel/driver/kbc/translate.c.
use fruity_orange.Base.{
  ℕ, zero, suc, ◌*◌, ◌%◌, ◌^◌, ◌<◌, ◌≤◌, ◌≡◌, ◌≢◌, refl, sym, ◌∙◌, ap, Bool, true, false, ◌==◌,
  ◌||◌, ◌&&◌, not, ltb, Option, none, some, List, [], ◌∷◌, get_elem?, length, inl, inr, arith,
  Bool-cases, Option-cases, bit_and, bit_or, and_not, bit_test, digit,
}
use mathlib.Core.Path.{subst}
use fruity_orange.Driver.Keyboard.{
  Keyboard, send_key_event, with_key, is_break, make_code, keyboard_irq_handler, handle_all,
  and_then,
}
use fruity_orange.Driver.Keyboard.Translate.{
  ScanType, translate_scancode, translate_keycode, std_scancode_keycode, de_normal, de_shift,
  de_alt_gr, us_normal, us_shift, us_alt_gr,
}

abbrev all_below : ℕ → List ℕ → Bool
all_below n [] = true
all_below n (x ∷ xs) = ltb x n && all_below n xs

below-get_elem? :
    (n : ℕ) (xs : List ℕ) (i v : ℕ) → all_below n xs ≡ true → get_elem? xs i ≡ some v → v < n
below-get_elem? n [] i v a e = absurd (ground (arith, e))
below-get_elem? n (x ∷ xs) zero v a e =
    let b : ltb x n ≡ true = ground (arith, a) in ground (arith, b, e)
below-get_elem? n (x ∷ xs) (suc i) v a e = below-get_elem? n xs i v (ground (arith, a)) e

translate-below : (t : ScanType) (scancode v : ℕ) → translate_scancode t scancode ≡ some v → v < 80
unfolding translate_scancode
translate-below ScanType.snc_std scancode v e =
    below-get_elem? 80 std_scancode_keycode scancode v refl e
translate-below ScanType.snc_e0 scancode v e = ground (arith, e)
translate-below ScanType.snc_e1 scancode v e = ground (arith, e)

-- The states that are reached: an E0 code is never remembered, and Alt Gr is never on.
pub record IsKeyboard (k : Keyboard) : Type 0 where
  pub e0 : k.e0_code ≡ 0
  pub e1 : k.e1_code ≤ 2
  pub modus : k.modus ≤ 1
  pub buffer : k.buffer < 80

send_key_event-IsKeyboard :
    (key : ℕ) (breaked : Bool) (k : Keyboard)
    → key < 80
    → IsKeyboard k
    → IsKeyboard (send_key_event key breaked k).0
unfolding send_key_event
send_key_event-IsKeyboard key true k small h = record {
  e0 = ground (arith, h.e0);
  e1 = ground (arith, h.e1);
  modus = ground (arith, h.modus);
  buffer = ground (arith, h.buffer);
}
send_key_event-IsKeyboard key false k small h = record {
  e0 = ground (arith, h.e0);
  e1 = ground (arith, h.e1);
  modus = ground (arith, h.modus);
  buffer = ground (arith, h.buffer);
}

-- After a step the keyboard is in a state again, unless the step has read outside of a table.
abbrev Stepped : Option (Keyboard × Option ℕ) → Type 0
Stepped none = Unit
Stepped (some (k, key)) = IsKeyboard k

with_key-Stepped :
    (breaked : Bool) (k : Keyboard) (t : ScanType) (scancode : ℕ)
    → IsKeyboard k
    → Stepped (with_key breaked k (translate_scancode t scancode))
with_key-Stepped breaked k t scancode h = elim (Option-cases (translate_scancode t scancode)) [
  | inl e ↦ rw e tt
  | inr e ↦ rw e.1 (send_key_event-IsKeyboard e.0 breaked k (translate-below t scancode e.0 e.1) h)
]

with_e1 :
    (e1 prev : ℕ) (k : Keyboard)
    → e1 ≤ 2
    → IsKeyboard k
    → IsKeyboard (record k { e1_prev = prev; e1_code = e1 })
with_e1 e1 prev k le h = record { e0 = h.e0; e1 = le; modus = h.modus; buffer = h.buffer }

make_code-Stepped : (scancode : ℕ) (k : Keyboard) → IsKeyboard k → Stepped (make_code scancode k)
unfolding make_code
make_code-Stepped scancode k h =
    let no_e0 : (k.e0_code == 0) ≡ true = ground (arith, h.e0) in
    rw no_e0 (elim (Bool-cases (k.e1_code == 2)) [
      | inl a ↦ rw a (
          with_key-Stepped false
            (record k { e1_prev = bit_or k.e1_prev (scancode * 256 % 2 ^ 16); e1_code = 0 })
            ScanType.snc_e1 (bit_or k.e1_prev (scancode * 256 % 2 ^ 16))
            (with_e1 0 (bit_or k.e1_prev (scancode * 256 % 2 ^ 16)) k (omega arith) h))
      | inr a ↦ rw a (elim (Bool-cases (k.e1_code == 1)) [
        | inl b ↦ rw b (
            send_key_event-IsKeyboard 0 false (record k { e1_prev = scancode; e1_code = 2 })
              (omega arith) (with_e1 2 scancode k (omega arith) h))
        | inr b ↦ rw b (elim (Bool-cases (scancode == 0xe0)) [
          | inl c ↦ rw c (
              send_key_event-IsKeyboard 0 false (record k { e0_code = 0 }) (omega arith)
                (record { e0 = refl; e1 = h.e1; modus = h.modus; buffer = h.buffer }))
          | inr c ↦ rw c (elim (Bool-cases (scancode == 0xe1)) [
            | inl d ↦ rw d (
                send_key_event-IsKeyboard 0 false (record k { e1_code = 1 }) (omega arith)
                  (with_e1 1 k.e1_prev k (omega arith) h))
            | inr d ↦ rw d (with_key-Stepped false k ScanType.snc_std scancode h)
          ])
        ])
      ])
    ])

handler-Stepped :
    (scancode : ℕ) (k : Keyboard) → IsKeyboard k → Stepped (keyboard_irq_handler scancode k)
unfolding keyboard_irq_handler
handler-Stepped scancode k h = elim (Bool-cases (is_break scancode k)) [
  | inl e ↦ rw e (with_key-Stepped true k ScanType.snc_std (and_not scancode 0x80) h)
  | inr e ↦ rw e (make_code-Stepped scancode k h)
]

abbrev or_self {ℓ} : {A : Type ℓ} → A → Option A → A
or_self a none = a
or_self a (some b) = b

same {ℓ} : {A : Type ℓ} (a b : A) → some a ≡ some b → a ≡ b
same a b p = ap (λ o. or_self a o) p

-- Whatever scan codes arrive, the handler never remembers an E0 code, has at most two bytes of an
-- E1 code behind it, is in the normal or in the shifted mode, and has a key code below 80 in its
-- buffer, as long as it does not read outside of its table.
pub handle_all-IsKeyboard :
    (codes : List ℕ) (k k' : Keyboard) → IsKeyboard k → handle_all codes k ≡ some k' → IsKeyboard k'
unfolding handle_all
handle_all-IsKeyboard [] k k' h e = subst IsKeyboard (same k k' e) h
handle_all-IsKeyboard (c ∷ codes) k k' h e = elim (Option-cases (keyboard_irq_handler c k)) [
  | inl n ↦
      let bad : none ≡ some k' =
        ap (λ (o : Option (Keyboard × Option ℕ)). and_then o (handle_all codes)) (sym n) ∙ e in
      absurd (ground (arith, bad))
  | inr s ↦
      handle_all-IsKeyboard codes s.0.0 k' (subst Stepped s.1 (handler-Stepped c k h))
        (ap (λ (o : Option (Keyboard × Option ℕ)). and_then o (handle_all codes)) (sym s.1) ∙ e)
]

release_keeps : (key : ℕ) (k : Keyboard) → (send_key_event key true k).0.e1_code ≡ k.e1_code
unfolding send_key_event
release_keeps key k = ground arith

break_code :
    (scancode : ℕ) (k : Keyboard)
    → k.e1_code ≡ 1
    → 0x80 ≤ scancode
    → scancode < 256
    → scancode ≢ 0xe0
    → is_break scancode k ≡ true
break_code scancode k one high byte not_e0 =
    let top : digit scancode 7 ≡ 1 = omega arith in
    let a : (bit_and scancode 0x80 == 0) ≡ false = ground (arith, bit_test scancode 7, top) in
    let b : (k.e1_code == 0) ≡ false = ground (arith, one) in
    let c : (scancode == 0xe0) ≡ false = ground (arith, not_e0) in
    rw a (rw b (rw c (or_true (not (k.e0_code == 0)))))
  where
    or_true : (x : Bool) → (x || true) ≡ true
    or_true true = refl
    or_true false = refl

-- After the first byte of an E1 code, codes of releases (0x80 to 0xff, but for 0xe0) do not count as its
-- second byte: where the handler returns, it still waits for it.
pub handler_waits :
    (scancode : ℕ) (k k' : Keyboard) (key : Option ℕ)
    → k.e1_code ≡ 1
    → 0x80 ≤ scancode
    → scancode < 256
    → scancode ≢ 0xe0
    → keyboard_irq_handler scancode k ≡ some (k', key)
    → k'.e1_code ≡ 1
unfolding keyboard_irq_handler
handler_waits scancode k k' key one high byte not_e0 e =
    let s = rw (break_code scancode k one high byte not_e0) at e in
    elim (Option-cases (translate_scancode ScanType.snc_std (and_not scancode 0x80))) [
      | inl n ↦
          let bad : none ≡ some (k', key) = ap (with_key true k) (sym n) ∙ s in
          absurd (ground (arith, bad))
      | inr t ↦
          let r : send_key_event t.0 true k ≡ (k', key) =
            same (send_key_event t.0 true k) (k', key) (ap (with_key true k) (sym t.1) ∙ s) in
          ap (λ (p : Keyboard × Option ℕ). p.0.e1_code) (sym r) ∙ release_keeps t.0 k ∙ one
    ]

row_some : (xs : List ℕ) (i : ℕ) → i < length xs → (v : ℕ) × (get_elem? xs i ≡ some v)
row_some [] i h = absurd (omega arith)
row_some (x ∷ xs) zero h = (x, refl)
row_some (x ∷ xs) (suc i) h = row_some xs i (omega arith)

row_none : (xs : List ℕ) (i : ℕ) → length xs ≤ i → get_elem? xs i ≡ none
row_none [] i h = refl
row_none (x ∷ xs) zero h = absurd (omega arith)
row_none (x ∷ xs) (suc i) h = row_none xs i (omega arith)

row_lem :
    (xs : List ℕ) (k : ℕ)
    → length xs ≡ 76
    → (k < 76 → (c : ℕ) × (get_elem? xs k ≡ some c)) × (76 ≤ k → get_elem? xs k ≡ none)
row_lem xs k e = ((λ h. row_some xs k (omega (arith, e))), λ h. row_none xs k (omega (arith, e)))

-- Every key code below 76 has a character in each mode of each assignment; the key codes from 76
-- on, which some scan codes are translated to, are outside of the table.
pub translate_keycode_lem :
    (assignment modus keycode : ℕ)
    → assignment < 2
    → modus < 3
    → (keycode < 76 → (c : ℕ) × (translate_keycode assignment modus keycode ≡ some c))
      × (76 ≤ keycode → translate_keycode assignment modus keycode ≡ none)
unfolding translate_keycode
translate_keycode_lem zero zero k ha hm = row_lem de_normal k refl
translate_keycode_lem zero (suc zero) k ha hm = row_lem de_shift k refl
translate_keycode_lem zero (suc (suc zero)) k ha hm = row_lem de_alt_gr k refl
translate_keycode_lem zero (suc (suc (suc m))) k ha hm = absurd (omega arith)
translate_keycode_lem (suc zero) zero k ha hm = row_lem us_normal k refl
translate_keycode_lem (suc zero) (suc zero) k ha hm = row_lem us_shift k refl
translate_keycode_lem (suc zero) (suc (suc zero)) k ha hm = row_lem us_alt_gr k refl
translate_keycode_lem (suc zero) (suc (suc (suc m))) k ha hm = absurd (omega arith)
translate_keycode_lem (suc (suc a)) m k ha hm = absurd (omega arith)
