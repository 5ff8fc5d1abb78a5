-- ===== src/Driver/Keyboard.antt =====
-- kernel/driver/kbc/keyboard.c: the interrupt handler of the keyboard as a state machine on scan
-- codes. The static variables of the file and of the handler are the record `Keyboard`. The key
-- that the handler leaves in the buffer is returned with it: the code calls `syscall_step` then.
pub mod Translate
pub mod States
use fruity_orange.Base.{
  ℕ, ◌+◌, ◌*◌, ◌%◌, ◌^◌, Bool, true, false, ◌==◌, ◌||◌, ◌&&◌, not, if◌then◌else◌, Option, none,
  some, List, [], ◌∷◌, bit_and, bit_or, and_not,
}
use fruity_orange.Driver.Keyboard.Translate.{ScanType, translate_scancode}

pub record Keyboard : Type 0 where
  pub buffer : ℕ
  pub modus : ℕ
  pub e0_code : ℕ
  pub e1_code : ℕ
  pub e1_prev : ℕ

unfoldable pub send_key_event : ℕ → Bool → Keyboard → Keyboard × Option ℕ
send_key_event key breaked k =
    if breaked
    then (if (key == 53) || (key == 67) then (record k { modus = 0 }, none) else (k, none))
    else if key == 40
    then (record k { modus = if k.modus == 1 then 0 else 1 }, none)
    else if (key == 53) || (key == 67)
    then (record k { modus = 1 }, none)
    else (record k { buffer = key }, some key)

-- The key event for a translated scan code; `none` where the table was read outside.
abbrev pub with_key : Bool → Keyboard → Option ℕ → Option (Keyboard × Option ℕ)
with_key breaked k none = none
with_key breaked k (some keycode) = some (send_key_event keycode breaked k)

abbrev pub is_break : ℕ → Keyboard → Bool
is_break scancode k =
    not (bit_and scancode 0x80 == 0)
    && (not (k.e1_code == 0) || not (scancode == 0xe1))
    && (not (k.e0_code == 0) || not (scancode == 0xe0))

-- The part of the handler behind the test for a break code.
unfoldable pub make_code : ℕ → Keyboard → Option (Keyboard × Option ℕ)
make_code scancode k =
    if not (k.e0_code == 0)
    then (if (scancode == 0x2a) || (scancode == 0x36)
        then some (record k { e0_code = 1 }, none)
        else with_key false (record k { e0_code = 1 })
            (translate_scancode ScanType.snc_e0 scancode))
    else if k.e1_code == 2
    then (let prev = bit_or k.e1_prev (scancode * 256 % 2 ^ 16) in
        with_key false (record k { e1_prev = prev; e1_code = 0 })
          (translate_scancode ScanType.snc_e1 prev))
    else if k.e1_code == 1
    then some (send_key_event 0 false (record k { e1_prev = scancode; e1_code = 2 }))
    else if scancode == 0xe0
    then some (send_key_event 0 false (record k { e0_code = 0 }))
    else if scancode == 0xe1
    then some (send_key_event 0 false (record k { e1_code = 1 }))
    else with_key false k (translate_scancode ScanType.snc_std scancode)

-- `scancode` is what is read from the port.
unfoldable pub keyboard_irq_handler : ℕ → Keyboard → Option (Keyboard × Option ℕ)
unfolding make_code send_key_event
keyboard_irq_handler scancode k =
    if is_break scancode k
    then with_key true k (translate_scancode ScanType.snc_std (and_not scancode 0x80))
    else make_code scancode k

-- The handler for one scan code after the other.
abbrev pub and_then {ℓ} :
    {A : Type ℓ} → Option (Keyboard × Option ℕ) → (Keyboard → Option A) → Option A
and_then none f = none
and_then (some (k, key)) f = f k

unfoldable pub handle_all : List ℕ → Keyboard → Option Keyboard
unfolding keyboard_irq_handler
handle_all [] k = some k
handle_all (scancode ∷ codes) k = and_then (keyboard_irq_handler scancode k) (handle_all codes)
