-- ===== src/User/Tractius.antt =====
-- The text editor, tractius/main.c: its buffers and what the keys do to them. `x` and `y` are `int`s and
-- stand as their 32 bits. A write outside of a buffer is the result `none`. What is shown on the screen is
-- left out.
pub mod Typing
pub mod Tests
use fruity_orange.Base.{
  ℕ, zero, suc, ◌+◌, ◌-◌, ◌*◌, ◌/◌, ◌%◌, ◌^◌, Bool, true, false, not, Option, none, some, List, [],
  ◌∷◌, ◌==◌, leb, ltb, if◌then◌else◌,
}

abbrev pub size_x : ℕ
size_x = 80

abbrev pub size_y : ℕ
size_y = 23

abbrev pub text_block_size : ℕ
text_block_size = 0x1000

abbrev pub tab_size : ℕ
tab_size = 8

-- `display_text` is flat, a row has `SIZE_X + 1` characters. `text` is the place in the block that
-- `malloc` gave: the pointer moves.
pub record Editor : Type 0 where
  pub display_text : ℕ → ℕ
  pub block : ℕ → ℕ
  pub text : ℕ
  pub text_length : ℕ
  pub text_blocks : ℕ
  pub x : ℕ
  pub y : ℕ

infixl 5 ◌>>=◌
abbrev pub ◌>>=◌ {ℓ} : {A : Type ℓ} → Option A → (A → Option A) → Option A
none >>= f = none
some a >>= f = f a

abbrev pub put : ℕ → ℕ → (ℕ → ℕ) → ℕ → ℕ
put i c m j = if i == j then c else m j

-- `y += x / SIZE_X; x %= SIZE_X;`, which round to zero for a negative `x`.
pub carry : Editor → Editor
carry e =
    if leb (2 ^ 31) e.x
    then (let v = 2 ^ 32 - e.x in
        record e { y = (e.y + 2 ^ 32 - v / size_x) % 2 ^ 32; x = (2 ^ 32 - v % size_x) % 2 ^ 32 })
    else record e { y = (e.y + e.x / size_x) % 2 ^ 32; x = e.x % size_x }

-- `if(c != '\n') display_text[y][x] = c;`
pub show_char : ℕ → Editor → Option Editor
show_char c e =
    let i = (e.y * (size_x + 1) + e.x) % 2 ^ 32 in
    if c == b'\n'
    then some e
    else if ltb i (size_y * (size_x + 1))
    then some (record e { display_text = put i c e.display_text })
    else none

-- `text[text_length - 1] = c;`
pub keep_char : ℕ → Editor → Option Editor
keep_char c e =
    let i = e.text + (e.text_length - 1) in
    if ltb i text_block_size then some (record e { block = put i c e.block }) else none

-- The block is never made larger: the test for it compares `text_blocks` with itself.
pub insert_char : ℕ → Editor → Option Editor
unfolding carry show_char keep_char
insert_char c e =
    let n = e.text_length + 1 in
    show_char c (carry (record e { text_length = n; text_blocks = n / text_block_size }))
    >>= keep_char c

abbrev pub move_right : Editor → Option Editor
move_right e = some (record e { x = (e.x + 1) % 2 ^ 32 })

-- The loop of the tabulator, with the rounds that are left.
pub insert_spaces : ℕ → Editor → Option Editor
unfolding insert_char
insert_spaces zero e = some e
insert_spaces (suc n) e = insert_char b' ' e >>= move_right >>= insert_spaces n

pub insert_key : ℕ → Editor → Option Editor
unfolding insert_char insert_spaces
insert_key key e =
    if key == b'\n'
    then insert_char b'\n' e >>= (λ t. some (record t { y = (t.y + 1) % 2 ^ 32; x = 0 }))
    else if key == b'\t'
    then insert_spaces tab_size e
    else if key == b'\r'
    then insert_char b' ' (record e { x = (e.x + (2 ^ 32 - 1)) % 2 ^ 32 })
    else insert_char (key % 256) e >>= move_right

pub insert_keys : List ℕ → Editor → Option Editor
unfolding insert_key
insert_keys [] e = some e
insert_keys (k ∷ keys) e = insert_key k e >>= insert_keys keys

-- The loop of `save`: the bytes that are written to the file, and the pointer behind them.
pub save_loop : ℕ → ℕ → (ℕ → ℕ) → List ℕ
save_loop zero text m = []
save_loop (suc n) text m = m text ∷ save_loop n (text + 1) m

pub save : Editor → List ℕ × Editor
unfolding save_loop
save e = (save_loop e.text_length e.text e.block, record e { text = e.text + e.text_length })

abbrev pub then_edit : Option Editor → (Editor → Option (List (List ℕ))) → Option (List (List ℕ))
then_edit none go = none
then_edit (some e) go = go e

abbrev pub with_file : List ℕ → Option (List (List ℕ)) → Option (List (List ℕ))
with_file file none = none
with_file file (some files) = some (file ∷ files)

-- The loop of `main` over the keys that are pressed, up to 'q': the files that were saved. The key 0
-- stands in front of a command, which the flag says.
pub edit : Bool → List ℕ → Editor → Option (List (List ℕ))
unfolding insert_key save
edit command [] e = some []
edit false (k ∷ keys) e =
    let typed = then_edit (insert_key k e) (edit false keys) in
    let waits = edit true keys e in if not (k == 0) then typed else waits
edit true (c ∷ keys) e =
    let saved = with_file (save e).0 (edit false keys (save e).1) in
    let goes_on = edit false keys e in
    if c == b'q' then some [] else if c == b's' then saved else goes_on
