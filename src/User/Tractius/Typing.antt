-- ===== src/User/Tractius/Typing.antt =====
-- What is typed into the editor of tractius/main.c is what it saves.
use fruity_orange.Base.{
  ℕ, ◌+◌, ◌*◌, ◌%◌, ◌^◌, ◌<◌, ◌≤◌, ◌≡◌, ◌≢◌, List, [], ◌∷◌, ◌++◌, ◌==◌, if◌then◌else◌, length,
  replicate,
}
use fruity_orange.User.Tractius.{Editor, put}

-- Characters that stand in the block from `i` on.
pub put_all : List ℕ → ℕ → (ℕ → ℕ) → ℕ → ℕ
put_all [] i m = m
put_all (c ∷ cs) i m = put_all cs (i + 1) (put i c m)

-- How far `out` has been typed: `cost` bounds the places it takes.
pub record Typed (e : Editor) (out : List ℕ) (cost : ℕ) (e' : Editor) : Type 0 where
  pub stored : e'.block ≡ put_all out (e.text + e.text_length) e.block
  pub pointer : e'.text ≡ e.text
  pub counted : e'.text_length ≡ e.text_length + length out
  pub place : e'.y * 80 + e'.x ≤ e.y * 80 + e.x + cost
  pub column : e'.x ≤ 80

-- There is room for `n` more characters and for `cost` more places.
abbrev pub HasRoom : Editor → ℕ → ℕ → Type 0
HasRoom e n cost = (e.x ≤ 80) × (e.y * 80 + e.x + cost < 1840) × (e.text + e.text_length + n ≤ 4096)

-- The characters on the screen after one is shown.
shown : ℕ → Editor → ℕ → ℕ
shown c e = if c == b'\n' then e.display_text else put ((e.y * 81 + e.x) % 2 ^ 32) c e.display_text

-- The places and characters that a key takes.
abbrev pub key_cost : ℕ → ℕ
key_cost k = if k == b'\n' then 80 else if k == b'\t' then 8 else 1

abbrev pub key_text : ℕ → List ℕ
key_text k = if k == b'\t' then replicate 8 b' ' else k ∷ []

-- A key that stands for text: a byte, but for 0, which begins a command, and the delete key.
abbrev pub IsText : ℕ → Type 0
IsText k = (k < 256) × (k ≢ 0) × (k ≢ b'\r')

-- What the keys stand for, and the places that they take.
abbrev pub keys_text : List ℕ → List ℕ
keys_text [] = []
keys_text (k ∷ keys) = key_text k ++ keys_text keys

abbrev pub keys_cost : List ℕ → ℕ
keys_cost [] = 0
keys_cost (k ∷ keys) = key_cost k + keys_cost keys
