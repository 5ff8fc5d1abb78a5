-- ===== src/Clib/Print/Text.antt =====
-- What `vsprintf` of lib/common/string/vsprintf.c makes of plain text and of `%u`.
use fruity_orange.Base.{ℕ, ◌≢◌, ltb, if◌then◌else◌, Option, none, some, All, length}
use fruity_orange.Clib.Str.{CString}

-- Text without a directive.
abbrev pub Plain : CString → Type 0
Plain = All (λ c. c ≢ 37)

-- The text where it fits, with its zero, into the room at the literal.
abbrev fitting : ℕ → CString → CString → Option CString
fitting room s out = if ltb (length s) room then some out else none
