-- ===== src/Aitx/Keys/Tests.antt =====
-- An arrow key, sent by its name, and a text.
use pty_mcp.Base.{ℕ, ◌≡◌, refl, true, some, List, [], ◌∷◌, if◌then◌else◌}
use pty_mcp.Text.Utf8.{utf8_valid, utf8_tail}
use pty_mcp.Text.{bytes_eq}
use pty_mcp.Aitx.Keys.{send_control, raw_call, key_name, received}
use pty_mcp.Aitx.Keys.Roundtrip.{received-raw_call}

by_name : raw_call (0x1b ∷ b'[' ∷ b'A' ∷ []) ≡ send_control "up"
unfolding raw_call key_name bytes_eq
by_name = refl

-- a JSON that spoils what is not a text
abbrev spoils : List ℕ → List ℕ
spoils bytes = if utf8_valid bytes then bytes else 0xef ∷ 0xbf ∷ 0xbd ∷ []

spoils_lem : (text : List ℕ) → utf8_valid text ≡ true → spoils text ≡ text
spoils_lem text valid = rw valid refl

-- a text with a character of two bytes
received-raw_call_example :
    received spoils (raw_call (b'a' ∷ 0xc3 ∷ 0xa9 ∷ [])) ≡ some (b'a' ∷ 0xc3 ∷ 0xa9 ∷ [])
unfolding utf8_valid utf8_tail
received-raw_call_example = received-raw_call spoils (b'a' ∷ 0xc3 ∷ 0xa9 ∷ []) spoils_lem refl
