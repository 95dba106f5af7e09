-- ===== src/Aitx/Keys.antt =====
-- internal/aitx/server.go: `controlKeys` of `sendControl`; internal/session/remote.go: `rawToKeyName`.
mod Roundtrip
mod Tests
use pty_mcp.Base.{
  ℕ, ◌≡◌, String, Bool, true, false, Option, none, some, List, [], ◌∷◌, ◌++◌, str_eq, if◌then◌else◌,
}
use pty_mcp.Text.{bytes_eq}

abbrev pub KeyTable : Type 0
KeyTable = List (String × List ℕ)

abbrev pub control_keys : KeyTable
control_keys =
    ("ctrl+c", 3 ∷ [])
    ∷ ("ctrl+d", 4 ∷ [])
    ∷ ("ctrl+z", 0x1a ∷ [])
    ∷ ("ctrl+l", 0x0c ∷ [])
    ∷ ("ctrl+r", 0x12 ∷ [])
    ∷ ("enter", b'\r' ∷ [])
    ∷ ("tab", b'\t' ∷ [])
    ∷ ("escape", 0x1b ∷ [])
    ∷ ("up", 0x1b ∷ b'[' ∷ b'A' ∷ [])
    ∷ ("down", 0x1b ∷ b'[' ∷ b'B' ∷ [])
    ∷ ("left", 0x1b ∷ b'[' ∷ b'D' ∷ [])
    ∷ ("right", 0x1b ∷ b'[' ∷ b'C' ∷ [])
    ∷ []

-- `controlKeys[key]`
unfoldable pub key_bytes : KeyTable → String → Option (List ℕ)
key_bytes [] key = none
key_bytes ((name, bytes) ∷ table) key =
    let rest = key_bytes table key in if str_eq name key then some bytes else rest

abbrev pub raw_to_key_name : List (List ℕ × String)
raw_to_key_name =
    (3 ∷ [], "ctrl+c")
    ∷ (4 ∷ [], "ctrl+d")
    ∷ (0x1a ∷ [], "ctrl+z")
    ∷ (0x0c ∷ [], "ctrl+l")
    ∷ (0x12 ∷ [], "ctrl+r")
    ∷ (b'\r' ∷ [], "enter")
    ∷ (b'\t' ∷ [], "tab")
    ∷ (0x1b ∷ [], "escape")
    ∷ (0x1b ∷ b'[' ∷ b'A' ∷ [], "up")
    ∷ (0x1b ∷ b'[' ∷ b'B' ∷ [], "down")
    ∷ (0x1b ∷ b'[' ∷ b'D' ∷ [], "left")
    ∷ (0x1b ∷ b'[' ∷ b'C' ∷ [], "right")
    ∷ []

-- `rawToKeyName[data]`
unfoldable pub key_name : List (List ℕ × String) → List ℕ → Option String
unfolding bytes_eq
key_name [] bytes = none
key_name ((raw, name) ∷ table) bytes =
    let rest = key_name table bytes in if bytes_eq raw bytes then some name else rest

-- The call that `RemoteSession.WriteRaw` makes for some bytes.
pub data RawCall : Type 0 where
  send_control : String → RawCall
  send_raw : List ℕ → RawCall

abbrev pub raw_call_for : Option String → List ℕ → RawCall
raw_call_for (some key) bytes = send_control key
raw_call_for none bytes = send_raw bytes

pub raw_call : List ℕ → RawCall
raw_call bytes = raw_call_for (key_name raw_to_key_name bytes) bytes

-- `json.Marshal` of the data and its decoding by the server
abbrev pub over_json : (List ℕ → List ℕ) → RawCall → RawCall
over_json json (send_control key) = send_control key
over_json json (send_raw bytes) = send_raw (json bytes)

-- What the server writes to the terminal for a call that it gets.
abbrev pub written : RawCall → Option (List ℕ)
written (send_control key) = key_bytes control_keys key
written (send_raw bytes) = some bytes

-- The names of keys are in ASCII; the data may be any bytes.
pub received : (List ℕ → List ℕ) → RawCall → Option (List ℕ)
received json call = written (over_json json call)
