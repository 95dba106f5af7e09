-- ===== src/Session/Serial.antt =====
-- internal/session/serial.go: how a serial session begins, and its reading goroutine. What the serial package and
-- each read of the port return are arguments; the settling of the first output is not modelled.
mod Tests
use pty_mcp.Base.{
  ℕ, zero, String, Bool, true, false, ◌||◌, Option, none, some, List, [], ◌∷◌, ◌++◌, ◌⊎◌, inl, inr,
  if◌then◌else◌,
}
use pty_mcp.Base.Int.{ℤ, pos, negsuc}
use pty_mcp.Text.{codes, cut_prefix, contains}
use pty_mcp.Buffer.Ring.{RingBuffer, write}
use pty_mcp.Session.Screen.{SerialSession}

abbrev pub has_prefix : Option (List ℕ) → Bool
has_prefix none = false
has_prefix (some rest) = true

unfoldable pub is_valid_serial_device : List ℕ → Bool
unfolding contains cut_prefix
is_valid_serial_device device =
    if contains device (codes "..")
    then false
    else has_prefix (cut_prefix (codes "/dev/tty") device)
      || has_prefix (cut_prefix (codes "/dev/cu.") device)

pub data OpenError : Type 0 where
  invalid_device : OpenError
  open_failed : String → OpenError

-- `serial.Mode` has eight data bits, no parity and one stop bit, always.
pub record Mode : Type 0 where
  pub device : List ℕ
  pub baud_rate : ℤ

abbrev or_9600 : ℤ → ℤ
or_9600 (pos zero) = pos 9600
or_9600 rate = rate

abbrev port_opened : RingBuffer → Bool → Option String → OpenError ⊎ SerialSession
port_opened buf has_log (some e) = inl (open_failed e)
port_opened buf has_log none =
    inr (record { buf = buf; has_log = has_log; alive = true; is_closed = false })

-- `NewSerialSessionWithLog`: the session, and the ports that it tried to open; `buf` is the new buffer
pub new_serial_session :
    (Mode → Option String)
    → RingBuffer
    → List ℕ
    → ℤ
    → Bool
    → (OpenError ⊎ SerialSession) × List Mode
unfolding is_valid_serial_device
new_serial_session opens buf device rate has_log =
    let mode : Mode = record { device = device; baud_rate = or_9600 rate } in
    if is_valid_serial_device device
    then (port_opened buf has_log (opens mode), mode ∷ [])
    else (inl invalid_device, [])

-- a round of the loop: `done` is closed, or a read returns
pub data Round : Type 0 where
  is_done : Round
  read_failed : String → Round
  read : List ℕ → Round

abbrev pub stored : SerialSession → List ℕ → List ℕ → SerialSession × List ℕ
stored s log [] = (s, log)
stored s log (c ∷ bytes) =
    (record s { buf = (write s.buf (c ∷ bytes)).0 }, (if s.has_log then log ++ c ∷ bytes else log))

-- the session, and what is in its log file
pub read_loop : List Round → SerialSession × List ℕ → SerialSession × List ℕ
read_loop [] st = st
read_loop (is_done ∷ rounds) st = st
read_loop (read_failed e ∷ rounds) (s, log) = (record s { alive = false }, log)
read_loop (read bytes ∷ rounds) (s, log) = read_loop rounds (stored s log bytes)
