-- ===== src/Session/Screen.antt =====
-- internal/session/serial.go and internal/session/ssh.go: `Write`, `WriteRaw`, `ReadScreen` and `Close` of the
-- sessions that read into a ring buffer of their own. The terminal writes to the buffer while
-- `ReadScreen` waits (`rounds`), and between the wait and `AdvanceMarkBy` (`late`).
pub mod Reads
mod Tests
use pty_mcp.Base.{
  ℕ, ◌+◌, String, Bool, true, false, Option, none, some, List, [], ◌∷◌, ◌++◌, length, if◌then◌else◌,
}
use pty_mcp.Base.Int.{ℤ, is_nonpos, pos_part}
use pty_mcp.Buffer.Ring.{RingBuffer, write, mark, since, advance_mark_by}
use pty_mcp.Pty.{Patterns, Rounds, wait_for_settle_ctx}

pub record SerialSession : Type 0 where
  pub buf : RingBuffer
  pub has_log : Bool
  pub alive : Bool
  pub is_closed : Bool

pub record SshSession : Type 0 where
  pub buf : RingBuffer
  pub has_log : Bool
  pub alive : Bool
  pub is_closed : Bool

-- What a method does to the port, to the SSH connection and to the log file.
pub data Act : Type 0 where
  writes : List ℕ → Act
  ends_loop closes_port closes_stdin closes_session closes_client awaits_reader closes_log : Act

pub data WriteError : Type 0 where
  not_alive : WriteError
  write_failed : String → WriteError

abbrev pub write_result : Option String → Option WriteError
write_result none = none
write_result (some e) = some (write_failed e)

-- `result` is what the port's own `Write` returns.
module _ (result : List ℕ → Option String) where
  pub serial_write_raw : SerialSession → List ℕ → SerialSession × Option WriteError × List Act
  serial_write_raw s bytes =
      if s.alive
      then (record s { buf = mark s.buf }, write_result (result bytes), writes bytes ∷ [])
      else (s, some not_alive, [])

  pub serial_write : SerialSession → List ℕ → SerialSession × Option WriteError × List Act
  serial_write s input =
      if s.alive
      then (
        record s { buf = mark s.buf },
        write_result (result (input ++ b'\r' ∷ [])),
        writes (input ++ b'\r' ∷ []) ∷ [],
      )
      else (s, some not_alive, [])

  pub ssh_write_raw : SshSession → List ℕ → SshSession × Option WriteError × List Act
  ssh_write_raw s bytes =
      if s.alive
      then (record s { buf = mark s.buf }, write_result (result bytes), writes bytes ∷ [])
      else (s, some not_alive, [])

  unfoldable pub ssh_write : SshSession → List ℕ → SshSession × Option WriteError × List Act
  ssh_write s input =
      if s.alive
      then (
        record s { buf = mark s.buf },
        write_result (result (input ++ b'\r' ∷ [])),
        writes (input ++ b'\r' ∷ []) ∷ [],
      )
      else (s, some not_alive, [])

-- `if timeoutMs <= 0 { timeoutMs = 5000 }`
abbrev pub or_five_seconds : ℤ → ℕ
or_five_seconds ms = if is_nonpos ms then 5000 else pos_part ms

abbrev pub settle_ms : ℕ
settle_ms = 300

-- `done`: whether the context is done after the wait; `late`: what is written before `AdvanceMarkBy`.
module _ (pats : Patterns) (rounds : Rounds RingBuffer) (done : Bool) (late : List ℕ) where
  -- the rest of `ReadScreen` after its wait
  unfoldable pub consume : RingBuffer × List ℕ × Bool → RingBuffer × List ℕ × Bool
  consume (buf, output, complete) =
      let now = (write buf late).0 in
      if done
      then (now, [], false)
      else (advance_mark_by now (length output), pats.strip_ansi output, complete)

  abbrev consumed : Option (RingBuffer × List ℕ × Bool) → Option (RingBuffer × List ℕ × Bool)
  consumed none = none
  consumed (some r) = some (consume r)

  unfoldable pub read_settled : ℕ → RingBuffer → ℤ → Option (RingBuffer × List ℕ × Bool)
  unfolding consume
  read_settled fuel buf timeout_ms =
      consumed
        (wait_for_settle_ctx pats since rounds settle_ms (or_five_seconds timeout_ms) fuel buf)

  abbrev with_serial :
      SerialSession → Option (RingBuffer × List ℕ × Bool) → Option (SerialSession × List ℕ × Bool)
  with_serial s none = none
  with_serial s (some (buf, output, complete)) = some (record s { buf = buf }, output, complete)

  pub serial_read_screen : ℕ → SerialSession → ℤ → Option (SerialSession × List ℕ × Bool)
  unfolding read_settled
  serial_read_screen fuel s timeout_ms = with_serial s (read_settled fuel s.buf timeout_ms)

  abbrev pub with_ssh :
      SshSession → Option (RingBuffer × List ℕ × Bool) → Option (SshSession × List ℕ × Bool)
  with_ssh s none = none
  with_ssh s (some (buf, output, complete)) = some (record s { buf = buf }, output, complete)

  unfoldable pub ssh_read_screen : ℕ → SshSession → ℤ → Option (SshSession × List ℕ × Bool)
  unfolding read_settled
  ssh_read_screen fuel s timeout_ms = with_ssh s (read_settled fuel s.buf timeout_ms)

-- `Close`, where `closeOnce` lets only the first call do anything.
abbrev pub log_acts : Bool → List Act → List Act
log_acts has_log acts = if has_log then acts else []

pub serial_close : SerialSession → Option String → SerialSession × Option String × List Act
serial_close s port_error = if s.is_closed then (s, none, []) else (
  record s { alive = false; is_closed = true },
  port_error,
  ends_loop ∷ closes_port ∷ log_acts s.has_log (awaits_reader ∷ closes_log ∷ []),
)

pub ssh_close : SshSession → Option String → SshSession × Option String × List Act
ssh_close s client_error = if s.is_closed then (s, none, []) else (
  record s { alive = false; is_closed = true },
  client_error,
  closes_stdin ∷ closes_session ∷ closes_client ∷ log_acts s.has_log (closes_log ∷ []),
)
