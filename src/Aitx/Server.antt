-- ===== src/Aitx/Server.antt =====
-- internal/aitx/server.go: `Server`, and the methods of `PTYSession` (internal/aitx/ptysession.go) that
-- its handlers call. A terminal is the record `Terminal`, changed in place in the table, as the table
-- holds pointers. The operating system and `WaitForSettleCtx` are parameters. Each handler is one
-- step, except that other requests work on the table between the two locked parts of `createSession`.
pub mod Handle
pub mod Limit
pub mod Create
pub mod Tables
mod Tests
use pty_mcp.Base.{
  ℕ, ◌+◌, ◌≡◌, String, Bool, true, false, ◌||◌, not, Option, none, some, List, [], ◌∷◌, ◌++◌, ◌⊎◌,
  inl, inr, map, leb, ltb, length, str_eq, if◌then◌else◌,
}
use pty_mcp.Base.Int.{ℤ, is_nonpos, exceeds, pos_part}
use pty_mcp.Base.Dict.{Dict, empty, entry, lookup, insert, remove, size, entries, retain}
use pty_mcp.Buffer.Ring.{RingBuffer, mark, advance_mark_by}
use pty_mcp.Aitx.Keys.{control_keys, key_bytes}

pub record Terminal : Type 0 where
  pub id : String
  pub name : String
  pub command : String
  pub buf : RingBuffer
  pub is_alive : Bool
  pub created_at : ℕ
  pub last_used : ℕ

pub record Server : Type 0 where
  pub sessions : Dict Terminal
  pub idle_timeout : ℕ

abbrev pub max_ai_tmux_sessions : ℕ
max_ai_tmux_sessions = 100

pub data Error : Type 0 where
  bad_params start_failed write_failed resize_failed : String → Error
  limit_reached not_alive bad_size too_large : Error
  not_found unknown_key unknown_method : String → Error

pub record OutputResult : Type 0 where
  pub output : List ℕ
  pub is_alive : Bool
  pub is_complete : Bool

pub record SessionInfo : Type 0 where
  pub id : String
  pub name : String
  pub command : String
  pub is_alive : Bool
  pub created_at : ℕ
  pub last_used : ℕ

pub data Response : Type 0 where
  error : Error → Response
  created : String → String → Response
  printed : OutputResult → Response
  listing : List SessionInfo → Response
  success : Response

-- What a handler does to a terminal besides the table: it closes it, or sets its size.
pub data Effect : Type 0 where
  closes : Terminal → Effect
  resizes : Terminal → ℕ → ℕ → Effect

-- The clock, a random id, `NewPTYSession`, errors of writes and of the resize, the settled output,
-- `StripANSI`, and what other requests do while a terminal is created.
pub record Env : Type 0 where
  pub now : ℕ
  pub random_id : String
  pub new_terminal : String → String → String → String ⊎ Terminal
  pub write_error : Terminal → List ℕ → Option String
  pub resize_error : Terminal → ℕ → ℕ → Option String
  pub settle : Terminal → ℕ → RingBuffer × List ℕ × Bool
  pub strip : List ℕ → List ℕ
  pub others : Server → Server

abbrev pub Handled : Type 0
Handled = Server × Response × List Effect

-- `PTYSession.WriteRaw`; `Write` adds a carriage return
pub write_raw : Env → Terminal → List ℕ → Terminal × Option Error
write_raw env t bytes = if not t.is_alive then (t, some not_alive) else (
  record t { buf = mark t.buf; last_used = env.now },
  elim (env.write_error t bytes) [ none ↦ none | some e ↦ some (write_failed e) ],
)

abbrev pub settle_timeout : ℤ → ℕ
settle_timeout ms = if is_nonpos ms then 5000 else pos_part ms

-- `PTYSession.ReadScreen` with a context that is never done
pub read_screen : Env → Terminal → ℤ → Terminal × List ℕ × Bool
read_screen env t timeout_ms =
    let (buf, output, complete) = env.settle t (settle_timeout timeout_ms) in
    (
      record t { buf = advance_mark_by buf (length output); last_used = env.now },
      env.strip output,
      complete,
    )

module _ (env : Env) (srv : Server) where
  pub put : String → Terminal → Server
  put id t = record srv { sessions = insert srv.sessions id t }

  -- `createSession`
  abbrev pub insert_new : Server → Terminal → Handled
  insert_new now t =
      if leb max_ai_tmux_sessions (size now.sessions)
      then (now, error limit_reached, closes t ∷ [])
      else (
        record now { sessions = insert now.sessions env.random_id t },
        created env.random_id t.name,
        [],
      )

  abbrev pub started : String ⊎ Terminal → Handled
  started (inl e) = (env.others srv, error (start_failed e), [])
  started (inr t) = insert_new (env.others srv) t

  pub create_session : String → String → Handled
  create_session name command =
      if leb max_ai_tmux_sessions (size srv.sessions)
      then (srv, error limit_reached, [])
      else started (env.new_terminal env.random_id name command)

  -- The end of the handlers that write and read: the terminal in the table is the one changed.
  abbrev pub read_back : String → ℤ → Terminal → Handled
  read_back id timeout_ms t =
      let (t', output, complete) = read_screen env t timeout_ms in
      (
        put id t',
        printed (record { output = output; is_alive = t'.is_alive; is_complete = complete }),
        [],
      )

  abbrev pub written : String → ℤ → Terminal × Option Error → Handled
  written id timeout_ms (t, some e) = (put id t, error e, [])
  written id timeout_ms (t, none) = read_back id timeout_ms t

  abbrev pub send_to : String → List ℕ → ℤ → Option Terminal → Handled
  send_to id bytes timeout_ms none = (srv, error (not_found id), [])
  send_to id bytes timeout_ms (some t) = written id timeout_ms (write_raw env t bytes)

  -- `sendInput`, `sendRaw`
  pub send_input : String → List ℕ → ℤ → Handled
  send_input id input timeout_ms =
      send_to id (input ++ b'\r' ∷ []) timeout_ms (lookup srv.sessions id)

  pub send_raw : String → List ℕ → ℤ → Handled
  send_raw id bytes timeout_ms = send_to id bytes timeout_ms (lookup srv.sessions id)

  abbrev pub read_from : String → ℤ → Option Terminal → Handled
  read_from id timeout_ms none = (srv, error (not_found id), [])
  read_from id timeout_ms (some t) = read_back id timeout_ms t

  pub read_output : String → ℤ → Handled
  read_output id timeout_ms = read_from id timeout_ms (lookup srv.sessions id)

  abbrev pub send_key : String → String → Option (List ℕ) → Handled
  send_key id key none = (srv, error (unknown_key key), [])
  send_key id key (some bytes) = send_to id bytes (ℤ.pos 5000) (lookup srv.sessions id)

  pub send_control : String → String → Handled
  send_control id key = send_key id key (key_bytes control_keys key)

  abbrev info_of : String × Terminal → SessionInfo
  info_of (id, t) = record {
    id = t.id;
    name = t.name;
    command = t.command;
    is_alive = t.is_alive;
    created_at = t.created_at;
    last_used = t.last_used;
  }

  pub list_sessions : Handled
  list_sessions = (srv, listing (map info_of (entries srv.sessions)), [])

  abbrev pub close_found : String → Option Terminal → Handled
  close_found id none = (srv, error (not_found id), [])
  close_found id (some t) =
      (record srv { sessions = remove srv.sessions id }, success, closes t ∷ [])

  pub close_session : String → Handled
  close_session id = close_found id (lookup srv.sessions id)
