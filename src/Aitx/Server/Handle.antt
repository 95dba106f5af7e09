-- ===== src/Aitx/Server/Handle.antt =====
-- internal/aitx/server.go: `resizeSession`, the choice of the handler by the request's method, the idle
-- reaper and the end of the server.
use pty_mcp.Base.{
  ℕ, ◌+◌, String, Bool, ◌||◌, not, Option, none, some, List, [], ◌∷◌, ◌⊎◌, inl, inr, map, ltb,
  str_eq, if◌then◌else◌,
}
use pty_mcp.Base.Int.{ℤ, is_nonpos, exceeds, pos_part}
use pty_mcp.Base.Dict.{Dict, empty, entry, lookup, entries, retain}
use pty_mcp.Aitx.Process.{resize}
use pty_mcp.Aitx.Server.{
  Terminal, Server, bad_params, resize_failed, bad_size, too_large, not_found, unknown_method,
  error, success, Effect, closes, resizes, Env, Handled, create_session, send_input, send_raw,
  read_output, send_control, list_sessions, close_session,
}

-- What decoding the request's parameters gives, for each type of parameters.
pub record Params : Type 0 where
  pub create : String ⊎ (String × String)
  pub input : String ⊎ (String × List ℕ × ℤ)
  pub read : String ⊎ (String × ℤ)
  pub control : String ⊎ (String × String)
  pub session : String ⊎ String
  pub resize : String ⊎ (String × ℤ × ℤ)
  pub raw : String ⊎ (String × List ℕ × ℤ)

pub record Request : Type 0 where
  pub method : String
  pub params : Params

abbrev pub with_params {ℓ} : {P : Type ℓ} → Server → String ⊎ P → (P → Handled) → Handled
with_params srv (inl e) run = (srv, error (bad_params e), [])
with_params srv (inr p) run = run p

module _ (env : Env) (srv : Server) where
  abbrev pub resized : Terminal → ℕ → ℕ → Option String → Handled
  resized t rows cols none = (srv, success, resizes t rows cols ∷ [])
  resized t rows cols (some e) = (srv, error (resize_failed e), resizes t rows cols ∷ [])

  -- `s.Resize`, which takes the two numbers to 16 bits
  abbrev pub resize_found : String → ℕ → ℕ → Option Terminal → Handled
  resize_found id rows cols none = (srv, error (not_found id), [])
  resize_found id rows cols (some t) =
      let (r, c) = resize rows cols in resized t r c (env.resize_error t r c)

  unfoldable pub resize_session : String → ℤ → ℤ → Handled
  resize_session id rows cols =
      if is_nonpos rows || is_nonpos cols
      then (srv, error bad_size, [])
      else if exceeds rows 500 || exceeds cols 1000
      then (srv, error too_large, [])
      else resize_found id (pos_part rows) (pos_part cols) (lookup srv.sessions id)

  unfoldable pub handle : Request → Handled
  handle req =
      if str_eq req.method "create_session"
      then with_params srv req.params.create
          (λ (p : String × String). create_session env srv p.1 p.0)
      else if str_eq req.method "send_input"
      then with_params srv req.params.input
          (λ (p : String × List ℕ × ℤ). send_input env srv p.0 p.1 p.2)
      else if str_eq req.method "read_output"
      then with_params srv req.params.read (λ (p : String × ℤ). read_output env srv p.0 p.1)
      else if str_eq req.method "send_control"
      then with_params srv req.params.control
          (λ (p : String × String). send_control env srv p.0 p.1)
      else if str_eq req.method "list_sessions"
      then list_sessions env srv
      else if str_eq req.method "close_session"
      then with_params srv req.params.session (λ id. close_session env srv id)
      else if str_eq req.method "resize_session"
      then with_params srv req.params.resize (λ (p : String × ℤ × ℤ). resize_session p.0 p.1 p.2)
      else if str_eq req.method "send_raw"
      then with_params srv req.params.raw
          (λ (p : String × List ℕ × ℤ). send_raw env srv p.0 p.1 p.2)
      else (srv, error (unknown_method req.method), [])

-- `now.Sub(s.LastUsed()) > srv.idleTimeout`
abbrev pub is_idle : ℕ → ℕ → Terminal → Bool
is_idle timeout now t = ltb (t.last_used + timeout) now

unfoldable pub idle_terminals : ℕ → ℕ → Dict Terminal → List Effect
idle_terminals timeout now empty = []
idle_terminals timeout now (entry id t rest) =
    let others = idle_terminals timeout now rest in
    if is_idle timeout now t then closes t ∷ others else others

-- one tick of `idleReaper`
unfoldable pub reap : Server → ℕ → Server × List Effect
unfolding idle_terminals
reap srv now = (
  record srv { sessions = retain (λ id t. not (is_idle srv.idle_timeout now t)) srv.sessions },
  idle_terminals srv.idle_timeout now srv.sessions,
)

-- `closeAll`
unfoldable pub close_all : Server → Server × List Effect
close_all srv = (
  record srv { sessions = empty },
  map (λ (e : String × Terminal). closes e.1) (entries srv.sessions),
)
