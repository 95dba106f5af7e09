-- ===== src/Mcp/Tools/Dispatch.antt =====
-- internal/mcp/server.go: `negotiateProtocolVersion`, `handle`, `handleToolCall` and `classifyError`.
-- The tools that other modules model (create, list_remote_sessions and the two on credentials) are one
-- function of the call's name; so are the texts of the errors, which `classifyError` searches.
pub mod Versions
use pty_mcp.Base.{
  ℕ, ◌⊎◌, inl, inr, String, Bool, true, false, ◌&&◌, ◌||◌, Option, none, some, List, [], ◌∷◌,
  str_eq, if◌then◌else◌,
}
use pty_mcp.Base.Int.{ℤ}
use pty_mcp.Text.{codes}
use pty_mcp.Text as Text
use pty_mcp.Session.Manager.{not_found, limit_reached}
use pty_mcp.Mcp.Tools.{Fault, session_error, Reply, failed, Env, State}
use pty_mcp.Mcp.Tools.Input.{SendInputParams, send_input}
use pty_mcp.Mcp.Tools.Control.{
  ReadOutputParams, read_output, send_control, get_session_state, list_sessions, close_session,
  detach_session, resize_session, prepare_secret, send_secret,
}

abbrev pub server_protocol_version : String
server_protocol_version = "2025-11-25"

abbrev pub supported_protocol_versions : List String
supported_protocol_versions =
    "2025-11-25" ∷ "2025-06-18" ∷ "2025-03-26" ∷ "2024-11-05" ∷ "2024-10-07" ∷ []

-- the loop of `negotiateProtocolVersion`
pub pick_version : List String → String → String
pick_version [] asked = server_protocol_version
pick_version (v ∷ vs) asked = let rest = pick_version vs asked in if str_eq v asked then v else rest

pub negotiate_protocol_version : String → String
unfolding pick_version
negotiate_protocol_version asked = pick_version supported_protocol_versions asked

pub data Code : Type 0 where
  session_not_found session_limit ssh_auth_failed ssh_conn_failed serial_failed : Code
  write_failed internal_error : Code

pub record ToolError : Type 0 where
  pub code : Code
  pub message : List ℕ
  pub retryable : Bool

-- `contains` of server.go
pub contains : List ℕ → List (List ℕ) → Bool
contains s [] = false
contains s (sub ∷ subs) = Text.contains s sub || contains s subs

abbrev pub tool_error : Code → Bool → List ℕ → ToolError
tool_error code retryable message = record { code = code; message = message; retryable = retryable }

-- the classes that go by the text of an error
pub classify_text : List ℕ → ToolError
unfolding contains
classify_text msg =
    if contains msg (
      codes "ssh: unable to authenticate"
      ∷ codes "ssh: handshake failed"
      ∷ codes "no supported methods remain"
      ∷ [])
    then tool_error ssh_auth_failed false msg
    else if contains msg (
        codes "dial tcp"
        ∷ codes "connection refused"
        ∷ codes "no route to host"
        ∷ codes "i/o timeout"
        ∷ [])
    then tool_error ssh_conn_failed true msg
    else if contains msg (codes "serial" ∷ codes "no such file or directory" ∷ [])
        && contains msg (codes "/dev/" ∷ [])
    then tool_error serial_failed false msg
    else if contains msg (codes "write to session" ∷ codes "broken pipe" ∷ codes "write:" ∷ [])
    then tool_error write_failed false msg
    else tool_error internal_error false msg

-- `classifyError`; no handler returns a `*ToolError` itself
pub classify_error : (Fault → List ℕ) → Fault → ToolError
unfolding classify_text
classify_error message (session_error (not_found id)) =
    tool_error session_not_found false (message (session_error (not_found id)))
classify_error message (session_error limit_reached) =
    tool_error session_limit true (message (session_error limit_reached))
classify_error message f = classify_text (message f)

-- What decoding the arguments gives, for each type of parameters.
pub record Arguments : Type 0 where
  pub input : String ⊎ SendInputParams
  pub read : String ⊎ ReadOutputParams
  pub prepare : String ⊎ (String × String × List ℕ)
  pub secret : String ⊎ (String × String)
  pub control : String ⊎ (String × String)
  pub session : String ⊎ String
  pub resize : String ⊎ (String × ℤ × ℤ)

pub data Response : Type 0 where
  rpc_error : ℕ → Response  -- the absolute value of its code, which is negative
  is_error : ToolError → Response
  content : Reply → Response
  initialized : String → Response
  tools : Response
  nothing : Response

-- what the handlers are given besides the call
pub record Tools : Type 0 where
  pub env : Env
  pub bad_arguments : String → Fault
  pub message : Fault → List ℕ
  pub elsewhere : String → Option (State → State × Reply)

module _ (t : Tools) where
  abbrev pub with_params {ℓ} :
      {P : Type ℓ} → String ⊎ P → (P → State → State × Reply) → State → State × Reply
  with_params (inl e) run st = (st, failed (t.bad_arguments e))
  with_params (inr p) run st = run p st

  abbrev pub response_of : State × Reply → State × Response
  response_of (st, failed f) = (st, is_error (classify_error t.message f))
  response_of (st, reply) = (st, content reply)

  abbrev pub other_tool : Option (State → State × Reply) → State → State × Response
  other_tool none st = (st, rpc_error 32601)
  other_tool (some run) st = response_of (run st)

  -- `handleToolCall`, its parameters decoded
  unfoldable pub handle_tool_call : String → Arguments → State → State × Response
  handle_tool_call name args st =
      let env = t.env in
      if str_eq name "send_input"
      then response_of (with_params args.input (send_input env) st)
      else if str_eq name "read_output"
      then response_of (with_params args.read (read_output env) st)
      else if str_eq name "prepare_secret"
      then response_of (
          with_params args.prepare
            (λ (p : String × String × List ℕ). prepare_secret env p.0 p.1 p.2) st)
      else if str_eq name "send_secret"
      then response_of
          (with_params args.secret (λ (p : String × String). send_secret env p.0 p.1) st)
      else if str_eq name "send_control"
      then response_of
          (with_params args.control (λ (p : String × String). send_control env p.0 p.1) st)
      else if str_eq name "get_session_state"
      then response_of (with_params args.session (get_session_state env) st)
      else if str_eq name "list_sessions"
      then response_of (list_sessions env st)
      else if str_eq name "close_session"
      then response_of (with_params args.session (close_session env) st)
      else if str_eq name "detach_session"
      then response_of (with_params args.session (detach_session env) st)
      else if str_eq name "resize_session"
      then response_of
          (with_params args.resize (λ (p : String × ℤ × ℤ). resize_session env p.0 p.1 p.2) st)
      else other_tool (t.elsewhere name) st

  -- `handle`: the version that an initialize asks for, or the tool call, decoded
  unfoldable pub handle : String → String → String ⊎ (String × Arguments) → State → State × Response
  handle method version call st =
      if str_eq method "initialize"
      then (st, initialized (negotiate_protocol_version version))
      else if str_eq method "tools/list"
      then (st, tools)
      else if str_eq method "tools/call"
      then elim call as (λ c. State × Response) [
        | inl e ↦ (st, rpc_error 32602)
        | inr (name, args) ↦ handle_tool_call name args st
      ]
      else if str_eq method "notifications/initialized"
      then (st, nothing)
      else (st, rpc_error 32601)
