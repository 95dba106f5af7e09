-- ===== src/Mcp/Tools.antt =====
-- internal/mcp/tools.go: what the handlers of the tools share. Other requests work on the manager at the same
-- time: `others n` is all that they do before the n-th access of this call. What the sessions, the
-- audit client and the operator answer are parameters of a call.
pub mod Input
pub mod Control
pub mod Create
pub mod Dispatch
pub mod Missing
pub mod Settle
mod Tests
use pty_mcp.Base.{
  ℕ, ◌+◌, String, Bool, true, false, Option, none, some, List, [], ◌∷◌, ◌⊎◌, inl, inr, ◌≡◌, refl,
  if◌then◌else◌,
}
use pty_mcp.Base.Int.{ℤ}
use pty_mcp.Buffer.Ring.{RingBuffer}
use pty_mcp.Session.Classifier.{ClassifyResult}
use pty_mcp.Session.Classifier
use pty_mcp.Session.Manager.{
  Session, Kind, Manager, Info, Error, cancelled, Effect, Found, found, missing, get, is_locked,
  set_lock, unlock_session,
}
use pty_mcp.Mcp.WaitFor.{Patterns, Round, WaitForResult}
use pty_mcp.Mcp.Tools.Settle.{Rounds}

-- `audit.CmdEntry`
pub record CmdEntry : Type 0 where
  pub cmd_id : String
  pub at : ℕ
  pub user : String
  pub session_id : String
  pub kind : Kind
  pub target : String
  pub cmd : List ℕ
  pub raw : Bool

-- What a call does outside the manager.
pub data Act : Type 0 where
  writes_raw : Session → List ℕ → Act
  writes : Session → List ℕ → Act
  writes_with_timeout : Session → List ℕ → ℕ → Act
  reads_screen : Session → ℕ → Act
  waits_for : Session → List ℕ → Act
  marks : Session → Act
  -- `waitForSettle`, which only reads: Mcp/Tools/Settle
  settles : Session → Option Bool → Act
  resizes : Session → ℕ → ℕ → Act
  on_session : Effect → Act
  sends_cmd : CmdEntry → Act
  -- `audit.OutputEntry`: the id of the command, the time, the snippet, the number of bytes
  sends_output : String → ℕ → List ℕ → ℕ → Act
  prompts : String → Act

pub data Fault : Type 0 where
  session_error : Error → Fault
  write_failed resize_failed audit_failed secret_failed bad_arguments : String → Fault
  unknown_key : String → Fault
  bad_size too_large gave_up : Fault

pub record Screen : Type 0 where
  pub output : List ℕ
  pub cursor : ℕ
  pub is_alive : Bool
  pub is_complete : Bool

pub record Page : Type 0 where
  pub output : List ℕ
  pub cursor : ℕ
  pub has_more : Bool
  pub is_truncated : Bool
  pub is_alive : Bool

pub record SessionState : Type 0 where
  pub session : Session
  pub info : Option Info
  pub is_alive : Bool
  pub cursor : ℕ
  pub classified : ClassifyResult

pub data Reply : Type 0 where
  failed : Fault → Reply
  screen : Screen → Reply
  screen_since : ℕ → Screen → Reply
  waited : WaitForResult → ℕ → Reply
  page : Page → Reply
  session_state : SessionState → Reply
  sessions : List Info → Reply
  success buffered : Reply
  resized : ℕ → ℕ → Reply
  created : Session → String → Reply

-- `audit.Client`: its user, the error of `SendCmd`, and the snippet of an output; the new id of the
-- command, and the times of the two entries.
pub record AuditClient : Type 0 where
  pub user : String
  pub send_cmd : CmdEntry → Option String
  pub snippet : List ℕ → List ℕ
  pub new_cmd_id : String
  pub sent_at : ℕ
  pub ended_at : ℕ

-- `buffer`, `buffer_on_wait`, `buffer_after`: a session's buffer when the call first looks at it, when
-- `waitForPattern` begins, and when the call takes the cursor for its reply. `settle_rounds`: the clock
-- and the snapshots of the buffer in the rounds of `waitForSettle`.
pub record Env : Type 0 where
  pub now : ℕ
  pub others : ℕ → Manager → Manager
  pub gets_lock : Bool
  pub is_done : ℕ → Bool
  pub audit : Option AuditClient
  pub write_result : Act → Option String
  pub read_screen : Session → ℕ → List ℕ × Bool
  pub buffer : Session → RingBuffer
  pub buffer_on_wait : Session → RingBuffer
  pub buffer_after : Session → RingBuffer
  pub is_alive : Session → Bool
  pub resize_result : Session → ℕ → ℕ → Option String
  pub close_result : Session → Option String
  pub read_secret : String → String ⊎ List ℕ
  pub patterns : Patterns
  pub prompts : Classifier.Patterns
  pub settle_rounds : Session → Rounds
  pub first_round : Round
  pub rounds : List Round

-- The call so far; the newest act first.
pub record State : Type 0 where
  pub mgr : Manager
  pub step : ℕ
  pub acts : List Act

abbrev pub start : Manager → State
start m = record { mgr = m; step = 0; acts = [] }

abbrev pub act : Act → State → State
act a st = record st { acts = a ∷ st.acts }

module _ (env : Env) where
  -- the others take their turn, before an access of this call
  abbrev pub turn : State → State
  turn st = record st { mgr = env.others st.step st.mgr; step = st.step + 1 }

  abbrev pub get_next : String → State → State × Found
  get_next id st =
      let here = turn st in let (m, f) = get here.mgr id env.now in (record here { mgr = m }, f)

  abbrev pub on_found : (Session → State → State × Reply) → State × Found → State × Reply
  on_found body (st, missing e) = (st, failed (session_error e))
  on_found body (st, found s) = body s st

  -- `s, err := h.mgr.Get(p.SessionID)`, with the return of the error
  unfoldable pub with_session : String → (Session → State → State × Reply) → State → State × Reply
  with_session id body st = on_found body (get_next id st)

  abbrev pub unlocked : String → State × Reply → State × Reply
  unlocked id (st, reply) =
      let last = turn st in (record last { mgr = unlock_session last.mgr id }, reply)

  abbrev pub fail_lock : String → State → State
  fail_lock id st = record st { mgr = set_lock st.mgr id (is_locked st.mgr id) }

  abbrev pub take_lock : String → State → State
  take_lock id st = record st { mgr = set_lock st.mgr id true }

  -- `LockSession`, with the return of its error, and the deferred `UnlockSession`
  unfoldable pub with_lock : String → (State → State × Reply) → State → State × Reply
  with_lock id body st =
      let here = turn st in
      let rest = unlocked id (body (take_lock id here)) in
      if env.gets_lock then rest else (fail_lock id here, failed (session_error cancelled))

  -- the beginning of the handlers that fetch the session again once they have its lock
  abbrev pub with_locked_session :
      String → (Session → State → State × Reply) → State → State × Reply
  with_locked_session id body = with_session id (λ queued. with_lock id (with_session id body))

pub Found-cases : (f : Found) → ((e : Error) × (f ≡ missing e)) ⊎ ((s : Session) × (f ≡ found s))
Found-cases (missing e) = inl (e, refl)
Found-cases (found s) = inr (s, refl)
