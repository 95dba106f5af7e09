-- ===== src/Mcp/Tools/Create.antt =====
-- internal/mcp/tools.go: `CreateSSHSession`, `CreateLocalSession`, `CreateSerialSession`,
-- `ListRemoteSessions`. The log writer and the new session are what `openLogWriter` and the session's
-- constructor return.
pub mod Orphans
use pty_mcp.Base.{
  ℕ, ◌+◌, String, Bool, true, false, ◌||◌, not, Option, none, some, List, [], ◌∷◌, ◌⊎◌, inl, inr,
  str_eq, if◌then◌else◌,
}
use pty_mcp.Session.Manager.{Session, Manager, Error, Effect, closes, add, close_between}
use pty_mcp.Mcp.Tools.{Env, State, turn, act, on_session}

pub data CreateFault : Type 0 where
  log_failed open_failed : String → CreateFault
  refused : Error → CreateFault
  gave_up : CreateFault

pub data Created : Type 0 where
  created : Session → String → Created
  failed : CreateFault → Created

-- What the call does with the log file before a session owns it, and to sessions.
pub data LogAct : Type 0 where
  opens_log closes_log : LogAct

pub record Outcome : Type 0 where
  pub state : State
  pub log : List LogAct
  pub result : Created

-- the parameters that the choice of the constructor depends on
pub record CreateSshParams : Type 0 where
  pub user_at_host : String
  pub persistent : Bool
  pub session_id : String
  pub log_file : String

-- `open_log`: an error, if the file cannot be opened; `constructor`: an error, or the new session.
pub record Opened : Type 0 where
  pub open_log : Option String
  pub new_session : String ⊎ Session

module _ (env : Env) where
  abbrev pub act_all : List Effect → State → State
  act_all [] st = st
  act_all (e ∷ es) st = act_all es (act (on_session e) st)

  abbrev pub closed_again : Session → State → State
  closed_again s st =
      let here = turn env st in
      let (m, result, effects) =
        close_between (env.others here.step) here.mgr env.close_result s.id in
      act_all effects (record here { mgr = m; step = here.step + 1 })

  abbrev pub after_add :
      Session → String → List LogAct → State → Manager × Option Error × List Effect → Outcome
  after_add s target log st (m, some e, effects) = record {
    state = act_all effects (record st { mgr = m });
    log = log;
    result = failed (refused e);
  }
  after_add s target log st (m, none, effects) =
      let added = act_all effects (record st { mgr = m }) in
      if env.is_done added.step
      then (record { state = closed_again s added; log = log; result = failed gave_up })
      else (record { state = added; log = log; result = created s target })

  -- from the first test of the context on
  pub register : Session → String → List LogAct → State → Outcome
  register s target log st =
      let here = turn env st in
      let added = after_add s target log here (add here.mgr s target env.now) in
      if env.is_done st.step
      then (record { state = act (on_session (closes s)) st; log = log; result = failed gave_up })
      else added

  -- The constructor's error closes the log file, if there is one still open.
  abbrev pub constructed : String → List LogAct → Bool → String ⊎ Session → State → Outcome
  constructed target log has_log (inl e) st = record {
    state = st;
    log = if has_log then closes_log ∷ log else log;
    result = failed (open_failed e);
  }
  constructed target log has_log (inr s) st = register s target log st

  abbrev pub log_opened : (List LogAct → Bool → State → Outcome) → Option String → State → Outcome
  log_opened body (some e) st = record { state = st; log = []; result = failed (log_failed e) }
  log_opened body none st = body (opens_log ∷ []) true st

  -- `openLogWriter`, with the return of its error; an empty name means no log
  abbrev pub with_log :
      String → Option String → (List LogAct → Bool → State → Outcome) → State → Outcome
  with_log file fault body st =
      let without = body [] false st in
      let opened = log_opened body fault st in if str_eq file "" then without else opened

  -- `CreateLocalSession`; `command` with its default is the target
  unfoldable pub create_local_session : String → String → Opened → State → Outcome
  unfolding register
  create_local_session command log_file opened =
      let target = if str_eq command "" then "/bin/bash" else command in
      with_log log_file opened.open_log
        (λ log has_log. constructed target log has_log opened.new_session)

  -- `CreateSerialSession`, for device@rate
  unfoldable pub create_serial_session : String → String → Opened → State → Outcome
  unfolding register
  create_serial_session target log_file opened =
      with_log log_file opened.open_log
        (λ log has_log. constructed target log has_log opened.new_session)

  -- `CreateSSHSession`: a remote session has no log, so an open one is closed first
  abbrev pub is_persistent : CreateSshParams → Bool
  is_persistent p = p.persistent || not (str_eq p.session_id "")

  abbrev pub ssh_constructed :
      CreateSshParams → String ⊎ Session → List LogAct → Bool → State → Outcome
  ssh_constructed p new_session log has_log st =
      if is_persistent p
      then constructed p.user_at_host (if has_log then closes_log ∷ log else log) false new_session
          st
      else constructed p.user_at_host log has_log new_session st

  unfoldable pub create_ssh_session : CreateSshParams → Opened → State → Outcome
  unfolding register
  create_ssh_session p opened =
      with_log p.log_file opened.open_log (ssh_constructed p opened.new_session)

-- `ListRemoteSessions`, of the sessions that the host reports: the status of each, if it has one
pub has_status : String → Option String → Bool
has_status status none = false
has_status status (some s) = str_eq s status

pub list_remote_sessions {ℓ} :
    {A : Type ℓ} → String → List (Option String × A) → List (Option String × A)
unfolding has_status
list_remote_sessions status [] = []
list_remote_sessions status (s ∷ sessions) =
    let rest = list_remote_sessions status sessions in
    if str_eq status "" then s ∷ sessions else if has_status status s.0 then s ∷ rest else rest
