-- ===== src/Mcp/Tools/Create/Orphans.antt =====
-- What becomes of a session that a create handler has brought up, and of the log file.
use pty_mcp.Base.{
  ℕ, ◌+◌, ◌≡◌, ◌⊎◌, inl, inr, refl, ◌∙◌, String, Bool, true, false, Bool-cases, Option-cases,
  Option, none, some, List, [], ◌∷◌, leb, str_eq, if◌then◌else◌,
}
use pty_mcp.Base.Dict.{lookup, size, lookup-insert_self}
use pty_mcp.Session.Manager.{
  Session, Manager, missing, not_found, closes, get, found_session, add, max_sessions,
  limit_reached,
}
use pty_mcp.Session.Manager.Lifecycle.{close_between-gone}
use pty_mcp.Mcp.Tools.{Env, State, Act, on_session, turn}
use pty_mcp.Mcp.Tools.Create.{
  Created, created, failed, CreateFault, refused, gave_up, log_failed, open_failed, LogAct,
  opens_log, closes_log, Outcome, register, closed_again, CreateSshParams, Opened, constructed,
  ssh_constructed, is_persistent, with_log, create_local_session, create_serial_session,
  create_ssh_session,
}

-- no call of `Get` finds the id
abbrev pub Unknown : Manager → String → Type 0
Unknown m id = (now : ℕ) → (get m id now).1 ≡ missing (not_found id)

-- A new session is reported to the caller, known to the manager and open; or the call fails, and the
-- session is closed and not known to the manager.
pub data Accounted (s : Session) (target : String) (before : List Act)
    : State → Created → Type 0 where
  registered :
      (st : State)
      → lookup st.mgr.sessions s.id ≡ some s
      → st.acts ≡ before
      → Accounted s target before st (created s target)
  closed :
      (st : State) (f : CreateFault)
      → Unknown st.mgr s.id
      → st.acts ≡ on_session (closes s) ∷ before
      → Accounted s target before st (failed f)

none-Unknown : (m : Manager) (id : String) → lookup m.sessions id ≡ none → Unknown m id
unfolding get found_session
none-Unknown m id e now = rw e refl

module _ (env : Env) (s : Session) (target : String)
    (keeps : (n : ℕ) (m : Manager)
      → lookup (env.others n m).sessions s.id ≡ lookup m.sessions s.id) where
  closed_again-closes :
      (st : State)
      → lookup st.mgr.sessions s.id ≡ some s
      → Unknown (closed_again env s st).mgr s.id
        × ((closed_again env s st).acts ≡ on_session (closes s) ∷ st.acts)
  closed_again-closes st known =
      let here = turn env st in
      let (gone, closing) =
        close_between-gone (env.others here.step) here.mgr env.close_result s.id s
          (keeps st.step st.mgr ∙ known) (keeps here.step) in
      rw closing (none-Unknown _ s.id gone, refl)

  closed_late :
      (st : State)
      → lookup st.mgr.sessions s.id ≡ some s
      → Accounted s target st.acts (closed_again env s st) (failed gave_up)
  closed_late st known =
      let (gone, done) = closed_again-closes st known in
      closed (closed_again env s st) gave_up gone done

  pub register-Accounted :
      (log : List LogAct) (st : State)
      → lookup st.mgr.sessions s.id ≡ none
      → Accounted s target st.acts
          (register env s target log st).state
          (register env s target log st).result
  unfolding register add
  register-Accounted log st fresh = elim (Bool-cases (env.is_done st.step)) [
    | inl done ↦ rw done (closed _ gave_up (none-Unknown st.mgr s.id fresh) refl)
    | inr goes_on ↦ elim (Bool-cases (leb max_sessions (size (turn env st).mgr.sessions))) [
      | inl full ↦
          rw (goes_on, full)
            (closed _ (refused limit_reached)
              (none-Unknown (turn env st).mgr s.id (keeps st.step st.mgr ∙ fresh)) refl)
      | inr room ↦ elim (Bool-cases (env.is_done (st.step + 1))) [
        | inl late ↦
            rw (goes_on, room, late)
              (closed_late _ (lookup-insert_self (turn env st).mgr.sessions s.id s))
        | inr in_time ↦
            rw (goes_on, room, in_time)
              (registered _ (lookup-insert_self (turn env st).mgr.sessions s.id s) refl)
      ]
    ]
  ]

-- The log file has been closed again if it was opened.
abbrev pub IsBalanced : List LogAct → Type 0
IsBalanced log = (log ≡ []) ⊎ (log ≡ closes_log ∷ opens_log ∷ [])

-- How a create handler ends: without a log file; without a session, the log file closed; with a session
-- that is accounted for.
pub data Finished (st : State) (target : String) : String ⊎ Session → Outcome → Type 0 where
  no_log :
      (e : String) (u : String ⊎ Session)
      → Finished st target u (record { state = st; log = []; result = failed (log_failed e) })
  not_up :
      (e : String) (log : List LogAct)
      → IsBalanced log
      → Finished st target
          (inl e)
          (record { state = st; log = log; result = failed (open_failed e) })
  up :
      (s : Session) (o : Outcome)
      → Accounted s target st.acts o.state o.result
      → Finished st target (inr s) o

module _ (env : Env) (st : State) (new_session : String ⊎ Session)
    (fresh : (s : Session) → new_session ≡ inr s → lookup st.mgr.sessions s.id ≡ none)
    (keeps : (s : Session)
      → new_session ≡ inr s
      → (n : ℕ) (m : Manager)
      → lookup (env.others n m).sessions s.id ≡ lookup m.sessions s.id) where
  constructed-Finished :
      (target : String) (log : List LogAct) (has_log : Bool) (u : String ⊎ Session)
      → new_session ≡ u
      → IsBalanced (if has_log then closes_log ∷ log else log)
      → Finished st target u (constructed env target log has_log u st)
  constructed-Finished target log has_log (inl e) same balanced = not_up e _ balanced
  constructed-Finished target log has_log (inr s) same balanced =
      up s _ (register-Accounted env s target (keeps s same) log st (fresh s same))

  with_log-Finished :
      (target file : String) (fault : Option String) (body : List LogAct → Bool → State → Outcome)
      → ((log : List LogAct) (has_log : Bool)
          → IsBalanced (if has_log then closes_log ∷ log else log)
          → Finished st target new_session (body log has_log st))
      → Finished st target new_session (with_log env file fault body st)
  with_log-Finished target file fault body h = elim (Bool-cases (str_eq file "")) [
    | inl unnamed ↦ rw unnamed (h [] false (inl refl))
    | inr named ↦ elim (Option-cases fault) [
      | inl fine ↦ rw (named, fine) (h (opens_log ∷ []) true (inr refl))
      | inr (e, bad) ↦ rw (named, bad) (no_log e new_session)
    ]
  ]

  ssh_constructed-Finished :
      (p : CreateSshParams) (log : List LogAct) (has_log : Bool)
      → IsBalanced (if has_log then closes_log ∷ log else log)
      → Finished st p.user_at_host new_session (ssh_constructed env p new_session log has_log st)
  ssh_constructed-Finished p log has_log balanced = elim (Bool-cases (is_persistent env p)) [
    | inl far ↦ rw far (
        constructed-Finished p.user_at_host (if has_log then closes_log ∷ log else log) false
          new_session refl balanced)
    | inr near ↦ rw near (constructed-Finished p.user_at_host log has_log new_session refl balanced)
  ]

  -- How each of the three create handlers ends, if the new session's id is new to the manager and
  -- the other requests leave it alone: the log file cannot be opened and nothing was done; or the
  -- constructor fails, and the log file is closed if it was opened; or the new session is
  -- reported and registered, and nothing was closed; or the call fails, and the session is
  -- closed, once, and not registered.
  pub create-Finished :
      (fault : Option String) (command log_file device : String) (p : CreateSshParams)
      → let opened : Opened = record { open_log = fault; new_session = new_session } in
        Finished st
          (if str_eq command "" then "/bin/bash" else command)
          new_session
          (create_local_session env command log_file opened st)
        × Finished st device new_session (create_serial_session env device log_file opened st)
        × Finished st p.user_at_host new_session (create_ssh_session env p opened st)
  unfolding create_local_session create_serial_session create_ssh_session
  create-Finished fault command log_file device p = (
    with_log-Finished (if str_eq command "" then "/bin/bash" else command) log_file fault
        (λ log has_log.
          constructed env (if str_eq command "" then "/bin/bash" else command) log has_log
            new_session)
        (λ log has_log. constructed-Finished _ log has_log new_session refl),
    with_log-Finished device log_file fault
        (λ log has_log. constructed env device log has_log new_session)
        (λ log has_log. constructed-Finished device log has_log new_session refl),
    with_log-Finished p.user_at_host p.log_file fault (ssh_constructed env p new_session)
        (ssh_constructed-Finished p),
  )
