-- ===== src/Mcp/Tools/Missing.antt =====
-- Calls for a session that the manager does not have, or no longer has once the call holds its lock.
use pty_mcp.Base.{ℕ, ◌≡◌, refl, String, true, false, none, some, List, []}
use pty_mcp.Base.Dict.{lookup}
use pty_mcp.Session.Manager.{Session, Manager, not_found, get, found_session, is_locked}
use pty_mcp.Session.Manager.Locks.{is_locked-unlock_session}
use pty_mcp.Aitx.Keys.{control_keys, key_bytes}
use pty_mcp.Mcp.Tools.{
  session_error, Reply, failed, Env, State, start, with_session, with_lock, with_locked_session,
}
use pty_mcp.Mcp.Tools.Input.{SendInputParams, send_input}
use pty_mcp.Mcp.Tools.Control.{
  ReadOutputParams, read_output, send_control, get_session_state, close_session, detach_session,
  prepare_secret, send_secret,
}

-- The call fails because there is no such session; it has written to no session and prompted nobody.
abbrev pub Refuses : String → Manager → State × Reply → Type 0
Refuses id m (st, reply) =
    (reply ≡ failed (session_error (not_found id))) × (st.acts ≡ []) × (st.mgr ≡ m)

module _ (env : Env) (m : Manager) (id : String) where
  with_session-Refuses :
      (body : Session → State → State × Reply)
      → lookup (env.others 0 m).sessions id ≡ none
      → Refuses id (env.others 0 m) (with_session env id body (start m))
  unfolding with_session get found_session
  with_session-Refuses body e = rw e (refl, refl, refl)

  -- A call of send_input, read_output, get_session_state, close_session, detach_session,
  -- prepare_secret or send_secret for an id that the manager does not have fails with that error,
  -- does nothing to any session, prompts nobody and leaves the manager as the others left it, so
  -- that its map of locks does not grow.
  pub handlers-Refuse :
      (input : SendInputParams) (read : ReadOutputParams) (prompt : String) (ending : List ℕ)
      → input.session_id ≡ id
      → read.session_id ≡ id
      → lookup (env.others 0 m).sessions id ≡ none
      → Refuses id (env.others 0 m) (send_input env input (start m))
        × Refuses id (env.others 0 m) (read_output env read (start m))
        × Refuses id (env.others 0 m) (get_session_state env id (start m))
        × Refuses id (env.others 0 m) (close_session env id (start m))
        × Refuses id (env.others 0 m) (detach_session env id (start m))
        × Refuses id (env.others 0 m) (prepare_secret env id prompt ending (start m))
        × Refuses id (env.others 0 m) (send_secret env id prompt (start m))
  unfolding send_input read_output get_session_state close_session detach_session prepare_secret
      send_secret
  handlers-Refuse input read prompt ending same same' e = (
    rw same (with_session-Refuses _ e),
    rw same' (with_session-Refuses _ e),
    with_session-Refuses _ e,
    with_session-Refuses _ e,
    with_session-Refuses _ e,
    with_session-Refuses _ e,
    with_session-Refuses _ e,
  )

-- The call fails because there is no such session; nothing was done to any session, and the lock is free.
abbrev pub Released : String → State × Reply → Type 0
Released id (st, reply) =
    (reply ≡ failed (session_error (not_found id))) × (st.acts ≡ []) × (is_locked st.mgr id ≡ false)

module _ (env : Env) (m : Manager) (id : String) (locked : env.gets_lock ≡ true) (s : Session)
    (known : lookup (env.others 0 m).sessions id ≡ some s)
    (closed : (m' : Manager) → lookup (env.others 2 m').sessions id ≡ none) where
  with_locked_session-Released :
      (body : Session → State → State × Reply)
      → Released id (with_locked_session env id body (start m))
  unfolding with_session with_lock get found_session
  with_locked_session-Released body =
      rw (known, locked) (rw (closed _) (refl, refl, is_locked-unlock_session _ id))

  -- A call of read_output, send_control with a known key, prepare_secret or send_secret whose
  -- session is closed by others while it waits for the lock, and which then gets the lock, fails
  -- with not found, does nothing to the session and prompts nobody, and frees the lock.
  pub handlers-Release :
      (read : ReadOutputParams) (key prompt : String) (bytes ending : List ℕ)
      → read.session_id ≡ id
      → key_bytes control_keys key ≡ some bytes
      → Released id (read_output env read (start m))
        × Released id (send_control env id key (start m))
        × Released id (prepare_secret env id prompt ending (start m))
        × Released id (send_secret env id prompt (start m))
  unfolding read_output send_control prepare_secret send_secret
  handlers-Release read key prompt bytes ending same is_key = (
    rw same (with_locked_session-Released _),
    rw is_key (with_locked_session-Released _),
    with_locked_session-Released _,
    with_locked_session-Released _,
  )
