-- ===== src/Mcp/Http/Sessions.antt =====
-- The sessions of the transport and their time to live.
use pty_mcp.Base.{
  ℕ, ◌+◌, ◌≡◌, refl, ap, ◌∙◌, String, Bool, false, not, Option, none, some, List, leb, str_eq,
  arith, Bool-cases, inl, inr,
}
use pty_mcp.Base.Dict.{lookup, remove, retain, lookup-insert_self, lookup-remove_self}
use pty_mcp.Mcp.Serve.{Request}
use pty_mcp.Mcp.Http.{
  Transport, http_session_ttl, is_expired, new_session, session_valid, HttpRequest, Answer, status,
  DispatchEnv, post_messages, handle_delete, deleted, refused,
}

-- A session id that was given out is valid for half an hour, and not afterwards.
pub session_valid-new_session :
    (t : Transport) (sid : String) (now later : ℕ)
    → (session_valid (new_session t sid now) sid later).1 ≡ leb later (now + http_session_ttl)
unfolding session_valid new_session
session_valid-new_session t sid now later =
    rw (lookup-insert_self (retain (λ id created. not (is_expired now created)) t.sessions) sid now)
      (elim (Bool-cases (is_expired later now)) [
        | inl old ↦ rw old (ground (arith, old))
        | inr fresh ↦ rw fresh (ground (arith, fresh))
      ])

unknown_session :
    {R : Type 0} (env : ℕ → DispatchEnv R) (now : ℕ) (id : String) (t : Transport)
    (req : HttpRequest) (is_batch : Bool) (messages : List (Option Request))
    → str_eq req.session_header "" ≡ false
    → lookup t.sessions req.session_header ≡ none
    → post_messages env now id t req is_batch messages ≡ refused env now id t (status 404)
unfolding post_messages session_valid
unknown_session env now id t req is_batch messages named e = rw (named, e) refl

deleted_transport :
    {R : Type 0} (env : ℕ → DispatchEnv R) (now : ℕ) (id : String) (t : Transport)
    (req : HttpRequest)
    → str_eq req.session_header "" ≡ false
    → (handle_delete env now id t req).transport
      ≡ record t { sessions = remove t.sessions req.session_header }
unfolding handle_delete
deleted_transport env now id t req named =
    rw named (by_entry (lookup t.sessions req.session_header))
  where
    by_entry :
        (o : Option ℕ)
        → (deleted env now id t req.session_header o).transport
          ≡ record t { sessions = remove t.sessions req.session_header }
    by_entry none = refl
    by_entry (some created) = refl

-- A session that is deleted is known no more: whatever is posted in its name gets the status 404,
-- whenever it comes; no message of it is dispatched, and nothing changes.
pub post_messages-handle_delete :
    {R : Type 0} (env env' : ℕ → DispatchEnv R) (now later : ℕ) (id id' : String) (t : Transport)
    (req req' : HttpRequest) (is_batch : Bool) (messages : List (Option Request))
    → str_eq req.session_header "" ≡ false
    → req'.session_header ≡ req.session_header
    → let after = (handle_delete env now id t req).transport in
      let answer = post_messages env' later id' after req' is_batch messages in
      (answer.response ≡ status 404) × (answer.transport ≡ after)
post_messages-handle_delete env env' now later id id' t req req' is_batch messages named same =
    let after = (handle_delete env now id t req).transport in
    let gone : lookup after.sessions req'.session_header ≡ none =
      rw (deleted_transport env now id t req named, same)
        (lookup-remove_self t.sessions req.session_header) in
    let e =
      unknown_session env' later id' after req' is_batch messages
        (ap (λ h. str_eq h "") same ∙ named) gone in
    (ap (λ (a : Answer _). a.response) e, ap (λ (a : Answer _). a.transport) e)
