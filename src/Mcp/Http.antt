-- ===== src/Mcp/Http.antt =====
-- internal/mcp/http.go: `httpTransport`. Header values that the code compares as bytes are lists of
-- bytes. What other requests do to the registry while one is dispatched is an argument, and so are the
-- results of the handler and of the select on the semaphore. Times are in seconds.
pub mod Scopes
pub mod Sessions
pub mod Access
mod Tests
use Prim.Native.Char.{nul}
use pty_mcp.Base.{
  ℕ, ◌+◌, ◌≡◌, String, Bool, true, false, ◌&&◌, ◌||◌, not, Option, none, some, List, [], ◌∷◌, ◌++◌,
  ltb, str_eq, ◌==◌, if◌then◌else◌,
}
use pty_mcp.Base.Dict.{Dict, empty, lookup, insert, remove, retain}
use pty_mcp.Text.{codes, cut_prefix, bytes_eq, contains}
use pty_mcp.Mcp.Inflight.{Inflight, new_registry, add, cancel, finish}
use pty_mcp.Mcp.Serve.{CancelParams, Request, is_notification, is_cancel, cancel_key}

pub record Transport : Type 0 where
  pub token : List ℕ
  pub inflight : Inflight
  pub sessions : Dict ℕ

unfoldable pub new_transport : List ℕ → Transport
new_transport token = record { token = token; inflight = new_registry; sessions = empty }

abbrev pub http_session_ttl : ℕ
http_session_ttl = 1800

abbrev pub is_no_token : List ℕ → Bool
is_no_token [] = true
is_no_token (c ∷ s) = false

abbrev pub bearer_is : List ℕ → Option (List ℕ) → Bool
bearer_is token none = false
bearer_is token (some given) = bytes_eq given token

pub authorized : Transport → List ℕ → Bool
authorized t auth =
    if is_no_token t.token then true else bearer_is t.token (cut_prefix (codes "Bearer ") auth)

-- `time.Since(created) > httpSessionTTL`
abbrev pub is_expired : ℕ → ℕ → Bool
is_expired now created = ltb (created + http_session_ttl) now

-- `newSession`, with the random id
pub new_session : Transport → String → ℕ → Transport
new_session t sid now = record t {
  sessions = insert (retain (λ id created. not (is_expired now created)) t.sessions) sid now;
}

abbrev pub check_created : Transport → String → ℕ → Option ℕ → Transport × Bool
check_created t sid now none = (t, false)
check_created t sid now (some created) =
    if is_expired now created
    then (record t { sessions = remove t.sessions sid }, false)
    else (t, true)

-- `sessionValid`
pub session_valid : Transport → String → ℕ → Transport × Bool
session_valid t sid now = check_created t sid now (lookup t.sessions sid)

-- scope + "\x00" + id
pub scoped_key : String → String → String
scoped_key String.[] id = String.◌∷◌ nul id
scoped_key (String.◌∷◌ c s) id = String.◌∷◌ c (scoped_key s id)

-- `cancelScoped`
pub cancel_scoped : Inflight → String → Option CancelParams → Inflight
cancel_scoped r scope none = r
cancel_scoped r scope (some p) =
    if str_eq (cancel_key p) "" || str_eq (cancel_key p) "null"
    then r
    else cancel r (scoped_key scope (cancel_key p))

pub data Reply (R : Type 0) : Type 0 where
  parse_error : Reply R
  reply : R → Reply R

-- One dispatch: the address of its entry, whether the select took a slot, what other requests do
-- before it and while the handler runs, and what `handle` returns.
pub record DispatchEnv (R : Type 0) : Type 0 where
  pub entry : ℕ
  pub got_slot : Bool
  pub before : Inflight → Inflight
  pub meanwhile : Inflight → Inflight
  pub handle : Request → R

module _ {R : Type 0} where
  abbrev pub finished : DispatchEnv R → Request → Inflight × Bool → Inflight × Option R
  finished env req (r, was_cancelled) = (r, if was_cancelled then none else some (env.handle req))

  -- `dispatch`
  pub dispatch : DispatchEnv R → Inflight → String → Request → Inflight × Option R
  dispatch env r scope req =
      if is_cancel req.method
      then (cancel_scoped r scope req.cancel_params, none)
      else if is_notification req.id
      then (if env.got_slot then env.meanwhile (env.before r) else env.before r, none)
      else (let key = scoped_key scope req.id in
          let waiting = env.before (add r key env.entry) in
          if env.got_slot
          then finished env req (finish (env.meanwhile waiting) key env.entry)
          else ((finish waiting key env.entry).0, none))

  abbrev pub with_reply : Option R → List (Reply R) → List (Reply R)
  with_reply none rest = rest
  with_reply (some r) rest = reply r ∷ rest

  -- the loop over the messages; none is one that is not valid JSON
  pub run_messages :
      (ℕ → DispatchEnv R)
      → ℕ
      → Inflight
      → String
      → List (Option Request)
      → Inflight × List (Reply R)
  unfolding dispatch
  run_messages env i r scope [] = (r, [])
  run_messages env i r scope (none ∷ messages) =
      let (r', rest) = run_messages env (i + 1) r scope messages in (r', parse_error ∷ rest)
  run_messages env i r scope (some req ∷ messages) =
      let (next, response) = dispatch (env i) r scope req in
      let (r', rest) = run_messages env (i + 1) next scope messages in
      (r', with_reply response rest)

abbrev pub is_initialize : Option Request → Bool
is_initialize none = false
is_initialize (some req) = str_eq req.method "initialize"

pub saw_initialize : List (Option Request) → Bool
saw_initialize [] = false
saw_initialize (m ∷ messages) = is_initialize m || saw_initialize messages

-- The body: not readable, blank, a batch that is not valid, or messages.
pub data Body : Type 0 where
  unreadable blank bad_batch : Body
  single : Option Request → Body
  batch : List (Option Request) → Body

pub data HttpResponse (R : Type 0) : Type 0 where
  status : ℕ → HttpResponse R
  rpc_parse_error : HttpResponse R
  replies : List (Reply R) → Bool → Bool → HttpResponse R

-- `wantsSSE`
pub wants_sse : List ℕ → Bool
wants_sse accept =
    contains accept (codes "text/event-stream") && not (contains accept (codes "application/json"))

pub record HttpRequest : Type 0 where
  pub method : String
  pub authorization : List ℕ
  pub session_header : String
  pub accept : List ℕ
  pub body : Body

-- What `ServeHTTP` leaves and answers, and the session id that it sets in the response's header.
pub record Answer (R : Type 0) : Type 0 where
  pub transport : Transport
  pub response : HttpResponse R
  pub new_id : Option String

module _ {R : Type 0} (env : ℕ → DispatchEnv R) (now : ℕ) (random_id : String) where
  abbrev pub refused : Transport → HttpResponse R → Answer R
  refused t r = record { transport = t; response = r; new_id = none }

  -- `w.WriteHeader(http.StatusAccepted)`, `writeSSE` or `writeJSON`
  abbrev pub respond : HttpRequest → Bool → List (Reply R) → HttpResponse R
  respond req is_batch [] = status 202
  respond req is_batch (r ∷ rs) = replies (r ∷ rs) (wants_sse req.accept) is_batch

  abbrev pub run_post : Transport → HttpRequest → Bool → List (Option Request) → Answer R
  run_post t req is_batch messages =
      let (inflight, rs) = run_messages env 0 t.inflight req.session_header messages in
      let done : Transport = record t { inflight = inflight } in
      if str_eq req.session_header "" && saw_initialize messages
      then (record {
        transport = new_session done random_id now;
        response = respond req is_batch rs;
        new_id = some random_id;
      })
      else (record { transport = done; response = respond req is_batch rs; new_id = none })

  abbrev pub checked_post : Transport × Bool → HttpRequest → Bool → List (Option Request) → Answer R
  checked_post (t, known) req is_batch messages =
      if known then run_post t req is_batch messages else refused t (status 404)

  -- `sid != "" && !t.sessionValid(sid)`
  pub post_messages : Transport → HttpRequest → Bool → List (Option Request) → Answer R
  post_messages t req is_batch messages =
      if str_eq req.session_header ""
      then run_post t req is_batch messages
      else checked_post (session_valid t req.session_header now) req is_batch messages

  abbrev pub handle_post : Transport → HttpRequest → Body → Answer R
  handle_post t req unreadable = refused t (status 400)
  handle_post t req blank = refused t (status 400)
  handle_post t req bad_batch = refused t rpc_parse_error
  handle_post t req (single m) = post_messages t req false (m ∷ [])
  handle_post t req (batch ms) = post_messages t req true ms

  abbrev pub deleted : Transport → String → Option ℕ → Answer R
  deleted t sid none = refused (record t { sessions = remove t.sessions sid }) (status 404)
  deleted t sid (some created) =
      refused (record t { sessions = remove t.sessions sid }) (status 204)

  pub handle_delete : Transport → HttpRequest → Answer R
  handle_delete t req =
      if str_eq req.session_header ""
      then refused t (status 400)
      else deleted t req.session_header (lookup t.sessions req.session_header)

  pub serve_http : Transport → HttpRequest → Answer R
  serve_http t req =
      if not (authorized t req.authorization)
      then refused t (status 401)
      else if str_eq req.method "POST"
      then handle_post t req req.body
      else if str_eq req.method "DELETE"
      then handle_delete t req
      else refused t (status 405)
