-- ===== src/Mcp/Serve.antt =====
-- internal/mcp/server.go: the loop of `Serve` and the goroutine that it starts for each request.
-- The reader and the goroutines interleave in any order: each is a step of `Step`. A handler runs
-- between `starts` and `completes`; what it does to sessions is modelled elsewhere. The response is
-- put on `respCh` in the step in which `finish` decides that it is sent; the index of a job stands
-- for its response, and for the address of its in-flight entry.
pub mod Bounds
pub mod Tracked
pub mod Answers
pub mod Settled
pub mod Responses
mod Tests
use pty_mcp.Base.{
  ℕ, ◌+◌, ◌-◌, ◌≡◌, String, Bool, true, false, ◌&&◌, ◌||◌, not, Option, none, some, List, [], ◌∷◌,
  ◌++◌, str_eq, ltb, if◌then◌else◌, length, set, get_elem?,
}
use pty_mcp.Mcp.Inflight.{Inflight, new_registry, add, cancel, finish}

-- `request`, as far as the loop reads it: the raw id, empty for a notification, the method, and
-- what decoding the parameters as `cancelParams` gives.
pub record CancelParams : Type 0 where
  pub request_id : String
  pub id : String

pub record Request : Type 0 where
  pub id : String
  pub method : String
  pub cancel_params : Option CancelParams

pub data Line : Type 0 where
  blank garbled : Line
  message : Request → Line

-- Where a goroutine stands: before its test of `ctx.Err()`, at the select, in the handler, done.
pub data Phase : Type 0 where
  spawned queued running ended : Phase

pub record Job : Type 0 where
  pub key : String
  pub phase : Phase

pub record Serving : Type 0 where
  pub registry : Inflight
  pub jobs : List Job
  pub used : ℕ
  pub sent : List ℕ

abbrev pub max_concurrent_tool_calls : ℕ
max_concurrent_tool_calls = 32

pub initial : Serving
initial = record { registry = new_registry; jobs = []; used = 0; sent = [] }

-- `len(req.ID) == 0`
abbrev pub is_notification : String → Bool
is_notification id = str_eq id ""

abbrev pub is_cancel : String → Bool
is_cancel method = str_eq method "notifications/cancelled" || str_eq method "$/cancelRequest"

-- the key of `handleCancellation`
abbrev pub cancel_key : CancelParams → String
cancel_key p = if str_eq p.request_id "" then p.id else p.request_id

pub handle_cancellation : Inflight → Option CancelParams → Inflight
handle_cancellation r none = r
handle_cancellation r (some p) =
    if str_eq (cancel_key p) "" || str_eq (cancel_key p) "null" then r else cancel r (cancel_key p)

pub spawn : Serving → String → Serving
spawn s id = record s {
  registry = if is_notification id then s.registry else add s.registry id (length s.jobs);
  jobs = s.jobs ++ record { key = id; phase = spawned } ∷ [];
}

-- the body of the reader's loop
pub on_request : Serving → Request → Serving
on_request s req =
    if is_cancel req.method
    then record s { registry = handle_cancellation s.registry req.cancel_params }
    else spawn s req.id

pub on_line : Serving → Line → Serving
on_line s blank = s
on_line s garbled = s
on_line s (message req) = on_request s req

-- `ctx.Err() != nil`: only a cancelled entry ends a request's context before it returns.
abbrev pub is_done : Serving → ℕ → Job → Bool
is_done s i job = not (is_notification job.key) && s.registry.marked i

pub set_phase : Serving → ℕ → Job → Phase → Serving
set_phase s i job p = record s { jobs = set s.jobs i (record job { phase = p }) }

-- the early returns: `finish`, and no handler
pub leave : Serving → ℕ → Job → Serving
unfolding set_phase
leave s i job = record (set_phase s i job ended) {
  registry = if is_notification job.key then s.registry else (finish s.registry job.key i).0;
}

-- the test before the select
pub check : Serving → ℕ → Job → Serving
check s i job = if is_done s i job then leave s i job else set_phase s i job queued

-- `sem <- struct{}{}`
pub start : Serving → ℕ → Job → Serving
unfolding set_phase
start s i job = record (set_phase s i job running) { used = s.used + 1 }

-- from the handler's return on
pub complete : Serving → ℕ → Job → Serving
unfolding set_phase
complete s i job =
    let done = record (set_phase s i job ended) { used = s.used - 1 } in
    if is_notification job.key
    then done
    else (let (r, was_cancelled) = finish s.registry job.key i in
        record done { registry = r; sent = if was_cancelled then s.sent else i ∷ s.sent })

pub data Step : Serving → Serving → Type 0 where
  reads : (s : Serving) (l : Line) → Step s (on_line s l)
  checks :
      (s : Serving) (i : ℕ) (job : Job)
      → get_elem? s.jobs i ≡ some job
      → job.phase ≡ spawned
      → Step s (check s i job)
  starts :
      (s : Serving) (i : ℕ) (job : Job)
      → get_elem? s.jobs i ≡ some job
      → job.phase ≡ queued
      → ltb s.used max_concurrent_tool_calls ≡ true
      → Step s (start s i job)
  gives_up :
      (s : Serving) (i : ℕ) (job : Job)
      → get_elem? s.jobs i ≡ some job
      → job.phase ≡ queued
      → is_done s i job ≡ true
      → Step s (leave s i job)
  completes :
      (s : Serving) (i : ℕ) (job : Job)
      → get_elem? s.jobs i ≡ some job
      → job.phase ≡ running
      → Step s (complete s i job)

pub data Reach (s : Serving) : Serving → Type 0 where
  here : Reach s s
  next : {t u : Serving} → Reach s t → Step t u → Reach s u
