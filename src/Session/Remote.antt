-- ===== src/Session/Remote.antt =====
-- internal/session/remote.go: type `RemoteSession`. What comes back over the connection is an argument of each
-- call; what is sent is returned. The output of the last write is kept for the next `ReadScreen`.
pub mod Delivery
pub mod Once
pub mod Open
mod Tests
use pty_mcp.Base.{
  ℕ, ◌+◌, String, Bool, true, false, not, Option, none, some, List, [], ◌∷◌, ◌++◌, ◌⊎◌, inl, inr,
  if◌then◌else◌,
}
use pty_mcp.Base.Int.{ℤ, pos}
use pty_mcp.Buffer.Ring.{RingBuffer, write}
use pty_mcp.Aitx.Server.{OutputResult}
use pty_mcp.Aitx.Keys.{RawCall, send_control, send_raw, raw_call}

pub record RemoteSession : Type 0 where
  pub session_id : String
  pub alive : Bool
  pub is_closed : Bool
  pub req_id : ℕ
  pub cached_out : Option OutputResult
  pub local_buf : RingBuffer
  pub is_polling : Bool

-- how an exchange on the connection ends
pub data Answer (R : Type 0) : Type 0 where
  write_fails : String → Answer R
  connection_closed : Answer R
  bad_response : String → Answer R
  remote_error : String → Answer R
  result : R → Answer R

pub data Error : Type 0 where
  not_alive write_request read_response : Error
  parse_response remote : String → Error

pub data Request : Type 0 where
  send_input : String → List ℕ → ℕ → Request
  raw : String → RawCall → Request
  read_output : String → ℤ → Request
  close_session : String → Request
  resize_session : String → ℕ → ℕ → Request

module _ {R : Type 0} where
  -- `call`, after it has counted and written the request
  abbrev received : RemoteSession → Answer R → RemoteSession × (Error ⊎ R)
  received r (write_fails e) = (record r { alive = false }, inl write_request)
  received r connection_closed = (record r { alive = false }, inl read_response)
  received r (bad_response e) = (r, inl (parse_response e))
  received r (remote_error e) = (r, inl (remote e))
  received r (result x) = (r, inr x)

  unfoldable pub call : RemoteSession → Answer R → RemoteSession × (Error ⊎ R)
  call r a = received (record r { req_id = r.req_id + 1 }) a

abbrev cache : RemoteSession × (Error ⊎ OutputResult) → RemoteSession × Option Error
cache (r, inl e) = (r, some e)
cache (r, inr out) = (record r { cached_out = some out }, none)

abbrev sent : Request → RemoteSession × Option Error → RemoteSession × Option Error × List Request
sent req (r, e) = (r, e, req ∷ [])

-- a write of a session that is alive, and the caching of what the server returns
unfoldable pub send :
    RemoteSession → Request → Answer OutputResult → RemoteSession × Option Error × List Request
unfolding call
send r req a = if r.alive then sent req (cache (call r a)) else (r, some not_alive, [])

-- `WriteWithTimeout`; `Write` sends no timeout, which is 0
unfoldable pub write_with_timeout :
    RemoteSession → List ℕ → ℕ → Answer OutputResult → RemoteSession × Option Error × List Request
unfolding send
write_with_timeout r input ms a = send r (send_input r.session_id input ms) a

unfoldable pub write_input :
    RemoteSession → List ℕ → Answer OutputResult → RemoteSession × Option Error × List Request
unfolding send
write_input r input a = send r (send_input r.session_id input 0) a

-- `WriteRaw`: by the key's name if the bytes are a key's
unfoldable pub write_raw :
    RemoteSession → List ℕ → Answer OutputResult → RemoteSession × Option Error × List Request
unfolding send
write_raw r bytes a = send r (raw r.session_id (raw_call bytes)) a

abbrev pub feed : RemoteSession → List ℕ → RemoteSession
feed r output = record r { local_buf = (write r.local_buf output).0 }

abbrev fetched : RemoteSession × (Error ⊎ OutputResult) → RemoteSession × List ℕ × Bool
fetched (r, inl e) = (r, [], false)
fetched (r, inr out) = (feed r out.output, out.output, out.is_complete)

abbrev cached_or :
    RemoteSession
    → ℤ
    → Answer OutputResult
    → Option OutputResult
    → RemoteSession × List ℕ × Bool × List Request
cached_or r ms a (some out) =
    (feed (record r { cached_out = none }) out.output, out.output, out.is_complete, [])
cached_or r ms a none =
    let (r', output, complete) = fetched (call r a) in
    (r', output, complete, read_output r.session_id ms ∷ [])

-- `ReadScreen`; `done`: whether the context is done when it begins
unfoldable pub read_screen :
    Bool → RemoteSession → ℤ → Answer OutputResult → RemoteSession × List ℕ × Bool × List Request
unfolding call
read_screen done r ms a =
    let reads = cached_or r ms a r.cached_out in if done then (r, [], false, []) else reads

-- the first error of the closers
abbrev first_error : List (Option String) → Option String
first_error [] = none
first_error (none ∷ rest) = first_error rest
first_error (some e ∷ rest) = some e

pub data Act : Type 0 where
  requests : Request → Act
  closes_transport : Act

-- `Close` and `Detach` share `closeOnce`; only `Close` ends the remote session.
unfoldable pub close :
    RemoteSession → Answer String → List (Option String) → RemoteSession × Option String × List Act
unfolding call
close r a closers = if r.is_closed then (r, none, []) else (
  (call (record r { is_closed = true; alive = false }) a).0,
  first_error closers,
  requests (close_session r.session_id) ∷ closes_transport ∷ [],
)

unfoldable pub detach :
    RemoteSession → List (Option String) → RemoteSession × Option String × List Act
detach r closers =
    if r.is_closed
    then (r, none, [])
    else (record r { is_closed = true; alive = false }, first_error closers, closes_transport ∷ [])

abbrev error_of : RemoteSession × (Error ⊎ String) → RemoteSession × Option Error
error_of (r, inl e) = (r, some e)
error_of (r, inr x) = (r, none)

pub resize : RemoteSession → ℕ → ℕ → Answer String → RemoteSession × Option Error × List Request
unfolding call
resize r rows cols a = sent (resize_session r.session_id rows cols) (error_of (call r a))

-- `PollRemote`: the ticks until its context is done, each with the exchange that it would make; the
-- second poller returns at once.
poll_ticks : RemoteSession → List (Answer OutputResult) → RemoteSession
unfolding read_screen
poll_ticks r [] = r
poll_ticks r (a ∷ ticks) =
    let next = poll_ticks (read_screen false r (pos 500) a).0 ticks in if r.alive then next else r

pub poll_remote : RemoteSession → List (Answer OutputResult) → RemoteSession
unfolding poll_ticks
poll_remote r ticks =
    if r.is_polling
    then r
    else record (poll_ticks (record r { is_polling = true }) ticks) { is_polling = false }
