-- ===== src/Audit/Client.antt =====
-- internal/audit/client.go: `Client`. An entry is what `json.Marshal` makes of it, a list of bytes;
-- `Redact` and `json.Marshal` are arguments. The queue is a channel of capacity 256: its elements,
-- the oldest first. Each select is one step, and other goroutines work on the queue between them.
pub mod Latest
pub mod Retry
mod Tests
use pty_mcp.Base.{
  ℕ, ◌+◌, ◌≡◌, String, Bool, true, false, ◌&&◌, Option, none, some, List, [], ◌∷◌, ◌++◌, length,
  leb, ltb, str_eq, if◌then◌else◌,
}

pub record Config : Type 0 where
  pub url : String
  pub user : String
  pub token : String
  pub mode : String

pub record Queue : Type 0 where
  pub items : List (List ℕ)
  pub dropped : ℕ

abbrev pub capacity : ℕ
capacity = 256

pub new_queue : Queue
new_queue = record { items = []; dropped = 0 }

-- `case c.queue <- data`, with a default: none if the channel is full
pub try_send : Queue → List ℕ → Option Queue
try_send q bytes =
    if ltb (length q.items) capacity
    then some (record q { items = q.items ++ bytes ∷ [] })
    else none

-- `case <-c.queue: c.dropped.Add(1)`, with a default
abbrev drop_first : Queue → List (List ℕ) → Queue
drop_first q [] = q
drop_first q (x ∷ xs) = record { items = xs; dropped = q.dropped + 1 }

pub drop_oldest : Queue → Queue
drop_oldest q = drop_first q q.items

abbrev sent_or : Queue → Option Queue → Queue
sent_or q none = q
sent_or q (some q') = q'

abbrev make_room : (ℕ → Queue → Queue) → Queue → List ℕ → Option Queue → Queue
make_room others q bytes (some q') = q'
make_room others q bytes none =
    let room = others 1 (drop_oldest (others 0 q)) in sent_or room (try_send room bytes)

-- `others`: what other goroutines do to the queue after the first select, and after the second.
pub enqueue : (ℕ → Queue → Queue) → Queue → List ℕ → Queue
enqueue others q bytes = make_room others q bytes (try_send q bytes)

-- What `post` returns: the transport's error, or a status code of 400 or more.
pub data PostError : Type 0 where
  transport : String → PostError
  http_status : ℕ → PostError

-- `post`, from the error or the status code that the exchange ends with
pub data Exchange : Type 0 where
  no_exchange : String → Exchange
  answered : ℕ → Exchange

pub post : Exchange → Option PostError
post (no_exchange e) = some (transport e)
post (answered code) = if leb 400 code then some (http_status code) else none

pub is_client_error : PostError → Bool
is_client_error (transport e) = false
is_client_error (http_status code) = leb 400 code && ltb code 500

-- milliseconds
abbrev pub retry_delays : List ℕ
retry_delays = 0 ∷ 1000 ∷ 2000 ∷ 4000 ∷ []

-- What a call of `postWithRetry` returns, how many times it posts, and how long it sleeps.
pub record Sent : Type 0 where
  pub result : Option PostError
  pub attempts : ℕ
  pub slept : ℕ

abbrev pub slept_at : ℕ → ℕ → ℕ
slept_at i delay = if ltb 0 i then delay else 0

-- one round of the loop, with the outcome of its post, and what the rounds after it give
abbrev pub after_post : ℕ → ℕ → Option PostError → Sent → Sent
after_post i delay none rest = record { result = none; attempts = 1; slept = slept_at i delay }
after_post i delay (some e) rest =
    if is_client_error e
    then (record { result = some e; attempts = 1; slept = slept_at i delay })
    else (record rest { attempts = rest.attempts + 1; slept = rest.slept + slept_at i delay })

-- the loop from attempt i on: the delays left, and the outcome of the attempt before
pub retry_from : (ℕ → Exchange) → ℕ → List ℕ → Option PostError → Sent
retry_from net i [] last = record { result = last; attempts = 0; slept = 0 }
retry_from net i (delay ∷ delays) last =
    after_post i delay (post (net i)) (retry_from net (i + 1) delays (post (net i)))

-- `net i`: the exchange of the i-th post
pub post_with_retry : (ℕ → Exchange) → Sent
unfolding retry_from
post_with_retry net = retry_from net 0 retry_delays none

-- What `SendCmd` does: nothing, one entry for the queue, or posts in the caller's goroutine.
pub data Delivery : Type 0 where
  nothing : Delivery
  queued : List ℕ → Delivery
  posted : Sent → Delivery

abbrev send_marshalled : Config → (List ℕ → ℕ → Exchange) → Option (List ℕ) → Delivery
send_marshalled cfg net none = nothing
send_marshalled cfg net (some bytes) =
    if str_eq cfg.mode "strict" then posted (post_with_retry (net bytes)) else queued bytes

-- `SendCmd`: marshal (redact cmd) is what is sent
pub send_cmd :
    Config
    → (String → String)
    → (String → Option (List ℕ))
    → (List ℕ → ℕ → Exchange)
    → String
    → Delivery
send_cmd cfg redact marshal net cmd =
    if str_eq cfg.url "" then nothing else send_marshalled cfg net (marshal (redact cmd))

-- the error that `SendCmd` returns
pub error_of : Delivery → Option PostError
error_of nothing = none
error_of (queued bytes) = none
error_of (posted sent) = sent.result
