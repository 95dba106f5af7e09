-- ===== src/Session/Remote/Delivery.antt =====
-- What becomes of the output that the server returns.
use pty_mcp.Base.{
  ℕ, ◌≡◌, sym, ap, ◌∙◌, Bool, true, false, Bool-cases, inl, inr, Option-cases, Option, none, some,
  List, [], ◌∷◌, ◌++◌, append_assoc, append-nil, if◌then◌else◌,
}
use pty_mcp.Base.Int.{ℤ}
use pty_mcp.Buffer.Ring.{RingBuffer, write}
use pty_mcp.Buffer.Ring.Inv.{Holds, write-Holds}
use pty_mcp.Aitx.Server.{OutputResult}
use pty_mcp.Session.Remote.{
  RemoteSession, Answer, write_fails, connection_closed, bad_response, remote_error, result,
  Request, call, send, read_screen,
}

-- A call on the session, with the answer of the exchange that it makes, if it makes one.
pub data Op : Type 0 where
  writes : Request → Answer OutputResult → Op
  reads : Bool → ℤ → Answer OutputResult → Op

-- the session, all output that the server has returned, and all that the readers have got
pub record Log : Type 0 where
  pub session : RemoteSession
  pub got : List ℕ
  pub shown : List ℕ

abbrev output_of : Answer OutputResult → List ℕ
output_of (result out) = out.output
output_of _ = []

abbrev pending : Option OutputResult → List ℕ
pending none = []
pending (some out) = out.output

-- what an exchange adds to the output that the server has returned; only a read without a cached
-- output makes one
abbrev fetched_by : Option OutputResult → Answer OutputResult → List ℕ
fetched_by none a = output_of a
fetched_by (some out) a = []

unfoldable pub step : Log → Op → Log
step l (writes req a) = record {
  session = (send l.session req a).0;
  got = if l.session.alive then l.got ++ output_of a else l.got;
  shown = l.shown;
}
step l (reads done ms a) = record {
  session = (read_screen done l.session ms a).0;
  got = if done then l.got else l.got ++ fetched_by l.session.cached_out a;
  shown = l.shown ++ (read_screen done l.session ms a).1;
}

unfoldable pub run : Log → List Op → Log
unfolding step
run l [] = l
run l (op ∷ ops) = run (step l op) ops

-- No output waits for a reader when the next one is written.
abbrev pub IsRead : Log → Op → Type 0
IsRead l (writes req a) = l.session.cached_out ≡ none
IsRead l (reads done ms a) = Unit

unfoldable pub AreRead : Log → List Op → Type 0
unfolding step
AreRead l [] = Unit
AreRead l (op ∷ ops) = IsRead l op × AreRead (step l op) ops

-- Nothing is lost, and the buffer holds what the readers got.
abbrev pub Delivered : List ℕ → Log → Type 0
Delivered hist l =
    (l.got ≡ l.shown ++ pending l.session.cached_out) × Holds l.session.local_buf (hist ++ l.shown)

feeds :
    (hist shown output : List ℕ) (buf : RingBuffer)
    → Holds buf (hist ++ shown)
    → Holds (write buf output).0 (hist ++ (shown ++ output))
feeds hist shown output buf h = rw append_assoc at (write-Holds output buf (hist ++ shown) h)

module _ (hist : List ℕ) (l : Log) (h : Holds l.session.local_buf (hist ++ l.shown)) where
  write-Delivered :
      (req : Request) (a : Answer OutputResult)
      → l.session.alive ≡ true
      → l.got ≡ l.shown ++ []
      → l.session.cached_out ≡ none
      → Delivered hist (step l (writes req a))
  unfolding step send call
  write-Delivered req (write_fails why) alive e free = rw (alive, free) (append-nil l.got ∙ e, h)
  write-Delivered req connection_closed alive e free = rw (alive, free) (append-nil l.got ∙ e, h)
  write-Delivered req (bad_response why) alive e free = rw (alive, free) (append-nil l.got ∙ e, h)
  write-Delivered req (remote_error why) alive e free = rw (alive, free) (append-nil l.got ∙ e, h)
  write-Delivered req (result out) alive e free =
      rw alive (ap (λ t. t ++ out.output) (e ∙ append-nil l.shown), h)

  -- a read that exchanges, for there is no cached output
  fetch-Delivered :
      (ms : ℤ) (a : Answer OutputResult)
      → l.got ≡ l.shown ++ []
      → l.session.cached_out ≡ none
      → Delivered hist (step l (reads false ms a))
  unfolding step read_screen call
  fetch-Delivered ms (write_fails why) e free =
      rw (free, append-nil l.shown) (append-nil l.got ∙ e, h)
  fetch-Delivered ms connection_closed e free =
      rw (free, append-nil l.shown) (append-nil l.got ∙ e, h)
  fetch-Delivered ms (bad_response why) e free =
      rw (free, append-nil l.shown) (append-nil l.got ∙ e, h)
  fetch-Delivered ms (remote_error why) e free =
      rw (free, append-nil l.shown) (append-nil l.got ∙ e, h)
  fetch-Delivered ms (result out) e free = rw free (
    ap (λ t. t ++ out.output) (e ∙ append-nil l.shown) ∙ sym (append-nil (l.shown ++ out.output)),
    feeds hist l.shown out.output l.session.local_buf h,
  )

  cached-Delivered :
      (ms : ℤ) (a : Answer OutputResult) (out : OutputResult)
      → l.got ≡ l.shown ++ out.output
      → l.session.cached_out ≡ some out
      → Delivered hist (step l (reads false ms a))
  unfolding step read_screen
  cached-Delivered ms a out e waits = rw waits (
    append-nil l.got ∙ e ∙ sym (append-nil (l.shown ++ out.output)),
    feeds hist l.shown out.output l.session.local_buf h,
  )

step-Delivered :
    (hist : List ℕ) (l : Log) (op : Op)
    → Delivered hist l
    → IsRead l op
    → Delivered hist (step l op)
unfolding step send read_screen
step-Delivered hist l (writes req a) (e, h) free = elim (Bool-cases l.session.alive) [
  | inl alive ↦ write-Delivered hist l h req a alive (e ∙ ap (λ o. l.shown ++ pending o) free) free
  | inr dead ↦ rw dead (e, h)
]
step-Delivered hist l (reads true ms a) (e, h) u = rw (append-nil l.shown) (e, h)
step-Delivered hist l (reads false ms a) (e, h) u = elim (Option-cases l.session.cached_out) [
  | inl free ↦ fetch-Delivered hist l h ms a (e ∙ ap (λ o. l.shown ++ pending o) free) free
  | inr (out, waits) ↦
      cached-Delivered hist l h ms a out (e ∙ ap (λ o. l.shown ++ pending o) waits) waits
]

-- A remote session as one stream, whatever exchanges fail and whatever reads are cancelled: if no
-- output of a write is still unread at the next write, then after any calls, all output that the
-- server has returned is what the readers got, in order, and after it the output of the last write
-- while that is unread; and the local buffer satisfies its invariant for what the readers got.
pub run-Delivered :
    (hist : List ℕ) (ops : List Op) (l : Log)
    → Delivered hist l
    → AreRead l ops
    → Delivered hist (run l ops)
unfolding run AreRead
run-Delivered hist [] l h all = h
run-Delivered hist (op ∷ ops) l h (first, rest) =
    run-Delivered hist ops (step l op) (step-Delivered hist l op h first) rest
