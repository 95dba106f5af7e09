-- ===== src/Session/Remote/Tests.antt =====
-- A session on a small buffer, and the theorems at it.
use pty_mcp.Base.{ℕ, ◌≡◌, refl, true, false, none, [], ◌∷◌, arith}
use pty_mcp.Base.Int.{pos}
use pty_mcp.Buffer.Ring.{new}
use pty_mcp.Buffer.Ring.Inv.{new-Holds}
use pty_mcp.Aitx.Server.{OutputResult}
use pty_mcp.Session.Remote.{RemoteSession, result, send_input, call, send, read_screen}
use pty_mcp.Session.Remote.Delivery.{
  Op, writes, reads, Log, step, run, AreRead, Delivered, run-Delivered,
}
use pty_mcp.Session.Remote.Once.{closing, detaching, endings, first_acts, IsEnded, endings_lem}

abbrev remote_shell : RemoteSession
remote_shell = record {
  session_id = "r1";
  alive = true;
  is_closed = false;
  req_id = 0;
  cached_out = none;
  local_buf = new 8;
  is_polling = false;
}

abbrev log : Log
log = record { session = remote_shell; got = []; shown = [] }

abbrev output : ℕ → OutputResult
output c = record { output = c ∷ []; is_alive = true; is_complete = true }

abbrev input : ℕ → Op
input c = writes (send_input "r1" (b'l' ∷ []) 5000) (result (output c))

abbrev read : ℕ → Op
read c = reads false (pos 5000) (result (output c))

-- a second write replaces the output that waits for a reader
two_writes_lose : (run log (input b'a' ∷ input b'b' ∷ read b'c' ∷ [])).shown ≡ b'b' ∷ []
unfolding run step send read_screen call
two_writes_lose = refl

run-Delivered_example : Delivered [] (run log (input b'a' ∷ read b'x' ∷ read b'c' ∷ []))
unfolding AreRead step send read_screen call new
run-Delivered_example =
    run-Delivered [] (input b'a' ∷ read b'x' ∷ read b'c' ∷ []) log (refl, new-Holds 8 (omega arith))
      (refl, (tt, (tt, tt)))

endings_example :
    IsEnded (endings remote_shell (detaching [] ∷ closing (result "") [] ∷ [])).0
    × ((endings remote_shell (detaching [] ∷ closing (result "") [] ∷ [])).1
        ≡ first_acts remote_shell (detaching []))
endings_example = endings_lem remote_shell (detaching []) (closing (result "") [] ∷ []) refl
