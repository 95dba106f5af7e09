-- ===== src/Session/Remote/Open.antt =====
-- internal/session/remote.go: `NewRemoteSession` and `AttachRemoteSession`. The id that the server gives to a new
-- session is a part of its answer; that of an exchange that fails to hold one is empty.
use pty_mcp.Base.{String, true, false, none, List, [], ◌∷◌, ◌⊎◌, inl, inr}
use pty_mcp.Base.Int.{ℤ, pos}
use pty_mcp.Buffer.Ring.{RingBuffer}
use pty_mcp.Aitx.Server.{OutputResult}
use pty_mcp.Session.Remote.{RemoteSession, Answer, Error, call}

-- what a constructor asks of the server
pub data OpenRequest : Type 0 where
  read_output : String → ℤ → OpenRequest
  create_session : String → String → OpenRequest

abbrev pub fresh : RingBuffer → String → RemoteSession
fresh buf id = record {
  session_id = id;
  alive = true;
  is_closed = false;
  req_id = 0;
  cached_out = none;
  local_buf = buf;
  is_polling = false;
}

abbrev attached : RemoteSession × (Error ⊎ OutputResult) → Error ⊎ RemoteSession
attached (r, inl e) = inl e
attached (r, inr out) = inr r

abbrev named : RemoteSession × (Error ⊎ String) → Error ⊎ RemoteSession
named (r, inl e) = inl e
named (r, inr id) = inr (record r { session_id = id })

-- `buf`: the new buffer
pub attach_remote_session :
    RingBuffer → String → Answer OutputResult → (Error ⊎ RemoteSession) × List OpenRequest
unfolding call
attach_remote_session buf id a = (attached (call (fresh buf id) a), read_output id (pos 1000) ∷ [])

pub new_remote_session :
    RingBuffer → String → String → Answer String → (Error ⊎ RemoteSession) × List OpenRequest
unfolding call
new_remote_session buf target command a =
    (named (call (fresh buf "") a), create_session command target ∷ [])
