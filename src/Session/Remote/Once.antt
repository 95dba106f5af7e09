-- ===== src/Session/Remote/Once.antt =====
-- The end of a remote session.
use pty_mcp.Base.{append-nil, ◌∙◌, ◌≡◌, refl, String, true, false, Option, List, [], ◌∷◌, ◌++◌}
use pty_mcp.Session.Remote.{
  RemoteSession, Answer, write_fails, connection_closed, bad_response, remote_error, result,
  Request, Act, requests, closes_transport, call, close, detach,
}

-- the calls that end a session, with what they are answered
pub data Ending : Type 0 where
  closing : Answer String → List (Option String) → Ending
  detaching : List (Option String) → Ending

unfoldable pub ending : RemoteSession → Ending → RemoteSession × List Act
ending r (closing a closers) = ((close r a closers).0, (close r a closers).2)
ending r (detaching closers) = ((detach r closers).0, (detach r closers).2)

unfoldable pub endings : RemoteSession → List Ending → RemoteSession × List Act
unfolding ending
endings r [] = (r, [])
endings r (e ∷ es) =
    let (r', acts) = ending r e in let (r'', more) = endings r' es in (r'', acts ++ more)

-- what the first ending does; those after it do nothing
abbrev pub first_acts : RemoteSession → Ending → List Act
first_acts r (closing a closers) =
    requests (Request.close_session r.session_id) ∷ closes_transport ∷ []
first_acts r (detaching closers) = closes_transport ∷ []

abbrev pub IsEnded : RemoteSession → Type 0
IsEnded r = (r.is_closed ≡ true) × (r.alive ≡ false)

ending_first :
    (r : RemoteSession) (e : Ending)
    → r.is_closed ≡ false
    → IsEnded (ending r e).0 × ((ending r e).1 ≡ first_acts r e)
unfolding ending close detach call
ending_first r (detaching closers) open_still = rw open_still ((refl, refl), refl)
ending_first r (closing (write_fails why) closers) open_still = rw open_still ((refl, refl), refl)
ending_first r (closing connection_closed closers) open_still = rw open_still ((refl, refl), refl)
ending_first r (closing (bad_response why) closers) open_still = rw open_still ((refl, refl), refl)
ending_first r (closing (remote_error why) closers) open_still = rw open_still ((refl, refl), refl)
ending_first r (closing (result x) closers) open_still = rw open_still ((refl, refl), refl)

ending_again : (r : RemoteSession) (e : Ending) → r.is_closed ≡ true → ending r e ≡ (r, [])
unfolding ending close detach
ending_again r (detaching closers) over = rw over refl
ending_again r (closing a closers) over = rw over refl

endings_again : (r : RemoteSession) (es : List Ending) → r.is_closed ≡ true → endings r es ≡ (r, [])
unfolding endings
endings_again r [] over = refl
endings_again r (e ∷ es) over = rw (ending_again r e over, endings_again r es over) refl

-- However often a remote session that is not closed is closed or detached: the first call alone
-- acts, closing the transport, and, if it is a close, asking the server before that to end the
-- session; after it the session is closed and not alive.
pub endings_lem :
    (r : RemoteSession) (e : Ending) (es : List Ending)
    → r.is_closed ≡ false
    → IsEnded (endings r (e ∷ es)).0 × ((endings r (e ∷ es)).1 ≡ first_acts r e)
unfolding endings
endings_lem r e es open_still =
    let ((over, dead), acts) = ending_first r e open_still in
    rw (endings_again (ending r e).0 es over) ((over, dead), append-nil (ending r e).1 ∙ acts)
