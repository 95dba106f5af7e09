-- ===== src/Mcp/Tools/Control.antt =====
-- internal/mcp/tools.go: the other handlers on a session: reading, control keys, state, list, close, detach,
-- resize, and the two on secrets.
use pty_mcp.Base.{
  ℕ, ◌+◌, String, ◌||◌, Option, none, some, List, [], ◌∷◌, ◌++◌, ◌⊎◌, inl, inr, ltb, str_eq,
  if◌then◌else◌,
}
use pty_mcp.Base.Int.{ℤ, pos, is_nonpos, exceeds, is_below, pos_part, sub_ℕ}
use pty_mcp.Buffer.Ring.{snapshot, read_since_max, is_truncated}
use pty_mcp.Session.Classifier.{classify_output}
use pty_mcp.Session.Manager.{
  Session, Manager, Error, Effect, PendingSecret, close_between, detach_between, get_info,
  list_infos, take_secret, set_pending_secret,
}
use pty_mcp.Aitx.Keys.{control_keys, key_bytes}
use pty_mcp.Mcp.Tools.{
  Act, writes_raw, reads_screen, resizes, on_session, prompts, session_error, write_failed,
  resize_failed, secret_failed, unknown_key, bad_size, too_large, gave_up, Page, Reply, failed,
  screen, page, session_state, sessions, success, buffered, resized, Env, State, act, turn,
  with_session, with_lock, with_locked_session,
}
use pty_mcp.Mcp.Tools.Input.{is_empty, clamp_or, screen_of, wait_params, wait_for}

pub record ReadOutputParams : Type 0 where
  pub session_id : String
  pub timeout_ms : ℤ  -- the float of seconds, in whole milliseconds
  pub wait_for : List ℕ
  pub context_lines : ℤ
  pub tail_lines : ℤ
  pub since_cursor : Option ℤ
  pub max_bytes : Option ℤ

-- `clampInt` to 0 and an upper limit
pub clamp_int : ℤ → ℕ → ℕ
clamp_int v hi = if is_below v 0 then 0 else if exceeds v hi then hi else pos_part v

abbrev or_zero : Option ℤ → ℤ
or_zero none = pos 0
or_zero (some n) = if is_nonpos n then pos 0 else n

-- `ReadScreen`'s timeout in the handler: 5 seconds, or what the caller asks for, up to ten minutes
pub read_timeout : ℤ → ℕ
read_timeout ms =
    if is_nonpos ms then 5000 else if ltb 600_000 (pos_part ms) then 600_000 else pos_part ms

module _ (env : Env) where
  abbrev screen_now : Session → ℕ → State → State × Reply
  screen_now s ms st = (act (reads_screen s ms) st, screen (screen_of env s (env.read_screen s ms)))

  module _ (p : ReadOutputParams) (s : Session) where
    abbrev page_from : ℤ → Page
    page_from cursor =
        let (output, next, has_more) = read_since_max (env.buffer s) cursor (or_zero p.max_bytes) in
        record {
          output = env.patterns.strip output;
          cursor = next;
          has_more = has_more;
          is_truncated = is_truncated (env.buffer_after s) cursor;
          is_alive = env.is_alive s;
        }

    abbrev read_by_cursor : Option ℤ → State → State × Reply
    read_by_cursor none st = screen_now s (read_timeout p.timeout_ms) st
    read_by_cursor (some cursor) st = (st, page (page_from cursor))

    abbrev without_output : State × Reply × List ℕ → State × Reply
    without_output (st, reply, output) = (st, reply)

    -- `ReadOutput` with the lock, in the mode that its parameters choose
    pub read_mode : State → State × Reply
    unfolding read_timeout clamp_int
    read_mode st =
        let waits = without_output (
          wait_for env s
            (wait_params env p.wait_for (clamp_or 5000 600_000 p.timeout_ms)
              (clamp_int p.context_lines 50) (clamp_int p.tail_lines 100))
            st) in
        let reads = read_by_cursor p.since_cursor st in if is_empty p.wait_for then reads else waits

  unfoldable pub read_output : ReadOutputParams → State → State × Reply
  unfolding read_mode
  read_output p = with_locked_session env p.session_id (read_mode p)

  abbrev after_raw :
      Session → List ℕ → (State → State × Reply) → Option String → State → State × Reply
  after_raw s bytes rest (some e) st = (act (writes_raw s bytes) st, failed (write_failed e))
  after_raw s bytes rest none st = rest (act (writes_raw s bytes) st)

  abbrev pub write_then : Session → List ℕ → (State → State × Reply) → State → State × Reply
  write_then s bytes rest st = after_raw s bytes rest (env.write_result (writes_raw s bytes)) st

  abbrev pub send_key : String → String → Option (List ℕ) → State → State × Reply
  send_key id key none st = (st, failed (unknown_key key))
  send_key id key (some bytes) st =
      with_locked_session env id (λ s. write_then s bytes (screen_now s 5000)) st

  unfoldable pub send_control : String → String → State → State × Reply
  send_control id key = send_key id key (key_bytes control_keys key)

  -- the last 2048 bytes are classified
  abbrev pub state_of : String → Session → State → State × Reply
  state_of id s st =
      let here = turn env st in
      let cursor = snapshot (env.buffer s) in
      let chunk = (read_since_max (env.buffer s) (sub_ℕ cursor 2048) (pos 0)).0 in
      (
        here,
        session_state (record {
          session = s;
          info = get_info here.mgr env.is_alive id;
          is_alive = env.is_alive s;
          cursor = cursor;
          classified = classify_output env.prompts chunk;
        }),
      )

  unfoldable pub get_session_state : String → State → State × Reply
  get_session_state id = with_session env id (state_of id)

  unfoldable pub list_sessions : State → State × Reply
  list_sessions st = let here = turn env st in (here, sessions (list_infos here.mgr env.is_alive))

  abbrev reply_of : Option Error → Reply
  reply_of none = success
  reply_of (some e) = failed (session_error e)

  abbrev act_all : List Effect → List Act → List Act
  act_all [] acts = acts
  act_all (e ∷ es) acts = act_all es (on_session e ∷ acts)

  -- the others have had a turn between the two parts of `Close` or `Detach`
  abbrev pub turned : State → State
  turned st = record st { step = st.step + 1 }

  abbrev pub left : State → Manager × Option Error × List Effect → State × Reply
  left st (m, result, effects) =
      (record st { mgr = m; acts = act_all effects st.acts }, reply_of result)

  unfoldable pub close_session : String → State → State × Reply
  close_session id = with_session env id (λ queued. with_lock env id (λ st.
      let here = turn env st in
      left (turned here) (close_between (env.others here.step) here.mgr env.close_result id)))

  unfoldable pub detach_session : String → State → State × Reply
  detach_session id = with_session env id (λ queued. with_lock env id (λ st.
      let here = turn env st in
      left (turned here) (detach_between (env.others here.step) here.mgr env.close_result id)))

  abbrev after_resize : Session → ℕ → ℕ → Option String → State → State × Reply
  after_resize s rows cols none st = (act (resizes s rows cols) st, resized rows cols)
  after_resize s rows cols (some e) st = (act (resizes s rows cols) st, failed (resize_failed e))

  unfoldable pub resize_session : String → ℤ → ℤ → State → State × Reply
  resize_session id rows cols st =
      let resize =
        with_locked_session env id
          (λ s.
            after_resize s (pos_part rows) (pos_part cols)
              (env.resize_result s (pos_part rows) (pos_part cols)))
          st in
      if is_nonpos rows || is_nonpos cols
      then (st, failed bad_size)
      else if exceeds rows 500 || exceeds cols 1000
      then (st, failed too_large)
      else resize

  abbrev pub prompt_or : String → String
  prompt_or p = if str_eq p "" then "Enter secret: " else p

  abbrev pub ending_or : List ℕ → List ℕ
  ending_or [] = b'\r' ∷ []
  ending_or (c ∷ s) = c ∷ s

  -- What follows `readSecretFromUser`: its error, or the context's, ends the call.
  abbrev answered : (List ℕ → State → State × Reply) → String ⊎ List ℕ → State → State × Reply
  answered body (inl e) st = (st, failed (secret_failed e))
  answered body (inr secret) st =
      let goes_on = body secret st in if env.is_done st.step then (st, failed gave_up) else goes_on

  abbrev pub with_secret : String → (List ℕ → State → State × Reply) → State → State × Reply
  with_secret prompt body st =
      answered body (env.read_secret (prompt_or prompt)) (act (prompts (prompt_or prompt)) st)

  abbrev stage : String → List ℕ → List ℕ → State → State × Reply
  stage id ending secret st =
      let here = turn env st in
      (
        record here {
          mgr =
              set_pending_secret here.mgr id
                (record { secret = secret; line_ending = ending_or ending });
        },
        buffered,
      )

  unfoldable pub prepare_secret : String → String → List ℕ → State → State × Reply
  prepare_secret id prompt ending =
      with_locked_session env id (λ s. with_secret prompt (stage id ending))

  abbrev pub write_secret : Session → List ℕ → State → State × Reply
  write_secret s bytes = write_then s bytes (λ st. (st, success))

  abbrev pub use_secret : Session → String → State × Option PendingSecret → State × Reply
  use_secret s prompt (st, some ps) = write_secret s (ps.secret ++ ps.line_ending) st
  use_secret s prompt (st, none) =
      with_secret prompt (λ secret. write_secret s (secret ++ b'\r' ∷ [])) st

  abbrev take_next : String → State → State × Option PendingSecret
  take_next id st =
      let here = turn env st in
      let (m, ps) = take_secret here.mgr id in (record here { mgr = m }, ps)

  unfoldable pub send_secret : String → String → State → State × Reply
  send_secret id prompt = with_locked_session env id (λ s st. use_secret s prompt (take_next id st))
