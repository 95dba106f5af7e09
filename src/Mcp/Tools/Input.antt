-- ===== src/Mcp/Tools/Input.antt =====
-- internal/mcp/tools.go: `SendInput` with its two audit entries, and `maybeAutoSendSecret`.
pub mod Audited
pub mod Secrets
use pty_mcp.Base.{
  ℕ, ◌/◌, String, Bool, true, false, Option, none, some, List, [], ◌∷◌, ◌++◌, length, ltb,
  if◌then◌else◌,
}
use pty_mcp.Base.Int.{ℤ, is_nonpos, pos_part}
use pty_mcp.Buffer.Ring.{snapshot}
use pty_mcp.Session.Classifier.{classify_output, is_password_prompt}
use pty_mcp.Session.Manager.{
  Session, Info, Kind, ssh, serial, local, remote, PendingSecret, get_info, take_secret,
  set_pending_secret,
}
use pty_mcp.Mcp.WaitFor.{WaitForResult, WaitForParams, wait_for_pattern}
use pty_mcp.Mcp.Tools.Settle.{wait_for_settle}
use pty_mcp.Mcp.Tools.{
  Act, writes_raw, writes, writes_with_timeout, reads_screen, waits_for, marks, settles, sends_cmd,
  sends_output, write_failed, audit_failed, Screen, Reply, failed, screen, screen_since, waited,
  CmdEntry, AuditClient, Env, State, act, turn, with_session, with_lock,
}

pub record SendInputParams : Type 0 where
  pub session_id : String
  pub input : List ℕ
  pub timeout_ms : ℤ
  pub raw : Bool
  pub wait_for : List ℕ
  pub wait_for_timeout_ms : ℤ  -- the float of seconds, in whole milliseconds

-- what a value comes to that is replaced by a default if it is not positive, and has an upper limit
abbrev pub clamp_or : ℕ → ℕ → ℤ → ℕ
clamp_or default_value limit v =
    if is_nonpos v then default_value else if ltb limit (pos_part v) then limit else pos_part v

abbrev pub input_timeout : ℤ → ℕ
input_timeout ms = clamp_or 5000 30_000 ms

abbrev pub is_remote : Kind → Bool
is_remote remote = true
is_remote _ = false

abbrev pub is_empty : List ℕ → Bool
is_empty [] = true
is_empty (c ∷ s) = false

-- a round for each 20 ms of the 2000, and one more
abbrev pub settle_fuel : ℕ
settle_fuel = 101

module _ (env : Env) where
  -- `TakeSecret`
  abbrev take_next : String → State → State × Option PendingSecret
  take_next id st =
      let here = turn env st in
      let (m, ps) = take_secret here.mgr id in (record here { mgr = m }, ps)

  abbrev put_back : Session → PendingSecret → State → State
  put_back s ps st =
      let here = turn env st in record here { mgr = set_pending_secret here.mgr s.id ps }

  abbrev pub settled : Session → State → State
  settled s st = act (settles s (wait_for_settle settle_fuel (env.settle_rounds s) 100 2000)) st

  abbrev offered : Session → List ℕ → State × Option PendingSecret → State × Bool
  offered s output (st, none) = (st, false)
  offered s output (st, some ps) =
      if is_password_prompt (classify_output env.prompts output).state
      then (act (writes_raw s (ps.secret ++ ps.line_ending)) (turn env (settled s st)), true)
      else (put_back s ps st, false)

  unfoldable pub maybe_auto_send_secret : Session → List ℕ → State → State × Bool
  maybe_auto_send_secret s output st = offered s output (take_next s.id st)

  abbrev pub screen_of : Session → List ℕ × Bool → Screen
  screen_of s (output, is_complete) = record {
    output = output;
    cursor = snapshot (env.buffer_after s);
    is_alive = env.is_alive s;
    is_complete = is_complete;
  }

  -- The rest of a handler after a write: the third part is `auditOutput`.
  abbrev pub after_write :
      Act → (State → State × Reply × List ℕ) → Option String → State → State × Reply × List ℕ
  after_write w rest (some e) st = (act w st, failed (write_failed e), [])
  after_write w rest none st = rest (act w st)

  abbrev pub written : Act → (State → State × Reply × List ℕ) → State → State × Reply × List ℕ
  written w rest st = after_write w rest (env.write_result w) st

  abbrev pub wait_params : List ℕ → ℕ → ℕ → ℕ → WaitForParams
  wait_params wait_for ms context_lines tail_lines = record {
    wait_for = wait_for;
    timeout_seconds = ms / 1000;
    context_lines = context_lines;
    tail_lines = tail_lines;
  }

  -- `waitForPattern`, and what follows it: the mark moves on only after a match
  abbrev pub after_wait : Session → WaitForResult → State → State × Reply × List ℕ
  after_wait s result st =
      let matched = (maybe_auto_send_secret s result.match_line (act (marks s) st)).0 in
      (
        if result.matched then matched else st,
        waited result (snapshot (env.buffer_after s)),
        result.match_line,
      )

  abbrev pub wait_for : Session → WaitForParams → State → State × Reply × List ℕ
  wait_for s p st =
      after_wait s
        (wait_for_pattern env.patterns p (env.is_alive s) (env.buffer_on_wait s) env.first_round
          env.rounds)
        (act (waits_for s p.wait_for) st)

  module _ (p : SendInputParams) (s : Session) where
    abbrev pub input_write : Act
    input_write = if p.raw then writes_raw s p.input else writes s p.input

    abbrev pub remote_write : Act
    remote_write =
        if p.raw
        then writes_raw s p.input
        else writes_with_timeout s p.input (input_timeout p.timeout_ms)

    abbrev pub remote_read : State → State × Reply × List ℕ
    remote_read st =
        let r = env.read_screen s (input_timeout p.timeout_ms) in
        (act (reads_screen s (input_timeout p.timeout_ms)) st, screen (screen_of s r), r.0)

    abbrev pub plain_read : State → State × Reply × List ℕ
    plain_read st =
        let r = env.read_screen s (input_timeout p.timeout_ms) in
        (
          (maybe_auto_send_secret s r.0 (act (reads_screen s (input_timeout p.timeout_ms)) st)).0,
          screen_since (snapshot (env.buffer s)) (screen_of s r),
          r.0,
        )

    -- `SendInput` between its audit entries
    unfoldable pub run_input : State → State × Reply × List ℕ
    run_input st =
        let remote_path = written remote_write remote_read st in
        let plain_path = written input_write plain_read st in
        let wait_path =
          written input_write
            (wait_for s
              (wait_params p.wait_for (clamp_or 10_000 600_000 p.wait_for_timeout_ms) 0 20))
            st in
        if is_empty p.wait_for
        then if is_remote s.kind then remote_path else plain_path
        else wait_path

    abbrev target_of : Option Info → String
    target_of none = ""
    target_of (some info) = info.target

    abbrev pub entry_of : AuditClient → State → CmdEntry
    entry_of c st = record {
      cmd_id = c.new_cmd_id;
      at = c.sent_at;
      kind = s.kind;
      user = c.user;
      session_id = p.session_id;
      target = target_of (get_info st.mgr env.is_alive p.session_id);
      cmd = p.input;
      raw = p.raw;
    }

    -- the second audit entry, which is sent whatever the handler comes to
    abbrev pub with_output : AuditClient → State × Reply × List ℕ → State × Reply
    with_output c (st, reply, output) =
        (act (sends_output c.new_cmd_id c.ended_at (c.snippet output) (length output)) st, reply)

    abbrev pub after_cmd : AuditClient → Option String → State → State × Reply
    after_cmd c (some e) st = (st, failed (audit_failed e))
    after_cmd c none st = with_output c (run_input st)

    abbrev pub cmd_sent : AuditClient → State → State × Reply
    cmd_sent c st =
        let here = turn env st in
        after_cmd c (c.send_cmd (entry_of c here)) (act (sends_cmd (entry_of c here)) here)

    abbrev without_output : State × Reply × List ℕ → State × Reply
    without_output (st, reply, output) = (st, reply)

    abbrev pub audited_with : Option AuditClient → State → State × Reply
    audited_with none st = without_output (run_input st)
    audited_with (some c) st = cmd_sent c st

    unfoldable pub audited_input : State → State × Reply
    unfolding run_input maybe_auto_send_secret
    audited_input st = audited_with env.audit st

  -- `SendInput`, its parameters decoded
  unfoldable pub send_input : SendInputParams → State → State × Reply
  unfolding audited_input
  send_input p = with_session env p.session_id (λ s. with_lock env p.session_id (audited_input p s))
