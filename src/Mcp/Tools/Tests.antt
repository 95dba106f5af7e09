-- ===== src/Mcp/Tools/Tests.antt =====
-- Calls on one session, and the theorems at them.
use pty_mcp.Base.{
  ◌+◌, ◌*◌, ℕ, zero, suc, ◌≡◌, ◌⊎◌, inr, refl, String, true, false, none, some, [], ◌∷◌,
}
use pty_mcp.Base.Int.{pos}
use pty_mcp.Base.Dict.{empty, lookup, insert, remove, lookup-remove_self}
use pty_mcp.Buffer.Ring.{new}
use pty_mcp.Aitx.Keys.{key_bytes}
use pty_mcp.Session.Classifier.{State as Prompt}
use pty_mcp.Session.Classifier
use pty_mcp.Session.Manager.{
  Session, Manager, PendingSecret, local, new_info, get, found_session, touch, take_secret,
  get_info, refresh,
}
use pty_mcp.Mcp.WaitFor.{Round}
use pty_mcp.Mcp.Tools.{
  AuditClient, Env, start, with_session, with_lock, sends_output, sends_cmd, writes, reads_screen,
}
use pty_mcp.Mcp.Tools.Input.{
  SendInputParams, send_input, audited_input, run_input, maybe_auto_send_secret,
}
use pty_mcp.Mcp.Tools.Input.Audited.{Audited, send_input-Audited}
use pty_mcp.Mcp.Tools.Control.{
  ReadOutputParams, read_output, get_session_state, close_session, detach_session, prepare_secret,
  send_secret, send_control,
}
use pty_mcp.Mcp.Tools.Create.{
  CreateSshParams, Opened, create_local_session, create_serial_session, create_ssh_session,
}
use pty_mcp.Mcp.Tools.Create.Orphans.{Finished, create-Finished}
use pty_mcp.Mcp.Tools.Missing.{Refuses, Released, handlers-Refuse, handlers-Release}

abbrev shell : Session
shell = record { id = "s1"; kind = local }

abbrev secret : PendingSecret
secret = record { secret = 7 ∷ []; line_ending = b'\r' ∷ [] }

-- one session, with a staged secret
abbrev ready : Manager
ready = record {
  sessions = insert empty "s1" shell;
  infos = insert empty "s1" (new_info shell "/bin/bash" 5);
  idle_timeout = 30;
  pending_secrets = insert empty "s1" secret;
  session_locks = empty;
}

abbrev client : AuditClient
client = record {
  user = "ann";
  send_cmd = λ e. none;
  snippet = λ out. out;
  new_cmd_id = "c1";
  sent_at = 1;
  ended_at = 2;
}

abbrev quiet : Round
quiet = record { arrives = []; during = []; late = []; alive = true }

abbrev prompts : Classifier.Patterns
prompts = record {
  strip = λ s. s;
  sudo_prompt = λ s. true;
  password_prompt = λ s. false;
  ssh_host_key = λ s. false;
  confirmation = λ s. false;
  pager = λ s. false;
  shell_prompt = λ s. false;
  menu_select = λ s. false;
}

abbrev env_with : (ℕ → Manager → Manager) → Env
env_with others = record {
  now = 20;
  others = others;
  gets_lock = true;
  is_done = λ n. false;
  audit = some client;
  write_result = λ a. none;
  read_screen = λ s ms. (b'x' ∷ [], true);
  buffer = λ s. new 4;
  buffer_on_wait = λ s. new 4;
  buffer_after = λ s. new 4;
  is_alive = λ s. true;
  resize_result = λ s rows cols. none;
  close_result = λ s. none;
  read_secret = λ prompt. inr (9 ∷ []);
  patterns = record { compile = λ text. none; strip = λ s. s };
  prompts = prompts;
  settle_rounds = λ s. record {
    began_at = 0;
    first_at = 0;
    first_snapshot = 0;
    tested_at = λ n. 20 * n;
    seen_at = λ n. 20 * n + 20;
    snapshot = λ n. 0;
  };
  first_round = quiet;
  rounds = [];
}

abbrev env : Env
env = env_with (λ n m. m)

-- another request closes the session before the third access of the call
abbrev close_third : ℕ → Manager → Manager
close_third (suc (suc zero)) m = record m {
  sessions = remove m.sessions "s1";
  infos = remove m.infos "s1";
  pending_secrets = remove m.pending_secrets "s1";
}
close_third n m = m

abbrev racing : Env
racing = env_with close_third

abbrev input : String → SendInputParams
input id = record {
  session_id = id;
  input = b'l' ∷ b's' ∷ [];
  timeout_ms = pos 5000;
  raw = false;
  wait_for = [];
  wait_for_timeout_ms = pos 0;
}

abbrev read : String → ReadOutputParams
read id = record {
  session_id = id;
  timeout_ms = pos 0;
  wait_for = [];
  context_lines = pos 0;
  tail_lines = pos 0;
  since_cursor = none;
  max_bytes = none;
}

send_input-Audited_example :
    Audited
      (input "s1")
      (send_input env (input "s1") (start ready)).0.acts
      (send_input env (input "s1") (start ready)).1
send_input-Audited_example = send_input-Audited env client (input "s1") ready refl

handlers-Refuse_example :
    Refuses "s2" ready (send_input env (input "s2") (start ready))
    × Refuses "s2" ready (read_output env (read "s2") (start ready))
    × Refuses "s2" ready (get_session_state env "s2" (start ready))
    × Refuses "s2" ready (close_session env "s2" (start ready))
    × Refuses "s2" ready (detach_session env "s2" (start ready))
    × Refuses "s2" ready (prepare_secret env "s2" "" [] (start ready))
    × Refuses "s2" ready (send_secret env "s2" "" (start ready))
unfolding lookup insert
handlers-Refuse_example =
    handlers-Refuse env ready "s2" (input "s2") (read "s2") "" [] refl refl refl

handlers-Release_example :
    Released "s1" (read_output racing (read "s1") (start ready))
    × Released "s1" (send_control racing "s1" "enter" (start ready))
    × Released "s1" (prepare_secret racing "s1" "" [] (start ready))
    × Released "s1" (send_secret racing "s1" "" (start ready))
unfolding lookup insert key_bytes
handlers-Release_example =
    handlers-Release racing ready "s1" refl shell refl (λ m. lookup-remove_self m.sessions "s1")
      (read "s1") "enter" "" (b'\r' ∷ []) [] refl refl

-- SendInput does not fetch the session again: it records and writes for a session that is gone
writes_after_close :
    (send_input racing (input "s1") (start ready)).0.acts
    ≡ sends_output "c1" 2 (b'x' ∷ []) 1
      ∷ reads_screen shell 5000
      ∷ writes shell (b'l' ∷ b's' ∷ [])
      ∷ sends_cmd (record {
        cmd_id = "c1";
        at = 1;
        kind = local;
        user = "ann";
        session_id = "s1";
        target = "";
        cmd = b'l' ∷ b's' ∷ [];
        raw = false;
      })
      ∷ []
unfolding send_input with_session with_lock audited_input run_input maybe_auto_send_secret lookup
    insert remove get found_session touch take_secret get_info refresh
writes_after_close = refl

abbrev spare : Session
spare = record { id = "s9"; kind = local }

is_spare : (s : Session) → ◌≡◌ {A = String ⊎ Session} (inr spare) (inr s) → spare ≡ s
is_spare s e = cc e

abbrev ssh_params : CreateSshParams
ssh_params = record { user_at_host = "ann@host"; persistent = true; session_id = ""; log_file = "" }

create-Finished_example :
    let opened : Opened = record { open_log = none; new_session = inr spare } in
    Finished
      (start ready)
      "/bin/bash"
      (inr spare)
      (create_local_session env "" "out.log" opened (start ready))
    × Finished
        (start ready)
        "tty@9600"
        (inr spare)
        (create_serial_session env "tty@9600" "out.log" opened (start ready))
    × Finished
        (start ready)
        "ann@host"
        (inr spare)
        (create_ssh_session env ssh_params opened (start ready))
unfolding lookup insert
create-Finished_example =
    create-Finished env (start ready) (inr spare) (λ s e. rw (← is_spare s e) refl)
      (λ s e n m. refl) none "" "out.log" "tty@9600" ssh_params
