-- ===== src/Mcp/Tools/Input/Audited.antt =====
-- The audit entries of `SendInput`.
use pty_mcp.Base.{
  ℕ, ◌≡◌, inl, inr, refl, sym, ap, ◌∙◌, String, Bool, true, false, Bool-cases, Option-cases, some,
  List, [], ◌∷◌, ◌++◌, append_assoc,
}
use pty_mcp.Session.Classifier.{classify_output, is_password_prompt}
use pty_mcp.Session.Manager.{Session, Manager, get, take_secret}
use pty_mcp.Mcp.WaitFor.{WaitForResult, WaitForParams, wait_for_pattern}
use pty_mcp.Mcp.Tools.{
  Act, sends_cmd, sends_output, reads_screen, marks, waits_for, audit_failed, Reply, failed,
  CmdEntry, AuditClient, Env, State, act, turn, start, with_session, with_lock, Found-cases,
}
use pty_mcp.Mcp.Tools.Input.{
  SendInputParams, maybe_auto_send_secret, run_input, audited_input, send_input, after_wait,
  wait_for, written, input_write, remote_write, remote_read, plain_read, is_empty, is_remote,
  wait_params, clamp_or, input_timeout, entry_of, cmd_sent,
}

pub is_audit : Act → Bool
is_audit (sends_cmd e) = true
is_audit (sends_output id at out n) = true
is_audit _ = false

-- no act of the list is an audit entry
pub NoAudit : List Act → Type 0
NoAudit [] = Unit
NoAudit (a ∷ acts) = (is_audit a ≡ false) × NoAudit acts

NoAudit-append : (xs ys : List Act) → NoAudit xs → NoAudit ys → NoAudit (xs ++ ys)
unfolding NoAudit
NoAudit-append [] ys h k = k
NoAudit-append (x ∷ xs) ys (e, h) k = (e, NoAudit-append xs ys h k)

-- what is done between two states, without an audit entry
Adds : State → State → Type 0
Adds st st' = (more : List Act) × (st'.acts ≡ more ++ st.acts) × NoAudit more

Adds-none : (st st' : State) → st'.acts ≡ st.acts → Adds st st'
unfolding Adds NoAudit
Adds-none st st' e = ([], e, tt)

Adds-act : (a : Act) (st : State) → is_audit a ≡ false → Adds st (act a st)
unfolding Adds NoAudit
Adds-act a st e = (a ∷ [], refl, (e, tt))

Adds-trans : (a b c : State) → Adds a b → Adds b c → Adds a c
unfolding Adds
Adds-trans a b c (xs, e, h) (ys, f, k) =
    (ys ++ xs, f ∙ ap (λ t. ys ++ t) e ∙ sym (append_assoc ys xs a.acts), NoAudit-append ys xs k h)

module _ (env : Env) where
  maybe_auto_send_secret-Adds :
      (s : Session) (output : List ℕ) (st : State)
      → Adds st (maybe_auto_send_secret env s output st).0
  unfolding maybe_auto_send_secret Adds NoAudit is_audit
  maybe_auto_send_secret-Adds s output st =
      elim (Option-cases (take_secret (turn env st).mgr s.id).1) [
        | inl e ↦ rw e ([], refl, tt)
        | inr (ps, e) ↦
            elim (Bool-cases (is_password_prompt (classify_output env.prompts output).state)) [
              | inl prompted ↦ rw (e, prompted) (_ ∷ _ ∷ [], refl, (refl, (refl, tt)))
              | inr other ↦ rw (e, other) ([], refl, tt)
            ]
      ]

  after_wait-Adds :
      (s : Session) (result : WaitForResult) (st : State) → Adds st (after_wait env s result st).0
  unfolding is_audit
  after_wait-Adds s result st = elim (Bool-cases result.matched) [
    | inl hit ↦ rw hit (
        Adds-trans st (act (marks s) st)
          (maybe_auto_send_secret env s result.match_line (act (marks s) st)).0
          (Adds-act (marks s) st refl)
          (maybe_auto_send_secret-Adds s result.match_line (act (marks s) st)))
    | inr no_hit ↦ rw no_hit (Adds-none st st refl)
  ]

  written-Adds :
      (w : Act) (rest : State → State × Reply × List ℕ)
      → is_audit w ≡ false
      → ((st : State) → Adds st (rest st).0)
      → (st : State) → Adds st (written env w rest st).0
  written-Adds w rest e h st = elim (Option-cases (env.write_result w)) [
    | inl ok ↦ rw ok (Adds-trans st (act w st) (rest (act w st)).0 (Adds-act w st e) (h (act w st)))
    | inr (why, bad) ↦ rw bad (Adds-act w st e)
  ]

  module _ (p : SendInputParams) (s : Session) where
    input_write-is_audit : is_audit (input_write env p s) ≡ false
    unfolding is_audit
    input_write-is_audit = elim (Bool-cases p.raw) [ inl e ↦ rw e refl | inr e ↦ rw e refl ]

    remote_write-is_audit : is_audit (remote_write env p s) ≡ false
    unfolding is_audit
    remote_write-is_audit = elim (Bool-cases p.raw) [ inl e ↦ rw e refl | inr e ↦ rw e refl ]

    plain_read-Adds : (st : State) → Adds st (plain_read env p s st).0
    unfolding is_audit
    plain_read-Adds st =
        let read = act (reads_screen s (input_timeout p.timeout_ms)) st in
        let output = (env.read_screen s (input_timeout p.timeout_ms)).0 in
        Adds-trans st read (maybe_auto_send_secret env s output read).0
          (Adds-act (reads_screen s (input_timeout p.timeout_ms)) st refl)
          (maybe_auto_send_secret-Adds s output read)

    wait_for-Adds : (q : WaitForParams) (st : State) → Adds st (wait_for env s q st).0
    unfolding is_audit
    wait_for-Adds q st =
        Adds-trans st (act (waits_for s q.wait_for) st) (wait_for env s q st).0
          (Adds-act (waits_for s q.wait_for) st refl)
          (after_wait-Adds s
            (wait_for_pattern env.patterns q (env.is_alive s) (env.buffer_on_wait s) env.first_round
              env.rounds)
            (act (waits_for s q.wait_for) st))

    run_input-Adds : (st : State) → Adds st (run_input env p s st).0
    unfolding run_input is_audit
    run_input-Adds st = elim (Bool-cases (is_empty p.wait_for)) [
      | inl none_given ↦ elim (Bool-cases (is_remote s.kind)) [
        | inl far ↦
            rw (none_given, far)
              (written-Adds (remote_write env p s) (remote_read env p s) remote_write-is_audit
                (λ st. Adds-act (reads_screen s (input_timeout p.timeout_ms)) st refl) st)
        | inr near ↦
            rw (none_given, near)
              (written-Adds (input_write env p s) (plain_read env p s) input_write-is_audit
                plain_read-Adds st)
      ]
      | inr given ↦ rw given (
          written-Adds (input_write env p s) (wait_for env s params) input_write-is_audit
            (wait_for-Adds params) st)
    ]
      where
        params : WaitForParams
        params = wait_params env p.wait_for (clamp_or 10_000 600_000 p.wait_for_timeout_ms) 0 20

-- The acts of a call of `SendInput`, the newest first, and its reply: nothing was done; or the command
-- was recorded, the client refused it, and nothing followed; or the command was recorded first, the
-- output last, and neither in between.
pub data Audited (p : SendInputParams) : List Act → Reply → Type 0 where
  untouched : (reply : Reply) → Audited p [] reply
  refused :
      (e : CmdEntry) (why : String)
      → e.cmd ≡ p.input
      → Audited p (sends_cmd e ∷ []) (failed (audit_failed why))
  recorded :
      (e : CmdEntry) (at : ℕ) (output : List ℕ) (n : ℕ) (between : List Act) (reply : Reply)
      → e.cmd ≡ p.input
      → e.session_id ≡ p.session_id
      → NoAudit between
      → Audited p (sends_output e.cmd_id at output n ∷ between ++ sends_cmd e ∷ []) reply

recorded_last :
    {p : SendInputParams} (e : CmdEntry) (ended : ℕ) (output : List ℕ) (n : ℕ)
    (between acts : List Act) (reply : Reply)
    → e.cmd ≡ p.input
    → e.session_id ≡ p.session_id
    → acts ≡ between ++ sends_cmd e ∷ []
    → NoAudit between
    → Audited p (sends_output e.cmd_id ended output n ∷ acts) reply
recorded_last e ended output n between acts reply same same_id at silent =
    rw at (recorded e ended output n between reply same same_id silent)

module _ (env : Env) (c : AuditClient) (p : SendInputParams) where
  cmd_sent-Audited :
      (s : Session) (st : State)
      → st.acts ≡ []
      → Audited p (cmd_sent env p s c st).0.acts (cmd_sent env p s c st).1
  unfolding Adds
  cmd_sent-Audited s st fresh =
      elim (Option-cases (c.send_cmd (entry_of env p s c (turn env st)))) [
        | inl ok ↦
            let (between, e, silent) =
              run_input-Adds env p s
                (act (sends_cmd (entry_of env p s c (turn env st))) (turn env st)) in
            rw ok (
              recorded_last (entry_of env p s c (turn env st)) _ _ _ between _ _ refl refl
                (e ∙ ap (λ t. between ++ sends_cmd (entry_of env p s c (turn env st)) ∷ t) fresh)
                silent)
        | inr (why, bad) ↦ rw (bad, fresh) (refused (entry_of env p s c (turn env st)) why refl)
      ]

  -- With an audit client, every call of send_input, whatever the others do meanwhile, does one of
  -- three: nothing outside the manager; or it records the command, the client refuses it, the
  -- call fails, and nothing follows; or it records the command before all else and its output
  -- after all else, once each, the output with the id of the command's entry.
  pub send_input-Audited :
      (m : Manager)
      → env.audit ≡ some c
      → Audited p (send_input env p (start m)).0.acts (send_input env p (start m)).1
  unfolding send_input with_session with_lock audited_input
  send_input-Audited m has_audit =
      elim (Found-cases (get (env.others 0 m) p.session_id env.now).1) [
        | inl (e, gone) ↦ rw gone (untouched _)
        | inr (s, there) ↦ elim (Bool-cases env.gets_lock) [
          | inl locked ↦ rw (there, locked, has_audit) (cmd_sent-Audited s _ refl)
          | inr given_up ↦ rw (there, given_up) (untouched _)
        ]
      ]
