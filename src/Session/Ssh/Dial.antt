-- ===== src/Session/Ssh/Dial.antt =====
-- internal/session/ssh.go: `NewSSHSessionWithLog`, `NewRemoteSSHSession`, `RemoteAiTmuxVersion`, `HasAiTmux`
-- and `ListRemoteAiTmuxSessions`, with what they open and close. What the ssh package, the remote side
-- and the constructor of a remote session answer are parameters.
pub mod Leaks
use pty_mcp.Base.{
  ℕ, String, Bool, true, false, Option, none, some, List, [], ◌∷◌, ◌⊎◌, inl, inr, if◌then◌else◌,
}
use pty_mcp.Session.Ssh.{
  Machine, SshConfig, resolve_ssh_config, ConfigError, ClientConfig, build_client_config,
  or_port_22, parse_ai_tmux_version, min_ai_tmux_version, semver_at_least,
}

-- which connections are open; closing the client ends its sessions on the other side
pub record Conn : Type 0 where
  pub client : Bool
  pub version_session : Bool
  pub session : Bool
  pub log_closed : Bool

abbrev pub no_conn : Conn
no_conn = record { client = false; version_session = false; session = false; log_closed = false }

pub data Fault : Type 0 where
  config_error : ConfigError → Fault
  dial_failed no_session no_pipe no_pty not_started not_installed remote_failed : String → Fault
  odd_version : Fault
  too_old : List ℕ → Fault

abbrev pub Result : Type 0 → Type 0
Result R = Conn × (Fault ⊎ R)

-- `dial`: of host and port; the others in the order in which they are asked
pub record Answers (R : Type 0) : Type 0 where
  pub dial : String → String → ClientConfig → Option String
  pub version_session : Option String
  pub version_output : String ⊎ List ℕ
  pub session : Option String
  pub stdin_pipe : Option String
  pub stdout_pipe : Option String
  pub stderr_pipe : Option String
  pub request_pty : Option String
  pub started : Option String
  pub built : String ⊎ R

abbrev pub keep : Conn → Conn
keep conn = conn

abbrev pub close_client : Conn → Conn
close_client conn = record conn { client = false }

abbrev pub close_both : Conn → Conn
close_both conn = record conn { session = false; client = false }

-- `s.Close()` of a new SSHSession
abbrev pub close_all : Bool → Conn → Conn
close_all has_log conn = record conn { session = false; client = false; log_closed = has_log }

module _ {R : Type 0} where
  -- an error ends the function, after what it closes
  abbrev pub check :
      Option String → (String → Fault) → (Conn → Conn) → (Conn → Result R) → Conn → Result R
  check none fault closing rest conn = rest conn
  check (some e) fault closing rest conn = (closing conn, inl (fault e))

  abbrev pub configured :
      ConfigError ⊎ ClientConfig → (ClientConfig → Conn → Result R) → Conn → Result R
  configured (inl e) rest conn = (conn, inl (config_error e))
  configured (inr c) rest conn = rest c conn

module _ {R : Type 0} where
  -- the deferred calls of Close
  abbrev close_at_end : Result R → Result R
  close_at_end (conn, r) = (close_both conn, r)

abbrev or_odd : List ℕ → Fault ⊎ List ℕ
or_odd [] = inl odd_version
or_odd (c ∷ v) = inr (c ∷ v)

abbrev reported : String ⊎ List ℕ → Fault ⊎ List ℕ
reported (inl e) = inl (not_installed e)
reported (inr out) = or_odd (parse_ai_tmux_version out)

abbrev is_done : Fault ⊎ Bool → Bool
is_done (inl e) = false
is_done (inr x) = true

module _ {R S : Type 0} (a : Answers R) where
  abbrev pub dialled : SshConfig → (Conn → Result S) → ClientConfig → Conn → Result S
  dialled cfg rest client_config conn =
      check (a.dial cfg.host (or_port_22 cfg.port) client_config) dial_failed keep
        (λ conn. rest (record conn { client = true })) conn

module _ {R : Type 0} (a : Answers R) where
  abbrev finish : (Conn → Conn) → String ⊎ R → Conn → Result R
  finish closing (inl e) conn = (closing conn, inl (remote_failed e))
  finish closing (inr r) conn = (conn, inr r)

  abbrev ssh_opened : Bool → R → Conn → Result R
  ssh_opened has_log s conn =
      check a.session no_session close_client
        (λ conn.
          check a.stdin_pipe no_pipe close_client
            (λ conn.
              check a.request_pty no_pty (close_all has_log)
                (λ conn.
                  check a.started not_started (close_all has_log) (λ conn. (conn, inr s)) conn)
                conn)
            (record conn { session = true }))
        conn

  -- `NewSSHSessionWithLog`; `s` is the session that it makes
  pub new_ssh_session : Machine → SshConfig → Bool → R → Result R
  new_ssh_session m given has_log s =
      let cfg = resolve_ssh_config m given in
      configured (build_client_config m cfg) (dialled a cfg (ssh_opened has_log s)) no_conn

  abbrev remote_opened : Conn → Result R
  remote_opened conn =
      check a.session no_session close_client
        (λ conn.
          check a.stdin_pipe no_pipe close_both
            (λ conn.
              check a.stdout_pipe no_pipe close_both
                (λ conn.
                  check a.stderr_pipe no_pipe close_both
                    (λ conn.
                      check a.started not_started close_both (finish close_both a.built) conn)
                    conn)
                conn)
            (record conn { session = true }))
        conn

  abbrev version_known : List ℕ → Conn → Result R
  version_known [] conn = (close_client conn, inl odd_version)
  version_known (c ∷ v) conn =
      let rest = remote_opened conn in
      if semver_at_least (c ∷ v) min_ai_tmux_version
      then rest
      else (close_client conn, inl (too_old (c ∷ v)))

  -- the version session is closed whatever its command returns
  abbrev version_read : String ⊎ List ℕ → Conn → Result R
  version_read (inl e) conn =
      (close_client (record conn { version_session = false }), inl (not_installed e))
  version_read (inr out) conn =
      version_known (parse_ai_tmux_version out) (record conn { version_session = false })

  abbrev version_checked : Conn → Result R
  version_checked conn =
      check a.version_session no_session close_client
        (λ conn. version_read a.version_output (record conn { version_session = true })) conn

  -- `NewRemoteSSHSession`; `built` is what `AttachRemoteSession` or `NewRemoteSession` returns
  pub new_remote_ssh_session : Machine → SshConfig → Result R
  new_remote_ssh_session m given =
      let cfg = resolve_ssh_config m given in
      configured (build_client_config m cfg) (dialled a cfg version_checked) no_conn

  -- `ListRemoteAiTmuxSessions`; `built` is the decoded output of the command
  abbrev listed : Conn → Result R
  listed conn = close_at_end (
      check a.session no_session keep
        (λ conn.
          check a.started not_started keep (finish keep a.built) (record conn { session = true }))
        conn)

  pub list_remote_ai_tmux_sessions : Machine → SshConfig → Result R
  list_remote_ai_tmux_sessions m given =
      let cfg = resolve_ssh_config m given in
      configured (build_client_config m cfg) (dialled a cfg listed) no_conn

  abbrev version_asked : Conn → Result (List ℕ)
  version_asked conn = close_at_end (
      check a.session no_session keep
        (λ conn. (record conn { session = true }, reported a.version_output)) conn)

  pub remote_ai_tmux_version : Machine → SshConfig → Result (List ℕ)
  remote_ai_tmux_version m given =
      let cfg = resolve_ssh_config m given in
      configured (build_client_config m cfg) (dialled a cfg version_asked) no_conn

  -- `started`: of the command `which ai-tmux`
  abbrev looked_for : Conn → Result Bool
  looked_for conn = close_at_end (
      check a.session no_session keep
        (λ conn.
          check a.started not_started keep (λ conn. (conn, inr true))
            (record conn { session = true }))
        conn)

  pub has_ai_tmux : Machine → SshConfig → Conn × Bool
  has_ai_tmux m given =
      let cfg = resolve_ssh_config m given in
      let asked = configured (build_client_config m cfg) (dialled a cfg looked_for) no_conn in
      (asked.0, is_done asked.1)
