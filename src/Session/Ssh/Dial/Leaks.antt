-- ===== src/Session/Ssh/Dial/Leaks.antt =====
-- No connection is left open by a constructor that fails.
use pty_mcp.Base.{◌≡◌, Bool, true, false, inl, inr, arith}
use pty_mcp.Session.Ssh.{Machine, SshConfig}
use pty_mcp.Session.Ssh.Dial.{
  Result, Answers, new_ssh_session, new_remote_ssh_session, list_remote_ai_tmux_sessions,
  remote_ai_tmux_version, has_ai_tmux,
}

-- Where the function fails, no connection is open; where it returns a session, its connection is open,
-- and the one for the version is closed.
abbrev pub IsTidy : {R : Type 0} → Result R → Type 0
IsTidy (conn, inl f) = (conn.client ≡ false) × (conn.version_session ≡ false)
IsTidy (conn, inr r) = (conn.client ≡ true) × (conn.session ≡ true) × (conn.version_session ≡ false)

module _ {R : Type 0} (a : Answers R) (m : Machine) (given : SshConfig) where
  new_ssh_session-IsTidy : (has_log : Bool) (s : R) → IsTidy (new_ssh_session a m given has_log s)
  unfolding new_ssh_session
  new_ssh_session-IsTidy has_log s = ground arith

  new_remote_ssh_session-IsTidy : IsTidy (new_remote_ssh_session a m given)
  unfolding new_remote_ssh_session
  new_remote_ssh_session-IsTidy = ground arith

  list_remote_ai_tmux_sessions_closed : (list_remote_ai_tmux_sessions a m given).0.client ≡ false
  unfolding list_remote_ai_tmux_sessions
  list_remote_ai_tmux_sessions_closed = ground arith

  remote_ai_tmux_version_closed : (remote_ai_tmux_version a m given).0.client ≡ false
  unfolding remote_ai_tmux_version
  remote_ai_tmux_version_closed = ground arith

  has_ai_tmux_closed : (has_ai_tmux a m given).0.client ≡ false
  unfolding has_ai_tmux
  has_ai_tmux_closed = ground arith

  -- The five functions of ssh.go that connect, whatever the network, the files and the remote
  -- side answer: where a constructor of a session fails, at whatever point, it leaves neither the
  -- connection nor the session of the version check open; where it succeeds, the connection and
  -- one session on it are open, and the session of the version check is closed; the functions
  -- that list sessions, read the version and look for ai-tmux always close the connection.
  pub connect-IsTidy :
      (has_log : Bool) (s : R)
      → IsTidy (new_ssh_session a m given has_log s)
        × IsTidy (new_remote_ssh_session a m given)
        × ((list_remote_ai_tmux_sessions a m given).0.client ≡ false)
        × ((remote_ai_tmux_version a m given).0.client ≡ false)
        × ((has_ai_tmux a m given).0.client ≡ false)
  connect-IsTidy has_log s = (
    new_ssh_session-IsTidy has_log s,
    new_remote_ssh_session-IsTidy,
    list_remote_ai_tmux_sessions_closed,
    remote_ai_tmux_version_closed,
    has_ai_tmux_closed,
  )
