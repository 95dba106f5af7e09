-- ===== src/Session/Ssh/Tests.antt =====
-- A machine with one key, and the theorems at it.
use pty_mcp.Base.{◌↔◌, arith, ◌≡◌, refl, Bool, true, false, none, inr, str_eq}
use pty_mcp.Text.{codes, bytes_eq, split_cuts, scan_digits, atoi_value}
use pty_mcp.Session.Ssh.{
  Machine, SshConfig, version_parts, at_least, semver_at_least, build_client_config,
}
use pty_mcp.Session.Ssh.Order.{
  AreDigits, decimal_from, decimal, IsNumber, dotted, IsAtLeast, semver_at_least_lem,
}
use pty_mcp.Session.Ssh.Checked.{IsChecked, build_client_config-IsChecked}
use pty_mcp.Session.Ssh.Dial.{
  Answers, new_ssh_session, new_remote_ssh_session, list_remote_ai_tmux_sessions,
  remote_ai_tmux_version, has_ai_tmux,
}
use pty_mcp.Session.Ssh.Dial.Leaks.{IsTidy, connect-IsTidy}

abbrev machine : Machine
machine = record {
  get = λ host key. "";
  has_home = true;
  in_home = λ path. path;
  reads_key = λ path. str_eq path "key";
  has_known_hosts = true;
  known_hosts_error = none;
}

abbrev config : SshConfig
config = record {
  host = "host";
  port = "";
  user = "ann";
  password = "";
  key_path = "key";
  ignore_host = false;
}

-- ai-tmux is too old
abbrev answers : Answers Bool
answers = record {
  dial = λ host port c. none;
  version_session = none;
  version_output = inr (codes "ai-tmux 0.8.9\n");
  session = none;
  stdin_pipe = none;
  stdout_pipe = none;
  stderr_pipe = none;
  request_pty = none;
  started = none;
  built = inr true;
}

ten_is_more : semver_at_least (codes "0.10.0") (codes "0.9") ≡ true
unfolding semver_at_least version_parts at_least split_cuts atoi_value scan_digits bytes_eq
ten_is_more = refl

ten : IsNumber (codes "10")
unfolding AreDigits decimal_from
ten = record {
  are_digits = (omega arith, omega arith, (omega arith, omega arith, tt));
  has_some = omega arith;
  fits = omega arith;
}

nine : IsNumber (codes "9")
unfolding AreDigits decimal_from
nine = record {
  are_digits = (omega arith, omega arith, tt);
  has_some = omega arith;
  fits = omega arith;
}

-- 9.10.9 and 9.9.10
semver_at_least_example :
    (semver_at_least
        (dotted (codes "9") (codes "10") (codes "9"))
        (dotted (codes "9") (codes "9") (codes "10"))
      ≡ true)
    ↔ IsAtLeast
        (decimal (codes "9"))
        (decimal (codes "10"))
        (decimal (codes "9"))
        (decimal (codes "9"))
        (decimal (codes "9"))
        (decimal (codes "10"))
semver_at_least_example =
    semver_at_least_lem (codes "9") (codes "10") (codes "9") (codes "9") (codes "9") (codes "10")
      nine ten nine nine nine ten

build_client_config-IsChecked_example :
    IsChecked machine config (build_client_config machine config)
build_client_config-IsChecked_example = build_client_config-IsChecked machine config

connect-IsTidy_example :
    IsTidy (new_ssh_session answers machine config true true)
    × IsTidy (new_remote_ssh_session answers machine config)
    × ((list_remote_ai_tmux_sessions answers machine config).0.client ≡ false)
    × ((remote_ai_tmux_version answers machine config).0.client ≡ false)
    × ((has_ai_tmux answers machine config).0.client ≡ false)
connect-IsTidy_example = connect-IsTidy answers machine config true true
