-- ===== src/Session/Ssh/Checked.antt =====
-- What a client configuration lets pass.
use pty_mcp.Base.{◌≡◌, ◌≢◌, true, false, none, [], ◌⊎◌, inl, inr, arith}
use pty_mcp.Session.Ssh.{
  Machine, SshConfig, insecure_ignore, known_hosts, build_auth_methods, build_host_key_callback,
  build_client_config, ClientConfig, ConfigError,
}

-- what a configuration lets pass, if there is one
pub IsChecked : Machine → SshConfig → ConfigError ⊎ ClientConfig → Type 0
IsChecked m cfg (inl e) = Unit
IsChecked m cfg (inr c) =
    (c.auth ≢ [])
    × (c.user ≡ cfg.user)
    × (((c.host_key_callback ≡ insecure_ignore) × (cfg.ignore_host ≡ true))
        ⊎ ((c.host_key_callback ≡ known_hosts)
            × (cfg.ignore_host ≡ false)
            × (m.has_known_hosts ≡ true)
            × (m.known_hosts_error ≡ none)))

-- A client configuration, where one is made, has a method of authentication and the given user; and
-- it ignores the host key exactly where the caller asks for that, or else checks it by a
-- known_hosts file that exists and was loaded.
pub build_client_config-IsChecked :
    (m : Machine) (cfg : SshConfig) → IsChecked m cfg (build_client_config m cfg)
unfolding IsChecked build_client_config build_auth_methods build_host_key_callback
build_client_config-IsChecked m cfg = ground arith
