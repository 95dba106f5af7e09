-- ===== src/Session/Ssh.antt =====
-- internal/session/ssh.go: what comes before a session: the settings from ~/.ssh/config, the methods of
-- authentication, the check of the host's key, the version of the remote ai-tmux. Files, and the
-- packages ssh and ssh_config, are parameters.
pub mod Order
pub mod Dial
pub mod Checked
mod Tests
use Prim.Native.Char.{code}
use pty_mcp.Base.{
  ℕ, String, Bool, true, false, not, ◌&&◌, ◌||◌, Option, none, some, List, [], ◌∷◌, ◌++◌, ◌⊎◌, inl,
  inr, str_eq, ◌==◌, if◌then◌else◌,
}
use pty_mcp.Base.Int.{ℤ, pos, int_ltb}
use pty_mcp.Text.{codes, bytes_eq, atoi_value, split_cuts}
use pty_mcp.Text.Space.{fields}

pub record SshConfig : Type 0 where
  pub host : String
  pub port : String
  pub user : String
  pub password : String
  pub key_path : String
  pub ignore_host : Bool

-- `get`: the ssh_config package; `in_home`: filepath.Join with the home directory, if there is one;
-- `reads_key`: whether a file holds a private key that can be used without a passphrase.
pub record Machine : Type 0 where
  pub get : String → String → String
  pub has_home : Bool
  pub in_home : String → String
  pub reads_key : String → Bool
  pub has_known_hosts : Bool
  pub known_hosts_error : Option String

abbrev or_configured : String → String → String
or_configured given configured = if str_eq given "" then configured else given

-- a path that starts with a tilde and goes on: what follows the tilde
abbrev behind_tilde : String → Option String
behind_tilde String.[] = none
behind_tilde (String.◌∷◌ c rest) =
    if code c == b'~' && not (str_eq rest "") then some rest else none

abbrev expanded : Machine → String → Option String → String
expanded m path none = path
expanded m path (some rest) = if m.has_home then m.in_home rest else path

abbrev identity_file : Machine → String → String
identity_file m path =
    if str_eq path "" || str_eq path "~/.ssh/identity"
    then ""
    else expanded m path (behind_tilde path)

pub resolve_ssh_config : Machine → SshConfig → SshConfig
resolve_ssh_config m cfg = record cfg {
  host = if str_eq (m.get cfg.host "HostName") "" then cfg.host else m.get cfg.host "HostName";
  port = or_configured cfg.port (m.get cfg.host "Port");
  user = or_configured cfg.user (m.get cfg.host "User");
  key_path = or_configured cfg.key_path (identity_file m (m.get cfg.host "IdentityFile"));
}

pub data AuthMethod : Type 0 where
  public_key password : String → AuthMethod

pub data HostKeyCallback : Type 0 where
  insecure_ignore known_hosts : HostKeyCallback

pub record ClientConfig : Type 0 where
  pub user : String
  pub auth : List AuthMethod
  pub host_key_callback : HostKeyCallback

pub data ConfigError : Type 0 where
  no_auth_method no_known_hosts : ConfigError
  load_known_hosts : String → ConfigError

-- the loop over the key files
pub usable_keys : Machine → List String → List AuthMethod
usable_keys m [] = []
usable_keys m (path ∷ paths) =
    let rest = usable_keys m paths in
    if not (str_eq path "") && m.reads_key path then public_key path ∷ rest else rest

abbrev pub key_paths : Machine → SshConfig → List String
key_paths m cfg =
    if str_eq cfg.key_path ""
    then m.in_home "/.ssh/id_ed25519" ∷ m.in_home "/.ssh/id_rsa" ∷ m.in_home "/.ssh/id_ecdsa" ∷ []
    else cfg.key_path ∷ []

abbrev pub with_password : SshConfig → List AuthMethod → List AuthMethod
with_password cfg methods =
    if str_eq cfg.password "" then methods else methods ++ password cfg.password ∷ []

abbrev or_no_method : List AuthMethod → ConfigError ⊎ List AuthMethod
or_no_method [] = inl no_auth_method
or_no_method (m ∷ methods) = inr (m ∷ methods)

pub build_auth_methods : Machine → SshConfig → ConfigError ⊎ List AuthMethod
unfolding usable_keys
build_auth_methods m cfg = or_no_method (with_password cfg (usable_keys m (key_paths m cfg)))

abbrev loaded : Option String → ConfigError ⊎ HostKeyCallback
loaded none = inr known_hosts
loaded (some e) = inl (load_known_hosts e)

pub build_host_key_callback : Machine → SshConfig → ConfigError ⊎ HostKeyCallback
build_host_key_callback m cfg =
    if cfg.ignore_host
    then inr insecure_ignore
    else if m.has_known_hosts
    then loaded m.known_hosts_error
    else inl no_known_hosts

abbrev with_callback :
    SshConfig → List AuthMethod → ConfigError ⊎ HostKeyCallback → ConfigError ⊎ ClientConfig
with_callback cfg auth (inl e) = inl e
with_callback cfg auth (inr cb) =
    inr (record { user = cfg.user; auth = auth; host_key_callback = cb })

abbrev with_auth : Machine → SshConfig → ConfigError ⊎ List AuthMethod → ConfigError ⊎ ClientConfig
with_auth m cfg (inl e) = inl e
with_auth m cfg (inr auth) = with_callback cfg auth (build_host_key_callback m cfg)

pub build_client_config : Machine → SshConfig → ConfigError ⊎ ClientConfig
unfolding build_auth_methods build_host_key_callback
build_client_config m cfg = with_auth m cfg (build_auth_methods m cfg)

abbrev pub or_port_22 : String → String
or_port_22 port = if str_eq port "" then "22" else port

-- "ai-tmux 0.9.1": the second word
abbrev second : List (List ℕ) → List ℕ
second [] = []
second (a ∷ []) = []
second (a ∷ b ∷ rest) = b

pub parse_ai_tmux_version : List ℕ → List ℕ
parse_ai_tmux_version output = second (fields output)

abbrev pub min_ai_tmux_version : List ℕ
min_ai_tmux_version = codes "0.9.0"

abbrev pub is_dev : List ℕ → Bool
is_dev v = bytes_eq v (codes "dev")

-- `split` of `semverAtLeast`: three parts, of which a missing one is "0"
abbrev pub three_parts : List (List ℕ) → List ℤ
three_parts [] = pos 0 ∷ pos 0 ∷ pos 0 ∷ []
three_parts (a ∷ []) = atoi_value a ∷ pos 0 ∷ pos 0 ∷ []
three_parts (a ∷ b ∷ []) = atoi_value a ∷ atoi_value b ∷ pos 0 ∷ []
three_parts (a ∷ b ∷ c ∷ rest) = atoi_value a ∷ atoi_value b ∷ atoi_value c ∷ []

pub version_parts : List ℕ → List ℤ
unfolding split_cuts atoi_value
version_parts v = three_parts (split_cuts b'.' 2 v)

-- the loop over the parts
pub at_least : List ℤ → List ℤ → Bool
at_least (a ∷ vs) (b ∷ ws) =
    let rest = at_least vs ws in if int_ltb a b then false else if int_ltb b a then true else rest
at_least _ _ = true

pub semver_at_least : List ℕ → List ℕ → Bool
unfolding at_least version_parts bytes_eq
semver_at_least v min =
    let compared = at_least (version_parts v) (version_parts min) in
    if is_dev v || is_dev min then true else compared
