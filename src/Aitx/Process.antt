-- ===== src/Aitx/Process.antt =====
-- internal/aitx/ptysession.go: the command that `newPTYSession` starts, `Resize` and `Close`. Paths are those of
-- Unix, and letters are lowered in ASCII, which decides the two names that are looked for.
mod Tests
use pty_mcp.Base.{
  ℕ, ◌+◌, ◌%◌, ◌^◌, String, Bool, true, false, ◌&&◌, ◌||◌, Option, none, some, List, [], ◌∷◌, ◌++◌,
  map, leb, ◌==◌, if◌then◌else◌,
}
use pty_mcp.Text.{codes, bytes_eq}

-- the slashes at the end go
unfoldable pub strip_slashes : List ℕ → List ℕ
unfolding bytes_eq
strip_slashes [] = []
strip_slashes (c ∷ s) =
    let rest = strip_slashes s in if bytes_eq rest [] && c == b'/' then [] else c ∷ rest

abbrev has_slash : List ℕ → Bool
has_slash [] = false
has_slash (c ∷ s) = c == b'/' || has_slash s

-- what follows the last slash
unfoldable pub after_slash : List ℕ → List ℕ
after_slash [] = []
after_slash (c ∷ s) =
    let later = after_slash s in if has_slash s then later else if c == b'/' then s else c ∷ s

abbrev pub or_slash : List ℕ → List ℕ
or_slash [] = codes "/"
or_slash (c ∷ s) = c ∷ s

-- `filepath.Base`
unfoldable pub base : List ℕ → List ℕ
unfolding after_slash strip_slashes
base [] = codes "."
base (c ∷ s) = or_slash (after_slash (strip_slashes (c ∷ s)))

-- `strings.TrimSuffix`
unfoldable pub trim_suffix : List ℕ → List ℕ → List ℕ
unfolding bytes_eq
trim_suffix suffix [] = []
trim_suffix suffix (c ∷ s) =
    let rest = trim_suffix suffix s in if bytes_eq (c ∷ s) suffix then [] else c ∷ rest

abbrev pub lower : ℕ → ℕ
lower c = if leb 65 c && leb c 90 then c + 32 else c

unfoldable pub is_power_shell : List ℕ → Bool
unfolding base trim_suffix bytes_eq
is_power_shell command =
    let name = map lower (trim_suffix (codes ".exe") (base command)) in
    bytes_eq name (codes "pwsh") || bytes_eq name (codes "powershell")

-- what is started: the command, its arguments, and what is added to the environment
pub record Command : Type 0 where
  pub path : List ℕ
  pub args : List String
  pub env : List String
  pub name : List ℕ

abbrev or_default : List ℕ → List ℕ → List ℕ
or_default [] default = default
or_default (c ∷ s) default = c ∷ s

pub command_of : List ℕ → List ℕ → Command
unfolding is_power_shell
command_of name command =
    let path = or_default command (codes "/bin/bash") in
    if is_power_shell path
    then (record {
      path = path;
      args = "-NoLogo" ∷ "-NoProfile" ∷ [];
      env =
          "TERM=dumb" ∷ "NO_COLOR=1" ∷ "CLICOLOR=0" ∷ "TERM_PROGRAM="
          ∷ "DOTNET_SYSTEM_CONSOLE_ALLOW_ANSI_CONTROL_CODES=0" ∷ "VSCODE_SHELL_INTEGRATION=0" ∷ [];
      name = or_default name path;
    })
    else (record {
      path = path;
      args = [];
      env = "TERM=xterm-256color" ∷ [];
      name = or_default name path;
    })

-- the window size is in 16 bits
abbrev pub resize : ℕ → ℕ → ℕ × ℕ
resize rows cols = (rows % 2 ^ 16, cols % 2 ^ 16)

pub data Act : Type 0 where
  closes_pty kills_process awaits_reader closes_log : Act

-- `Close`, of which only the first does anything
pub close : Bool → Bool → List Act
close is_closed has_log =
    if is_closed
    then []
    else if has_log
    then closes_pty ∷ kills_process ∷ awaits_reader ∷ closes_log ∷ []
    else closes_pty ∷ kills_process ∷ []
