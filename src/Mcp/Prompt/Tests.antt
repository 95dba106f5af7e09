-- ===== src/Mcp/Prompt/Tests.antt =====
-- A machine on which the first dialog is broken, and answers of dialogs.
use pty_mcp.Base.{◌≡◌, refl, map, true, false, inl, inr, some, [], ◌∷◌, ◌++◌, if◌then◌else◌}
use pty_mcp.Text.{codes, cut_prefix}
use pty_mcp.Text.Space.{trim_space}
use pty_mcp.Mcp.Prompt.{
  timed_out, exits, fails, no_error, shell_exits, typed, linux, Desktop, read_secret_osascript,
  read_secret_from_user,
}
use pty_mcp.Mcp.Prompt.Chain.{offered, IsAsked, read_secret_from_user-IsAsked}
use pty_mcp.Mcp.Prompt.Answers.{read_secret_osascript_lem}
use pty_mcp.Mcp.Prompt.Escapes.{
  read_single_quoted, read_double_quoted, power_shell_script, power_shell_end, osascript_script,
  on_line, NoCurly, doubled, scripts_lem,
}

abbrev machine : Desktop
machine = record {
  os = linux;
  is_wsl2 = false;
  has_display = true;
  has_zenity = true;
  has_kdialog = true;
  osascript_run = exits [];
  power_shell_run = shell_exits [];
  zenity_run = fails no_error "not found";
  kdialog_run = exits (codes "pw\n");
  tty_run = typed [];
}

read_secret_from_user-IsAsked_example :
    IsAsked machine
      (offered machine linux)
      (read_secret_from_user machine true).0
      (read_secret_from_user machine true).1
read_secret_from_user-IsAsked_example = read_secret_from_user-IsAsked machine

-- a secret that holds the words of a timeout
read_secret_osascript_example :
    read_secret_osascript
      (exits (codes "button returned:OK, text returned:a, gave up:true, gave up:false\n"))
    ≡ (if false then inl timed_out else inr (codes "a, gave up:true"))
unfolding trim_space cut_prefix
read_secret_osascript_example =
    read_secret_osascript_lem
      (codes "button returned:OK, text returned:a, gave up:true, gave up:false\n")
      (codes "a, gave up:true") false refl

no_curly : NoCurly (codes "Bob's key")
unfolding NoCurly
no_curly = (refl, (refl, (refl, (refl, (refl, (refl, (refl, (refl, (refl, tt)))))))))

-- a prompt with a curly quote, and a command behind it
scripts_example :
    (read_double_quoted false (osascript_script (codes "a\\ \"key\"") [])
      ≡ some (map on_line (codes "a\\ \"key\""), []))
    × (read_single_quoted false (power_shell_script (codes "Bob's key"))
        ≡ some (codes "Bob's key", power_shell_end))
    × (read_single_quoted false
          (power_shell_script (codes "Bob's key" ++ 0x2019 ∷ b';' ∷ codes "calc"))
        ≡ some (codes "Bob's key", b';' ∷ (doubled (codes "calc") ++ 39 ∷ power_shell_end)))
scripts_example =
    scripts_lem (codes "a\\ \"key\"") [] (codes "Bob's key") (codes "calc") 0x2019 b';' no_curly
      refl refl
