-- ===== src/Aitx/Process/Tests.antt =====
-- Commands that are a PowerShell, and one that is not.
use pty_mcp.Base.{◌≡◌, refl, true, false}
use pty_mcp.Text.{codes, bytes_eq}
use pty_mcp.Aitx.Process.{strip_slashes, after_slash, base, trim_suffix, is_power_shell}

pwsh : is_power_shell (codes "/usr/bin/Pwsh.exe") ≡ true
unfolding is_power_shell base trim_suffix bytes_eq after_slash strip_slashes
pwsh = refl

bash : is_power_shell (codes "/bin/bash") ≡ false
unfolding is_power_shell base trim_suffix bytes_eq after_slash strip_slashes
bash = refl
