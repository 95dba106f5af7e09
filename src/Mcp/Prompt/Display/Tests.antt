-- ===== src/Mcp/Prompt/Display/Tests.antt =====
-- A display that only the user's session knows.
use pty_mcp.Base.{◌≡◌, refl, some, [], ◌∷◌}
use pty_mcp.Text.{codes, bytes_eq, split}
use pty_mcp.Config.{cut_at}
use pty_mcp.Mcp.Prompt.Display.{
  value, set, is_set, has_display, set_lines, linux_desktop_env, dialog_env,
}

recovered :
    dialog_env (
      linux_desktop_env
        (λ k. [])
        (codes "1000")
        (λ env. some (codes "HOME=/root\nDISPLAY=:0\nnothing\n")))
    ≡ codes "DISPLAY=:0" ∷ codes "XDG_RUNTIME_DIR=/run/user/1000" ∷ []
unfolding value set is_set has_display set_lines linux_desktop_env dialog_env bytes_eq split cut_at
recovered = refl
