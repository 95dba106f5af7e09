-- ===== src/Mcp/Prompt/Display.antt =====
-- internal/mcp/tools.go: `linuxDesktopEnv`, `dialogEnv` and `isWSL2`. The process's own environment, what
-- systemctl prints and the text of /proc/version are arguments; of the latter the letters of ASCII are lowered.
mod Tests
use pty_mcp.Base.{
  ℕ, ◌+◌, Bool, true, false, not, ◌&&◌, ◌||◌, Option, none, some, List, [], ◌∷◌, ◌++◌, map, leb,
  if◌then◌else◌,
}
use pty_mcp.Text.{codes, bytes_eq, split, contains}
use pty_mcp.Config.{cut_at}

abbrev pub Env : Type 0
Env = List (List ℕ × List ℕ)

unfoldable pub value : Env → List ℕ → List ℕ
unfolding bytes_eq
value [] key = []
value ((k, v) ∷ env) key = let later = value env key in if bytes_eq k key then v else later

-- an assignment to a key that the map has; any other key is left out
unfoldable pub set : Env → List ℕ → List ℕ → Env
unfolding bytes_eq
set [] key new_value = []
set ((k, v) ∷ env) key new_value =
    let later = set env key new_value in
    if bytes_eq k key then (k, new_value) ∷ later else (k, v) ∷ later

abbrev pub desktop_keys : List (List ℕ)
desktop_keys =
    codes "DISPLAY"
    ∷ codes "WAYLAND_DISPLAY"
    ∷ codes "XDG_RUNTIME_DIR"
    ∷ codes "DBUS_SESSION_BUS_ADDRESS"
    ∷ codes "XAUTHORITY"
    ∷ []

unfoldable pub is_set : Env → List ℕ → Bool
unfolding value bytes_eq
is_set env key = not (bytes_eq (value env key) [])

unfoldable pub has_display : Env → Bool
unfolding is_set
has_display env = is_set env (codes "DISPLAY") || is_set env (codes "WAYLAND_DISPLAY")

abbrev set_line : Env → Option (List ℕ × List ℕ) → Env
set_line env none = env
set_line env (some (k, v)) = set env k v

-- the loop over the lines that systemctl printed
unfoldable pub set_lines : Env → List (List ℕ) → Env
unfolding set cut_at
set_lines env [] = env
set_lines env (l ∷ ls) = set_lines (set_line env (cut_at b'=' l)) ls

abbrev with_shown : Env → Option (List ℕ) → Env
with_shown env none = env
with_shown env (some out) = set_lines env (split out)

abbrev with_runtime_dir : List ℕ → Env → Env
with_runtime_dir uid env =
    if is_set env (codes "XDG_RUNTIME_DIR")
    then env
    else set env (codes "XDG_RUNTIME_DIR") (codes "/run/user/" ++ uid)

-- `uid`: the digits of the user's number; `shows`: what systemctl prints in an environment, if it does not fail
unfoldable pub linux_desktop_env : (List ℕ → List ℕ) → List ℕ → (Env → Option (List ℕ)) → Env
unfolding has_display is_set set set_lines split
linux_desktop_env getenv uid shows =
    let own : Env = map (λ k. (k, getenv k)) desktop_keys in
    let based = with_runtime_dir uid own in
    if has_display own then own else with_shown based (shows based)

-- `dialogEnv`: what is added to the process's environment
unfoldable pub dialog_env : Env → List (List ℕ)
unfolding bytes_eq
dialog_env [] = []
dialog_env ((k, v) ∷ env) =
    let rest = dialog_env env in if bytes_eq v [] then rest else (k ++ b'=' ∷ v) ∷ rest

abbrev lower : ℕ → ℕ
lower c = if leb 65 c && leb c 90 then c + 32 else c

abbrev names_wsl : List ℕ → Bool
names_wsl text = contains text (codes "microsoft") || contains text (codes "wsl")

-- none if /proc/version cannot be read
pub is_wsl2 : Option (List ℕ) → Bool
unfolding contains
is_wsl2 none = false
is_wsl2 (some text) = names_wsl (map lower text)
