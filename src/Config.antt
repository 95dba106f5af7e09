-- ===== src/Config.antt =====
-- internal/config/config.go: `readKV` and `LoadAudit`. The two paths, the state of the files and the lines that
-- bufio.Scanner gives are parameters.
pub mod Roundtrip
mod Tests
use pty_mcp.Base.{
  ℕ, ◌+◌, String, Bool, true, false, not, ◌&&◌, ◌||◌, Option, none, some, List, [], ◌∷◌, ◌++◌, ◌⊎◌,
  inl, inr, ◌==◌, if◌then◌else◌,
}
use pty_mcp.Text.{codes, bytes_eq}
use pty_mcp.Text.Space.{trim_space}

-- the newest entry first, so that a key has the value of its last line
abbrev pub Settings : Type 0
Settings = List (List ℕ × List ℕ)

unfoldable pub value_of : Settings → List ℕ → List ℕ
unfolding bytes_eq
value_of [] key = []
value_of ((k, v) ∷ kv) key = let rest = value_of kv key in if bytes_eq k key then v else rest

pub data ConfigError : Type 0 where
  stat_failed open_failed scan_failed : String → ConfigError
  unsafe_permissions : ConfigError
  malformed : ℕ → List ℕ → ConfigError

-- `strings.Cut(text, "=")`
unfoldable pub cut_at : ℕ → List ℕ → Option (List ℕ × List ℕ)
cut_at sep [] = none
cut_at sep (c ∷ s) =
    let rest = cut_at sep s in
    if c == sep then some ([], s) else elim rest as (λ r. Option (List ℕ × List ℕ)) [
      | none ↦ none
      | some (k, v) ↦ some (c ∷ k, v)
    ]

unfoldable pub is_comment : List ℕ → Bool
is_comment [] = true
is_comment (c ∷ s) = c == b'#'

-- a setting that a line adds, or its text if it is malformed
abbrev setting_of : List ℕ → Option (List ℕ × List ℕ) → List ℕ ⊎ (List ℕ × List ℕ)
setting_of text none = inl text
setting_of text (some (k, v)) = inr (trim_space k, trim_space v)

abbrev pub setting : List ℕ → List ℕ ⊎ (List ℕ × List ℕ)
setting text = setting_of text (cut_at b'=' text)

-- the loop over the lines, the first of which has the number `line`
pub read_lines : ℕ → Settings → List (List ℕ) → ConfigError ⊎ Settings
unfolding is_comment
read_lines line kv [] = inr kv
read_lines line kv (l ∷ ls) =
    let skipped = read_lines (line + 1) kv ls in
    let read = elim (setting (trim_space l)) as (λ r. ConfigError ⊎ Settings) [
      | inl text ↦ inl (malformed line text)
      | inr (k, v) ↦ read_lines (line + 1) ((k, v) ∷ kv) ls
    ] in
    if is_comment (trim_space l) then skipped else read

pub data File : Type 0 where
  absent : File
  no_stat : String → File
  -- whether group or others have access, the error of opening it, its lines, the scanner's error
  file : Bool → Option String → List (List ℕ) → Option String → File

abbrev scanned : Option String → ConfigError ⊎ Settings → ConfigError ⊎ Option Settings
scanned e (inl why) = inl why
scanned none (inr kv) = inr (some kv)
scanned (some e) (inr kv) = inl (scan_failed e)

abbrev opened : List (List ℕ) → Option String → Option String → ConfigError ⊎ Option Settings
opened lines scan_error none = scanned scan_error (read_lines 1 [] lines)
opened lines scan_error (some e) = inl (open_failed e)

-- `readKV`: none if there is no file
pub read_kv : Bool → File → ConfigError ⊎ Option Settings
unfolding read_lines
read_kv is_windows absent = inr none
read_kv is_windows (no_stat e) = inl (stat_failed e)
read_kv is_windows (file shared open_error lines scan_error) =
    if not is_windows && shared then inl unsafe_permissions else opened lines scan_error open_error

pub record Audit : Type 0 where
  pub url : List ℕ
  pub user : List ℕ
  pub mode : List ℕ
  pub token : List ℕ

abbrev is_empty : List ℕ → Bool
is_empty [] = true
is_empty (c ∷ s) = false

abbrev audit_of : Settings → Option Audit
audit_of kv =
    if is_empty (value_of kv (codes "audit-url"))
    then none
    else some (record {
      url = value_of kv (codes "audit-url");
      user = value_of kv (codes "audit-user");
      mode = value_of kv (codes "audit-mode");
      token = value_of kv (codes "audit-token");
    })

abbrev chosen : ConfigError ⊎ Option Settings → ConfigError ⊎ Option Audit
chosen (inl e) = inl e
chosen (inr none) = inr none
chosen (inr (some kv)) = inr (audit_of kv)

abbrev or_legacy :
    ConfigError ⊎ Option Settings → ConfigError ⊎ Option Settings → ConfigError ⊎ Option Settings
or_legacy (inl e) legacy = inl e
or_legacy (inr none) legacy = legacy
or_legacy (inr (some kv)) legacy = inr (some kv)

-- `LoadAudit`; without a home directory there is no file to read
pub load_audit : Bool → Bool → File → File → ConfigError ⊎ Option Audit
unfolding read_kv value_of
load_audit has_home is_windows primary legacy =
    if has_home
    then chosen (or_legacy (read_kv is_windows primary) (read_kv is_windows legacy))
    else inr none
