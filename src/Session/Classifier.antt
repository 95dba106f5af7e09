-- ===== src/Session/Classifier.antt =====
-- internal/session/classifier.go: `ClassifyOutput`. The regular expressions are parameters.
use pty_mcp.Base.{
  ℕ, ◌-◌, Bool, true, false, ◌||◌, List, [], ◌∷◌, length, drop, ltb, ◌≡◌, arith, if◌then◌else◌,
}
use pty_mcp.Text.{split}
use pty_mcp.Text.Space.{trim_space, trim_right_newlines}

pub data State : Type 0 where
  at_prompt password_prompt confirmation pager running unknown : State

pub record ClassifyResult : Type 0 where
  pub state : State
  pub awaiting_secret : Bool
  pub last_prompt : List ℕ

-- `reANSI.ReplaceAllString(raw, "")`, and `MatchString` of the others
pub record Patterns : Type 0 where
  pub strip : List ℕ → List ℕ
  pub sudo_prompt : List ℕ → Bool
  pub password_prompt : List ℕ → Bool
  pub ssh_host_key : List ℕ → Bool
  pub confirmation : List ℕ → Bool
  pub pager : List ℕ → Bool
  pub shell_prompt : List ℕ → Bool
  pub menu_select : List ℕ → Bool

abbrev last_2kb : List ℕ → List ℕ
last_2kb output = if ltb 2048 (length output) then drop (length output - 2048) output else output

abbrev or_line : List ℕ → List ℕ → List ℕ
or_line [] line = line
or_line (c ∷ later) line = c ∷ later

-- the last line that is not blank, without the space around it
last_non_empty : List (List ℕ) → List ℕ
last_non_empty [] = []
last_non_empty (line ∷ lines) = or_line (last_non_empty lines) (trim_space line)

abbrev classified : State → Bool → List ℕ → ClassifyResult
classified state awaiting_secret line = record {
  state = state;
  awaiting_secret = awaiting_secret;
  last_prompt = line;
}

abbrev by_line : List ℕ → ClassifyResult
by_line [] = classified unknown false []
by_line (c ∷ line) = classified running false (c ∷ line)

pub classify_output : Patterns → List ℕ → ClassifyResult
unfolding last_non_empty split trim_right_newlines trim_space
classify_output pats raw =
    let output = last_2kb (pats.strip raw) in
    let line = last_non_empty (split (trim_right_newlines output)) in
    if pats.sudo_prompt output || pats.password_prompt line
    then classified password_prompt true line
    else if pats.ssh_host_key output || pats.confirmation line
    then classified confirmation false line
    else if pats.pager output
    then classified pager false line
    else if pats.shell_prompt line || pats.menu_select line
    then classified at_prompt false line
    else by_line line

-- `cls.State == "password_prompt"`
abbrev pub is_password_prompt : State → Bool
is_password_prompt password_prompt = true
is_password_prompt _ = false

pub is_password_prompt-classify_output :
    (pats : Patterns) (raw : List ℕ)
    → is_password_prompt (classify_output pats raw).state
      ≡ (classify_output pats raw).awaiting_secret
unfolding classify_output
is_password_prompt-classify_output pats raw = ground arith
