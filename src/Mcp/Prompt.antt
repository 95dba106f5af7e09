-- ===== src/Mcp/Prompt.antt =====
-- internal/mcp/tools.go: `readSecretFromUser`, which asks the operator for a secret, and the dialogs that it
-- tries. How the process of a dialog ends, and what the machine offers, are parameters.
pub mod Chain
pub mod Escapes
pub mod Answers
pub mod Display
mod Tests
use pty_mcp.Base.{
  ℕ, String, Bool, true, false, not, ◌&&◌, ◌||◌, Option, none, some, List, [], ◌∷◌, ◌++◌, ◌⊎◌, inl,
  inr, ◌==◌, if◌then◌else◌,
}
use pty_mcp.Text.{codes, bytes_eq, cut_prefix}
use pty_mcp.Text.Space.{trim_space, trim_right_newlines}

pub data PromptError : Type 0 where
  timed_out cancelled : PromptError
  dialog_failed no_tty read_failed : String → PromptError
  unexpected_output : List ℕ → PromptError

abbrev pub Answer : Type 0
Answer = PromptError ⊎ List ℕ

-- `dialogCtx.Err()`
pub data CtxError : Type 0 where
  no_error deadline_exceeded canceled : CtxError

-- a dialog's process: its output, or its error and that of its context
pub data Run : Type 0 where
  exits : List ℕ → Run
  fails : CtxError → String → Run

-- PowerShell is not killed, but no longer waited for when the request is cancelled
pub data PowerShellRun : Type 0 where
  shell_exits : List ℕ → PowerShellRun
  shell_fails : String → PowerShellRun
  left_open : PowerShellRun

pub data TtyRun : Type 0 where
  not_opened : String → TtyRun
  typed : List ℕ → TtyRun
  not_typed : String → TtyRun
  times_out request_done : TtyRun

abbrev pub classify_secret_dialog_err : CtxError → String → PromptError
classify_secret_dialog_err deadline_exceeded e = timed_out
classify_secret_dialog_err canceled e = cancelled
classify_secret_dialog_err no_error e = dialog_failed e

-- `strings.HasSuffix`
unfoldable pub has_suffix : List ℕ → List ℕ → Bool
unfolding bytes_eq
has_suffix [] suffix = bytes_eq [] suffix
has_suffix (c ∷ s) suffix = let later = has_suffix s suffix in bytes_eq (c ∷ s) suffix || later

abbrev pub at_prefix : Option (List ℕ) → Option (List ℕ)
at_prefix none = none
at_prefix (some rest) = some []

abbrev pub or_here : ℕ → Option (List ℕ) → Option (List ℕ) → Option (List ℕ)
or_here c (some before) here = some (c ∷ before)
or_here c none here = here

-- `strings.LastIndex`, and the slice up to there
unfoldable pub cut_last : List ℕ → List ℕ → Option (List ℕ)
unfolding cut_prefix
cut_last sep [] = at_prefix (cut_prefix sep [])
cut_last sep (c ∷ s) = or_here c (cut_last sep s) (at_prefix (cut_prefix sep (c ∷ s)))

abbrev pub gave_up_true : List ℕ
gave_up_true = codes "gave up:true"

abbrev pub gave_up : List ℕ
gave_up = codes ", gave up:"

abbrev pub text_returned : List ℕ
text_returned = codes "button returned:OK, text returned:"

abbrev pub or_all : List ℕ → Option (List ℕ) → List ℕ
or_all text none = text
or_all text (some before) = before

abbrev pub returned : List ℕ → Option (List ℕ) → Answer
returned result none = inl (unexpected_output result)
returned result (some text) = inr (or_all text (cut_last gave_up text))

unfoldable pub osascript_answer : List ℕ → Answer
unfolding has_suffix cut_last cut_prefix
osascript_answer result =
    if has_suffix result gave_up_true
    then inl timed_out
    else returned result (cut_prefix text_returned result)

unfoldable pub read_secret_osascript : Run → Answer
unfolding osascript_answer trim_space
read_secret_osascript (exits out) = osascript_answer (trim_space out)
read_secret_osascript (fails e why) = inl (classify_secret_dialog_err e why)

-- zenity and kdialog
pub read_secret_dialog : Run → Answer
read_secret_dialog (exits out) = inr (trim_right_newlines out)
read_secret_dialog (fails e why) = inl (classify_secret_dialog_err e why)

-- `strings.TrimRight(s, "\r\n")`
unfoldable pub trim_right_line_ends : List ℕ → List ℕ
trim_right_line_ends [] = []
trim_right_line_ends (c ∷ s) =
    let rest = trim_right_line_ends s in
    if bytes_eq rest [] && (c == b'\r' || c == b'\n') then [] else c ∷ rest

pub read_secret_power_shell : PowerShellRun → Answer
unfolding trim_right_line_ends
read_secret_power_shell (shell_exits out) = inr (trim_right_line_ends out)
read_secret_power_shell (shell_fails e) = inl (dialog_failed e)
read_secret_power_shell left_open = inl cancelled

pub read_secret_tty : TtyRun → Answer
read_secret_tty (not_opened e) = inl (no_tty e)
read_secret_tty (typed secret) = inr secret
read_secret_tty (not_typed e) = inl (read_failed e)
read_secret_tty times_out = inl timed_out
read_secret_tty request_done = inl cancelled

pub data Os : Type 0 where
  darwin linux other_os : Os

pub data Dialog : Type 0 where
  osascript power_shell zenity kdialog tty : Dialog

pub record Desktop : Type 0 where
  pub os : Os
  pub is_wsl2 : Bool
  pub has_display : Bool
  pub has_zenity : Bool
  pub has_kdialog : Bool
  pub osascript_run : Run
  pub power_shell_run : PowerShellRun
  pub zenity_run : Run
  pub kdialog_run : Run
  pub tty_run : TtyRun

-- an error after which no other dialog is tried
abbrev pub is_final : PromptError → Bool
is_final timed_out = true
is_final cancelled = true
is_final _ = false

-- the dialogs that were opened, and the answer
abbrev pub Asked : Type 0
Asked = List Dialog × Answer

abbrev pub or_next : Dialog → Answer → Asked → Asked
or_next dialog (inr secret) next = (dialog ∷ [], inr secret)
or_next dialog (inl e) next = if is_final e then (dialog ∷ [], inl e) else (dialog ∷ next.0, next.1)

module _ (d : Desktop) where
  unfoldable pub answer_of : Dialog → Answer
  unfolding read_secret_osascript read_secret_dialog read_secret_power_shell read_secret_tty
  answer_of osascript = read_secret_osascript d.osascript_run
  answer_of power_shell = read_secret_power_shell d.power_shell_run
  answer_of zenity = read_secret_dialog d.zenity_run
  answer_of kdialog = read_secret_dialog d.kdialog_run
  answer_of tty = read_secret_tty d.tty_run

  unfoldable pub try_dialog : Bool → Dialog → Asked → Asked
  unfolding answer_of
  try_dialog is_there dialog next =
      let tried = or_next dialog (answer_of dialog) next in if is_there then tried else next

  unfoldable pub ask_tty : Asked
  unfolding answer_of
  ask_tty = (tty ∷ [], answer_of tty)

  unfoldable pub ask_linux : Asked
  unfolding try_dialog ask_tty
  ask_linux =
      let on_desktop = try_dialog d.has_zenity zenity (try_dialog d.has_kdialog kdialog ask_tty) in
      try_dialog d.is_wsl2 power_shell (if d.has_display then on_desktop else ask_tty)

  abbrev pub ask : Os → Asked
  ask darwin = try_dialog true osascript ask_tty
  ask linux = ask_linux
  ask other_os = ask_tty

  -- `gets_turn`: whether the semaphore comes before the request is cancelled
  unfoldable pub read_secret_from_user : Bool → Asked
  unfolding ask_linux
  read_secret_from_user gets_turn =
      let asked = ask d.os in if gets_turn then asked else ([], inl cancelled)
