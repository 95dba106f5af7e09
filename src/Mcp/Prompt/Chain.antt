-- ===== src/Mcp/Prompt/Chain.antt =====
-- Which dialogs `readSecretFromUser` opens, and whose answer it returns.
use mathlib.Core.Bool.{false≢true}
use pty_mcp.Base.{
  ◌≡◌, ◌≢◌, refl, sym, ap, Bool-cases, ◌⊎◌, Bool, true, false, ◌&&◌, inl, inr, List, [], ◌∷◌,
  length, take, if◌then◌else◌,
}
use pty_mcp.Mcp.Prompt.{
  PromptError, timed_out, cancelled, dialog_failed, no_tty, read_failed, unexpected_output, Answer,
  Os, darwin, linux, other_os, Dialog, osascript, power_shell, zenity, kdialog, tty, Desktop,
  is_final, answer_of, ask_linux, ask_tty, try_dialog, or_next, Asked, read_secret_from_user,
}

abbrev offer : Bool → Dialog → List Dialog → List Dialog
offer there dialog rest = if there then dialog ∷ rest else rest

-- the dialogs of the machine, in the order of priority
abbrev pub offered : Desktop → Os → List Dialog
offered d darwin = osascript ∷ tty ∷ []
offered d linux = offer d.is_wsl2 power_shell (
    offer (d.has_display && d.has_zenity) zenity
      (offer (d.has_display && d.has_kdialog) kdialog (tty ∷ [])))
offered d other_os = tty ∷ []

-- The operator did not answer, nor was the call cancelled: something was wrong with the dialog.
abbrev pub IsBroken : Answer → Type 0
IsBroken (inl e) = (e ≢ timed_out) × (e ≢ cancelled)
IsBroken (inr secret) = ⊥

-- all but the last of the dialogs are broken, and the last has the answer
abbrev pub Answers : Desktop → List Dialog → Answer → Type 0
Answers d [] r = ⊥
Answers d (dialog ∷ []) r = r ≡ answer_of d dialog
Answers d (dialog ∷ next ∷ rest) r = IsBroken (answer_of d dialog) × Answers d (next ∷ rest) r

-- A secret, a timeout or a cancellation ends the asking.
abbrev pub IsOver : List Dialog → List Dialog → Answer → Type 0
IsOver all asked (inr secret) = Unit
IsOver all asked (inl e) = ((e ≡ timed_out) ⊎ (e ≡ cancelled)) ⊎ (asked ≡ all)

abbrev pub IsAsked : Desktop → List Dialog → List Dialog → Answer → Type 0
IsAsked d all asked r = (asked ≡ take (length asked) all) × Answers d asked r × IsOver all asked r

final_lem : (e : PromptError) → is_final e ≡ true → (e ≡ timed_out) ⊎ (e ≡ cancelled)
final_lem timed_out f = inl refl
final_lem cancelled f = inr refl
final_lem (dialog_failed why) f = absurd (false≢true f)
final_lem (no_tty why) f = absurd (false≢true f)
final_lem (read_failed why) f = absurd (false≢true f)
final_lem (unexpected_output out) f = absurd (false≢true f)

broken_lem : (e : PromptError) → is_final e ≡ false → IsBroken (inl e)
broken_lem e f = (λ q. cc (q, f), λ q. cc (q, f))

ends_asking :
    (all asked : List Dialog) (e : PromptError) → is_final e ≡ true → IsOver all asked (inl e)
ends_asking all asked e f = inl (final_lem e f)

module _ (d : Desktop) (dialog : Dialog) (all : List Dialog) where
  or_next-IsAsked :
      (a : Answer) (asked : List Dialog) (r : Answer)
      → answer_of d dialog ≡ a
      → IsAsked d all asked r
      → IsAsked d (dialog ∷ all) (or_next dialog a (asked, r)).0 (or_next dialog a (asked, r)).1
  or_next-IsAsked (inr secret) asked r e h = (refl, sym e, tt)
  or_next-IsAsked (inl why) [] r e (q, none_answers, over) = absurd none_answers
  or_next-IsAsked (inl why) (first ∷ rest) r e (q, answers, over) =
      elim (Bool-cases (is_final why)) [
        | inl final ↦ rw final (refl, sym e, ends_asking (dialog ∷ all) (dialog ∷ []) why final)
        | inr broken ↦
            rw broken
              (ap (λ xs. dialog ∷ xs) q, (rw e (broken_lem why broken), answers), over_next r over)
      ]
    where
      over_next :
          (r : Answer)
          → IsOver all (first ∷ rest) r
          → IsOver (dialog ∷ all) (dialog ∷ first ∷ rest) r
      over_next (inr secret) u = tt
      over_next (inl why) (inl final) = inl final
      over_next (inl why) (inr same) = inr (ap (λ xs. dialog ∷ xs) same)

  try_dialog-IsAsked :
      (there : Bool) (next : Asked)
      → IsAsked d all next.0 next.1
      → IsAsked d
          (offer there dialog all)
          (try_dialog d there dialog next).0
          (try_dialog d there dialog next).1
  unfolding try_dialog
  try_dialog-IsAsked true next h = or_next-IsAsked (answer_of d dialog) next.0 next.1 refl h
  try_dialog-IsAsked false next h = h

ask_tty-IsAsked : (d : Desktop) → IsAsked d (tty ∷ []) (ask_tty d).0 (ask_tty d).1
unfolding ask_tty
ask_tty-IsAsked d = (refl, refl, over (answer_of d tty))
  where
    over : (r : Answer) → IsOver (tty ∷ []) (tty ∷ []) r
    over (inr secret) = tt
    over (inl why) = inr refl

on_desktop-IsAsked :
    (d : Desktop) (display : Bool)
    → let asked =
        if display
        then try_dialog d d.has_zenity zenity (try_dialog d d.has_kdialog kdialog (ask_tty d))
        else ask_tty d in
      IsAsked d
        (offer
          (display && d.has_zenity)
          zenity
          (offer (display && d.has_kdialog) kdialog (tty ∷ [])))
        asked.0
        asked.1
on_desktop-IsAsked d true =
    try_dialog-IsAsked d zenity (offer d.has_kdialog kdialog (tty ∷ [])) d.has_zenity
      (try_dialog d d.has_kdialog kdialog (ask_tty d))
      (try_dialog-IsAsked d kdialog (tty ∷ []) d.has_kdialog (ask_tty d) (ask_tty-IsAsked d))
on_desktop-IsAsked d false = ask_tty-IsAsked d

ask_linux-IsAsked : (d : Desktop) → IsAsked d (offered d linux) (ask_linux d).0 (ask_linux d).1
unfolding ask_linux
ask_linux-IsAsked d =
    try_dialog-IsAsked d power_shell
      (offer (d.has_display && d.has_zenity) zenity
        (offer (d.has_display && d.has_kdialog) kdialog (tty ∷ [])))
      d.is_wsl2
      (if d.has_display
        then try_dialog d d.has_zenity zenity (try_dialog d d.has_kdialog kdialog (ask_tty d))
        else ask_tty d)
      (on_desktop-IsAsked d d.has_display)

on_os :
    (d : Desktop) (os : Os)
    → d.os ≡ os
    → IsAsked d (offered d os) (read_secret_from_user d true).0 (read_secret_from_user d true).1
unfolding read_secret_from_user
on_os d darwin e =
    rw e (try_dialog-IsAsked d osascript (tty ∷ []) true (ask_tty d) (ask_tty-IsAsked d))
on_os d linux e = rw e (ask_linux-IsAsked d)
on_os d other_os e = rw e (ask_tty-IsAsked d)

-- Once the call has its turn, whatever the machine has and however the dialogs end: those that were
-- opened are the first of those that the machine offers, in the order of priority, the terminal
-- last; each but the last failed for another reason than a timeout or a cancellation; the result is
-- the answer of the last one; and if the result is another error, all were tried.
pub read_secret_from_user-IsAsked :
    (d : Desktop)
    → IsAsked d (offered d d.os) (read_secret_from_user d true).0 (read_secret_from_user d true).1
read_secret_from_user-IsAsked d = on_os d d.os refl
