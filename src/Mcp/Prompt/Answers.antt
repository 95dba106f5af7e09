-- ===== src/Mcp/Prompt/Answers.antt =====
-- What the operator typed into the dialog of `readSecretOsascript`.
use pty_mcp.Base.{
  ℕ, ◌+◌, ◌≡◌, ◌≢◌, refl, ap, ◌∙◌, Bool, true, false, Bool-cases, inl, inr, some, List, [], ◌∷◌,
  ◌++◌, length, if◌then◌else◌, arith,
}
use pty_mcp.Text.{codes, bytes_eq, bytes_eq_iff, cut_prefix, cut_prefix-append}
use pty_mcp.Text.Space.{trim_space}
use pty_mcp.Mcp.Prompt.{
  timed_out, exits, has_suffix, cut_last, returned, or_all, gave_up, gave_up_true, text_returned,
  osascript_answer, read_secret_osascript,
}

-- the record that AppleScript prints
abbrev pub record_of : List ℕ → Bool → List ℕ
record_of secret has_given_up =
    text_returned
    ++ secret
    ++ (if has_given_up then codes ", gave up:true" else codes ", gave up:false")

cut_last-append : (sep s t : List ℕ) → cut_last sep t ≡ some [] → cut_last sep (s ++ t) ≡ some s
unfolding cut_last
cut_last-append sep [] t e = e
cut_last-append sep (c ∷ s) t e = rw (cut_last-append sep s t e) refl

has_suffix-append :
    (s t suffix : List ℕ) → has_suffix t suffix ≡ true → has_suffix (s ++ t) suffix ≡ true
unfolding has_suffix
has_suffix-append [] t suffix e = e
has_suffix-append (c ∷ s) t suffix e = ground (arith, has_suffix-append s t suffix e)

length_append : (s t : List ℕ) → length (s ++ t) ≡ length s + length t
length_append [] t = omega arith
length_append (c ∷ s) t = omega (arith, length_append s t)

longer : (a b : List ℕ) → length a ≢ length b → bytes_eq a b ≡ false
longer a b ne = elim (Bool-cases (bytes_eq a b)) [
  | inl e ↦ absurd (ne (ap length ((bytes_eq_iff a b).0 e)))
  | inr e ↦ e
]

has_no_suffix : (s : List ℕ) → has_suffix (s ++ codes ", gave up:false") gave_up_true ≡ false
unfolding has_suffix bytes_eq
has_no_suffix [] = refl
has_no_suffix (c ∷ s) = ground (
  arith,
  has_no_suffix s,
  longer (c ∷ (s ++ codes ", gave up:false")) gave_up_true
      (λ e. omega (arith, e, length_append s (codes ", gave up:false"))),
)

last_answer : (secret : List ℕ) → cut_last gave_up (secret ++ codes ", gave up:false") ≡ some secret
unfolding cut_last cut_prefix
last_answer secret = cut_last-append gave_up secret (codes ", gave up:false") refl

-- Where `osascript` exits and prints, but for space around it, the record that AppleScript makes of
-- the operator's secret, the secret is read back to the byte, though it may hold any text, that of
-- a timeout and the record's own separators included; and where the record says that the dialog
-- gave up, the result is a timeout.
pub read_secret_osascript_lem :
    (out secret : List ℕ) (has_given_up : Bool)
    → trim_space out ≡ record_of secret has_given_up
    → read_secret_osascript (exits out) ≡ (if has_given_up then inl timed_out else inr secret)
unfolding read_secret_osascript osascript_answer has_suffix bytes_eq
read_secret_osascript_lem out secret true e =
    let ends : has_suffix (text_returned ++ (secret ++ codes ", gave up:true")) gave_up_true
        ≡ true =
      has_suffix-append text_returned (secret ++ codes ", gave up:true") gave_up_true
        (has_suffix-append secret (codes ", gave up:true") gave_up_true refl) in
    rw (e, ends) refl
read_secret_osascript_lem out secret false e =
    let no_end : has_suffix (text_returned ++ (secret ++ codes ", gave up:false")) gave_up_true
        ≡ false =
      has_no_suffix (text_returned ++ secret) in
    let found : cut_prefix text_returned (record_of secret false)
        ≡ some (secret ++ codes ", gave up:false") =
      cut_prefix-append text_returned (secret ++ codes ", gave up:false") in
    rw (e, no_end)
      (ap (λ o. returned (record_of secret false) o) found
        ∙ ap (λ o. inr (or_all (secret ++ codes ", gave up:false") o)) (last_answer secret))
