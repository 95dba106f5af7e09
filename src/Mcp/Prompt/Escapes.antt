-- ===== src/Mcp/Prompt/Escapes.antt =====
-- internal/mcp/tools.go: the scripts of `readSecretPowerShell` and `readSecretOsascript`, which hold the prompt
-- in a string literal, and the literals as the two languages read them. A text is a list of characters here.
use pty_mcp.Base.{
  ℕ, ◌≡◌, refl, sym, ap, Bool, true, false, Bool-cases, inl, inr, ◌||◌, Option, none, some, List,
  [], ◌∷◌, ◌++◌, map, ◌==◌, ==_iff, if◌then◌else◌, arith, leb, ◌&&◌, ◌∙◌, append_assoc,
}
use pty_mcp.Text.{codes}

-- `strings.ReplaceAll(prompt, "'", "''")`
unfoldable pub doubled : List ℕ → List ℕ
doubled [] = []
doubled (c ∷ s) = let rest = doubled s in if c == 39 then 39 ∷ 39 ∷ rest else c ∷ rest

-- what stands behind the prompt in the script
abbrev pub power_shell_end : List ℕ
power_shell_end = codes "; $cred.GetNetworkCredential().Password"

-- the script from the opening quote on
pub power_shell_script : List ℕ → List ℕ
unfolding doubled
power_shell_script prompt = doubled prompt ++ 39 ∷ power_shell_end

abbrev pub escaped_char : ℕ → List ℕ → List ℕ
escaped_char c rest =
    if c == 92
    then 92 ∷ 92 ∷ rest
    else if c == 34
    then 92 ∷ 34 ∷ rest
    else if c == 13 || c == 10
    then 32 ∷ rest
    else c ∷ rest

-- the replacer of `readSecretOsascript`
unfoldable pub escaped : List ℕ → List ℕ
escaped [] = []
escaped (c ∷ s) = escaped_char c (escaped s)

pub osascript_script : List ℕ → List ℕ → List ℕ
unfolding escaped
osascript_script prompt end = escaped prompt ++ 34 ∷ end

abbrev pub push : ℕ → Option (List ℕ × List ℕ) → Option (List ℕ × List ℕ)
push c none = none
push c (some (text, rest)) = some (c ∷ text, rest)

-- the single-quote characters of PowerShell besides the apostrophe: U+2018 to U+201B
abbrev pub is_curly : ℕ → Bool
is_curly c = leb 0x2018 c && leb c 0x201b

abbrev pub is_single_quote : ℕ → Bool
is_single_quote c = c == 39 || is_curly c

-- the text of a PowerShell literal after its opening quote, and what follows it; the flag says that
-- the character before was a quote. Two quotes stand for the second.
unfoldable pub read_single_quoted : Bool → List ℕ → Option (List ℕ × List ℕ)
read_single_quoted false [] = none
read_single_quoted true [] = some ([], [])
read_single_quoted false (c ∷ s) =
    let closing = read_single_quoted true s in
    let going = push c (read_single_quoted false s) in if is_single_quote c then closing else going
read_single_quoted true (c ∷ s) =
    let going = push c (read_single_quoted false s) in
    if is_single_quote c then going else some ([], c ∷ s)

-- no character of the text is a curly quote
unfoldable pub NoCurly : List ℕ → Type 0
NoCurly [] = Unit
NoCurly (c ∷ s) = (is_curly c ≡ false) × NoCurly s

-- the same of an AppleScript literal with the two escapes that the replacer writes; the flag says
-- that the byte before was a backslash that escapes
unfoldable pub read_double_quoted : Bool → List ℕ → Option (List ℕ × List ℕ)
read_double_quoted esc [] = none
read_double_quoted true (c ∷ s) =
    let going = push c (read_double_quoted false s) in if c == 92 || c == 34 then going else none
read_double_quoted false (c ∷ s) =
    let escapes = read_double_quoted true s in
    let going = push c (read_double_quoted false s) in
    if c == 92 then escapes else if c == 34 then some ([], s) else going

abbrev pub on_line : ℕ → ℕ
on_line c = if c == 13 || c == 10 then 32 else c

-- a text without curly quotes, before what ends the literal
doubled_lem :
    (p rest out : List ℕ)
    → NoCurly p
    → read_single_quoted false rest ≡ some ([], out)
    → read_single_quoted false (doubled p ++ rest) ≡ some (p, out)
unfolding doubled read_single_quoted NoCurly
doubled_lem [] rest out h ends = ends
doubled_lem (c ∷ p) rest out (plain, h) ends = elim (Bool-cases (c == 39)) [
  | inl e ↦
      rw (e, doubled_lem p rest out h ends) (ap (λ x. some (x ∷ p, out)) (sym ((==_iff c 39).0 e)))
  | inr e ↦ rw (e, e, plain, doubled_lem p rest out h ends) refl
]

doubled-append : (p t : List ℕ) → doubled (p ++ t) ≡ doubled p ++ doubled t
unfolding doubled
doubled-append [] t = refl
doubled-append (c ∷ p) t = elim (Bool-cases (c == 39)) [
  | inl e ↦ rw (e, doubled-append p t) refl
  | inr e ↦ rw (e, doubled-append p t) refl
]

-- a curly quote that no other quote follows
curly_ends :
    (q c : ℕ) (s : List ℕ)
    → is_curly q ≡ true
    → is_single_quote c ≡ false
    → read_single_quoted false (q ∷ c ∷ s) ≡ some ([], c ∷ s)
unfolding read_single_quoted
curly_ends q c s curly plain = ground (arith, curly, plain)

doubled-curly :
    (q c : ℕ) (s : List ℕ)
    → is_curly q ≡ true
    → is_single_quote c ≡ false
    → doubled (q ∷ c ∷ s) ≡ q ∷ c ∷ doubled s
unfolding doubled
doubled-curly q c s curly plain = ground (arith, curly, plain)

power_shell_script_lem :
    (p : List ℕ)
    → NoCurly p
    → read_single_quoted false (power_shell_script p) ≡ some (p, power_shell_end)
unfolding power_shell_script read_single_quoted
power_shell_script_lem p h = doubled_lem p (39 ∷ power_shell_end) power_shell_end h refl

power_shell_script-curly :
    (p s : List ℕ) (q c : ℕ)
    → NoCurly p
    → is_curly q ≡ true
    → is_single_quote c ≡ false
    → read_single_quoted false (power_shell_script (p ++ q ∷ c ∷ s))
      ≡ some (p, c ∷ (doubled s ++ 39 ∷ power_shell_end))
unfolding power_shell_script
power_shell_script-curly p s q c h curly plain =
    let spread : power_shell_script (p ++ q ∷ c ∷ s)
        ≡ doubled p ++ (q ∷ c ∷ (doubled s ++ 39 ∷ power_shell_end)) =
      ap (λ t. t ++ 39 ∷ power_shell_end)
        (doubled-append p (q ∷ c ∷ s) ∙ ap (λ t. doubled p ++ t) (doubled-curly q c s curly plain))
      ∙ append_assoc (doubled p) (q ∷ c ∷ doubled s) (39 ∷ power_shell_end) in
    ap (read_single_quoted false) spread
    ∙ doubled_lem p (q ∷ c ∷ (doubled s ++ 39 ∷ power_shell_end))
        (c ∷ (doubled s ++ 39 ∷ power_shell_end)) h
        (curly_ends q c (doubled s ++ 39 ∷ power_shell_end) curly plain)

osascript_script_lem :
    (prompt end : List ℕ)
    → read_double_quoted false (osascript_script prompt end) ≡ some (map on_line prompt, end)
unfolding osascript_script escaped read_double_quoted
osascript_script_lem [] end = refl
osascript_script_lem (c ∷ s) end = ground (arith, osascript_script_lem s end)

-- Where the literal that holds the prompt ends, for AppleScript, and for PowerShell with its five
-- single quotes. AppleScript's literal is read as the prompt, whatever it is, with spaces for its
-- line ends, and ends where the script goes on. PowerShell's does the same, without the spaces, for
-- a prompt that has no quote but the apostrophe. The first of the four other quotes in a prompt, if
-- a character that is no quote follows, ends PowerShell's literal, and the rest of the prompt
-- stands outside.
pub scripts_lem :
    (prompt end p s : List ℕ) (q c : ℕ)
    → NoCurly p
    → is_curly q ≡ true
    → is_single_quote c ≡ false
    → (read_double_quoted false (osascript_script prompt end) ≡ some (map on_line prompt, end))
      × (read_single_quoted false (power_shell_script p) ≡ some (p, power_shell_end))
      × (read_single_quoted false (power_shell_script (p ++ q ∷ c ∷ s))
          ≡ some (p, c ∷ (doubled s ++ 39 ∷ power_shell_end)))
scripts_lem prompt end p s q c h curly plain = (
  osascript_script_lem prompt end,
  power_shell_script_lem p h,
  power_shell_script-curly p s q c h curly plain,
)
