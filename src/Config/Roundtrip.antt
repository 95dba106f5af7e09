-- ===== src/Config/Roundtrip.antt =====
-- Settings that are written as lines, and read back.
use pty_mcp.Base.{
  ℕ, ◌+◌, ◌≡◌, refl, sym, ap, ◌∙◌, false, Bool-cases, inl, inr, none, some, List, [], ◌∷◌, ◌++◌,
  ◌==◌, ==_iff, arith, length, map, append-nil,
}
use pty_mcp.Text.{Lacks}
use pty_mcp.Text.Space.{trim_space}
use pty_mcp.Config.{Settings, malformed, cut_at, is_comment, setting, read_lines}

-- the line of a setting
abbrev pub line_of : List ℕ × List ℕ → List ℕ
line_of (k, v) = k ++ b'=' ∷ v

-- A setting that a line can hold: no space around its key, its value and the line, no equals sign in its
-- key, and no comment.
pub record IsPlain (kv : List ℕ × List ℕ) : Type 0 where
  pub trimmed : trim_space (line_of kv) ≡ line_of kv
  pub trimmed_key : trim_space kv.0 ≡ kv.0
  pub trimmed_value : trim_space kv.1 ≡ kv.1
  pub no_equals : Lacks b'=' kv.0
  pub no_comment : is_comment (line_of kv) ≡ false

cut_at-append : (sep : ℕ) (k v : List ℕ) → Lacks sep k → cut_at sep (k ++ sep ∷ v) ≡ some (k, v)
unfolding cut_at Lacks
cut_at-append sep [] v h = rw ((==_iff sep sep).1 refl) refl
cut_at-append sep (c ∷ k) v (ne, h) = elim (Bool-cases (c == sep)) [
  | inl same ↦ absurd (ne ((==_iff c sep).0 same))
  | inr other ↦ rw (other, cut_at-append sep k v h) refl
]

setting-line_of : (kv : List ℕ × List ℕ) → IsPlain kv → setting (trim_space (line_of kv)) ≡ inr kv
setting-line_of (k, v) h =
    rw (h.trimmed, cut_at-append b'=' k v h.no_equals, h.trimmed_key, h.trimmed_value) refl

read_one :
    (line : ℕ) (kv : Settings) (l : List ℕ) (s : List ℕ × List ℕ) (ls : List (List ℕ))
    → is_comment (trim_space l) ≡ false
    → setting (trim_space l) ≡ inr s
    → read_lines line kv (l ∷ ls) ≡ read_lines (line + 1) (s ∷ kv) ls
unfolding read_lines
read_one line kv l s ls e f = rw (e, f) refl

unfoldable pub ArePlain : Settings → Type 0
ArePlain [] = Unit
ArePlain (s ∷ ss) = IsPlain s × ArePlain ss

-- the settings in the order in which they are kept
unfoldable pub kept : Settings → Settings → Settings
kept [] kv = kv
kept (s ∷ ss) kv = kept ss (s ∷ kv)

read_next :
    (line : ℕ) (kv : Settings) (s : List ℕ × List ℕ) (ls : List (List ℕ))
    → IsPlain s
    → read_lines line kv (line_of s ∷ ls) ≡ read_lines (line + 1) (s ∷ kv) ls
read_next line kv s ls h =
    read_one line kv (line_of s) s ls (rw h.trimmed h.no_comment) (setting-line_of s h)

read_malformed :
    (line : ℕ) (kv : Settings) (l : List ℕ) (ls : List (List ℕ))
    → is_comment (trim_space l) ≡ false
    → cut_at b'=' (trim_space l) ≡ none
    → read_lines line kv (l ∷ ls) ≡ inl (malformed line (trim_space l))
unfolding read_lines
read_malformed line kv l ls e f = rw (e, f) refl

-- reading lines, whatever follows them
read_prefix :
    (ss : Settings) (line : ℕ) (kv : Settings) (ls : List (List ℕ))
    → ArePlain ss
    → read_lines line kv (map line_of ss ++ ls) ≡ read_lines (line + length ss) (kept ss kv) ls
unfolding ArePlain kept
read_prefix [] line kv ls h = ap (λ n. read_lines n kv ls) (omega arith)
read_prefix (s ∷ ss) line kv ls (first, rest) =
    read_next line kv s (map line_of ss ++ ls) first
    ∙ read_prefix ss (line + 1) (s ∷ kv) ls rest
    ∙ ap (λ n. read_lines n (kept (s ∷ ss) kv) ls) (omega arith)

-- Settings with no space around their keys and values and no equals sign in their keys, and whose
-- lines are no comments and not surrounded by space, written one on a line, are read back as they
-- are, the last one first; and a line after them that is neither empty, nor a comment, nor has an
-- equals sign is refused with its number and its text, whatever comes after it.
pub read_lines-line_of :
    (ss : Settings) (bad : List ℕ) (ls : List (List ℕ))
    → ArePlain ss
    → is_comment (trim_space bad) ≡ false
    → cut_at b'=' (trim_space bad) ≡ none
    → (read_lines 1 [] (map line_of ss) ≡ inr (kept ss []))
      × (read_lines 1 [] (map line_of ss ++ bad ∷ ls)
          ≡ inl (malformed (1 + length ss) (trim_space bad)))
unfolding read_lines
read_lines-line_of ss bad ls h no_comment no_equals = (
  sym (ap (λ t. read_lines 1 [] t) (append-nil (map line_of ss))) ∙ read_prefix ss 1 [] [] h,
  read_prefix ss 1 [] (bad ∷ ls) h
      ∙ read_malformed (1 + length ss) (kept ss []) bad ls no_comment no_equals,
)
