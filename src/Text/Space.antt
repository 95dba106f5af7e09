-- ===== src/Text/Space.antt =====
-- `strings.TrimSpace` and `strings.TrimRight(s, "\n")`. White space is what `unicode.IsSpace` calls so, by
-- its UTF-8 encoding.
use pty_mcp.Base.{
  ℕ, zero, suc, Option, none, some, List, [], ◌∷◌, ◌==◌, length, if◌then◌else◌, map, Bool, true,
  false,
}
use mathlib.Core.List.{reverse}
use pty_mcp.Text.{cut_prefix}

abbrev spaces : List (List ℕ)
spaces =
    (9 ∷ [])
    ∷ (10 ∷ [])
    ∷ (11 ∷ [])
    ∷ (12 ∷ [])
    ∷ (13 ∷ [])
    ∷ (32 ∷ [])
    ∷ (194 ∷ 133 ∷ [])
    ∷ (194 ∷ 160 ∷ [])
    ∷ (225 ∷ 154 ∷ 128 ∷ [])
    ∷ (226 ∷ 128 ∷ 128 ∷ [])
    ∷ (226 ∷ 128 ∷ 129 ∷ [])
    ∷ (226 ∷ 128 ∷ 130 ∷ [])
    ∷ (226 ∷ 128 ∷ 131 ∷ [])
    ∷ (226 ∷ 128 ∷ 132 ∷ [])
    ∷ (226 ∷ 128 ∷ 133 ∷ [])
    ∷ (226 ∷ 128 ∷ 134 ∷ [])
    ∷ (226 ∷ 128 ∷ 135 ∷ [])
    ∷ (226 ∷ 128 ∷ 136 ∷ [])
    ∷ (226 ∷ 128 ∷ 137 ∷ [])
    ∷ (226 ∷ 128 ∷ 138 ∷ [])
    ∷ (226 ∷ 128 ∷ 168 ∷ [])
    ∷ (226 ∷ 128 ∷ 169 ∷ [])
    ∷ (226 ∷ 128 ∷ 175 ∷ [])
    ∷ (226 ∷ 129 ∷ 159 ∷ [])
    ∷ (227 ∷ 128 ∷ 128 ∷ [])
    ∷ []

-- the text behind the first of the prefixes that it has
cut_any : List (List ℕ) → List ℕ → Option (List ℕ)
cut_any [] s = none
cut_any (p ∷ ps) s = elim (cut_prefix p s) [ none ↦ cut_any ps s | some rest ↦ some rest ]

-- On fuel: each round takes a byte at least, so the length of the text is enough.
trim_from : List (List ℕ) → ℕ → List ℕ → List ℕ
trim_from ps zero s = s
trim_from ps (suc fuel) s = elim (cut_any ps s) [ none ↦ s | some rest ↦ trim_from ps fuel rest ]

pub trim_left : List ℕ → List ℕ
trim_left s = trim_from spaces (length s) s

-- the reverse of a text starts with the reverse of the space that it ends with
trim_end : List ℕ → List ℕ
trim_end s = reverse (trim_from (map reverse spaces) (length s) (reverse s))

unfoldable pub trim_space : List ℕ → List ℕ
unfolding trim_left trim_end trim_from cut_any
trim_space s = trim_end (trim_left s)

-- `strings.TrimRight(s, "\n")`
trim_newlines : List ℕ → List ℕ
trim_newlines [] = []
trim_newlines (c ∷ s) = if c == b'\n' then trim_newlines s else c ∷ s

unfoldable pub trim_right_newlines : List ℕ → List ℕ
unfolding trim_newlines
trim_right_newlines s = reverse (trim_newlines (reverse s))

abbrev starts_space : Option (List ℕ) → Bool
starts_space none = false
starts_space (some rest) = true

-- a word, and what follows it
take_word : List ℕ → List ℕ × List ℕ
unfolding cut_any
take_word [] = ([], [])
take_word (c ∷ s) =
    let (word, rest) = take_word s in
    if starts_space (cut_any spaces (c ∷ s)) then ([], c ∷ s) else (c ∷ word, rest)

fields_from : ℕ → List ℕ → List (List ℕ)
unfolding take_word trim_left
fields_from zero s = []
fields_from (suc fuel) s = elim (take_word (trim_left s)).0 [
  | [] ↦ []
  | c ∷ word ↦ (c ∷ word) ∷ fields_from fuel (take_word (trim_left s)).1
]

-- `strings.Fields`: each round takes a byte at least, so the length is enough fuel.
pub fields : List ℕ → List (List ℕ)
unfolding fields_from
fields s = fields_from (length s) s
