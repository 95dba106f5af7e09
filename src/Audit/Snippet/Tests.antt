-- ===== src/Audit/Snippet/Tests.antt =====
-- A text with a character of two bytes on the limit.
use pty_mcp.Base.{ℕ, ◌≤◌, ◌<◌, ◌≡◌, refl, ◌⊎◌, List, [], ◌∷◌, length, take}
use pty_mcp.Audit.Snippet.{extra_bytes, cut_at, snippet}
use pty_mcp.Audit.Snippet.Boundary.{Starts, snippet_lem}

abbrev text : List ℕ
text = 97 ∷ 0xc3 ∷ 0xa9 ∷ 98 ∷ []

within : snippet text 3 ≡ 97 ∷ 0xc3 ∷ 0xa9 ∷ []
unfolding snippet cut_at extra_bytes
within = refl

before : snippet text 2 ≡ 97 ∷ []
unfolding snippet cut_at extra_bytes
before = refl

snippet_example :
    ((length text ≤ 2) × (snippet text 2 ≡ text))
    ⊎ ((n : ℕ) × (2 < length text)
        × (snippet text 2 ≡ take n text)
        × Starts text 0 n
        × (n ≤ 2)
        × ((k : ℕ) → Starts text 0 k → k ≤ 2 → k ≤ n))
snippet_example = snippet_lem text 2
