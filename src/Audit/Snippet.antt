-- ===== src/Audit/Snippet.antt =====
-- internal/audit/client.go: `Snippet`. A string is a list of bytes; `range` goes over it as Go's
-- decoding of UTF-8 does, in which a byte that does not begin a valid encoding is one character.
-- The limit is a natural number; the code's only call gives 2048.
mod Boundary
mod Tests
use pty_mcp.Base.{
  ℕ, zero, suc, ◌+◌, ◌-◌, ◌≡◌, Bool, true, false, ◌&&◌, ◌||◌, List, [], ◌∷◌, length, take, leb, ltb,
  ◌==◌, if◌then◌else◌,
}

abbrev pub is_between : ℕ → ℕ → ℕ → Bool
is_between lo hi c = leb lo c && leb c hi

-- the bytes that may follow a first byte of a longer encoding
abbrev pub is_second : ℕ → ℕ → Bool
is_second first c =
    if first == 0xe0
    then is_between 0xa0 0xbf c
    else if first == 0xed
    then is_between 0x80 0x9f c
    else if first == 0xf0
    then is_between 0x90 0xbf c
    else if first == 0xf4
    then is_between 0x80 0x8f c
    else is_between 0x80 0xbf c

abbrev pub is_continuation : ℕ → Bool
is_continuation c = is_between 0x80 0xbf c

-- the number of bytes after the first, in the character that starts a string
pub extra_bytes : List ℕ → ℕ
extra_bytes (a ∷ b ∷ c ∷ d ∷ s) =
    if is_between 0xf0 0xf4 a && (is_second a b && (is_continuation c && is_continuation d))
    then 3
    else if is_between 0xe0 0xef a && (is_second a b && is_continuation c)
    then 2
    else if is_between 0xc2 0xdf a && is_second a b
    then 1
    else 0
extra_bytes (a ∷ b ∷ c ∷ []) =
    if is_between 0xe0 0xef a && (is_second a b && is_continuation c)
    then 2
    else if is_between 0xc2 0xdf a && is_second a b
    then 1
    else 0
extra_bytes (a ∷ b ∷ []) = if is_between 0xc2 0xdf a && is_second a b then 1 else 0
extra_bytes _ = 0

-- The loop: the bytes left, how many of them belong to the character before, the index, and n.
pub cut_at : ℕ → List ℕ → ℕ → ℕ → ℕ → ℕ
cut_at max [] skip i n = n
cut_at max (c ∷ s) (suc skip) i n = cut_at max s skip (i + 1) n
cut_at max (c ∷ s) zero i n =
    let rest = cut_at max s (extra_bytes (c ∷ s)) (i + 1) i in if ltb max i then n else rest

pub snippet : List ℕ → ℕ → List ℕ
snippet s max = if leb (length s) max then s else take (cut_at max s 0 0 0) s
