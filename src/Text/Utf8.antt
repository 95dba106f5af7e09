-- ===== src/Text/Utf8.antt =====
-- Go's `utf8.Valid`, on lists of bytes.
use pty_mcp.Base.{
  ℕ, zero, suc, Bool, true, false, ◌&&◌, List, [], ◌∷◌, leb, ltb, if◌then◌else◌, ◌==◌,
}

abbrev in_range : ℕ → ℕ → ℕ → Bool
in_range lo hi c = leb lo c && leb c hi

-- how many bytes of a character are still to come, and the bounds of the next one
unfoldable pub utf8_tail : ℕ → ℕ → ℕ → List ℕ → Bool
utf8_tail zero lo hi [] = true
utf8_tail (suc n) lo hi [] = false
utf8_tail (suc n) lo hi (c ∷ s) = let rest = utf8_tail n 0x80 0xbf s in in_range lo hi c && rest
utf8_tail zero lo hi (c ∷ s) =
    let one = utf8_tail 0 0x80 0xbf s in
    let two = utf8_tail 1 0x80 0xbf s in
    let three = utf8_tail 2 0x80 0xbf s in
    let three_low = utf8_tail 2 0xa0 0xbf s in
    let three_high = utf8_tail 2 0x80 0x9f s in
    let four = utf8_tail 3 0x80 0xbf s in
    let four_low = utf8_tail 3 0x90 0xbf s in
    let four_high = utf8_tail 3 0x80 0x8f s in
    if ltb c 0x80
    then one
    else if in_range 0xc2 0xdf c
    then two
    else if c == 0xe0
    then three_low
    else if c == 0xed
    then three_high
    else if in_range 0xe1 0xef c
    then three
    else if c == 0xf0
    then four_low
    else if c == 0xf4
    then four_high
    else if in_range 0xf1 0xf3 c
    then four
    else false

unfoldable pub utf8_valid : List ℕ → Bool
unfolding utf8_tail
utf8_valid s = utf8_tail 0 0x80 0xbf s
