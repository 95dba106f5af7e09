-- ===== src/Buffer/Ring/Tests.antt =====
-- A ring of four bytes into which six are written, and the theorems at it.
use pty_mcp.Base.{ℕ, ◌<◌, ◌≡◌, refl, true, List, [], ◌∷◌, arith, length, drop}
use pty_mcp.Base.Int.{pos, negsuc}
use pty_mcp.Buffer.Ring.{
  RingBuffer, new, write_byte, write_bytes, write, read_from, read_since, read_max_from,
  read_since_max, over_limit, string, since, is_truncated, advance_mark_by, tail,
}
use pty_mcp.Buffer.Ring.Inv.{Holds, new-Holds, write-Holds}
use pty_mcp.Buffer.Ring.Read.{read_since_lem, string_lem}
use pty_mcp.Buffer.Ring.Cursor.{since-advance_repeats}

abbrev six : List ℕ
six = 1 ∷ 2 ∷ 3 ∷ 4 ∷ 5 ∷ 6 ∷ []

abbrev three : List ℕ
three = 1 ∷ 2 ∷ 3 ∷ []

abbrev wrapped : RingBuffer
wrapped = record {
  buf = 5 ∷ 6 ∷ 3 ∷ 4 ∷ [];
  size = 4;
  head = 2;
  written = 6;
  mark_snapshot = 0;
  notify = true;
}

abbrev partial : RingBuffer
partial = record {
  buf = 1 ∷ 2 ∷ 3 ∷ 0 ∷ [];
  size = 4;
  head = 3;
  written = 3;
  mark_snapshot = 0;
  notify = true;
}

writes_wrap : (write (new 4) six).0 ≡ wrapped
unfolding write write_bytes write_byte new
writes_wrap = refl

wrapped-Holds : Holds wrapped six
unfolding write write_bytes write_byte new
wrapped-Holds = write-Holds six (new 4) [] (new-Holds 4 (omega arith))

partial-Holds : Holds partial three
unfolding write write_bytes write_byte new
partial-Holds = write-Holds three (new 4) [] (new-Holds 4 (omega arith))

reads :
    (read_since wrapped (pos 4) ≡ 5 ∷ 6 ∷ [])
    × (read_since wrapped (negsuc 0) ≡ 3 ∷ 4 ∷ 5 ∷ 6 ∷ [])
    × (read_since_max wrapped (pos 0) (pos 3) ≡ (3 ∷ 4 ∷ 5 ∷ [], 5, true))
    × (string partial ≡ three)
    × (is_truncated wrapped (pos 1) ≡ true)
unfolding read_since read_from read_since_max read_max_from over_limit string is_truncated
reads = (refl, refl, refl, refl, refl)

last_line : tail (write (new 8) (65 ∷ 10 ∷ 66 ∷ 10 ∷ [])).0 1 ≡ (66 ∷ []) ∷ []
unfolding tail write write_bytes write_byte new
last_line = refl

read_since_example : read_since wrapped (pos 4) ≡ 5 ∷ 6 ∷ []
read_since_example = read_since_lem wrapped six wrapped-Holds (pos 4)

string_example : string wrapped ≡ 3 ∷ 4 ∷ 5 ∷ 6 ∷ []
string_example = string_lem wrapped six wrapped-Holds

since-advance_repeats_example :
    (since (advance_mark_by wrapped (length (since wrapped))) ≡ drop 2 (since wrapped))
    × (2 < length (since wrapped))
since-advance_repeats_example = since-advance_repeats wrapped six wrapped-Holds (omega arith)
