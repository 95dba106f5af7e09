-- ===== src/Mcp/WaitFor/Tests.antt =====
-- Runs of the loop: a line that comes in two chunks.
use pty_mcp.Base.{◌≡◌, refl, true, false, none, [], ◌∷◌, ◌++◌, map, arith}
use pty_mcp.Text.{
  codes, split, drop_last, last_line, ends_with_newline, join_lines, contains, cut_prefix,
}
use pty_mcp.Text.Split.{complete}
use pty_mcp.Buffer.Ring.{new}
use pty_mcp.Buffer.Ring.Inv.{new-Holds}
use pty_mcp.Mcp.WaitFor.{
  WaitForParams, Patterns, Round, matches, wait_for_pattern, on_chunk, scan_chunk, split_chunk,
  scan_lines, match_remainder, push, max_collected, build_match_result,
}
use pty_mcp.Mcp.WaitFor.Stream.{stream_loop, stream_wait}
use pty_mcp.Mcp.WaitFor.Lines.{all_text, has_match}
use pty_mcp.Mcp.WaitFor.Refine.{chunk_of, wait_for_pattern-stream}
use pty_mcp.Mcp.WaitFor.Finds.{wait_for_pattern-has_match}

-- no regular expression is valid, so that the text is looked for as it is
abbrev plain : Patterns
plain = record { compile = λ text. none; strip = λ line. line }

abbrev params : WaitForParams
params = record { wait_for = codes "bc"; timeout_seconds = 5; context_lines = 1; tail_lines = 0 }

matched_in_parts :
    (stream_wait plain params true (codes "x\nab") true ((codes "cd\n", true) ∷ [])).context
    ≡ codes "x\nabcd"
unfolding stream_wait stream_loop on_chunk scan_chunk split_chunk scan_lines match_remainder push
    max_collected build_match_result matches split drop_last last_line ends_with_newline join_lines
    contains cut_prefix
matched_in_parts = refl

abbrev quiet : Round
quiet = record { arrives = []; during = []; late = []; alive = true }

abbrev one_line : Round
one_line = record { arrives = codes "abcd\n"; during = []; late = codes "e"; alive = true }

wait_for_pattern-stream_example :
    wait_for_pattern plain params true (new 8) quiet (one_line ∷ [])
    ≡ stream_wait plain params true [] true (map chunk_of (one_line ∷ []))
unfolding new
wait_for_pattern-stream_example =
    wait_for_pattern-stream plain params true (new 8) [] quiet (one_line ∷ [])
      (new-Holds 8 (omega arith)) (omega arith) (omega arith, tt)

wait_for_pattern-has_match_example :
    let r = wait_for_pattern plain params true (new 8) quiet (one_line ∷ []) in
    (r.matched ≡ true → matches plain params r.match_line ≡ true)
    × (r.matched ≡ false
        → has_match plain params (complete ([] ++ all_text (map chunk_of (one_line ∷ [])))) ≡ false)
unfolding new
wait_for_pattern-has_match_example =
    wait_for_pattern-has_match plain params true (new 8) [] quiet (one_line ∷ [])
      (new-Holds 8 (omega arith)) (omega arith) (omega arith, tt) (refl, tt)
