-- ===== src/Mcp/WaitFor/Finds.antt =====
-- `waitForPattern` on the ring buffer finds what the terminal writes.
use pty_mcp.Base.{ℕ, ◌+◌, ◌≤◌, ◌≡◌, Bool, true, false, List, ◌++◌, map, length, drop}
use pty_mcp.Text.Split.{complete}
use pty_mcp.Buffer.Ring.{RingBuffer}
use pty_mcp.Buffer.Ring.Inv.{Holds}
use pty_mcp.Mcp.WaitFor.{WaitForParams, Patterns, Round, matches, wait_for_pattern}
use pty_mcp.Mcp.WaitFor.Lines.{AllAlive, all_text, has_match, stream_wait-IsRight}
use pty_mcp.Mcp.WaitFor.Refine.{Fits, chunk_of, wait_for_pattern-stream}

-- If the session stays alive, nothing is overwritten before it is read, and `waitForPattern` gives
-- no match, then no complete line matches of the text made of the unread output and of what is
-- written before each round's read, wherever it is cut into rounds. If it gives a match, the line
-- matches.
pub wait_for_pattern-has_match :
    (env : Patterns) (p : WaitForParams) (last : Bool) (rb : RingBuffer) (hist : List ℕ)
    (start : Round) (rounds : List Round)
    → Holds rb hist
    → length hist + length start.during ≤ rb.mark_snapshot + rb.size
    → Fits rb.size rounds
    → AllAlive (map chunk_of rounds)
    → let r = wait_for_pattern env p last rb start rounds in
      (r.matched ≡ true → matches env p r.match_line ≡ true)
      × (r.matched ≡ false
          → has_match env p
              (complete (drop rb.mark_snapshot hist ++ all_text (map chunk_of rounds)))
            ≡ false)
wait_for_pattern-has_match env p last rb hist start rounds h room fits lives =
    rw (wait_for_pattern-stream env p last rb hist start rounds h room fits) (
      stream_wait-IsRight env p last (drop rb.mark_snapshot hist) start.alive (map chunk_of rounds)
        lives)
