-- ===== src/Mcp/Tools/Settle/Tests.antt =====
-- Output that stops at once, and output that never does.
use pty_mcp.Base.{ℕ, ◌+◌, ◌*◌, ◌≡◌, refl, true, false, some}
use pty_mcp.Mcp.Tools.Settle.{Rounds, wait_from, wait_for_settle}

abbrev rounds : (ℕ → ℕ) → Rounds
rounds snapshot = record {
  began_at = 0;
  first_at = 0;
  first_snapshot = 7;
  tested_at = λ n. 20 * n;
  seen_at = λ n. 20 * n + 20;
  snapshot = snapshot;
}

settles : wait_for_settle 101 (rounds (λ n. 7)) 100 2000 ≡ some true
unfolding wait_for_settle wait_from
settles = refl

gives_up : wait_for_settle 101 (rounds (λ n. n + 8)) 100 2000 ≡ some false
unfolding wait_for_settle wait_from
gives_up = refl
