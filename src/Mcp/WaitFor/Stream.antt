-- ===== src/Mcp/WaitFor/Stream.antt =====
-- The loop on a stream of chunks, without a ring buffer.
use pty_mcp.Base.{ℕ, Bool, true, false, List, [], ◌∷◌}
use pty_mcp.Mcp.WaitFor.{WaitForParams, Patterns, WaitForResult, Scan, give_up, on_chunk}

-- the chunks that the rounds read, with whether the session is alive
module _ (env : Patterns) (p : WaitForParams) (last : Bool) where
  unfoldable pub stream_loop : Scan → List (List ℕ × Bool) → WaitForResult
  stream_loop s [] = give_up env p s last
  stream_loop s ((chunk, alive) ∷ chunks) =
      on_chunk env p s chunk alive alive (λ next. stream_loop next chunks)

abbrev pub from_start : Scan
from_start = record { snapshot = 0; remainder = []; collected = []; truncated = false }

unfoldable pub stream_wait :
    Patterns → WaitForParams → Bool → List ℕ → Bool → List (List ℕ × Bool) → WaitForResult
unfolding stream_loop
stream_wait env p last existing alive chunks =
    on_chunk env p from_start existing alive true (λ next. stream_loop env p last next chunks)
