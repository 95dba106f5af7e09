-- ===== src/Aitx/Reader/Tests.antt =====
-- Two reads, the first with two queries, and a query that comes in two reads.
use pty_mcp.Base.{ℕ, ◌≡◌, refl, true, false, List, [], ◌∷◌, arith}
use pty_mcp.Text.{Lacks, cut_prefix, contains}
use pty_mcp.Buffer.Ring.{new}
use pty_mcp.Buffer.Ring.Inv.{new-Holds}
use pty_mcp.Aitx.Reader.{Reader, read_loop, on_chunk, cut_queries}
use pty_mcp.Aitx.Reader.Queries.{
  Stores, reads_of, all_shown, all_replies, NoEscapesIn, read_loop-Stores,
}

abbrev chunks : List (List ℕ × List (List ℕ))
chunks = (65 ∷ [], [] ∷ (66 ∷ 67 ∷ []) ∷ []) ∷ (68 ∷ [], []) ∷ []

chunks-NoEscapesIn : NoEscapesIn chunks
unfolding Lacks
chunks-NoEscapesIn = (
  (((λ e. omega (arith, e)), tt), (tt, ((λ e. omega (arith, e)), ((λ e. omega (arith, e)), tt)))),
  (((λ e. omega (arith, e)), tt), tt),
)

abbrev reader : Reader
reader = record { buf = new 4; log = []; answered = []; alive = true }

read_loop-Stores_example :
    Stores true []
      (all_shown chunks)
      (all_replies chunks)
      reader
      (read_loop true (reads_of chunks) reader)
read_loop-Stores_example =
    read_loop-Stores [] true chunks reader (new-Holds 4 (omega arith)) chunks-NoEscapesIn

split_query :
    (read_loop true
      (record { chunk = 27 ∷ 91 ∷ []; has_error = false }
        ∷ record { chunk = 54 ∷ 110 ∷ []; has_error = false }
        ∷ [])
      reader).log
    ≡ 27 ∷ 91 ∷ 54 ∷ 110 ∷ []
unfolding read_loop on_chunk cut_queries contains cut_prefix
split_query = refl
