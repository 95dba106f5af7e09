-- ===== src/Aitx/Reader.antt =====
-- internal/aitx/ptysession.go: the goroutine of `newPTYSession` that reads the terminal, and answers its queries for
-- the cursor's position. What each read returns is an argument.
pub mod Queries
mod Tests
use pty_mcp.Base.{
  ℕ, zero, suc, Bool, true, false, Option, none, some, List, [], ◌∷◌, ◌++◌, if◌then◌else◌,
}
use pty_mcp.Text.{codes, cut_prefix, contains}
use pty_mcp.Buffer.Ring.{RingBuffer, write}

-- ESC [ 6 n
abbrev pub dsr_query : List ℕ
dsr_query = 27 ∷ 91 ∷ 54 ∷ 110 ∷ []

-- ESC [ 1 ; 1 R
abbrev pub dsr_response : List ℕ
dsr_response = 27 ∷ 91 ∷ 49 ∷ 59 ∷ 49 ∷ 82 ∷ []

abbrev pub starts : Option (List ℕ) → Bool
starts none = false
starts (some rest) = true

-- `bytes.ReplaceAll(chunk, dsrQuery, nil)`; the number is that of the bytes to skip
unfoldable pub cut_queries : ℕ → List ℕ → List ℕ
unfolding cut_prefix
cut_queries skip [] = []
cut_queries (suc skip) (c ∷ s) = cut_queries skip s
cut_queries zero (c ∷ s) =
    let cut = cut_queries 3 s in
    let kept = c ∷ cut_queries zero s in if starts (cut_prefix dsr_query (c ∷ s)) then cut else kept

-- the buffer, the log file, what was written to the terminal, whether the session is alive
pub record Reader : Type 0 where
  pub buf : RingBuffer
  pub log : List ℕ
  pub answered : List (List ℕ)
  pub alive : Bool

abbrev pub store : Bool → List ℕ → Reader → Reader
store has_log [] r = r
store has_log (c ∷ s) r = record r {
  buf = (write r.buf (c ∷ s)).0;
  log = if has_log then r.log ++ c ∷ s else r.log;
}

-- a chunk that is not empty
unfoldable pub on_chunk : Bool → List ℕ → Reader → Reader
unfolding cut_queries contains
on_chunk has_log chunk r =
    let queried =
      store has_log (cut_queries zero chunk)
        (record r { answered = r.answered ++ dsr_response ∷ [] }) in
    let plain = store has_log chunk r in if contains chunk dsr_query then queried else plain

-- what a read returns: some bytes, and whether it is the last
pub record Read : Type 0 where
  pub chunk : List ℕ
  pub has_error : Bool

abbrev read_one : Bool → List ℕ → Reader → Reader
read_one has_log [] r = r
read_one has_log (c ∷ s) r = on_chunk has_log (c ∷ s) r

pub read_loop : Bool → List Read → Reader → Reader
unfolding on_chunk
read_loop has_log [] r = r
read_loop has_log (read ∷ reads) r =
    let r' = read_one has_log read.chunk r in
    let rest = read_loop has_log reads r' in
    if read.has_error then record r' { alive = false } else rest
