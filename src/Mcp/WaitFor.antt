-- ===== src/Mcp/WaitFor.antt =====
-- internal/mcp/tools.go: `waitForPattern` and what it calls. The regexp package and `StripANSI` are
-- parameters. The terminal writes to the ring buffer while the loop runs: a round of the loop is given
-- by what is written before its `Wait` returns true, between its `ReadSince` and `IsTruncated`, and
-- between this and its `Snapshot`, and by whether the session is alive. After the last round `Wait`
-- returns false, because the context is done.
pub mod Stream
pub mod Lines
pub mod Refine
pub mod Finds
mod Tests
use pty_mcp.Base.{
  ℕ, ◌+◌, ◌-◌, ◌≡◌, Bool, true, false, ◌||◌, Option, none, some, List, [], ◌∷◌, ◌++◌, length, drop,
  ltb, if◌then◌else◌,
}
use pty_mcp.Base.Int.{pos}
use pty_mcp.Text.{split, drop_last, last_line, ends_with_newline, join_lines, contains}
use pty_mcp.Buffer.Ring.{RingBuffer, write, read_since, is_truncated, snapshot, mark_position}

pub record WaitForParams : Type 0 where
  pub wait_for : List ℕ
  pub timeout_seconds : ℕ
  pub context_lines : ℕ
  pub tail_lines : ℕ

-- `regexp.Compile` with `MatchString`, and `pty.StripANSI`
pub record Patterns : Type 0 where
  pub compile : List ℕ → Option (List ℕ → Bool)
  pub strip : List ℕ → List ℕ

pub data WaitError : Type 0 where
  no_error session_terminated : WaitError
  timeout_after : ℕ → WaitError

pub record WaitForResult : Type 0 where
  pub matched : Bool
  pub timed_out : Bool
  pub match_line : List ℕ
  pub context : List ℕ
  pub tail : List ℕ
  pub error : WaitError
  pub warning : Bool
  pub is_truncated : Bool
  pub is_alive : Bool

-- `usePlainMatch`, and the test of a line
abbrev pub use_plain : Option (List ℕ → Bool) → Bool
use_plain none = true
use_plain (some re) = false

abbrev test_line : Option (List ℕ → Bool) → List ℕ → List ℕ → Bool
test_line none wanted clean = contains clean wanted
test_line (some re) wanted clean = re clean

pub max_collected : WaitForParams → ℕ
max_collected p =
    if ltb (p.context_lines + p.tail_lines + 100) 200
    then 200
    else p.context_lines + p.tail_lines + 100

-- `tailFromCollected`, `buildMatchResult`, `buildTimeoutResult`
pub tail_from_collected : List (List ℕ) → ℕ → List ℕ
tail_from_collected [] n = []
tail_from_collected (c ∷ cs) n =
    if ltb 0 n then join_lines (drop (length (c ∷ cs) - n) (c ∷ cs)) else []

pub record Status : Type 0 where
  pub warning : Bool
  pub truncated : Bool
  pub alive : Bool

pub build_match_result : List ℕ → List (List ℕ) → ℕ → Status → WaitForResult
build_match_result line collected context_lines st = record {
  matched = true;
  timed_out = false;
  match_line = line;
  context =
      if ltb 0 context_lines
      then join_lines (drop (length collected - 1 - context_lines) collected)
      else [];
  tail = [];
  error = no_error;
  warning = st.warning;
  is_truncated = st.truncated;
  is_alive = st.alive;
}

pub build_timeout_result : List (List ℕ) → WaitForParams → Status → WaitForResult
build_timeout_result collected p st = record {
  matched = false;
  timed_out = true;
  match_line = [];
  context = [];
  tail = if ltb 0 p.tail_lines then tail_from_collected collected p.tail_lines else [];
  error = timeout_after p.timeout_seconds;
  warning = st.warning;
  is_truncated = st.truncated;
  is_alive = st.alive;
}

-- the result of the loop for a session that is not alive
pub terminated_result : List (List ℕ) → WaitForParams → Status → WaitForResult
terminated_result collected p st = record {
  matched = false;
  timed_out = false;
  match_line = [];
  context = [];
  tail = tail_from_collected collected p.tail_lines;
  error = session_terminated;
  warning = st.warning;
  is_truncated = st.truncated;
  is_alive = false;
}

pub record Scan : Type 0 where
  pub snapshot : ℕ
  pub remainder : List ℕ
  pub collected : List (List ℕ)
  pub truncated : Bool

pub data Seen : Type 0 where
  hit : List ℕ → List (List ℕ) → Seen
  unmatched : List ℕ → List (List ℕ) → Seen

pub record Round : Type 0 where
  pub arrives : List ℕ
  pub during : List ℕ
  pub late : List ℕ
  pub alive : Bool

-- The complete lines, and the line that has no end yet.
pub split_chunk : List ℕ → List (List ℕ) × List ℕ
split_chunk chunk =
    if ends_with_newline chunk
    then (split chunk, [])
    else (drop_last (split chunk), last_line (split chunk))

-- `ReadSince`, `IsTruncated` and `Snapshot`, with what is written between them
pub read_round : RingBuffer → Scan → List ℕ → List ℕ → RingBuffer × Scan × List ℕ
read_round rb s during late =
    let rb' = (write rb during).0 in
    let rb'' = (write rb' late).0 in
    (
      rb'',
      record s {
        snapshot = snapshot rb'';
        truncated = is_truncated rb' (pos s.snapshot) || s.truncated;
      },
      read_since rb (pos s.snapshot),
    )

module _ (env : Patterns) (p : WaitForParams) where
  pub matches : List ℕ → Bool
  matches clean = test_line (env.compile p.wait_for) p.wait_for clean

  pub push : List (List ℕ) → List ℕ → List (List ℕ)
  push collected clean =
      let all = collected ++ clean ∷ [] in
      if ltb (max_collected p) (length all) then drop (length all - max_collected p) all else all

  -- the loop over the lines; `rest` is what remains without an end
  pub scan_lines : List ℕ → List (List ℕ) → List (List ℕ) → Seen
  scan_lines rest [] collected = unmatched rest collected
  scan_lines rest (line ∷ lines) collected =
      let later = scan_lines rest lines (push collected (env.strip line)) in
      if matches (env.strip line)
      then hit (env.strip line) (push collected (env.strip line))
      else later

  -- `matchRemainder`
  pub match_remainder : Seen → Seen
  match_remainder (hit line collected) = hit line collected
  match_remainder (unmatched [] collected) = unmatched [] collected
  match_remainder (unmatched (c ∷ rest) collected) =
      if matches (env.strip (c ∷ rest))
      then hit (env.strip (c ∷ rest)) (collected ++ env.strip (c ∷ rest) ∷ [])
      else unmatched (c ∷ rest) collected

  -- what is done with a chunk that is not empty
  pub scan_chunk : Scan → List ℕ → Seen
  scan_chunk s chunk =
      let (lines, rest) = split_chunk (s.remainder ++ chunk) in
      match_remainder (scan_lines rest lines s.collected)

  abbrev pub status : Scan → Bool → Status
  status s alive = record {
    warning = use_plain (env.compile p.wait_for);
    truncated = s.truncated;
    alive = alive;
  }

  abbrev with_remainder : List ℕ → List (List ℕ) → List (List ℕ)
  with_remainder [] collected = collected
  with_remainder (c ∷ rest) collected = collected ++ env.strip (c ∷ rest) ∷ []

  abbrev timed_out : Scan → Bool → Seen → WaitForResult
  timed_out s alive (hit line collected) =
      build_match_result line collected p.context_lines (status s alive)
  timed_out s alive (unmatched rest collected) =
      build_timeout_result (with_remainder rest collected) p (status s alive)

  -- when `Wait` returns false
  pub give_up : Scan → Bool → WaitForResult
  give_up s alive = timed_out s alive (match_remainder (unmatched s.remainder s.collected))

  -- `goes_on`: whether the loop goes on after a chunk without a match
  abbrev after_scan : Scan → Bool → Bool → (Scan → WaitForResult) → Seen → WaitForResult
  after_scan s alive goes_on continue (hit line collected) =
      build_match_result line collected p.context_lines (status s alive)
  after_scan s alive goes_on continue (unmatched rest collected) =
      let rest_of_loop = continue (record s { remainder = rest; collected = collected }) in
      if goes_on then rest_of_loop else terminated_result collected p (status s alive)

  -- the loop's body from the test of the chunk on
  pub on_chunk : Scan → List ℕ → Bool → Bool → (Scan → WaitForResult) → WaitForResult
  on_chunk s [] alive goes_on continue = continue s
  on_chunk s (c ∷ chunk) alive goes_on continue =
      after_scan s alive goes_on continue (scan_chunk s (c ∷ chunk))

  -- the main loop; `last` is whether the session is alive when the context is done
  pub wait_loop : Bool → RingBuffer → Scan → List Round → WaitForResult
  wait_loop last rb s [] = give_up s last
  wait_loop last rb s (r ∷ rounds) =
      let (rb', s', chunk) = read_round (write rb r.arrives).0 s r.during r.late in
      on_chunk s' chunk r.alive r.alive (λ next. wait_loop last rb' next rounds)

  -- `waitForPattern`; `first` tells what happens around its first read, which has no `Wait`. The
  -- existing output is not followed by the test whether the session is alive.
  pub wait_for_pattern : Bool → RingBuffer → Round → List Round → WaitForResult
  wait_for_pattern last rb first rounds =
      let start : Scan = record {
        snapshot = mark_position rb;
        remainder = [];
        collected = [];
        truncated = false;
      } in
      let (rb', s', existing) = read_round rb start first.during first.late in
      on_chunk s' existing first.alive true (λ next. wait_loop last rb' next rounds)
