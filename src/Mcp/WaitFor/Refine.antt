-- ===== src/Mcp/WaitFor/Refine.antt =====
-- The loop over the ring buffer reads the stream, except what is written while it reads.
use pty_mcp.Base.{
  ℕ, ◌+◌, ◌≤◌, ◌≡◌, refl, ap, ◌∙◌, Bool, true, false, List, [], ◌∷◌, ◌++◌, map, length, drop, arith,
  Bool-cases, inl, inr, length-append,
}
use pty_mcp.Base.Int.{pos}
use pty_mcp.Buffer.Ring.{RingBuffer, write, read_since, is_truncated, snapshot, mark_position}
use pty_mcp.Buffer.Ring.Inv.{Holds, write-Holds, size-write}
use pty_mcp.Buffer.Ring.Read.{read_since_lem, is_truncated_iff}
use pty_mcp.Mcp.WaitFor.{
  WaitForParams, Patterns, WaitForResult, Scan, Seen, hit, unmatched, Round, give_up, scan_chunk,
  after_scan, on_chunk, read_round, wait_loop, wait_for_pattern,
}
use pty_mcp.Mcp.WaitFor.Stream.{stream_loop, stream_wait}

-- The snapshot serves to read the ring buffer only.
abbrev without_snapshot : Scan → Scan
without_snapshot s = record s { snapshot = 0 }

module _ (env : Patterns) (p : WaitForParams) where
  on_chunk-without_snapshot :
      (s : Scan) (chunk : List ℕ) (alive goes_on : Bool) (k k' : Scan → WaitForResult)
      → ((next : Scan)
          → next.snapshot ≡ s.snapshot
          → next.truncated ≡ s.truncated
          → k next ≡ k' (without_snapshot next))
      → on_chunk env p s chunk alive goes_on k
        ≡ on_chunk env p (without_snapshot s) chunk alive goes_on k'
  unfolding on_chunk scan_chunk
  on_chunk-without_snapshot s [] alive goes_on k k' same = same s refl refl
  on_chunk-without_snapshot s (c ∷ chunk) alive goes_on k k' same =
      by_seen (scan_chunk env p s (c ∷ chunk))
    where
      by_seen :
          (seen : Seen)
          → after_scan env p s alive goes_on k seen
            ≡ after_scan env p (without_snapshot s) alive goes_on k' seen
      by_seen (hit line collected) = refl
      by_seen (unmatched rest collected) =
          rw (same (record s { remainder = rest; collected = collected }) refl refl) refl

-- one reading, of a buffer that holds all from the snapshot on, and does so until it is checked
read_round_lem :
    (rb : RingBuffer) (hist : List ℕ) (s : Scan) (during late : List ℕ)
    → Holds rb hist
    → s.snapshot ≤ length hist
    → length hist + length during ≤ s.snapshot + rb.size
    → (rb' : RingBuffer) × Holds rb' (hist ++ during ++ late)
      × (rb'.size ≡ rb.size)
      × (read_round rb s during late
          ≡ (rb', record s { snapshot = length (hist ++ during ++ late) }, drop s.snapshot hist))
unfolding read_round snapshot
read_round_lem rb hist s during late h old room = (
  (write (write rb during).0 late).0,
  held,
  size-write late (write rb during).0 ∙ size-write during rb,
  rw (not_truncated, held.counted, read_all) refl,
)
  where
    held : Holds (write (write rb during).0 late).0 (hist ++ during ++ late)
    held = write-Holds late (write rb during).0 (hist ++ during) (write-Holds during rb hist h)

    read_all : read_since rb (pos s.snapshot) ≡ drop s.snapshot hist
    read_all =
        read_since_lem rb hist h (pos s.snapshot)
        ∙ ap (λ n. drop n hist) {y = s.snapshot} (omega (arith, old, room))

    not_truncated : is_truncated (write rb during).0 (pos s.snapshot) ≡ false
    not_truncated = elim (Bool-cases (is_truncated (write rb during).0 (pos s.snapshot))) [
      | inl cut ↦ absurd (
          omega (
            arith,
            (is_truncated_iff (write rb during).0 (hist ++ during) (write-Holds during rb hist h)
                  s.snapshot).0
                cut,
            length-append hist during,
            size-write during rb,
          ))
      | inr kept ↦ kept
    ]

drop-length-append : (xs ys : List ℕ) → drop (length xs) (xs ++ ys) ≡ ys
drop-length-append [] ys = refl
drop-length-append (x ∷ xs) ys = drop-length-append xs ys

-- What is written before a round's read and during it fits into the buffer.
abbrev pub Fits : ℕ → List Round → Type 0
Fits size [] = Unit
Fits size (r ∷ rounds) = (length r.arrives + length r.during ≤ size) × Fits size rounds

abbrev pub chunk_of : Round → List ℕ × Bool
chunk_of r = (r.arrives, r.alive)

module _ (env : Patterns) (p : WaitForParams) (last : Bool) where
  wait_loop-stream :
      (rounds : List Round) (rb : RingBuffer) (hist : List ℕ) (s : Scan)
      → Holds rb hist
      → s.snapshot ≡ length hist
      → Fits rb.size rounds
      → wait_loop env p last rb s rounds
        ≡ stream_loop env p last (without_snapshot s) (map chunk_of rounds)
  unfolding wait_loop stream_loop give_up
  wait_loop-stream [] rb hist s h at_end fits = refl
  wait_loop-stream (r ∷ rounds) rb hist s h at_end (fits, later) =
      let rb1 = (write rb r.arrives).0 in
      let (rb', held, same_size, e) =
        read_round_lem rb1 (hist ++ r.arrives) s r.during r.late (write-Holds r.arrives rb hist h)
          (omega (arith, at_end, length-append hist r.arrives))
          (omega (arith, at_end, length-append hist r.arrives, size-write r.arrives rb, fits)) in
      let fits' : Fits rb'.size rounds = rw (same_size, size-write r.arrives rb) later in
      rw (e, at_end, drop-length-append hist r.arrives)
        (on_chunk-without_snapshot env p
          (record s { snapshot = length (hist ++ r.arrives ++ r.during ++ r.late) }) r.arrives
          r.alive r.alive _ _
          (λ next same_snapshot _.
            wait_loop-stream rounds rb' (hist ++ r.arrives ++ r.during ++ r.late) next held
              same_snapshot fits'))

-- `waitForPattern` on a ring buffer gives what the loop gives on a stream: the output that is not
-- read yet, and then what is written before each round. What is written between a read and the
-- following `Snapshot` is no part of this stream: it is never looked at. The condition is that
-- nothing is overwritten before it is read: the unread output, or what a round reads, fits into the
-- buffer together with what is written up to the check for truncation.
pub wait_for_pattern-stream :
    (env : Patterns) (p : WaitForParams) (last : Bool) (rb : RingBuffer) (hist : List ℕ)
    (start : Round) (rounds : List Round)
    → Holds rb hist
    → length hist + length start.during ≤ rb.mark_snapshot + rb.size
    → Fits rb.size rounds
    → wait_for_pattern env p last rb start rounds
      ≡ stream_wait env p last (drop rb.mark_snapshot hist) start.alive (map chunk_of rounds)
unfolding wait_for_pattern stream_wait mark_position
wait_for_pattern-stream env p last rb hist start rounds h room fits =
    let s : Scan = record {
      snapshot = rb.mark_snapshot;
      remainder = [];
      collected = [];
      truncated = false;
    } in
    let (rb', held, same_size, e) =
      read_round_lem rb hist s start.during start.late h (omega (arith, h.mark_in, h.counted))
        room in
    let fits' : Fits rb'.size rounds = rw same_size fits in
    rw e (
      on_chunk-without_snapshot env p
        (record s { snapshot = length (hist ++ start.during ++ start.late) })
        (drop rb.mark_snapshot hist) start.alive true _ _
        (λ next same_snapshot _.
          wait_loop-stream env p last rounds rb' (hist ++ start.during ++ start.late) next held
            same_snapshot fits'))
