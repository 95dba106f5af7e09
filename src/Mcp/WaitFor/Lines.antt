-- ===== src/Mcp/WaitFor/Lines.antt =====
-- Which lines of a stream the loop tests.
use mathlib.Core.Bool.{false≢true}
use pty_mcp.Base.{
  ℕ, ◌≡◌, refl, sym, ◌∙◌, Bool, true, false, ◌||◌, List, [], ◌∷◌, ◌++◌, arith, Bool-cases, inl, inr,
  append_assoc, append-nil,
}
use pty_mcp.Text.{split, drop_last, last_line, ends_with_newline}
use pty_mcp.Text.Split.{
  complete, partial, complete-append, partial-append, partial-ends_with_newline,
}
use pty_mcp.Mcp.WaitFor.{
  WaitForParams, Patterns, WaitForResult, Scan, Seen, hit, unmatched, split_chunk, matches, push,
  scan_lines, match_remainder, scan_chunk, give_up, timed_out, after_scan, on_chunk,
  build_match_result, build_timeout_result,
}
use pty_mcp.Mcp.WaitFor.Stream.{stream_loop, from_start, stream_wait}

-- what all chunks together are
pub all_text : List (List ℕ × Bool) → List ℕ
all_text [] = []
all_text ((chunk, alive) ∷ chunks) = chunk ++ all_text chunks

abbrev pub AllAlive : List (List ℕ × Bool) → Type 0
AllAlive [] = Unit
AllAlive ((chunk, alive) ∷ chunks) = (alive ≡ true) × AllAlive chunks

module _ (env : Patterns) (p : WaitForParams) where
  -- whether one of some lines matches, without its escape sequences
  abbrev pub has_match : List (List ℕ) → Bool
  has_match [] = false
  has_match (l ∷ ls) = matches env p (env.strip l) || has_match ls

  has_match-append : (xs ys : List (List ℕ)) → has_match (xs ++ ys) ≡ (has_match xs || has_match ys)
  has_match-append [] ys = refl
  has_match-append (x ∷ xs) ys = ground (arith, has_match-append xs ys)

  has_match-drop_last :
      (xs : List (List ℕ)) → has_match xs ≡ false → has_match (drop_last xs) ≡ false
  unfolding drop_last
  has_match-drop_last [] e = refl
  has_match-drop_last (x ∷ []) e = refl
  has_match-drop_last (x ∷ y ∷ xs) e = ground (arith, has_match-drop_last (y ∷ xs))

  -- What a result of the scan says, where `found` is whether a line matches.
  abbrev Sees : Bool → List ℕ → Seen → Type 0
  Sees found rest (hit line collected) = matches env p line ≡ true
  Sees found rest (unmatched rest' collected) = (found ≡ false) × (rest' ≡ rest)

  scan_lines-Sees :
      (rest : List ℕ) (lines collected : List (List ℕ))
      → Sees (has_match lines) rest (scan_lines env p rest lines collected)
  unfolding scan_lines
  scan_lines-Sees rest [] collected = (refl, refl)
  scan_lines-Sees rest (l ∷ lines) collected = elim (Bool-cases (matches env p (env.strip l))) [
    | inl m ↦ rw m m
    | inr n ↦ rw n (scan_lines-Sees rest lines (push env p collected (env.strip l)))
  ]

  match_remainder-Sees :
      (found : Bool) (rest : List ℕ) (seen : Seen)
      → Sees found rest seen
      → Sees found rest (match_remainder env p seen)
  unfolding match_remainder
  match_remainder-Sees found rest (hit line collected) h = h
  match_remainder-Sees found rest (unmatched [] collected) h = h
  match_remainder-Sees found rest (unmatched (c ∷ r) collected) h =
      elim (Bool-cases (matches env p (env.strip (c ∷ r)))) [ inl m ↦ rw m m | inr n ↦ rw n h ]

  -- The lines of a chunk: the ended ones, and an empty one more after a line feed.
  chunk-Sees :
      (text : List ℕ) (collected : List (List ℕ))
      → Sees (has_match (complete text)) (partial text) (
          match_remainder env p
            (scan_lines env p (split_chunk text).1 (split_chunk text).0 collected))
  unfolding split_chunk
  chunk-Sees text collected = elim (Bool-cases (ends_with_newline text)) [
    | inr open_line ↦
        rw open_line
          (match_remainder-Sees _ _ _ (scan_lines-Sees (partial text) (complete text) collected))
    | inl ended ↦
        rw (ended, partial-ends_with_newline text ended)
          (match_remainder-Sees _ _ _ (
            fewer (scan_lines env p [] (split text) collected)
              (scan_lines-Sees [] (split text) collected)))
  ]
    where
      fewer :
          (seen : Seen)
          → Sees (has_match (split text)) [] seen
          → Sees (has_match (complete text)) [] seen
      fewer (hit line collected) h = h
      fewer (unmatched rest collected) (e, r) = (has_match-drop_last (split text) e, r)

  -- What is known after the text t without a match.
  record IsClean (t : List ℕ) (s : Scan) : Type 0 where
    rest : s.remainder ≡ partial t
    no_match : has_match (complete t) ≡ false

  -- What a result says, if the chunks so far are the text t.
  record IsRight (t : List ℕ) (r : WaitForResult) : Type 0 where
    when_matched : r.matched ≡ true → matches env p r.match_line ≡ true
    when_not : r.matched ≡ false → has_match (complete t) ≡ false

  after_scan-IsRight :
      (full : List ℕ) (s : Scan) (alive found : Bool) (rest : List ℕ) (k : Scan → WaitForResult)
      (seen : Seen)
      → Sees found rest seen
      → ((next : Scan) → next.remainder ≡ rest → found ≡ false → IsRight full (k next))
      → IsRight full (after_scan env p s alive true k seen)
  unfolding build_match_result
  after_scan-IsRight full s alive found rest k (hit line collected) h later = record {
    when_matched = λ e. h;
    when_not = λ e. absurd (false≢true (sym e));
  }
  after_scan-IsRight full s alive found rest k (unmatched r collected) (e, same) later =
      later (record s { remainder = r; collected = collected }) same e

  on_chunk-IsRight :
      (t : List ℕ) (s : Scan) (chunk more : List ℕ) (alive : Bool) (k : Scan → WaitForResult)
      → IsClean t s
      → ((next : Scan) → IsClean (t ++ chunk) next → IsRight (t ++ chunk ++ more) (k next))
      → IsRight (t ++ chunk ++ more) (on_chunk env p s chunk alive true k)
  unfolding on_chunk scan_chunk
  on_chunk-IsRight t s [] more alive k clean later = later s (rw append-nil clean)
  on_chunk-IsRight t s (c ∷ chunk) more alive k clean later =
      after_scan-IsRight (t ++ c ∷ chunk ++ more) s alive _ _ k _
        (chunk-Sees (s.remainder ++ c ∷ chunk) s.collected)
        (λ next r none_found. later next (record {
          rest = r ∙ rw clean.rest (sym (partial-append t (c ∷ chunk)));
          no_match =
              rw (complete-append t (c ∷ chunk), has_match-append, clean.no_match)
                (rw clean.rest at none_found);
        }))

  give_up-IsRight :
      (t : List ℕ) (s : Scan) (last : Bool) → IsClean t s → IsRight t (give_up env p s last)
  unfolding give_up build_match_result build_timeout_result
  give_up-IsRight t s last clean =
      by_seen (match_remainder env p (unmatched s.remainder s.collected))
        (match_remainder-Sees false s.remainder (unmatched s.remainder s.collected) (refl, refl))
    where
      by_seen :
          (seen : Seen) → Sees false s.remainder seen → IsRight t (timed_out env p s last seen)
      by_seen (hit line collected) h = record {
        when_matched = λ e. h;
        when_not = λ e. absurd (false≢true (sym e));
      }
      by_seen (unmatched rest collected) h = record {
        when_matched = λ e. absurd (false≢true e);
        when_not = λ e. clean.no_match;
      }

  stream_loop-IsRight :
      (last : Bool) (chunks : List (List ℕ × Bool)) (t : List ℕ) (s : Scan)
      → AllAlive chunks
      → IsClean t s
      → IsRight (t ++ all_text chunks) (stream_loop env p last s chunks)
  unfolding stream_loop all_text
  stream_loop-IsRight last [] t s alive clean = rw append-nil (give_up-IsRight t s last clean)
  stream_loop-IsRight last ((chunk, alive) ∷ chunks) t s (lives, others) clean =
      rw (lives, ← append_assoc t chunk (all_text chunks))
        (on_chunk-IsRight t s chunk (all_text chunks) true
          (λ next. stream_loop env p last next chunks) clean
          (λ next c. stream_loop-IsRight last chunks (t ++ chunk) next others c))

-- The loop misses no line, wherever the chunks of the stream are cut: if the session stays alive and
-- the result is no match, then no complete line of the whole stream matches without its escape
-- sequences. And if it is a match, the line that it gives matches.
pub stream_wait-IsRight :
    (env : Patterns) (p : WaitForParams) (last : Bool) (existing : List ℕ) (alive : Bool)
    (chunks : List (List ℕ × Bool))
    → AllAlive chunks
    → let r = stream_wait env p last existing alive chunks in
      (r.matched ≡ true → matches env p r.match_line ≡ true)
      × (r.matched ≡ false → has_match env p (complete (existing ++ all_text chunks)) ≡ false)
unfolding stream_wait
stream_wait-IsRight env p last existing alive chunks lives =
    let r =
      on_chunk-IsRight env p [] from_start existing (all_text chunks) alive
        (λ next. stream_loop env p last next chunks) at_start
        (λ next c. stream_loop-IsRight env p last chunks existing next lives c) in
    (r.when_matched, r.when_not)
  where
    at_start : IsClean env p [] from_start
    at_start = record {
      rest = unfold split last_line in refl;
      no_match = unfold split drop_last in refl;
    }
