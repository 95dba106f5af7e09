-- ===== src/Aitx/Reader/Queries.antt =====
-- What the reader stores and answers, for chunks with any number of whole queries.
use pty_mcp.Base.{
  ℕ, zero, ◌≡◌, ◌≢◌, refl, sym, ap, ◌∙◌, Bool, true, false, ==_iff, none, List, [], ◌∷◌, ◌++◌,
  append-nil, append_assoc, if◌then◌else◌, arith,
}
use pty_mcp.Text.{contains, cut_prefix, Lacks}
use pty_mcp.Buffer.Ring.Inv.{Holds, write-Holds}
use pty_mcp.Aitx.Reader.{
  dsr_query, dsr_response, cut_queries, Reader, store, on_chunk, read_one, Read, read_loop,
}

-- texts with a query between each and the next
abbrev pub joined : List ℕ → List (List ℕ) → List ℕ
joined p [] = p
joined p (q ∷ ps) = p ++ (dsr_query ++ joined q ps)

abbrev pub shown : List ℕ → List (List ℕ) → List ℕ
shown p [] = p
shown p (q ∷ ps) = p ++ shown q ps

-- one reply at most, however many queries there are
abbrev pub replies : List (List ℕ) → List (List ℕ)
replies [] = []
replies (q ∷ ps) = dsr_response ∷ []

-- no text has an escape character
abbrev pub NoEscapes : List ℕ → List (List ℕ) → Type 0
NoEscapes p [] = Lacks 27 p
NoEscapes p (q ∷ ps) = Lacks 27 p × NoEscapes q ps

contains_query : (p r : List ℕ) → contains (p ++ (dsr_query ++ r)) dsr_query ≡ true
unfolding contains cut_prefix
contains_query [] r = refl
contains_query (c ∷ p) r = ground (arith, contains_query p r)

starts_none : (c : ℕ) (s : List ℕ) → c ≢ 27 → cut_prefix dsr_query (c ∷ s) ≡ none
unfolding cut_prefix
starts_none c s ne = ground (arith, ==_iff 27 c)

contains_none : (p : List ℕ) → Lacks 27 p → contains p dsr_query ≡ false
unfolding contains Lacks
contains_none [] h = refl
contains_none (c ∷ p) (ne, h) = rw (starts_none c p ne) (contains_none p h)

cut_queries-append :
    (p t : List ℕ) → Lacks 27 p → cut_queries zero (p ++ t) ≡ p ++ cut_queries zero t
unfolding cut_queries Lacks
cut_queries-append [] t h = refl
cut_queries-append (c ∷ p) t (ne, h) =
    rw (starts_none c (p ++ t) ne) (ap (λ s. c ∷ s) (cut_queries-append p t h))

cut_queries-joined :
    (p : List ℕ) (ps : List (List ℕ)) → NoEscapes p ps → cut_queries zero (joined p ps) ≡ shown p ps
unfolding cut_queries cut_prefix
cut_queries-joined p [] h =
    ap (λ s. cut_queries zero s) (sym (append-nil p)) ∙ cut_queries-append p [] h ∙ append-nil p
cut_queries-joined p (q ∷ ps) (h, hs) =
    cut_queries-append p (dsr_query ++ joined q ps) h
    ∙ ap (λ s. p ++ s) (cut_queries-joined q ps hs)

abbrev pub Stores : Bool → List ℕ → List ℕ → List (List ℕ) → Reader → Reader → Type 0
Stores has_log hist t sent r after =
    Holds after.buf (hist ++ t)
    × (after.log ≡ (if has_log then r.log ++ t else r.log))
    × (after.answered ≡ r.answered ++ sent)

module _ (hist : List ℕ) where
  store-Stores :
      (has_log : Bool) (t : List ℕ) (r : Reader)
      → Holds r.buf hist
      → Stores has_log hist t [] r (store has_log t r)
  store-Stores true [] r h =
      rw (append-nil hist) (h, sym (append-nil r.log), sym (append-nil r.answered))
  store-Stores false [] r h = rw (append-nil hist) (h, refl, sym (append-nil r.answered))
  store-Stores has_log (c ∷ s) r h =
      (write-Holds (c ∷ s) r.buf hist h, refl, sym (append-nil r.answered))

  pub on_chunk-Stores :
      (has_log : Bool) (p : List ℕ) (ps : List (List ℕ)) (r : Reader)
      → Holds r.buf hist
      → NoEscapes p ps
      → Stores has_log hist (shown p ps) (replies ps) r (on_chunk has_log (joined p ps) r)
  unfolding on_chunk
  on_chunk-Stores has_log p [] r h free = rw (contains_none p free) (store-Stores has_log p r h)
  on_chunk-Stores has_log p (q ∷ ps) r h free =
      let asked : Reader = record r { answered = r.answered ++ dsr_response ∷ [] } in
      let stored = store-Stores has_log (shown p (q ∷ ps)) asked h in
      rw (contains_query p (joined q ps), cut_queries-joined p (q ∷ ps) free)
        (stored.0, stored.1, stored.2 ∙ append-nil (r.answered ++ dsr_response ∷ []))

-- the reads of such chunks, none of them the last
abbrev pub reads_of : List (List ℕ × List (List ℕ)) → List Read
reads_of [] = []
reads_of ((p, ps) ∷ chunks) = record { chunk = joined p ps; has_error = false } ∷ reads_of chunks

abbrev pub all_shown : List (List ℕ × List (List ℕ)) → List ℕ
all_shown [] = []
all_shown ((p, ps) ∷ chunks) = shown p ps ++ all_shown chunks

abbrev pub all_replies : List (List ℕ × List (List ℕ)) → List (List ℕ)
all_replies [] = []
all_replies ((p, ps) ∷ chunks) = replies ps ++ all_replies chunks

abbrev pub NoEscapesIn : List (List ℕ × List (List ℕ)) → Type 0
NoEscapesIn [] = Unit
NoEscapesIn ((p, ps) ∷ chunks) = NoEscapes p ps × NoEscapesIn chunks

read_one-Stores :
    (hist : List ℕ) (has_log : Bool) (p : List ℕ) (ps : List (List ℕ)) (r : Reader)
    → Holds r.buf hist
    → NoEscapes p ps
    → Stores has_log hist (shown p ps) (replies ps) r (read_one has_log (joined p ps) r)
read_one-Stores hist has_log [] [] r h free = store-Stores hist has_log [] r h
read_one-Stores hist has_log [] (q ∷ ps) r h free =
    on_chunk-Stores hist has_log [] (q ∷ ps) r h free
read_one-Stores hist has_log (c ∷ p) [] r h free = on_chunk-Stores hist has_log (c ∷ p) [] r h free
read_one-Stores hist has_log (c ∷ p) (q ∷ ps) r h free =
    on_chunk-Stores hist has_log (c ∷ p) (q ∷ ps) r h free

log_next :
    (has_log : Bool) (a b c l : List ℕ)
    → a ≡ (if has_log then l ++ b else l)
    → (if has_log then a ++ c else a) ≡ (if has_log then l ++ (b ++ c) else l)
log_next true a b c l e = ap (λ t. t ++ c) e ∙ append_assoc l b c
log_next false a b c l e = e

-- The reading goroutine, for reads that give texts with no escape character, with any number of
-- whole queries for the cursor's position between them: the texts alone are added to the buffer, in
-- order, which satisfies its invariant for them, and to the log file, if there is one; and the
-- terminal gets one reply for each read with a query in it, however many it holds.
pub read_loop-Stores :
    (hist : List ℕ) (has_log : Bool) (chunks : List (List ℕ × List (List ℕ))) (r : Reader)
    → Holds r.buf hist
    → NoEscapesIn chunks
    → Stores has_log hist
        (all_shown chunks)
        (all_replies chunks)
        r
        (read_loop has_log (reads_of chunks) r)
unfolding read_loop
read_loop-Stores hist has_log [] r h free = store-Stores hist has_log [] r h
read_loop-Stores hist has_log ((p, ps) ∷ chunks) r h (first, rest) =
    let next : Reader = read_one has_log (joined p ps) r in
    let one = read_one-Stores hist has_log p ps r h first in
    let more = read_loop-Stores (hist ++ shown p ps) has_log chunks next one.0 rest in
    (
      rw append_assoc at more.0,
      more.1 ∙ log_next has_log next.log (shown p ps) (all_shown chunks) r.log one.1,
      more.2
          ∙ ap (λ t. t ++ all_replies chunks) one.2
          ∙ append_assoc r.answered (replies ps) (all_replies chunks),
    )
