-- ===== src/Audit/Client/Retry.antt =====
-- The retries: how often, after what, and how long they take.
use pty_mcp.Base.{
  ℕ, zero, suc, ◌+◌, ◌≤◌, ◌<◌, ◌≡◌, refl, sym, ap, ◌∙◌, Bool, true, false, not, Option, none, some,
  List, [], ◌∷◌, length, take, arith, Bool-cases, inl, inr,
}
use pty_mcp.Audit.Client.{
  Exchange, PostError, post, is_client_error, retry_delays, Sent, slept_at, after_post, retry_from,
  post_with_retry,
}

-- whether the outcome of a post calls for another one
abbrev pub retries : Option PostError → Bool
retries none = false
retries (some e) = not (is_client_error e)

-- the sleep before each post, the first of all without one
abbrev pub sleep_of : ℕ → List ℕ → ℕ
sleep_of i [] = 0
sleep_of i (d ∷ ds) = slept_at i d + sleep_of (i + 1) ds

-- The posts from i on, where `last` is the outcome of the one before.
pub record IsRetried (net : ℕ → Exchange) (i : ℕ) (ds : List ℕ) (last : Option PostError) (o : Sent)
    : Type 0 where
  pub few : o.attempts ≤ length ds
  pub none_made : o.attempts ≡ 0 → o.result ≡ last
  pub outcome : (k : ℕ) → o.attempts ≡ suc k → o.result ≡ post (net (i + k))
  pub before : (k : ℕ) → suc k < o.attempts → retries (post (net (i + k))) ≡ true
  pub stops : o.attempts < length ds → retries o.result ≡ false
  pub slept : o.slept ≡ sleep_of i (take o.attempts ds)

-- A post that ends the loop.
once-IsRetried :
    (net : ℕ → Exchange) (i d : ℕ) (ds : List ℕ) (last : Option PostError)
    → retries (post (net i)) ≡ false
    → IsRetried net i
        (d ∷ ds)
        last
        (record { result = post (net i); attempts = 1; slept = slept_at i d })
once-IsRetried net i d ds last stop = record {
  few = omega arith;
  none_made = λ e. absurd (omega (arith, e));
  outcome = λ k e. ap (λ n. post (net n)) (omega (arith, e));
  before = λ k lt. absurd (omega (arith, lt));
  stops = λ lt. stop;
  slept = omega arith;
}

-- A post that is followed by others.
again-IsRetried :
    (net : ℕ → Exchange) (i d : ℕ) (ds : List ℕ) (last : Option PostError) (rest : Sent)
    → retries (post (net i)) ≡ true
    → IsRetried net (i + 1) ds (post (net i)) rest
    → IsRetried net i (d ∷ ds) last (record {
      result = rest.result;
      attempts = rest.attempts + 1;
      slept = rest.slept + slept_at i d;
    })
again-IsRetried net i d ds last rest again h = record {
  few = omega (arith, h.few);
  none_made = λ e. absurd (omega (arith, e));
  outcome = λ k e. by_count k e;
  before = λ k lt. by_place k lt;
  stops = λ lt. h.stops (omega (arith, lt));
  slept = omega (arith, h.slept) ∙ ap (sleep_of i) (sym (take_more rest.attempts));
}
  where
    take_more : (n : ℕ) → take (n + 1) (d ∷ ds) ≡ d ∷ take n ds
    take_more n = ap (λ m. take m (d ∷ ds)) {y = suc n} (omega arith)

    by_count : (k : ℕ) → rest.attempts + 1 ≡ suc k → rest.result ≡ post (net (i + k))
    by_count zero e =
        h.none_made (omega (arith, e)) ∙ ap (λ n. post (net n)) {y = i + 0} (omega arith)
    by_count (suc k) e =
        h.outcome k (omega (arith, e)) ∙ ap (λ n. post (net n)) {y = i + suc k} (omega arith)

    by_place : (k : ℕ) → suc k < rest.attempts + 1 → retries (post (net (i + k))) ≡ true
    by_place zero lt = ap (λ n. retries (post (net n))) {y = i} (omega arith) ∙ again
    by_place (suc k) lt =
        ap (λ n. retries (post (net n))) {y = i + 1 + k} (omega arith)
        ∙ h.before k (omega (arith, lt))

retry_from-IsRetried :
    (net : ℕ → Exchange) (i : ℕ) (ds : List ℕ) (last : Option PostError)
    → IsRetried net i ds last (retry_from net i ds last)
unfolding retry_from
retry_from-IsRetried net i [] last = record {
  few = omega arith;
  none_made = λ e. refl;
  outcome = λ k e. absurd (omega (arith, e));
  before = λ k lt. absurd (omega (arith, lt));
  stops = λ lt. absurd (omega (arith, lt));
  slept = refl;
}
retry_from-IsRetried net i (d ∷ ds) last =
    by_outcome (retry_from-IsRetried net (i + 1) ds (post (net i))) (post (net i)) refl
  where
    rest : Sent
    rest = retry_from net (i + 1) ds (post (net i))

    by_outcome :
        IsRetried net (i + 1) ds (post (net i)) rest
        → (r : Option PostError) → post (net i) ≡ r
        → IsRetried net i (d ∷ ds) last (after_post i d r rest)
    by_outcome h none e = rw e at (once-IsRetried net i d ds last (rw e refl))
    by_outcome h (some x) e = elim (Bool-cases (is_client_error x)) [
      | inl c ↦ rw c (rw e at (once-IsRetried net i d ds last (rw (e, c) refl)))
      | inr r ↦ rw r (again-IsRetried net i d ds last rest (rw (e, r) refl) h)
    ]

-- `postWithRetry` posts at most four times; it posts again exactly when a post failed otherwise
-- than with a 4xx status and fewer than four have been made; it returns what the last post
-- returned. The sleeps are those of the posts made: one, three or seven seconds for two, three or
-- four.
pub post_with_retry-IsRetried :
    (net : ℕ → Exchange) → IsRetried net 0 retry_delays none (post_with_retry net)
unfolding post_with_retry
post_with_retry-IsRetried net = retry_from-IsRetried net 0 retry_delays none
