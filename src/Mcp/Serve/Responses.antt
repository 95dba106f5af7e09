-- ===== src/Mcp/Serve/Responses.antt =====
-- Which requests are answered: what the invariant says at each end of a job, and what follows for a
-- request that is cancelled.
use mathlib.Core.Bool.{false≢true}
use pty_mcp.Base.{
  ℕ, ◌-◌, ◌≡◌, refl, sym, ◌∙◌, String, true, false, some, get_elem?, Bool-cases, inl, inr, str_eq,
}
use pty_mcp.Mcp.Inflight.{cancel, finish, mem, marked-finish, marked-cancel, was_cancelled}
use pty_mcp.Mcp.Serve.{
  CancelParams, message, Request, queued, running, Job, Serving, is_notification, is_cancel,
  cancel_key, is_done, handle_cancellation, initial, on_request, on_line, leave, check, start,
  complete, Step, reads, checks, starts, gives_up, completes, Reach, here, next,
}
use pty_mcp.Mcp.Serve.Tracked.{has_ended, Reach-IsTracked}
use pty_mcp.Mcp.Serve.Answers.{IsSilent, Reach-IsSilent}
use pty_mcp.Mcp.Serve.Settled.{
  IsSettled, is_done_marked, on_line-IsSettled, phase-IsSettled, silent-IsSettled,
  answered-IsSettled,
}

module _ (s : Serving) (h : IsSettled s) (i : ℕ) (job : Job) (at_i : get_elem? s.jobs i ≡ some job)
    (alive : has_ended job.phase ≡ false) where
  leave-IsSettled :
      (is_notification job.key ≡ false → s.registry.marked i ≡ true) → IsSettled (leave s i job)
  unfolding leave
  leave-IsSettled excused = elim (Bool-cases (is_notification job.key)) [
    | inl n ↦ rw n (silent-IsSettled s h i job at_i alive s.registry s.used (λ k. refl) excused)
    | inr q ↦ rw q (
        silent-IsSettled s h i job at_i alive (finish s.registry job.key i).0 s.used
          (marked-finish s.registry job.key i) excused)
  ]

  complete-IsSettled : IsSettled (complete s i job)
  unfolding complete
  complete-IsSettled = elim (Bool-cases (is_notification job.key)) [
    | inl n ↦ rw n (
        silent-IsSettled s h i job at_i alive s.registry (s.used - 1) (λ k. refl)
          (λ q. absurd (false≢true (sym q ∙ n))))
    | inr q ↦
        rw (q, was_cancelled s.registry job.key i)
          (elim (Bool-cases (s.registry.marked i)) [
            | inl m ↦ rw m (
                silent-IsSettled s h i job at_i alive (finish s.registry job.key i).0 (s.used - 1)
                  (marked-finish s.registry job.key i) (λ q. m))
            | inr m ↦ rw m (
                answered-IsSettled s h i job at_i alive (finish s.registry job.key i).0 (s.used - 1)
                  (marked-finish s.registry job.key i))
          ])
  ]

  check-IsSettled : IsSettled (check s i job)
  unfolding check
  check-IsSettled = elim (Bool-cases (is_done s i job)) [
    | inl d ↦ rw d (leave-IsSettled (λ q. is_done_marked s i job d))
    | inr l ↦ rw l (phase-IsSettled s h i job at_i alive queued refl)
  ]

  start-IsSettled : IsSettled (start s i job)
  unfolding start
  start-IsSettled =
      let g = phase-IsSettled s h i job at_i alive running refl in
      record { of_ended = g.of_ended; of_jobs = g.of_jobs; answered = g.answered; once = g.once }

Step-IsSettled : {s t : Serving} → Step s t → IsSettled s → IsSettled t
Step-IsSettled (reads s l) h = on_line-IsSettled s h l
Step-IsSettled (checks s i job e p) h = check-IsSettled s h i job e (rw p)
Step-IsSettled (starts s i job e p lt) h = start-IsSettled s h i job e (rw p)
Step-IsSettled (gives_up s i job e p d) h =
    leave-IsSettled s h i job e (rw p) (λ q. is_done_marked s i job d)
Step-IsSettled (completes s i job e p) h = complete-IsSettled s h i job e (rw p)

-- However the reader and the goroutines interleave: a response that was sent belongs to a request
-- that has ended, no request has two, and a request that ended without being cancelled has one.
pub Reach-IsSettled : {s : Serving} → Reach initial s → IsSettled s
unfolding initial mem
Reach-IsSettled here = record {
  of_ended = λ i job e live. absurd (cc e);
  of_jobs = λ i sent. absurd (false≢true sent);
  answered = λ i job e dead noisy unmarked. absurd (cc e);
  once = tt;
}
Reach-IsSettled (next r st) = Step-IsSettled st (Reach-IsSettled r)

-- A cancellation that names the key, other than "null", of a request which has not ended: once it
-- is read, the request is never answered, however the program goes on.
pub cancelled-unsent :
    {s t : Serving} (i : ℕ) (job : Job) (p : CancelParams) (method : String)
    → Reach initial s
    → get_elem? s.jobs i ≡ some job
    → has_ended job.phase ≡ false
    → is_notification job.key ≡ false
    → is_cancel method ≡ true
    → cancel_key p ≡ job.key
    → str_eq job.key "null" ≡ false
    → Reach (on_line s (message (record { id = ""; method = method; cancel_params = some p }))) t
    → mem i t.sent ≡ false
unfolding on_line on_request handle_cancellation
cancelled-unsent {s} i job p method r e live noisy c key_is not_null rest =
    (Reach-IsSilent i job.key start_silent rest).unsent
  where
    req : Request
    req = record { id = ""; method = method; cancel_params = some p }

    marked_now : (cancel s.registry job.key).marked i ≡ true
    marked_now = marked-cancel s.registry job.key i ∙ rw (Reach-IsTracked r i job e live noisy) refl

    start_silent : IsSilent (on_line s (message req)) i job.key
    start_silent =
        rw (c, key_is, noisy, not_null)
          (record {
            job_at = (job, e, refl);
            noisy = noisy;
            is_marked = marked_now;
            unsent = (Reach-IsSettled r).of_ended i job e live;
          })
