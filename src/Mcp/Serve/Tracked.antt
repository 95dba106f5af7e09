-- ===== src/Mcp/Serve/Tracked.antt =====
-- Each request that has not ended has its entry in the registry, and a mark is never taken back.
use mathlib.Core.Bool.{false≢true}
use pty_mcp.Base.{
  get_elem?-set_cases, ℕ, ◌≡◌, refl, sym, ap, ◌∙◌, String, Bool, true, false, ◌||◌, Option, none,
  some, length, get_elem?, Bool-cases, inl, inr, str_eq, get_elem?-snoc,
}
use pty_mcp.Mcp.Inflight.{
  Inflight, finish, refs, mem, mem-add_self, mem-add_keeps, mem-finish_ne, refs-cancel,
}
use pty_mcp.Mcp.Serve.{
  CancelParams, Line, blank, garbled, message, Phase, spawned, queued, running, ended, Job, Serving,
  is_notification, is_cancel, is_done, cancel_key, handle_cancellation, initial, spawn, on_request,
  on_line, set_phase, leave, check, start, complete, Step, reads, checks, starts, gives_up,
  completes, Reach, here, next,
}

abbrev pub has_ended : Phase → Bool
has_ended ended = true
has_ended _ = false

abbrev pub IsTracked : Serving → Type 0
IsTracked s =
    (i : ℕ) (job : Job)
    → get_elem? s.jobs i ≡ some job
    → has_ended job.phase ≡ false
    → is_notification job.key ≡ false
    → mem i (refs s.registry job.key) ≡ true

-- A cancellation changes marks alone.
cancellation_refs :
    (r : Inflight) (p : Option CancelParams) (k : String)
    → refs (handle_cancellation r p) k ≡ refs r k
unfolding handle_cancellation
cancellation_refs r none k = refl
cancellation_refs r (some p) k =
    elim (Bool-cases (str_eq (cancel_key p) "" || str_eq (cancel_key p) "null")) [
      | inl e ↦ rw e refl
      | inr e ↦ rw e (refs-cancel r (cancel_key p) k)
    ]

spawn-IsTracked : (s : Serving) (k : String) → IsTracked s → IsTracked (spawn s k)
unfolding spawn
spawn-IsTracked s k t i job e live noisy =
    elim (get_elem?-snoc s.jobs (record { key = k; phase = spawned }) job i e) [
      | inl old ↦ elim (Bool-cases (is_notification k)) [
        | inl n ↦ rw n (t i job old live noisy)
        | inr r ↦
            rw r (mem-add_keeps s.registry k job.key (length s.jobs) i (t i job old live noisy))
      ]
      | inr (at_end, new) ↦
          let key_is : job.key ≡ k = ap (λ (j : Job). j.key) new in
          let loud : is_notification k ≡ false = rw key_is at noisy in
          rw (at_end, key_is, loud) (mem-add_self s.registry k (length s.jobs))
    ]

on_line-IsTracked : (s : Serving) (l : Line) → IsTracked s → IsTracked (on_line s l)
unfolding on_line on_request
on_line-IsTracked s blank t = t
on_line-IsTracked s garbled t = t
on_line-IsTracked s (message req) t = elim (Bool-cases (is_cancel req.method)) [
  | inl c ↦ rw c (λ i job e live noisy.
      rw (cancellation_refs s.registry req.cancel_params job.key) (t i job e live noisy))
  | inr r ↦ rw r (spawn-IsTracked s req.id t)
]

module _ (s : Serving) (i : ℕ) (job : Job) (at_i : get_elem? s.jobs i ≡ some job)
    (t : IsTracked s) where
  -- A change of phase by which the job does not come back to life.
  phase-IsTracked : (p : Phase) → has_ended job.phase ≡ false → IsTracked (set_phase s i job p)
  unfolding set_phase
  phase-IsTracked p was_live k j e live noisy =
      elim (get_elem?-set_cases s.jobs i k job (record job { phase = p }) j at_i e) [
        | inl (ne, old) ↦ t k j old live noisy
        | inr (same, new) ↦
            let key_is : j.key ≡ job.key = ap (λ (j : Job). j.key) new in
            rw (← same, key_is) (t i job at_i was_live (rw key_is at noisy))
      ]

  -- The end of a job that takes its entry with it.
  finish-IsTracked :
      IsTracked (record (set_phase s i job ended) { registry = (finish s.registry job.key i).0 })
  unfolding set_phase
  finish-IsTracked k j e live noisy =
      elim (get_elem?-set_cases s.jobs i k job (record job { phase = ended }) j at_i e) [
        | inl (ne, old) ↦ rw (mem-finish_ne s.registry job.key j.key i k ne) (t k j old live noisy)
        | inr (same, new) ↦ absurd (false≢true (sym live ∙ ap (λ (j : Job). has_ended j.phase) new))
      ]

  leave-IsTracked : has_ended job.phase ≡ false → IsTracked (leave s i job)
  unfolding leave
  leave-IsTracked was_live = elim (Bool-cases (is_notification job.key)) [
    | inl n ↦ rw n (phase-IsTracked ended was_live)
    | inr r ↦ rw r finish-IsTracked
  ]

  check-IsTracked : has_ended job.phase ≡ false → IsTracked (check s i job)
  unfolding check
  check-IsTracked was_live = elim (Bool-cases (is_done s i job)) [
    | inl d ↦ rw d (leave-IsTracked was_live)
    | inr l ↦ rw l (phase-IsTracked queued was_live)
  ]

  complete-IsTracked : has_ended job.phase ≡ false → IsTracked (complete s i job)
  unfolding complete
  complete-IsTracked was_live = elim (Bool-cases (is_notification job.key)) [
    | inl n ↦ rw n (phase-IsTracked ended was_live)
    | inr r ↦ rw r finish-IsTracked
  ]

pub Step-IsTracked : {s t : Serving} → Step s t → IsTracked s → IsTracked t
unfolding start
Step-IsTracked (reads s l) t = on_line-IsTracked s l t
Step-IsTracked (checks s i job e p) t = check-IsTracked s i job e t (rw p)
Step-IsTracked (starts s i job e p lt) t = phase-IsTracked s i job e t running (rw p)
Step-IsTracked (gives_up s i job e p d) t = leave-IsTracked s i job e t (rw p)
Step-IsTracked (completes s i job e p) t = complete-IsTracked s i job e t (rw p)

pub Reach-IsTracked : {s : Serving} → Reach initial s → IsTracked s
unfolding initial
Reach-IsTracked here = λ i job e live noisy. absurd (cc e)
Reach-IsTracked (next r st) = Step-IsTracked st (Reach-IsTracked r)
