-- ===== src/Mcp/Serve/Answers.antt =====
-- Which requests get a response: those that are not cancelled, once; and never a cancelled one.
use mathlib.Core.Bool.{false≢true}
use pty_mcp.Base.{
  ℕ, ◌≡◌, ◌≢◌, sym, ap, ◌∙◌, String, Bool, true, false, ◌||◌, ==_iff, Option, none, some, List, ◌∷◌,
  arith, length, get_elem?, Bool-cases, inl, inr, str_eq, if◌then◌else◌, get_elem?-set_at,
  get_elem?-set_other, get_elem?-snoc_old,
}
use native.Mathlib.Decide.{ℕ_discrete}
use pty_mcp.Mcp.Inflight.{Inflight, mem, marked-add, marked-finish, marked-cancel, was_cancelled}
use pty_mcp.Mcp.Serve.{
  CancelParams, Line, blank, garbled, message, Phase, spawned, queued, running, ended, Job, Serving,
  is_notification, is_cancel, is_done, cancel_key, handle_cancellation, spawn, on_request, on_line,
  set_phase, leave, check, start, complete, Step, reads, checks, starts, gives_up, completes, Reach,
  here, next,
}

-- A step that reads a line: jobs are only added, marks only set, and nothing is sent.
pub cancellation_marks :
    (r : Inflight) (p : Option CancelParams) (i : ℕ)
    → r.marked i ≡ true
    → (handle_cancellation r p).marked i ≡ true
unfolding handle_cancellation
cancellation_marks r none i h = h
cancellation_marks r (some p) i h =
    elim (Bool-cases (str_eq (cancel_key p) "" || str_eq (cancel_key p) "null")) [
      | inl e ↦ rw e h
      | inr e ↦ rw e (rw (marked-cancel r (cancel_key p) i) (ground arith))
    ]

-- Job i is there with this key; only the phase of a job changes.
abbrev pub HasKey : Serving → ℕ → String → Type 0
HasKey s i k = (job : Job) × (get_elem? s.jobs i ≡ some job) × (job.key ≡ k)

-- A request that was cancelled, and has not been answered.
pub record IsSilent (s : Serving) (i : ℕ) (k : String) : Type 0 where
  pub job_at : HasKey s i k
  pub noisy : is_notification k ≡ false
  pub is_marked : s.registry.marked i ≡ true
  pub unsent : mem i s.sent ≡ false

set_phase-HasKey :
    (s : Serving) (j : ℕ) (old : Job) (p : Phase) (i : ℕ) (k : String)
    → get_elem? s.jobs j ≡ some old
    → HasKey s i k
    → HasKey (set_phase s j old p) i k
unfolding set_phase
set_phase-HasKey s j old p i k at_j (job, at_i, key) = elim (ℕ_discrete j i) [
  | yes same ↦
      let at_i' : get_elem? s.jobs i ≡ some old = rw (← same) at_j in
      (
        record old { phase = p },
        rw (← same) (get_elem?-set_at s.jobs j (record old { phase = p }) old at_j),
        cc,
      )
  | no ne ↦ (job, get_elem?-set_other s.jobs j i (record old { phase = p }) ne ∙ at_i, key)
]

module _ (i : ℕ) (k : String) where
  -- A job that answers is not a marked one.
  unsent_after :
      (j : ℕ) (sent : List ℕ) (marked : ℕ → Bool)
      → mem i sent ≡ false
      → marked i ≡ true
      → mem i (if marked j then sent else j ∷ sent) ≡ false
  unfolding mem
  unsent_after j sent marked u m = elim (Bool-cases (marked j)) [
    | inl mj ↦ rw mj u
    | inr mj ↦ rw mj (ground (arith, ==_iff j i, apart mj))
  ]
    where
      apart : marked j ≡ false → j ≢ i
      apart mj e = false≢true (sym mj ∙ ap marked e ∙ m)

  on_line-IsSilent : (s : Serving) (l : Line) → IsSilent s i k → IsSilent (on_line s l) i k
  unfolding on_line on_request spawn
  on_line-IsSilent s blank h = h
  on_line-IsSilent s garbled h = h
  on_line-IsSilent s (message req) h = elim (Bool-cases (is_cancel req.method)) [
    | inl c ↦ rw c (record {
      job_at = h.job_at;
      noisy = h.noisy;
      is_marked = cancellation_marks s.registry req.cancel_params i h.is_marked;
      unsent = h.unsent;
    })
    | inr r ↦ rw r (record {
      job_at = (
        h.job_at.0,
        get_elem?-snoc_old s.jobs (record { key = req.id; phase = spawned }) h.job_at.0 i
            h.job_at.1,
        h.job_at.2,
      );
      noisy = h.noisy;
      is_marked = elim (Bool-cases (is_notification req.id)) [
        | inl n ↦ rw n h.is_marked
        | inr m ↦ rw m (marked-add s.registry req.id (length s.jobs) i ∙ h.is_marked)
      ];
      unsent = h.unsent;
    })
  ]

  phase-IsSilent :
      (s : Serving) (j : ℕ) (job : Job) (p : Phase)
      → get_elem? s.jobs j ≡ some job
      → IsSilent s i k
      → IsSilent (set_phase s j job p) i k
  phase-IsSilent s j job p at_j h = record {
    job_at = set_phase-HasKey s j job p i k at_j h.job_at;
    noisy = h.noisy;
    is_marked = unfold set_phase in h.is_marked;
    unsent = unfold set_phase in h.unsent;
  }

  leave-IsSilent :
      (s : Serving) (j : ℕ) (job : Job)
      → get_elem? s.jobs j ≡ some job
      → IsSilent s i k
      → IsSilent (leave s j job) i k
  unfolding leave
  leave-IsSilent s j job at_j h = elim (Bool-cases (is_notification job.key)) [
    | inl n ↦ rw n (phase-IsSilent s j job ended at_j h)
    | inr r ↦ rw r (record {
      job_at = set_phase-HasKey s j job ended i k at_j h.job_at;
      noisy = h.noisy;
      is_marked = marked-finish s.registry job.key j i ∙ h.is_marked;
      unsent = h.unsent;
    })
  ]

  complete-IsSilent :
      (s : Serving) (j : ℕ) (job : Job)
      → get_elem? s.jobs j ≡ some job
      → IsSilent s i k
      → IsSilent (complete s j job) i k
  unfolding complete
  complete-IsSilent s j job at_j h = elim (Bool-cases (is_notification job.key)) [
    | inl n ↦ rw n (record {
      job_at = set_phase-HasKey s j job ended i k at_j h.job_at;
      noisy = h.noisy;
      is_marked = h.is_marked;
      unsent = h.unsent;
    })
    | inr r ↦ rw r (record {
      job_at = set_phase-HasKey s j job ended i k at_j h.job_at;
      noisy = h.noisy;
      is_marked = marked-finish s.registry job.key j i ∙ h.is_marked;
      unsent =
          rw (was_cancelled s.registry job.key j)
            (unsent_after j s.sent s.registry.marked h.unsent h.is_marked);
    })
  ]

  Step-IsSilent : {s t : Serving} → Step s t → IsSilent s i k → IsSilent t i k
  unfolding check start
  Step-IsSilent (reads s l) h = on_line-IsSilent s l h
  Step-IsSilent (checks s j job e p) h = elim (Bool-cases (is_done s j job)) [
    | inl d ↦ rw d (leave-IsSilent s j job e h)
    | inr l ↦ rw l (phase-IsSilent s j job queued e h)
  ]
  Step-IsSilent (starts s j job e p lt) h =
      let g = phase-IsSilent s j job running e h in
      record { job_at = g.job_at; noisy = g.noisy; is_marked = g.is_marked; unsent = g.unsent }
  Step-IsSilent (gives_up s j job e p d) h = leave-IsSilent s j job e h
  Step-IsSilent (completes s j job e p) h = complete-IsSilent s j job e h

  pub Reach-IsSilent : {s t : Serving} → IsSilent s i k → Reach s t → IsSilent t i k
  Reach-IsSilent h here = h
  Reach-IsSilent h (next r st) = Step-IsSilent st (Reach-IsSilent h r)
