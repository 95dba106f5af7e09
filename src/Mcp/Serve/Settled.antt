-- ===== src/Mcp/Serve/Settled.antt =====
-- A response belongs to a request that has ended, and none is sent twice; a request that has ended
-- without being cancelled has its response.
use mathlib.Core.Bool.{false≢true}
use pty_mcp.Base.{
  ℕ, ◌≡◌, sym, ap, ◌∙◌, String, true, false, ==_iff, Option, some, List, [], ◌∷◌, arith, length,
  set, get_elem?, Bool-cases, inl, inr, if◌then◌else◌, get_elem?-set_at, get_elem?-set_other,
  get_elem?-set_cases, get_elem?-snoc, get_elem?-snoc_old, get_elem?-lt,
}
use native.Mathlib.Decide.{ℕ_discrete}
use pty_mcp.Mcp.Inflight.{Inflight, add, mem, marked-add}
use pty_mcp.Mcp.Serve.{
  CancelParams, Line, blank, garbled, message, Phase, spawned, ended, Job, Serving, is_notification,
  is_cancel, is_done, handle_cancellation, spawn, on_request, on_line, set_phase,
}
use pty_mcp.Mcp.Serve.Tracked.{has_ended}
use pty_mcp.Mcp.Serve.Answers.{cancellation_marks}

-- No element twice.
abbrev pub Once : List ℕ → Type 0
Once [] = Unit
Once (x ∷ xs) = (mem x xs ≡ false) × Once xs

pub record IsSettled (s : Serving) : Type 0 where
  pub of_ended :
      (i : ℕ) (job : Job)
      → get_elem? s.jobs i ≡ some job
      → has_ended job.phase ≡ false
      → mem i s.sent ≡ false
  pub of_jobs : (i : ℕ) → mem i s.sent ≡ true → (job : Job) × (get_elem? s.jobs i ≡ some job)
  pub answered :
      (i : ℕ) (job : Job)
      → get_elem? s.jobs i ≡ some job
      → has_ended job.phase ≡ true
      → is_notification job.key ≡ false
      → s.registry.marked i ≡ false
      → mem i s.sent ≡ true
  pub once : Once s.sent

pub is_done_marked :
    (s : Serving) (i : ℕ) (job : Job) → is_done s i job ≡ true → s.registry.marked i ≡ true
is_done_marked s i job d = ground arith

-- Marks are only set, jobs only added: what was settled stays so.
module _ (s : Serving) (h : IsSettled s) where
  spawn-IsSettled : (k : String) → IsSettled (spawn s k)
  unfolding spawn
  spawn-IsSettled k = record {
    of_ended = λ i job e live.
        elim (get_elem?-snoc s.jobs (record { key = k; phase = spawned }) job i e) [
          | inl old ↦ h.of_ended i job old live
          | inr (at_end, new) ↦ fresh i at_end
        ];
    of_jobs = λ i sent.
        let (job, e) = h.of_jobs i sent in
        (job, get_elem?-snoc_old s.jobs (record { key = k; phase = spawned }) job i e);
    answered = λ i job e dead noisy unmarked.
        elim (get_elem?-snoc s.jobs (record { key = k; phase = spawned }) job i e) [
          | inl old ↦ h.answered i job old dead noisy (unmarked_before i unmarked)
          | inr (at_end, new) ↦
              absurd (false≢true (sym (ap (λ (j : Job). has_ended j.phase) new) ∙ dead))
        ];
    once = h.once;
  }
    where
      fresh : (i : ℕ) → i ≡ length s.jobs → mem i s.sent ≡ false
      fresh i at_end = elim (Bool-cases (mem i s.sent)) [
        | inl sent ↦
            let (job, e) = h.of_jobs i sent in
            absurd (omega (arith, at_end, get_elem?-lt s.jobs i job e))
        | inr unsent ↦ unsent
      ]

      unmarked_before :
          (i : ℕ)
          → (if is_notification k then s.registry else add s.registry k (length s.jobs)).marked i
            ≡ false
          → s.registry.marked i ≡ false
      unmarked_before i u = elim (Bool-cases (is_notification k)) [
        | inl n ↦ rw n at u
        | inr r ↦ sym (marked-add s.registry k (length s.jobs) i) ∙ (rw r at u)
      ]

  cancellation-IsSettled :
      (p : Option CancelParams)
      → IsSettled (record s { registry = handle_cancellation s.registry p })
  cancellation-IsSettled p = record {
    of_ended = h.of_ended;
    of_jobs = h.of_jobs;
    answered =
        λ i job e dead noisy unmarked. h.answered i job e dead noisy (unmarked_before i unmarked);
    once = h.once;
  }
    where
      unmarked_before :
          (i : ℕ)
          → (handle_cancellation s.registry p).marked i ≡ false
          → s.registry.marked i ≡ false
      unmarked_before i u = elim (Bool-cases (s.registry.marked i)) [
        | inl m ↦ absurd (false≢true (sym u ∙ cancellation_marks s.registry p i m))
        | inr n ↦ n
      ]

  pub on_line-IsSettled : (l : Line) → IsSettled (on_line s l)
  unfolding on_line on_request
  on_line-IsSettled blank = h
  on_line-IsSettled garbled = h
  on_line-IsSettled (message req) = elim (Bool-cases (is_cancel req.method)) [
    | inl c ↦ rw c (cancellation-IsSettled req.cancel_params)
    | inr r ↦ rw r (spawn-IsSettled req.id)
  ]

-- One job changes its phase, in a state whose marks stay.
module _ (s : Serving) (h : IsSettled s) (i : ℕ) (job : Job) (at_i : get_elem? s.jobs i ≡ some job)
    (alive : has_ended job.phase ≡ false) where
  kept :
      (p : Phase) (k : ℕ)
      → (j : Job) × (get_elem? s.jobs k ≡ some j)
      → (j : Job) × (get_elem? (set s.jobs i (record job { phase = p })) k ≡ some j)
  kept p k (j, e) = elim (ℕ_discrete i k) [
    | yes same ↦ (
      record job { phase = p },
      rw (← same) (get_elem?-set_at s.jobs i (record job { phase = p }) job at_i),
    )
    | no ne ↦ (j, get_elem?-set_other s.jobs i k (record job { phase = p }) ne ∙ e)
  ]

  pub phase-IsSettled : (p : Phase) → has_ended p ≡ false → IsSettled (set_phase s i job p)
  unfolding set_phase
  phase-IsSettled p lives = record {
    of_ended = λ k j e live.
        elim (get_elem?-set_cases s.jobs i k job (record job { phase = p }) j at_i e) [
          | inl (ne, old) ↦ h.of_ended k j old live
          | inr (same, new) ↦ rw (← same) (h.of_ended i job at_i alive)
        ];
    of_jobs = λ k sent. kept p k (h.of_jobs k sent);
    answered = λ k j e dead noisy unmarked.
        elim (get_elem?-set_cases s.jobs i k job (record job { phase = p }) j at_i e) [
          | inl (ne, old) ↦ h.answered k j old dead noisy unmarked
          | inr (same, new) ↦
              absurd (false≢true (sym lives ∙ sym (ap (λ (x : Job). has_ended x.phase) new) ∙ dead))
        ];
    once = h.once;
  }

  module _ (r : Inflight) (u : ℕ) (marks : (k : ℕ) → r.marked k ≡ s.registry.marked k) where
    -- The end of a notification, or of a request that was cancelled.
    pub silent-IsSettled :
        (is_notification job.key ≡ false → s.registry.marked i ≡ true)
        → IsSettled (record s {
          registry = r;
          jobs = set s.jobs i (record job { phase = ended });
          used = u;
        })
    silent-IsSettled excused = record {
      of_ended = λ k j e live.
          elim (get_elem?-set_cases s.jobs i k job (record job { phase = ended }) j at_i e) [
            | inl (ne, old) ↦ h.of_ended k j old live
            | inr (same, new) ↦ rw (← same) (h.of_ended i job at_i alive)
          ];
      of_jobs = λ k sent. kept ended k (h.of_jobs k sent);
      answered = λ k j e dead noisy unmarked.
          elim (get_elem?-set_cases s.jobs i k job (record job { phase = ended }) j at_i e) [
            | inl (ne, old) ↦ h.answered k j old dead noisy (sym (marks k) ∙ unmarked)
            | inr (same, new) ↦
                let loud : is_notification job.key ≡ false =
                  sym (ap (λ (x : Job). is_notification x.key) new) ∙ noisy in
                absurd (false≢true (sym (sym (marks i) ∙ (rw same unmarked)) ∙ excused loud))
          ];
      once = h.once;
    }

    -- The end of a request that is answered.
    pub answered-IsSettled : IsSettled (record {
      registry = r;
      jobs = set s.jobs i (record job { phase = ended });
      used = u;
      sent = i ∷ s.sent;
    })
    unfolding mem
    answered-IsSettled = record {
      of_ended = λ k j e live.
          elim (get_elem?-set_cases s.jobs i k job (record job { phase = ended }) j at_i e) [
            | inl (ne, old) ↦ ground (arith, ==_iff i k, ne, h.of_ended k j old live)
            | inr (same, new) ↦
                absurd (false≢true (sym live ∙ ap (λ (x : Job). has_ended x.phase) new))
          ];
      of_jobs = λ k sent. elim (ℕ_discrete i k) [
        | yes same ↦ kept ended k (job, rw (← same) at_i)
        | no ne ↦ kept ended k (h.of_jobs k (ground (arith, ==_iff i k, ne, sent)))
      ];
      answered = λ k j e dead noisy unmarked.
          elim (get_elem?-set_cases s.jobs i k job (record job { phase = ended }) j at_i e) [
            | inl (ne, old) ↦
                ground (arith, h.answered k j old dead noisy (sym (marks k) ∙ unmarked))
            | inr (same, new) ↦ ground (arith, ==_iff i k, same)
          ];
      once = (h.of_ended i job at_i alive, h.once);
    }
