-- ===== src/Mcp/Serve/Bounds.antt =====
-- The semaphore: how many handlers run at once.
use pty_mcp.Base.{
  ℕ, zero, suc, ◌+◌, ◌-◌, ◌≤◌, ◌≡◌, refl, ap, String, true, some, List, [], ◌∷◌, ◌++◌, arith, ltb,
  set, get_elem?, Bool-cases, inl, inr,
}
use pty_mcp.Mcp.Serve.{
  Line, blank, garbled, message, Phase, spawned, queued, running, ended, Job, Serving,
  max_concurrent_tool_calls, is_notification, is_cancel, is_done, initial, spawn, on_request,
  on_line, set_phase, leave, check, start, complete, Step, reads, checks, starts, gives_up,
  completes, Reach, here, next,
}

abbrev pub one_if_running : Phase → ℕ
one_if_running running = 1
one_if_running _ = 0

-- the jobs whose handler runs
pub running_jobs : List Job → ℕ
running_jobs [] = 0
running_jobs (j ∷ js) = one_if_running j.phase + running_jobs js

running_jobs-snoc :
    (js : List Job) (j : Job)
    → running_jobs (js ++ j ∷ []) ≡ running_jobs js + one_if_running j.phase
unfolding running_jobs
running_jobs-snoc [] j = omega arith
running_jobs-snoc (x ∷ js) j = omega (arith, running_jobs-snoc js j)

running_jobs-set :
    (js : List Job) (i : ℕ) (j j' : Job)
    → get_elem? js i ≡ some j
    → running_jobs (set js i j') + one_if_running j.phase
      ≡ running_jobs js + one_if_running j'.phase
unfolding running_jobs
running_jobs-set [] i j j' e = absurd (cc)
running_jobs-set (x ∷ js) zero j j' e = ground (arith)
running_jobs-set (x ∷ js) (suc i) j j' e = omega (arith, running_jobs-set js i j j' e)

pub record IsBounded (s : Serving) : Type 0 where
  pub slots : s.used ≡ running_jobs s.jobs
  pub bound : s.used ≤ max_concurrent_tool_calls

spawn-IsBounded : (s : Serving) (k : String) → IsBounded s → IsBounded (spawn s k)
unfolding spawn
spawn-IsBounded s k b = record {
  slots = omega (arith, b.slots, running_jobs-snoc s.jobs (record { key = k; phase = spawned }));
  bound = b.bound;
}

on_line-IsBounded : (s : Serving) (l : Line) → IsBounded s → IsBounded (on_line s l)
unfolding on_line on_request
on_line-IsBounded s blank b = b
on_line-IsBounded s garbled b = b
on_line-IsBounded s (message req) b = elim (Bool-cases (is_cancel req.method)) [
  | inl c ↦ rw c (record { slots = b.slots; bound = b.bound })
  | inr r ↦ rw r (spawn-IsBounded s req.id b)
]

module _ (s : Serving) (i : ℕ) (job : Job) (at_i : get_elem? s.jobs i ≡ some job)
    (b : IsBounded s) where
  moved :
      (p : Phase)
      → running_jobs (set s.jobs i (record job { phase = p })) + one_if_running job.phase
        ≡ s.used + one_if_running p
  moved p = omega (arith, b.slots, running_jobs-set s.jobs i job (record job { phase = p }) at_i)

  leave-IsBounded : one_if_running job.phase ≡ 0 → IsBounded (leave s i job)
  unfolding leave
  leave-IsBounded z = record { slots = omega (arith, moved ended); bound = b.bound }

  check-IsBounded : job.phase ≡ spawned → IsBounded (check s i job)
  unfolding check set_phase
  check-IsBounded e = elim (Bool-cases (is_done s i job)) [
    | inl d ↦ rw d (leave-IsBounded (rw e))
    | inr l ↦
        rw l (record { slots = omega (arith, moved queued, ap one_if_running e); bound = b.bound })
  ]

  start-IsBounded :
      job.phase ≡ queued → ltb s.used max_concurrent_tool_calls ≡ true → IsBounded (start s i job)
  unfolding start
  start-IsBounded e lt = record {
    slots = omega (arith, moved running, ap one_if_running e);
    bound = ground arith;
  }

  complete-IsBounded : job.phase ≡ running → IsBounded (complete s i job)
  unfolding complete
  complete-IsBounded e = elim (Bool-cases (is_notification job.key)) [
    | inl n ↦ rw n (record { slots = ended_slots; bound = omega (arith, b.bound) })
    | inr r ↦ rw r (record { slots = ended_slots; bound = omega (arith, b.bound) })
  ]
    where
      ended_slots : s.used - 1 ≡ running_jobs (set s.jobs i (record job { phase = ended }))
      ended_slots = omega (arith, moved ended, ap one_if_running e)

Step-IsBounded : {s t : Serving} → Step s t → IsBounded s → IsBounded t
Step-IsBounded (reads s l) b = on_line-IsBounded s l b
Step-IsBounded (checks s i job e p) b = check-IsBounded s i job e b p
Step-IsBounded (starts s i job e p lt) b = start-IsBounded s i job e b p lt
Step-IsBounded (gives_up s i job e p d) b = leave-IsBounded s i job e b (rw p)
Step-IsBounded (completes s i job e p) b = complete-IsBounded s i job e b p

-- Whatever lines come in, and however the goroutines interleave, the slots in use are the running
-- handlers, and there are never more than 32 of them.
pub Reach-IsBounded : {s : Serving} → Reach initial s → IsBounded s
unfolding initial running_jobs
Reach-IsBounded here = record { slots = refl; bound = omega arith }
Reach-IsBounded (next r st) = Step-IsBounded st (Reach-IsBounded r)
