-- ===== src/Pty/Completes.antt =====
-- When `WaitForSettleCtx` returns a complete output: the terminal has become quiet, and there is time.
use native.Mathlib.Decide.{dec_lt}
use mathlib.Core.Bool.{false≢true}
use pty_mcp.Base.{
  ℕ, zero, suc, ◌+◌, ◌≤◌, ◌<◌, ◌≡◌, ◌≢◌, refl, ap, sym, ◌∙◌, Bool, true, false, inl, inr, Option,
  some, List, arith,
}
use pty_mcp.Text.{bytes_eq, bytes_eq_iff}
use pty_mcp.Pty.{
  Patterns, Rounds, Waiting, wait_on, return_with, is_empty, began, changed, settle_round_ctx,
  run_rounds, wait_for_settle_ctx,
}
use pty_mcp.Pty.Ends.{Verdict-cases, run_rounds-wait_on, run_rounds-return_with}
use pty_mcp.Pty.Stable.{state_at, noted_at, reading, settle_round_ctx-wait_on}

abbrev pub Completes : {W : Type 0} → Option (W × List ℕ × Bool) → Type 0
Completes {W} o = (w : W) × (out : List ℕ) × (o ≡ some (w, out, true))

module _ {W : Type 0} (pats : Patterns) (rounds : Rounds W) (settle deadline : ℕ) where
  round_in_time :
      (n : ℕ) (v : Waiting) (current : List ℕ)
      → rounds.tested_at n < deadline
      → rounds.is_cancelled n ≡ false
      → settle_round_ctx pats rounds settle deadline n v current ≢ return_with false
  unfolding settle_round_ctx
  round_in_time n v current lt go = ground arith

  round_at_rest :
      (n : ℕ) (v : Waiting) (current : List ℕ)
      → rounds.tested_at n < deadline
      → rounds.is_cancelled n ≡ false
      → bytes_eq current v.last ≡ true
      → v.has_output ≡ true
      → v.last_change + settle ≤ rounds.seen_at n
      → settle_round_ctx pats rounds settle deadline n v current ≡ return_with true
  unfolding settle_round_ctx
  round_at_rest n v current lt go same some_output waited = ground arith

module _ {W : Type 0} (get_output : W → List ℕ) (rounds : Rounds W) (w : W) (out : List ℕ) (j : ℕ)
    (quiet : (n : ℕ) → j ≤ n → reading get_output rounds w n ≡ out) (written : is_empty out ≡ false)
    (ordered : (n : ℕ) → noted_at rounds n ≤ noted_at rounds (suc n)) where
  abbrev read : ℕ → List ℕ
  read = reading get_output rounds w

  -- what the loop knows after the n-th reading
  record Knows (n : ℕ) (v : Waiting) : Type 0 where
    last_read : v.last ≡ read n
    has_seen : is_empty v.last ≡ false → v.has_output ≡ true
    noted : v.last_change ≤ noted_at rounds n
    noted_first : j ≤ n → v.last_change ≤ noted_at rounds j

  began-Knows : Knows 0 (began (get_output w) rounds.first_at)
  unfolding state_at
  began-Knows = record {
    last_read = refl;
    has_seen = λ e. grind arith;
    noted = omega arith;
    noted_first = λ le. let z : j ≡ 0 = omega arith in rw z (omega arith);
  }

  changed-Knows :
      (n : ℕ) (v : Waiting)
      → Knows n v
      → read (suc n) ≢ v.last
      → Knows (suc n) (changed v (read (suc n)) (rounds.seen_at n))
  changed-Knows n v h new = record {
    last_read = refl;
    has_seen = λ e. ground arith;
    noted = omega arith;
    noted_first = λ le. elim (dec_lt n j) [
      | yes lt ↦ let z : j ≡ suc n = omega arith in rw z (omega arith)
      | no ge ↦ absurd (new (quiet (suc n) le ∙ sym (quiet n (omega arith)) ∙ sym h.last_read))
    ];
  }

  same-Knows : (n : ℕ) (v : Waiting) → Knows n v → read (suc n) ≡ v.last → Knows (suc n) v
  same-Knows n v h same = record {
    last_read = sym same;
    has_seen = h.has_seen;
    noted = omega (arith, h.noted, ordered n);
    noted_first = λ le. elim (dec_lt n j) [
      | yes lt ↦ let z : j ≡ suc n = omega arith in rw z (omega (arith, h.noted, ordered n))
      | no ge ↦ h.noted_first (omega arith)
    ];
  }

  next-Knows :
      (pats : Patterns) (settle deadline n : ℕ) (v u : Waiting)
      → Knows n v
      → settle_round_ctx pats rounds settle deadline n v (read (suc n)) ≡ wait_on u
      → Knows (suc n) u
  next-Knows pats settle deadline n v u h e =
      elim (settle_round_ctx-wait_on pats rounds settle deadline n v u (read (suc n)) e) [
        | inl (new, differs) ↦ rw new (
            changed-Knows n v h
              λ same. false≢true (sym differs ∙ (bytes_eq_iff (read (suc n)) v.last).1 same))
        | inr (old, same) ↦ rw old (same-Knows n v h ((bytes_eq_iff (read (suc n)) v.last).0 same))
      ]

  module _ (pats : Patterns) (settle deadline k : ℕ) (quiet_by : j ≤ k)
      (in_time : (n : ℕ) → n ≤ k → rounds.tested_at n < deadline)
      (waited : noted_at rounds j + settle ≤ rounds.seen_at k)
      (not_cancelled : (n : ℕ) → n ≤ k → rounds.is_cancelled n ≡ false) where
    last_round :
        (n : ℕ) (v : Waiting)
        → n ≡ k
        → Knows n v
        → settle_round_ctx pats rounds settle deadline n v (read (suc n)) ≡ return_with true
    last_round n v at_end h =
        let now = h.last_read ∙ quiet n (omega arith) in
        round_at_rest pats rounds settle deadline n v (read (suc n)) (in_time n (omega arith))
          (not_cancelled n (omega arith))
          ((bytes_eq_iff (read (suc n)) v.last).1 (quiet (suc n) (omega arith) ∙ sym now))
          (h.has_seen (rw now written))
          (omega (arith, h.noted_first (omega arith), ap rounds.seen_at at_end))

    run_rounds-Completes :
        (d fuel n : ℕ) (v : Waiting)
        → n + d ≡ k
        → d < fuel
        → Knows n v
        → Completes (
            run_rounds get_output rounds.elapse
              (settle_round_ctx pats rounds settle deadline)
              fuel
              n
              (state_at rounds w n)
              v)
    unfolding state_at
    run_rounds-Completes d zero n v e lt h = absurd (omega arith)
    run_rounds-Completes zero (suc fuel) n v e lt h =
        let at_rest = last_round n v (omega arith) h in
        (
          _,
          _,
          run_rounds-return_with get_output rounds.elapse
              (settle_round_ctx pats rounds settle deadline) fuel n (state_at rounds w n) v true
              at_rest,
        )
    run_rounds-Completes (suc d) (suc fuel) n v e lt h =
        elim (Verdict-cases (settle_round_ctx pats rounds settle deadline n v (read (suc n)))) [
          | inl (u, go) ↦
              let (w', out', r) =
                run_rounds-Completes d fuel (suc n) u (omega arith) (omega arith)
                  (next-Knows pats settle deadline n v u h go) in
              (
                w',
                out',
                run_rounds-wait_on get_output rounds.elapse
                      (settle_round_ctx pats rounds settle deadline) fuel n (state_at rounds w n) v
                      u go
                    ∙ r,
              )
          | inr (true, stop) ↦ (
            _,
            _,
            run_rounds-return_with get_output rounds.elapse
                (settle_round_ctx pats rounds settle deadline) fuel n (state_at rounds w n) v true
                stop,
          )
          | inr (false, stop) ↦ absurd (
              round_in_time pats rounds settle deadline n v (read (suc n)) (in_time n (omega arith))
                (not_cancelled n (omega arith)) stop)
        ]

-- If all readings from the j-th on are the same and not empty, the times that are noted do not
-- decrease, and some later round k, not after the deadline and not cancelled, like all before it,
-- sees the settling time over since the j-th reading, then `WaitForSettleCtx` returns a complete
-- output; more fuel than k is enough.
pub wait_for_settle_ctx-Completes :
    {W : Type 0} (pats : Patterns) (get_output : W → List ℕ) (rounds : Rounds W) (w : W)
    (out : List ℕ) (j k settle timeout fuel : ℕ)
    → ((n : ℕ) → j ≤ n → reading get_output rounds w n ≡ out)
    → is_empty out ≡ false
    → ((n : ℕ) → noted_at rounds n ≤ noted_at rounds (suc n))
    → j ≤ k
    → ((n : ℕ) → n ≤ k → rounds.tested_at n < rounds.began_at + timeout)
    → noted_at rounds j + settle ≤ rounds.seen_at k
    → ((n : ℕ) → n ≤ k → rounds.is_cancelled n ≡ false)
    → k < fuel
    → Completes (wait_for_settle_ctx pats get_output rounds settle timeout fuel w)
unfolding wait_for_settle_ctx state_at
wait_for_settle_ctx-Completes pats get_output rounds w out j k settle timeout fuel quiet written
      ordered quiet_by in_time waited not_cancelled enough =
    run_rounds-Completes get_output rounds w out j quiet written ordered pats settle
      (rounds.began_at + timeout) k quiet_by in_time waited not_cancelled k fuel 0
      (began (get_output w) rounds.first_at) (omega arith) enough
      (began-Knows get_output rounds w out j quiet written ordered)
