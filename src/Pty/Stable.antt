-- ===== src/Pty/Stable.antt =====
-- What a complete output of `WaitForSettleCtx` is. The n-th reading is made in `state_at n`; the one ahead
-- of the loop is the 0-th.
use native.Mathlib.Decide.{ℕ_discrete}
use pty_mcp.Base.{
  ℕ, zero, suc, ◌+◌, ◌≤◌, ◌<◌, ◌≡◌, ◌⊎◌, refl, sym, ap, ◌∙◌, Bool, true, false, Bool-cases, inl,
  inr, some, List, arith,
}
use pty_mcp.Text.{bytes_eq, bytes_eq_iff}
use pty_mcp.Pty.{
  Patterns, Rounds, Waiting, Verdict, wait_on, return_with, is_empty, began, changed, has_prompt,
  settle_round_ctx, run_rounds, wait_for_settle_ctx,
}
use pty_mcp.Pty.Ends.{Verdict-cases, run_rounds-wait_on, run_rounds-return_with}

unfoldable pub state_at : {W : Type 0} → Rounds W → W → ℕ → W
state_at rounds w zero = w
state_at rounds w (suc n) = rounds.elapse n (state_at rounds w n)

-- the time that the loop notes for the n-th reading
abbrev pub noted_at : {W : Type 0} → Rounds W → ℕ → ℕ
noted_at rounds zero = rounds.first_at
noted_at rounds (suc n) = rounds.seen_at n

module _ {W : Type 0} (pats : Patterns) (rounds : Rounds W) (settle deadline : ℕ) where
  pub settle_round_ctx-wait_on :
      (n : ℕ) (v u : Waiting) (current : List ℕ)
      → settle_round_ctx pats rounds settle deadline n v current ≡ wait_on u
      → ((u ≡ changed v current (rounds.seen_at n)) × (bytes_eq current v.last ≡ false))
        ⊎ ((u ≡ v) × (bytes_eq current v.last ≡ true))
  unfolding settle_round_ctx
  settle_round_ctx-wait_on n v u current e = ground arith

  pub settle_round_ctx-return_with :
      (n : ℕ) (v : Waiting) (current : List ℕ)
      → settle_round_ctx pats rounds settle deadline n v current ≡ return_with true
      → (rounds.tested_at n < deadline)
        × (rounds.is_cancelled n ≡ false)
        × (bytes_eq current v.last ≡ true)
        × (v.has_output ≡ true)
        × ((v.last_change + settle ≤ rounds.seen_at n)
            ⊎ (has_prompt pats (pats.strip_ansi current) ≡ true))
  unfolding settle_round_ctx
  settle_round_ctx-return_with n v current e = ground arith

module _ {W : Type 0} (get_output : W → List ℕ) (rounds : Rounds W) (w : W) where
  abbrev pub reading : ℕ → List ℕ
  reading n = get_output (state_at rounds w n)

  -- the readings from i to j are all `out`
  abbrev pub Unchanged : ℕ → ℕ → List ℕ → Type 0
  Unchanged i j out = (k : ℕ) → i ≤ k → k ≤ j → reading k ≡ out

  -- What the variables of the loop record, after the n-th reading.
  pub record Tracks (n : ℕ) (v : Waiting) : Type 0 where
    pub since : ℕ
    pub in_past : since ≤ n
    pub unchanged : Unchanged since n v.last
    pub noted : v.last_change ≡ noted_at rounds since
    pub some_output : v.has_output ≡ true → (i : ℕ) × (i ≤ n) × (is_empty (reading i) ≡ false)

  pub began-Tracks : Tracks 0 (began (get_output w) rounds.first_at)
  unfolding state_at
  began-Tracks = record {
    since = 0;
    in_past = omega arith;
    unchanged = λ k _ le. ap reading {y = 0} (omega arith);
    noted = refl;
    some_output = λ e. (0, omega arith, grind arith);
  }

  at_or_before : (P : ℕ → Type 0) (n k : ℕ) → k ≤ suc n → (k ≤ n → P k) → P (suc n) → P k
  at_or_before P n k le earlier last = elim (ℕ_discrete k (suc n)) [
    | yes e ↦ rw e last
    | no ne ↦ earlier (omega arith)
  ]

  changed-Tracks :
      (n : ℕ) (v : Waiting)
      → Tracks n v
      → Tracks (suc n) (changed v (reading (suc n)) (rounds.seen_at n))
  changed-Tracks n v h = record {
    since = suc n;
    in_past = omega arith;
    unchanged = λ k ge le. ap reading {y = suc n} (omega arith);
    noted = refl;
    some_output = λ e. elim (Bool-cases v.has_output) [
      | inl old ↦ let (i, le, non_empty) = h.some_output old in (i, omega arith, non_empty)
      | inr new ↦ (suc n, omega arith, grind arith)
    ];
  }

  same-Tracks : (n : ℕ) (v : Waiting) → Tracks n v → reading (suc n) ≡ v.last → Tracks (suc n) v
  same-Tracks n v h same = record {
    since = h.since;
    in_past = omega (arith, h.in_past);
    unchanged =
        λ k ge le. at_or_before (λ k. reading k ≡ v.last) n k le (λ le'. h.unchanged k ge le') same;
    noted = h.noted;
    some_output = λ e. let (i, le, non_empty) = h.some_output e in (i, omega arith, non_empty);
  }

  -- What a return with a complete output means: in round n the deadline has not passed and the
  -- context is not done, the output is the reading of that round, some reading up to it was not
  -- empty, and the output has a prompt, or has been the same since a reading that was noted `settle`
  -- before.
  pub record Settled (pats : Patterns) (settle deadline : ℕ) (out : List ℕ) : Type 0 where
    pub round : ℕ
    pub in_time : rounds.tested_at round < deadline
    pub not_cancelled : rounds.is_cancelled round ≡ false
    pub seen : reading (suc round) ≡ out
    pub seen_before : reading round ≡ out
    pub some_output : (i : ℕ) × (i ≤ suc round) × (is_empty (reading i) ≡ false)
    pub at_rest :
        (has_prompt pats (pats.strip_ansi out) ≡ true)
        ⊎ ((since : ℕ) × Unchanged since (suc round) out
            × (noted_at rounds since + settle ≤ rounds.seen_at round))

  module _ (pats : Patterns) (settle deadline : ℕ) where
    next-Tracks :
        (n : ℕ) (v u : Waiting)
        → Tracks n v
        → settle_round_ctx pats rounds settle deadline n v (reading (suc n)) ≡ wait_on u
        → Tracks (suc n) u
    next-Tracks n v u h e =
        elim (settle_round_ctx-wait_on pats rounds settle deadline n v u (reading (suc n)) e) [
          | inl (new, _) ↦ rw new (changed-Tracks n v h)
          | inr (old, same) ↦
              rw old (same-Tracks n v h ((bytes_eq_iff (reading (suc n)) v.last).0 same))
        ]

    return-Settled :
        (n : ℕ) (v : Waiting)
        → Tracks n v
        → settle_round_ctx pats rounds settle deadline n v (reading (suc n)) ≡ return_with true
        → Settled pats settle deadline (reading (suc n))
    return-Settled n v h e =
        let facts =
          settle_round_ctx-return_with pats rounds settle deadline n v (reading (suc n)) e in
        let same = (bytes_eq_iff (reading (suc n)) v.last).0 facts.2 in
        let now = same-Tracks n v h same in
        record {
          round = n;
          in_time = facts.0;
          not_cancelled = facts.1;
          seen = refl;
          seen_before = h.unchanged n h.in_past (omega arith) ∙ sym same;
          some_output = now.some_output facts.3;
          at_rest = elim facts.4 [
            | inl waited ↦
                inr (
                  now.since,
                  (λ k ge le. now.unchanged k ge le ∙ sym same),
                  rw (← now.noted) waited,
                )
            | inr prompt ↦ inl prompt
          ];
        }

    run_rounds-Settled :
        (fuel n : ℕ) (v : Waiting) (w' : W) (out : List ℕ)
        → Tracks n v
        → run_rounds get_output rounds.elapse
            (settle_round_ctx pats rounds settle deadline)
            fuel
            n
            (state_at rounds w n)
            v
          ≡ some (w', out, true)
        → Settled pats settle deadline out
    unfolding run_rounds state_at
    run_rounds-Settled zero n v w' out h e = absurd (cc e)
    run_rounds-Settled (suc fuel) n v w' out h e =
        elim (Verdict-cases (settle_round_ctx pats rounds settle deadline n v (reading (suc n)))) [
          | inl (u, go) ↦ run_rounds-Settled fuel (suc n) u w' out (next-Tracks n v u h go) (
              sym (
                run_rounds-wait_on get_output rounds.elapse
                  (settle_round_ctx pats rounds settle deadline) fuel n (state_at rounds w n) v u
                  go)
              ∙ e)
          | inr (b, stop) ↦
              let out_eq : some (state_at rounds w (suc n), reading (suc n), b)
                  ≡ some (w', out, true) =
                sym (
                  run_rounds-return_with get_output rounds.elapse
                    (settle_round_ctx pats rounds settle deadline) fuel n (state_at rounds w n) v b
                    stop)
                ∙ e in
              let complete : b ≡ true = cc out_eq in
              let read : reading (suc n) ≡ out = cc out_eq in
              rw (← read) (return-Settled n v h (stop ∙ ap return_with complete))
        ]

-- If `WaitForSettleCtx` returns a complete output: it is the reading of a round that began before
-- the deadline and was not cancelled, and of the reading before it; some reading up to then was not
-- empty; and the output ends in a prompt, or has been the same in all readings since one that was
-- noted at least the settling time before.
pub wait_for_settle_ctx-Settled :
    {W : Type 0} (pats : Patterns) (get_output : W → List ℕ) (rounds : Rounds W)
    (settle timeout fuel : ℕ) (w w' : W) (out : List ℕ)
    → wait_for_settle_ctx pats get_output rounds settle timeout fuel w ≡ some (w', out, true)
    → Settled get_output rounds w pats settle (rounds.began_at + timeout) out
unfolding wait_for_settle_ctx state_at
wait_for_settle_ctx-Settled pats get_output rounds settle timeout fuel w w' out e =
    run_rounds-Settled get_output rounds w pats settle (rounds.began_at + timeout) fuel 0
      (began (get_output w) rounds.first_at) w' out (began-Tracks get_output rounds w) e

-- The output that the loop returns is a reading of the state that it returns.
run_rounds-state_at :
    {W : Type 0} (get_output : W → List ℕ) (rounds : Rounds W) (w : W)
    (round : ℕ → Waiting → List ℕ → Verdict) (fuel n : ℕ) (v : Waiting) (w' : W) (out : List ℕ)
    (b : Bool)
    → run_rounds get_output rounds.elapse round fuel n (state_at rounds w n) v ≡ some (w', out, b)
    → (m : ℕ) × (w' ≡ state_at rounds w (suc m)) × (out ≡ get_output w')
unfolding run_rounds state_at
run_rounds-state_at get_output rounds w round zero n v w' out b e = absurd (cc e)
run_rounds-state_at get_output rounds w round (suc fuel) n v w' out b e =
    elim (Verdict-cases (round n v (get_output (state_at rounds w (suc n))))) [
      | inl (u, go) ↦ run_rounds-state_at get_output rounds w round fuel (suc n) u w' out b (
          sym
            (run_rounds-wait_on get_output rounds.elapse round fuel n (state_at rounds w n) v u go)
          ∙ e)
      | inr (c, stop) ↦
          let same : some (state_at rounds w (suc n), get_output (state_at rounds w (suc n)), c)
              ≡ some (w', out, b) =
            sym (
              run_rounds-return_with get_output rounds.elapse round fuel n (state_at rounds w n) v c
                stop)
            ∙ e in
          let at : w' ≡ state_at rounds w (suc n) = cc same in (n, at, cc (same, ap get_output at))
    ]

pub wait_for_settle_ctx-state_at :
    {W : Type 0} (pats : Patterns) (get_output : W → List ℕ) (rounds : Rounds W)
    (settle timeout fuel : ℕ) (w w' : W) (out : List ℕ) (b : Bool)
    → wait_for_settle_ctx pats get_output rounds settle timeout fuel w ≡ some (w', out, b)
    → (m : ℕ) × (w' ≡ state_at rounds w (suc m)) × (out ≡ get_output w')
unfolding wait_for_settle_ctx state_at
wait_for_settle_ctx-state_at pats get_output rounds settle timeout fuel w w' out b e =
    run_rounds-state_at get_output rounds w
      (settle_round_ctx pats rounds settle (rounds.began_at + timeout)) fuel 0
      (began (get_output w) rounds.first_at) w' out b e
