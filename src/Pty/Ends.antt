-- ===== src/Pty/Ends.antt =====
-- When the loops of `WaitForSettle` and `WaitForSettleCtx` end.
use pty_mcp.Base.{
  ℕ, zero, suc, ◌+◌, ◌*◌, ◌≤◌, ◌≡◌, ◌⊎◌, refl, sym, ap, ◌∙◌, Bool, false, inl, inr, Option, some,
  List, arith,
}
use pty_mcp.Pty.{
  Patterns, Rounds, Waiting, Verdict, wait_on, return_with, began, settle_round, settle_round_ctx,
  run_rounds, wait_for_settle, wait_for_settle_ctx,
}

abbrev pub Returns {ℓ} : {A : Type ℓ} → Option A → Type ℓ
Returns {A = A} o = (a : A) × (o ≡ some a)

pub Verdict-cases :
    (r : Verdict) → ((v : Waiting) × (r ≡ wait_on v)) ⊎ ((b : Bool) × (r ≡ return_with b))
Verdict-cases (wait_on v) = inl (v, refl)
Verdict-cases (return_with b) = inr (b, refl)

module _ {W : Type 0} (get_output : W → List ℕ) (elapse : ℕ → W → W) where
  pub run_rounds-wait_on :
      (round : ℕ → Waiting → List ℕ → Verdict) (fuel n : ℕ) (w : W) (v u : Waiting)
      → round n v (get_output (elapse n w)) ≡ wait_on u
      → run_rounds get_output elapse round (suc fuel) n w v
        ≡ run_rounds get_output elapse round fuel (suc n) (elapse n w) u
  unfolding run_rounds
  run_rounds-wait_on round fuel n w v u e =
      ap
        (λ r. elim r [
          | wait_on v' ↦ run_rounds get_output elapse round fuel (suc n) (elapse n w) v'
          | return_with complete ↦ some (elapse n w, get_output (elapse n w), complete)
        ])
        e

  pub run_rounds-return_with :
      (round : ℕ → Waiting → List ℕ → Verdict) (fuel n : ℕ) (w : W) (v : Waiting) (b : Bool)
      → round n v (get_output (elapse n w)) ≡ return_with b
      → run_rounds get_output elapse round (suc fuel) n w v
        ≡ some (elapse n w, get_output (elapse n w), b)
  unfolding run_rounds
  run_rounds-return_with round fuel n w v b e =
      ap
        (λ r. elim r [
          | wait_on v' ↦ run_rounds get_output elapse round fuel (suc n) (elapse n w) v'
          | return_with complete ↦ some (elapse n w, get_output (elapse n w), complete)
        ])
        e

  run_rounds_same :
      (f g : ℕ → Waiting → List ℕ → Verdict)
      → ((n : ℕ) (v : Waiting) (current : List ℕ) → f n v current ≡ g n v current)
      → (fuel n : ℕ) (w : W) (v : Waiting)
      → run_rounds get_output elapse f fuel n w v ≡ run_rounds get_output elapse g fuel n w v
  unfolding run_rounds
  run_rounds_same f g same zero n w v = refl
  run_rounds_same f g same (suc fuel) n w v =
      elim (Verdict-cases (g n v (get_output (elapse n w)))) [
        | inl (u, e) ↦
            run_rounds-wait_on f fuel n w v u (same n v _ ∙ e)
            ∙ run_rounds_same f g same fuel (suc n) (elapse n w) u
            ∙ sym (run_rounds-wait_on g fuel n w v u e)
        | inr (b, e) ↦
            run_rounds-return_with f fuel n w v b (same n v _ ∙ e)
            ∙ sym (run_rounds-return_with g fuel n w v b e)
      ]

  -- A loop whose round returns at the latest when its number has reached `limit`.
  run_rounds-Returns :
      (round : ℕ → Waiting → List ℕ → Verdict) (limit : ℕ)
      → ((n : ℕ) (v : Waiting) (current : List ℕ)
          → limit ≤ n
          → round n v current ≡ return_with false)
      → (fuel n : ℕ) (w : W) (v : Waiting) → limit ≤ n + fuel
      → Returns (run_rounds get_output elapse round (suc fuel) n w v)
  run_rounds-Returns round limit late zero n w v enough =
      (_, run_rounds-return_with round zero n w v false (late n v _ (omega arith)))
  run_rounds-Returns round limit late (suc fuel) n w v enough =
      elim (Verdict-cases (round n v (get_output (elapse n w)))) [
        | inl (u, e) ↦
            let (a, r) =
              run_rounds-Returns round limit late fuel (suc n) (elapse n w) u (omega arith) in
            (a, run_rounds-wait_on round (suc fuel) n w v u e ∙ r)
        | inr (b, e) ↦ (_, run_rounds-return_with round (suc fuel) n w v b e)
      ]

module _ {W : Type 0} (pats : Patterns) (get_output : W → List ℕ) (rounds : Rounds W) where
  -- With a context that is never done, `WaitForSettleCtx` returns what `WaitForSettle` returns,
  -- for the same readings and times.
  pub wait_for_settle_ctx-wait_for_settle :
      (settle timeout fuel : ℕ) (w : W)
      → ((n : ℕ) → rounds.is_cancelled n ≡ false)
      → wait_for_settle_ctx pats get_output rounds settle timeout fuel w
        ≡ wait_for_settle pats get_output rounds settle timeout fuel w
  unfolding wait_for_settle wait_for_settle_ctx settle_round settle_round_ctx
  wait_for_settle_ctx-wait_for_settle settle timeout fuel w never =
      run_rounds_same get_output rounds.elapse
        (settle_round_ctx pats rounds settle (rounds.began_at + timeout))
        (settle_round pats rounds settle (rounds.began_at + timeout))
        (λ n v current. rw (never n) refl) fuel 0 w (began (get_output w) rounds.first_at)

  module _ (slept : (n : ℕ) → rounds.tested_at n + 50 ≤ rounds.tested_at (suc n)) where
    tested_at_grows : (n : ℕ) → rounds.tested_at 0 + 50 * n ≤ rounds.tested_at n
    tested_at_grows zero = omega arith
    tested_at_grows (suc n) = omega (arith, slept n, tested_at_grows n)

    -- Both waits end, whatever is read: if a round takes 50 ms at least, one round for each 50
    -- ms of the timeout, and one more, are enough.
    pub wait_for_settle-Returns :
        (settle timeout fuel : ℕ) (w : W)
        → rounds.began_at ≤ rounds.tested_at 0
        → timeout ≤ 50 * fuel
        → Returns (wait_for_settle pats get_output rounds settle timeout (suc fuel) w)
          × Returns (wait_for_settle_ctx pats get_output rounds settle timeout (suc fuel) w)
    unfolding wait_for_settle wait_for_settle_ctx settle_round settle_round_ctx
    wait_for_settle-Returns settle timeout fuel w later enough = (
      run_rounds-Returns get_output rounds.elapse
          (settle_round pats rounds settle (rounds.began_at + timeout)) fuel
          (λ n v current past. ground (arith, tested_at_grows n)) fuel 0 w
          (began (get_output w) rounds.first_at) (omega arith),
      run_rounds-Returns get_output rounds.elapse
          (settle_round_ctx pats rounds settle (rounds.began_at + timeout)) fuel
          (λ n v current past. ground (arith, tested_at_grows n)) fuel 0 w
          (began (get_output w) rounds.first_at) (omega arith),
    )
