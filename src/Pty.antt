-- ===== src/Pty.antt =====
-- internal/pty/helper.go. The regular expressions are parameters: the tests of the prompts and `StripANSI`.
-- `getOutput` reads a state W that others change while the loop sleeps: `elapse n` is all that they do
-- up to the n-th reading, and the clock and the context are given for each round.
pub mod Stable
pub mod Ends
pub mod Completes
mod Tests
use pty_mcp.Base.{
  ℕ, zero, suc, ◌+◌, Bool, true, false, not, ◌&&◌, ◌||◌, Option, none, some, List, [], ◌∷◌, ltb,
  leb, if◌then◌else◌,
}
use pty_mcp.Text.{split, last_line, bytes_eq}
use pty_mcp.Text.Space.{trim_space, trim_right_newlines}

-- `commonPrompts` and `StripANSI`
pub record Patterns : Type 0 where
  pub common_prompts : List (List ℕ → Bool)
  pub strip_ansi : List ℕ → List ℕ

abbrev any_match : List (List ℕ → Bool) → List ℕ → Bool
any_match [] line = false
any_match (p ∷ ps) line = p line || any_match ps line

unfoldable pub has_prompt : Patterns → List ℕ → Bool
unfolding trim_right_newlines trim_space split last_line
has_prompt pats output =
    any_match pats.common_prompts (trim_space (last_line (split (trim_right_newlines output))))

-- A round of the loop tests the deadline, sleeps, and reads: the times at which it does this, whether
-- the context ends its sleep, and what the others do before the reading. `began_at` and `first_at`
-- are the two calls of `time.Now` ahead of the loop.
pub record Rounds (W : Type 0) : Type 0 where
  pub began_at : ℕ
  pub first_at : ℕ
  pub tested_at : ℕ → ℕ
  pub seen_at : ℕ → ℕ
  pub is_cancelled : ℕ → Bool
  pub elapse : ℕ → W → W

-- the variables of the loop
pub record Waiting : Type 0 where
  pub last : List ℕ
  pub last_change : ℕ
  pub has_output : Bool

abbrev pub is_empty : List ℕ → Bool
is_empty [] = true
is_empty (c ∷ s) = false

abbrev pub began : List ℕ → ℕ → Waiting
began output now = record { last = output; last_change = now; has_output = not (is_empty output) }

abbrev pub changed : Waiting → List ℕ → ℕ → Waiting
changed v current now = record {
  last = current;
  last_change = now;
  has_output = v.has_output || not (is_empty current);
}

-- What a round of the loop comes to: another round, or a return with the output that it read.
pub data Verdict : Type 0 where
  wait_on : Waiting → Verdict
  return_with : Bool → Verdict

module _ {W : Type 0} (pats : Patterns) (rounds : Rounds W) (settle deadline : ℕ) where
  -- the n-th round of the loop of `WaitForSettle`, which reads `current` after its sleep
  unfoldable pub settle_round : ℕ → Waiting → List ℕ → Verdict
  settle_round n v current =
      if not (ltb (rounds.tested_at n) deadline)
      then return_with false
      else if not (bytes_eq current v.last)
      then wait_on (changed v current (rounds.seen_at n))
      else if v.has_output && leb (v.last_change + settle) (rounds.seen_at n)
      then return_with true
      else if v.has_output && has_prompt pats (pats.strip_ansi current)
      then return_with true
      else wait_on v

  -- the same of `WaitForSettleCtx`, whose sleep is a select on the context and a timer
  unfoldable pub settle_round_ctx : ℕ → Waiting → List ℕ → Verdict
  settle_round_ctx n v current =
      if not (ltb (rounds.tested_at n) deadline)
      then return_with false
      else if rounds.is_cancelled n
      then return_with false
      else if not (bytes_eq current v.last)
      then wait_on (changed v current (rounds.seen_at n))
      else if v.has_output && leb (v.last_change + settle) (rounds.seen_at n)
      then return_with true
      else if v.has_output && has_prompt pats (pats.strip_ansi current)
      then return_with true
      else wait_on v

module _ {W : Type 0} (get_output : W → List ℕ) (elapse : ℕ → W → W) where
  -- The loop: the state at the end, the output, whether it is complete; none if the fuel is not enough.
  unfoldable pub run_rounds :
      (ℕ → Waiting → List ℕ → Verdict) → ℕ → ℕ → W → Waiting → Option (W × List ℕ × Bool)
  run_rounds round zero n w v = none
  run_rounds round (suc fuel) n w v =
      let here = elapse n w in
      elim (round n v (get_output here)) [
        | wait_on v' ↦ run_rounds round fuel (suc n) here v'
        | return_with complete ↦ some (here, get_output here, complete)
      ]

module _ {W : Type 0} (pats : Patterns) (get_output : W → List ℕ) (rounds : Rounds W) where
  -- `WaitForSettle`
  unfoldable pub wait_for_settle : ℕ → ℕ → ℕ → W → Option (W × List ℕ × Bool)
  wait_for_settle settle timeout fuel w =
      run_rounds get_output rounds.elapse
        (settle_round pats rounds settle (rounds.began_at + timeout)) fuel 0 w
        (began (get_output w) rounds.first_at)

  -- `WaitForSettleCtx`
  unfoldable pub wait_for_settle_ctx : ℕ → ℕ → ℕ → W → Option (W × List ℕ × Bool)
  wait_for_settle_ctx settle timeout fuel w =
      run_rounds get_output rounds.elapse
        (settle_round_ctx pats rounds settle (rounds.began_at + timeout)) fuel 0 w
        (began (get_output w) rounds.first_at)
