-- ===== src/Pty/Tests.antt =====
-- A terminal that shows "x" from its first reading on, and the theorems at it.
use pty_mcp.Base.{ℕ, zero, suc, ◌+◌, ◌*◌, ◌≤◌, ◌≡◌, refl, arith, true, false, some, List, [], ◌∷◌}
use pty_mcp.Text.{bytes_eq}
use pty_mcp.Pty.{
  Patterns, Rounds, has_prompt, settle_round_ctx, run_rounds, wait_for_settle, wait_for_settle_ctx,
}
use pty_mcp.Pty.Ends.{Returns, wait_for_settle_ctx-wait_for_settle, wait_for_settle-Returns}
use pty_mcp.Pty.Stable.{Settled, state_at, noted_at, reading, wait_for_settle_ctx-Settled}
use pty_mcp.Pty.Completes.{Completes, wait_for_settle_ctx-Completes}

-- the state is the number of the reading
abbrev output : ℕ → List ℕ
output zero = []
output (suc n) = b'x' ∷ []

abbrev pats : Patterns
pats = record { common_prompts = []; strip_ansi = λ s. s }

abbrev rounds : Rounds ℕ
rounds = record {
  began_at = 0;
  first_at = 0;
  tested_at = λ n. 50 * n;
  seen_at = λ n. 50 * n + 50;
  is_cancelled = λ n. false;
  elapse = λ n w. suc w;
}

returns_x : wait_for_settle_ctx pats output rounds 300 5000 10 0 ≡ some (7, b'x' ∷ [], true)
unfolding wait_for_settle_ctx run_rounds settle_round_ctx has_prompt bytes_eq
returns_x = refl

wait_for_settle_ctx-wait_for_settle_example :
    wait_for_settle_ctx pats output rounds 300 5000 10 0
    ≡ wait_for_settle pats output rounds 300 5000 10 0
wait_for_settle_ctx-wait_for_settle_example =
    wait_for_settle_ctx-wait_for_settle pats output rounds 300 5000 10 0 (λ n. refl)

wait_for_settle-Returns_example :
    Returns (wait_for_settle pats output rounds 300 5000 101 0)
    × Returns (wait_for_settle_ctx pats output rounds 300 5000 101 0)
wait_for_settle-Returns_example =
    wait_for_settle-Returns pats output rounds (λ n. omega arith) 300 5000 100 0 (omega arith)
      (omega arith)

wait_for_settle_ctx-Settled_example : Settled output rounds 0 pats 300 5000 (b'x' ∷ [])
wait_for_settle_ctx-Settled_example =
    wait_for_settle_ctx-Settled pats output rounds 300 5000 10 0 7 (b'x' ∷ []) returns_x

stays_x : (n : ℕ) → 1 ≤ n → reading output rounds 0 n ≡ b'x' ∷ []
unfolding state_at
stays_x zero le = absurd (omega arith)
stays_x (suc n) le = refl

in_order : (n : ℕ) → noted_at rounds n ≤ noted_at rounds (suc n)
in_order zero = omega arith
in_order (suc n) = omega arith

wait_for_settle_ctx-Completes_example :
    Completes (wait_for_settle_ctx pats output rounds 300 5000 10 0)
wait_for_settle_ctx-Completes_example =
    wait_for_settle_ctx-Completes pats output rounds 0 (b'x' ∷ []) 1 6 300 5000 10 stays_x refl
      in_order (omega arith) (λ n le. omega arith) (omega arith) (λ n le. refl) (omega arith)
