-- ===== src/Session/Screen/Tests.antt =====
-- A session whose device answers "a", and the theorems at it.
use pty_mcp.Base.{
  ℕ, zero, suc, ◌+◌, ◌*◌, ◌≤◌, ◌≡◌, refl, arith, true, false, none, some, List, [], ◌∷◌, ◌++◌,
  length, length-append,
}
use pty_mcp.Base.Int.{pos}
use pty_mcp.Text.{bytes_eq}
use pty_mcp.Buffer.Ring.{
  RingBuffer, new, write_byte, write_bytes, write, read_from, read_since, since, mark,
  advance_mark_by,
}
use pty_mcp.Buffer.Ring.Inv.{Holds, new-Holds, write-Holds}
use pty_mcp.Pty.{Patterns, Rounds, has_prompt, settle_round_ctx, run_rounds, wait_for_settle_ctx}
use pty_mcp.Session.Screen.{SshSession, ssh_write, ssh_read_screen, read_settled, consume}
use pty_mcp.Session.Screen.Reads.{written, ssh_write-ssh_read_screen, read_settled-cancelled}

abbrev terminal : ℕ → List ℕ
terminal zero = b'a' ∷ []
terminal (suc n) = []

abbrev pats : Patterns
pats = record { common_prompts = []; strip_ansi = λ s. s }

abbrev rounds : Rounds RingBuffer
rounds = record {
  began_at = 0;
  first_at = 0;
  tested_at = λ n. 50 * n;
  seen_at = λ n. 50 * n + 50;
  is_cancelled = λ n. false;
  elapse = λ n rb. (write rb (terminal n)).0;
}

abbrev idle : SshSession
idle = record { buf = new 4; has_log = false; alive = true; is_closed = false }

-- the buffer with the answer, its mark behind it, and "b" written after the wait
abbrev read_buf : RingBuffer
read_buf = record {
  buf = b'a' ∷ b'b' ∷ 0 ∷ 0 ∷ [];
  size = 4;
  head = 2;
  written = 2;
  mark_snapshot = 1;
  notify = true;
}

reads_a :
    ssh_read_screen pats rounds false
      (b'b' ∷ [])
      10
      (ssh_write (λ bytes. none) idle (b'l' ∷ [])).0
      (pos 5000)
    ≡ some (record idle { buf = read_buf }, b'a' ∷ [], true)
unfolding ssh_read_screen ssh_write read_settled consume wait_for_settle_ctx run_rounds
    settle_round_ctx has_prompt bytes_eq new write_byte write_bytes write read_from read_since since
    mark advance_mark_by
reads_a = refl

written_fits : (n : ℕ) → length (written rounds terminal (λ n rb. refl) n) + 1 ≤ 4
unfolding written
written_fits zero = omega arith
written_fits (suc zero) = omega arith
written_fits (suc (suc n)) =
    omega (
      arith,
      written_fits (suc n),
      length-append (written rounds terminal (λ n rb. refl) (suc n)) [],
    )

ssh_write-ssh_read_screen_example :
    (n : ℕ) × (b'a' ∷ [] ≡ written rounds terminal (λ n rb. refl) (suc n))
    × (since read_buf ≡ b'b' ∷ [])
unfolding new
ssh_write-ssh_read_screen_example =
    ssh_write-ssh_read_screen rounds terminal (λ n rb. refl) pats (b'b' ∷ []) (λ bytes. none) idle
      [] (b'l' ∷ []) 10 (pos 5000) (record idle { buf = read_buf }) (b'a' ∷ []) true
      (new-Holds 4 (omega arith)) refl (λ n. omega (arith, written_fits n)) (omega arith) reads_a

-- one byte that no one has read
abbrev unread_buf : RingBuffer
unread_buf = record {
  buf = b'c' ∷ 0 ∷ 0 ∷ 0 ∷ [];
  size = 4;
  head = 1;
  written = 1;
  mark_snapshot = 0;
  notify = true;
}

unread_buf-Holds : Holds unread_buf (b'c' ∷ [])
unfolding new write write_bytes write_byte
unread_buf-Holds = write-Holds (b'c' ∷ []) (new 4) [] (new-Holds 4 (omega arith))

abbrev cancelled_buf : RingBuffer
cancelled_buf = record {
  buf = b'c' ∷ b'a' ∷ b'b' ∷ 0 ∷ [];
  size = 4;
  head = 3;
  written = 3;
  mark_snapshot = 0;
  notify = true;
}

gives_up :
    read_settled pats rounds true (b'b' ∷ []) 10 unread_buf (pos 5000)
    ≡ some (cancelled_buf, [], false)
unfolding read_settled consume wait_for_settle_ctx run_rounds settle_round_ctx has_prompt bytes_eq
    write_byte write_bytes write read_from read_since since
gives_up = refl

written_one : (n : ℕ) → length (written rounds terminal (λ n rb. refl) n) ≤ 1
unfolding written
written_one zero = omega arith
written_one (suc zero) = omega arith
written_one (suc (suc n)) =
    omega (
      arith,
      written_one (suc n),
      length-append (written rounds terminal (λ n rb. refl) (suc n)) [],
    )

read_settled-cancelled_example :
    ◌≡◌ {A = List ℕ} [] []
    × (false ≡ false)
    × ((n : ℕ) × (since cancelled_buf
          ≡ b'c' ∷ (written rounds terminal (λ n rb. refl) (suc n) ++ b'b' ∷ [])))
read_settled-cancelled_example =
    read_settled-cancelled rounds terminal (λ n rb. refl) pats (b'b' ∷ []) 10 unread_buf
      cancelled_buf [] (b'c' ∷ []) [] (pos 5000) false unread_buf-Holds refl
      (λ n. omega (arith, written_one n)) gives_up
