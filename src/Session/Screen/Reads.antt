-- ===== src/Session/Screen/Reads.antt =====
-- What `ReadScreen` returns and leaves to the next reader.
use mathlib.Core.Path.{subst}
use pty_mcp.Base.{
  String, ℕ, zero, suc, ◌+◌, ◌≤◌, ◌≡◌, refl, sym, ap, ◌∙◌, Bool, true, false, inl, inr, Option,
  none, some, List, [], ◌++◌, arith, length, drop, append_assoc, append-nil, length-append,
  drop-append_left, drop_all, Option-cases,
}
use pty_mcp.Base.Int.{ℤ}
use pty_mcp.Buffer.Ring.{RingBuffer, write, since, mark, advance_mark_by}
use pty_mcp.Buffer.Ring.Inv.{
  Holds, write-Holds, mark-Holds, mark_keeps, size-write, mark_snapshot-write,
}
use pty_mcp.Buffer.Ring.Cursor.{since_lem, since-advance-write}
use pty_mcp.Pty.{Patterns, Rounds, wait_for_settle_ctx}
use pty_mcp.Pty.Stable.{state_at, wait_for_settle_ctx-state_at}
use pty_mcp.Session.Screen.{
  SshSession, ssh_write, ssh_read_screen, with_ssh, read_settled, consume, settle_ms,
  or_five_seconds,
}

module _ (rounds : Rounds RingBuffer) (terminal : ℕ → List ℕ)
    (only_writes : (n : ℕ) (rb : RingBuffer) → rounds.elapse n rb ≡ (write rb (terminal n)).0) where
  -- all that the terminal writes before the n-th reading
  unfoldable pub written : ℕ → List ℕ
  written zero = []
  written (suc n) = written n ++ terminal n

  state_at-Holds :
      (rb : RingBuffer) (hist : List ℕ) (n : ℕ)
      → Holds rb hist
      → Holds (state_at rounds rb n) (hist ++ written n)
        × ((state_at rounds rb n).size ≡ rb.size)
        × ((state_at rounds rb n).mark_snapshot ≡ rb.mark_snapshot)
  unfolding written state_at
  state_at-Holds rb hist zero h = rw (append-nil hist) (h, refl, refl)
  state_at-Holds rb hist (suc n) h =
      let (holds, same_size, same_mark) = state_at-Holds rb hist n h in
      rw (only_writes n (state_at rounds rb n), ← append_assoc hist (written n) (terminal n))
        (
          write-Holds (terminal n) (state_at rounds rb n) (hist ++ written n) holds,
          size-write (terminal n) (state_at rounds rb n) ∙ same_size,
          mark_snapshot-write (terminal n) (state_at rounds rb n) ∙ same_mark,
        )

  -- A buffer whose mark stands in its history, with no more behind it than it can hold.
  since_at_end :
      (rb : RingBuffer) (hist new : List ℕ)
      → Holds rb (hist ++ new)
      → rb.mark_snapshot ≡ length hist
      → length new ≤ rb.size
      → since rb ≡ new
  since_at_end rb hist new holds at_end fits =
      since_lem rb (hist ++ new) holds
      ∙ ap (λ k. drop k (hist ++ new)) (omega (arith, length-append hist new))
      ∙ drop-append_left (length hist) hist new (omega arith)
      ∙ ap (λ xs. xs ++ new) (drop_all (length hist) hist (omega arith))

  -- The reading after n rounds, of a buffer whose mark stands at the end of its history.
  since-state_at :
      (rb : RingBuffer) (hist : List ℕ) (n : ℕ)
      → Holds rb hist
      → rb.mark_snapshot ≡ length hist
      → length (written n) ≤ rb.size
      → since (state_at rounds rb n) ≡ written n
  since-state_at rb hist n h at_end fits =
      let (holds, same_size, same_mark) = state_at-Holds rb hist n h in
      since_at_end (state_at rounds rb n) hist (written n) holds (same_mark ∙ at_end)
        (omega (arith, same_size))

  module _ (pats : Patterns) (late : List ℕ) where
    read_settled-Reads :
        (fuel : ℕ) (rb rb' : RingBuffer) (hist out : List ℕ) (timeout : ℤ) (complete : Bool)
        → Holds rb hist
        → rb.mark_snapshot ≡ length hist
        → ((n : ℕ) → length (written n) ≤ rb.size)
        → length late ≤ rb.size
        → read_settled pats rounds false late fuel rb timeout ≡ some (rb', out, complete)
        → (n : ℕ) × (out ≡ pats.strip_ansi (written (suc n))) × (since rb' ≡ late)
    unfolding read_settled consume
    read_settled-Reads fuel rb rb' hist out timeout complete h at_end fits room e =
        elim (Option-cases waited) [
          | inl none_yet ↦ absurd (cc (sym (ap after none_yet) ∙ e))
          | inr ((w, raw, c), got) ↦
              let (n, at, read) =
                wait_for_settle_ctx-state_at pats since rounds settle_ms (or_five_seconds timeout)
                  fuel rb w raw c got in
              let (holds, same_size, same_mark) = state_at-Holds rb hist (suc n) h in
              let same = sym (ap after got) ∙ e in
              let kept : rb' ≡ advance_mark_by (write w late).0 (length raw) = cc same in
              let seen : raw ≡ written (suc n) =
                read ∙ ap since at ∙ since-state_at rb hist (suc n) h at_end (fits (suc n)) in
              let shown : out ≡ pats.strip_ansi raw = cc same in
              (
                n,
                shown ∙ ap pats.strip_ansi seen,
                rw (kept, read, at)
                    (since-advance-write (state_at rounds rb (suc n)) (hist ++ written (suc n)) late
                      holds
                      (omega (
                        arith,
                        fits (suc n),
                        same_size,
                        same_mark,
                        length-append hist (written (suc n)),
                      ))
                      (omega (arith, same_size))),
              )
        ]
      where
        waited : Option (RingBuffer × List ℕ × Bool)
        waited = wait_for_settle_ctx pats since rounds settle_ms (or_five_seconds timeout) fuel rb

        after : Option (RingBuffer × List ℕ × Bool) → Option (RingBuffer × List ℕ × Bool)
        after none = none
        after (some r) = some (consume pats rounds false late r)

    -- A read whose context is done returns no output and consumes none: if the buffer can hold
    -- what is unread at its beginning and all that the terminal writes then, however many
    -- readings the wait makes, what was unread and what was written until the end of the read
    -- is unread afterwards, to the last byte, in order.
    pub read_settled-cancelled :
        (fuel : ℕ) (rb rb' : RingBuffer) (seen unread out : List ℕ) (timeout : ℤ) (complete : Bool)
        → Holds rb (seen ++ unread)
        → rb.mark_snapshot ≡ length seen
        → ((n : ℕ) → length unread + length (written n) + length late ≤ rb.size)
        → read_settled pats rounds true late fuel rb timeout ≡ some (rb', out, complete)
        → (out ≡ [])
          × (complete ≡ false)
          × ((n : ℕ) × (since rb' ≡ unread ++ (written (suc n) ++ late)))
    unfolding read_settled consume
    read_settled-cancelled fuel rb rb' seen unread out timeout complete h at_mark fits e =
        elim (Option-cases waited) [
          | inl none_yet ↦ absurd (cc (sym (ap after none_yet) ∙ e))
          | inr ((w, raw, c), got) ↦
              let (n, at, read) =
                wait_for_settle_ctx-state_at pats since rounds settle_ms (or_five_seconds timeout)
                  fuel rb w raw c got in
              let (holds, same_size, same_mark) = state_at-Holds rb (seen ++ unread) (suc n) h in
              let same = sym (ap after got) ∙ e in
              let kept : rb' ≡ (write w late).0 = cc same in
              let regrouped : ((seen ++ unread) ++ written (suc n)) ++ late
                  ≡ seen ++ (unread ++ (written (suc n) ++ late)) =
                append_assoc (seen ++ unread) (written (suc n)) late
                ∙ append_assoc seen unread (written (suc n) ++ late) in
              (
                cc same,
                cc same,
                (
                  n,
                  rw (kept, at)
                      (since_at_end (write (state_at rounds rb (suc n)) late).0 seen
                        (unread ++ (written (suc n) ++ late))
                        (subst (λ t. Holds (write (state_at rounds rb (suc n)) late).0 t) regrouped
                          (write-Holds late (state_at rounds rb (suc n))
                            ((seen ++ unread) ++ written (suc n)) holds))
                        (mark_snapshot-write late (state_at rounds rb (suc n))
                          ∙ same_mark
                          ∙ at_mark)
                        (omega (
                          arith,
                          fits (suc n),
                          same_size,
                          size-write late (state_at rounds rb (suc n)),
                          length-append (written (suc n)) late,
                          length-append unread (written (suc n) ++ late),
                        ))),
                ),
              )
        ]
      where
        waited : Option (RingBuffer × List ℕ × Bool)
        waited = wait_for_settle_ctx pats since rounds settle_ms (or_five_seconds timeout) fuel rb

        after : Option (RingBuffer × List ℕ × Bool) → Option (RingBuffer × List ℕ × Bool)
        after none = none
        after (some r) = some (consume pats rounds true late r)

    module _ (result : List ℕ → Option String) where
      -- An input and then a read of a live SSH session, while the terminal writes: if no more
      -- is written meanwhile than the buffer holds, and the read returns, not cancelled, then
      -- its output is, but for escape sequences, what the terminal wrote since the input up
      -- to one of the readings, and what was written after that reading is exactly what stays
      -- unread.
      pub ssh_write-ssh_read_screen :
          (s : SshSession) (hist input : List ℕ) (fuel : ℕ) (timeout : ℤ) (s' : SshSession)
          (out : List ℕ) (complete : Bool)
          → Holds s.buf hist
          → s.alive ≡ true
          → ((n : ℕ) → length (written n) ≤ s.buf.size)
          → length late ≤ s.buf.size
          → ssh_read_screen pats rounds false late fuel (ssh_write result s input).0 timeout
            ≡ some (s', out, complete)
          → (n : ℕ) × (out ≡ pats.strip_ansi (written (suc n))) × (since s'.buf ≡ late)
      unfolding ssh_write ssh_read_screen read_settled
      ssh_write-ssh_read_screen s hist input fuel timeout s' out complete h alive fits room e =
          let (same_size, at_end) = mark_keeps s.buf hist h in
          let run = rw alive at e in
          elim (Option-cases (read_settled pats rounds false late fuel (mark s.buf) timeout)) [
            | inl none_yet ↦ absurd (
                cc (
                  sym (
                    ap
                      (with_ssh pats rounds false late
                        (record s { buf = mark s.buf; alive = true }))
                      none_yet)
                  ∙ run))
            | inr ((rb', raw, c), got) ↦
                let same =
                  sym (
                    ap
                      (with_ssh pats rounds false late
                        (record s { buf = mark s.buf; alive = true }))
                      got)
                  ∙ run in
                let out_eq : out ≡ raw = cc same in
                let buf_eq : s'.buf ≡ rb' = cc same in
                rw (out_eq, buf_eq)
                  (read_settled-Reads fuel (mark s.buf) rb' hist raw timeout c (mark-Holds h) at_end
                    (λ n. omega (arith, fits n, same_size)) (omega (arith, same_size)) got)
          ]
