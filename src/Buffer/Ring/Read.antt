-- ===== src/Buffer/Ring/Read.antt =====
-- What the reading methods return, in terms of the history of writes alone.
use Prim.Native.Nat.{max, min}
use native.Mathlib.Nat.{mod-add-mod, add-zero}
use pty_mcp.Base.{
  ℕ, zero, suc, ◌+◌, ◌-◌, ◌*◌, ◌%◌, ◌≤◌, ◌<◌, ◌≡◌, refl, sym, ap, ap₂, ◌∙◌, true, false, Bool-cases,
  inl, inr, List, ◌∷◌, arith, ltb, leb, leb→le, ◌==◌, ◌↔◌, if◌then◌else◌, length, get_or, take,
  drop, take-suc-drop, take_all, drop_all, length-drop,
}
use pty_mcp.Base.Int.{ℤ, pos, negsuc, pos_part, is_nonpos}
use pty_mcp.Buffer.Ring.{
  RingBuffer, copy_from, available, oldest, raise_to, lower_to, over_limit, read_from,
  read_max_from, read_since, read_since_max, string, is_truncated,
}
use pty_mcp.Buffer.Ring.Inv.{Holds, start_cell}

-- The position from which a reader at `snap` can still read.
abbrev pub readable_from : ℕ → List ℕ → ℤ → ℕ
readable_from size hist snap = max (length hist - size) (pos_part snap)

raise_to-eq :
    (rb : RingBuffer) (hist : List ℕ) (snap : ℤ)
    → rb.written ≡ length hist
    → raise_to (oldest rb) snap ≡ readable_from rb.size hist snap
raise_to-eq rb hist (pos n) e = ground arith
raise_to-eq rb hist (negsuc n) e = ground arith

-- How many of `all` bytes a limit lets through.
abbrev pub wanted : ℤ → ℕ → ℕ
wanted max_bytes all = if is_nonpos max_bytes then all else min (pos_part max_bytes) all

wanted-zero : (max_bytes : ℤ) → wanted max_bytes 0 ≡ 0
wanted-zero (pos n) = ground arith
wanted-zero (negsuc n) = refl

pub wanted-le : (max_bytes : ℤ) (all : ℕ) → wanted max_bytes all ≤ all
wanted-le (pos n) all = ground arith
wanted-le (negsuc n) all = omega arith

-- The code's count and its `hasMore`, in terms of `wanted`.
count_wanted :
    (max_bytes : ℤ) (all : ℕ)
    → (if over_limit max_bytes all then pos_part max_bytes else all) ≡ wanted max_bytes all
unfolding over_limit
count_wanted (pos n) all = ground arith
count_wanted (negsuc n) all = ground arith

more_wanted : (max_bytes : ℤ) (all : ℕ) → over_limit max_bytes all ≡ ltb (wanted max_bytes all) all
unfolding over_limit
more_wanted (pos n) all = ground arith
more_wanted (negsuc n) all = ground arith

module _ (rb : RingBuffer) (hist : List ℕ) (h : Holds rb hist) where
  run_cell :
      (s start i : ℕ)
      → start ≡ s % rb.size
      → s + i < rb.written
      → rb.written ≤ s + rb.size
      → get_or rb.buf ((start + i) % rb.size) 0 ≡ get_or hist (s + i) 0
  run_cell s start i e fits recent =
      rw (e, mod-add-mod s rb.size i) (h.cells (s + i) fits (omega arith))

  -- The copying loop reads a run of the history, from the cell of its first byte.
  copy_run :
      (s start i n : ℕ)
      → start ≡ s % rb.size
      → s + i + n ≤ rb.written
      → rb.written ≤ s + rb.size
      → copy_from rb.buf rb.size start i n ≡ take n (drop (s + i) hist)
  copy_run s start i zero e fits recent = refl
  copy_run s start i (suc n) e fits recent =
      ap₂ ◌∷◌ (run_cell s start i e (omega arith) recent) (
        copy_run s start (i + 1) n e (omega arith) recent
        ∙ ap (λ t. take n (drop t hist)) {y = suc (s + i)} (omega arith))
      ∙ sym (take-suc-drop n (s + i) hist 0 (omega (arith, h.counted)))

  -- Going back from the head by the unread bytes, and copying n of them.
  copy_back :
      (s raw n : ℕ)
      → s + raw ≡ rb.written
      → raw ≤ rb.size
      → n ≤ raw
      → copy_from rb.buf rb.size ((rb.head + rb.size * 2 - raw) % rb.size) 0 n
        ≡ take n (drop s hist)
  copy_back s raw n e room le =
      copy_run s ((rb.head + rb.size * 2 - raw) % rb.size) 0 n start (omega arith) (omega arith)
      ∙ ap (λ t. take n (drop t hist)) (omega arith)
    where
      start : (rb.head + rb.size * 2 - raw) % rb.size ≡ s % rb.size
      start = rw (h.at_head, ← e) (start_cell rb.size s raw h.has_size room)

  copy_back_all :
      (s raw : ℕ)
      → s + raw ≡ rb.written
      → raw ≤ rb.size
      → copy_from rb.buf rb.size ((rb.head + rb.size * 2 - raw) % rb.size) 0 raw ≡ drop s hist
  copy_back_all s raw e room =
      copy_back s raw raw e room (omega arith)
      ∙ take_all raw (drop s hist) (omega (arith, length-drop s hist, h.counted))

  read_from_lem : (s : ℕ) → rb.written ≤ s + rb.size → read_from rb s ≡ drop s hist
  unfolding read_from
  read_from_lem s recent = elim (Bool-cases (leb rb.written s)) [
    | inl past ↦
        rw past (sym (drop_all s hist (omega (arith, h.counted, leb→le rb.written s past))))
    | inr new ↦ rw (new, fits) (copy_back_all s (rb.written - s) (ground arith) (omega arith))
  ]
    where
      fits : ltb rb.size (rb.written - s) ≡ false
      fits = ground arith

  -- `ReadSince` at any snapshot, negative or past the end included, returns exactly the bytes of
  -- the whole history of writes from the snapshot on, or from the oldest byte that the buffer
  -- still holds where the snapshot is older.
  pub read_since_lem : (snap : ℤ) → read_since rb snap ≡ drop (readable_from rb.size hist snap) hist
  unfolding read_since
  read_since_lem snap =
      rw (raise_to-eq rb hist snap h.counted)
        (read_from_lem (readable_from rb.size hist snap) (omega (arith, h.counted)))

  pub string_lem : string rb ≡ drop (length hist - rb.size) hist
  unfolding string
  string_lem = elim (Bool-cases (available rb == 0)) [
    | inl nothing ↦
        rw nothing
          (sym (drop_all (length hist - rb.size) hist (ground (arith, h.counted, h.has_size))))
    | inr some_bytes ↦ rw some_bytes (
        copy_back_all (length hist - rb.size) (available rb) (ground (arith, h.counted))
          (ground arith))
  ]

  -- A snapshot is truncated exactly when bytes from it on are lost.
  pub is_truncated_iff : (n : ℕ) → (is_truncated rb (pos n) ≡ true) ↔ (n < length hist - rb.size)
  unfolding is_truncated
  is_truncated_iff n = ground (arith, h.counted)

  read_max_from_lem :
      (s : ℕ) (max_bytes : ℤ)
      → s ≤ rb.written
      → rb.written ≤ s + rb.size
      → read_max_from rb s max_bytes ≡ (
        take (wanted max_bytes (length hist - s)) (drop s hist),
        s + wanted max_bytes (length hist - s),
        ltb (wanted max_bytes (length hist - s)) (length hist - s),
      )
  unfolding read_max_from
  read_max_from_lem s max_bytes le recent = elim (Bool-cases (leb rb.written s)) [
    | inl past ↦
        let none_left : length hist - s ≡ 0 = omega (arith, h.counted, leb→le rb.written s past) in
        rw (past, none_left, wanted-zero, add-zero) refl
    | inr new ↦
        let fits : ltb rb.size (rb.written - s) ≡ false = ground arith in
        rw (← h.counted, new, fits, count_wanted, more_wanted)
          (ap
            (λ out. (
              out,
              s + wanted max_bytes (rb.written - s),
              ltb (wanted max_bytes (rb.written - s)) (rb.written - s),
            ))
            (copy_back s (rb.written - s) (wanted max_bytes (rb.written - s)) (omega arith)
              (omega arith) (wanted-le max_bytes (rb.written - s))))
  ]

  -- `ReadSinceMax` starts at the snapshot, clamped between the oldest byte held and the end; it
  -- returns as many bytes of the history from there as the limit lets through (all, if the limit
  -- is not positive), the position behind them, and whether any are left.
  pub read_since_max_lem :
      (snap max_bytes : ℤ)
      → let from = min (length hist) (readable_from rb.size hist snap) in
        let n = wanted max_bytes (length hist - from) in
        read_since_max rb snap max_bytes
        ≡ (take n (drop from hist), from + n, ltb n (length hist - from))
  unfolding read_since_max
  read_since_max_lem snap max_bytes = rw clamped (
      read_max_from_lem (min (length hist) (readable_from rb.size hist snap)) max_bytes
        (omega (arith, h.counted)) (omega (arith, h.counted)))
    where
      clamped :
          lower_to rb.written (raise_to (oldest rb) snap)
          ≡ min (length hist) (readable_from rb.size hist snap)
      clamped = rw (raise_to-eq rb hist snap h.counted) (ground (arith, h.counted))
