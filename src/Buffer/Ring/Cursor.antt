-- ===== src/Buffer/Ring/Cursor.antt =====
-- Readers with a cursor or with the mark: pages that fit together, and what a read consumes.
use Prim.Native.Nat.{max, min}
use pty_mcp.Base.{
  ℕ, zero, suc, ◌+◌, ◌-◌, ◌*◌, ◌≤◌, ◌<◌, ◌≡◌, refl, sym, ap, ◌∙◌, Bool, true, false, Bool-cases,
  inl, inr, Option, none, some, List, ◌++◌, arith, ltb, length, take, drop, length-append,
  length-drop, take-append-drop, take_all, drop_all, drop-drop, drop-min, drop-append_left,
}
use pty_mcp.Base.Int.{ℤ, pos}
use pty_mcp.Buffer.Ring.{
  RingBuffer, read_since, read_since_max, since_between, since, write, advance_mark_by,
}
use pty_mcp.Buffer.Ring.Inv.{
  Holds, size-write, mark_snapshot-write, write-Holds, advance_mark_by-Holds,
}
use pty_mcp.Buffer.Ring.Read.{readable_from, wanted, read_since_lem, read_since_max_lem}

-- A page, put before what the later pages gave if there is more.
unfoldable pub join : List ℕ × ℕ × Bool → Option (List ℕ) → Option (List ℕ)
join (out, next, false) rest = some out
join (out, next, true) none = none
join (out, next, true) (some r) = some (out ++ r)

-- A client that reads pages of at most `max_bytes`, from the returned cursor on, while there is more.
unfoldable pub read_pages : RingBuffer → ℕ → ℕ → ℤ → Option (List ℕ)
unfolding join
read_pages rb max_bytes zero cursor = none
read_pages rb max_bytes (suc fuel) cursor =
    let page = read_since_max rb cursor (pos max_bytes) in
    let rest = read_pages rb max_bytes fuel (pos page.1) in join page rest

abbrev start_of : RingBuffer → List ℕ → ℤ → ℕ
start_of rb hist cursor = min (length hist) (readable_from rb.size hist cursor)

-- The page that starts at `s`, and what follows it.
page-append-rest :
    (s n : ℕ) (hist : List ℕ) → take n (drop s hist) ++ drop (s + n) hist ≡ drop s hist
page-append-rest s n hist = rw (← drop-drop n s hist) (take-append-drop n (drop s hist))

module _ (rb : RingBuffer) (hist : List ℕ) (max_bytes : ℕ) (h : Holds rb hist) where
  -- A client that starts where it can read, and asks for at least one byte a page.
  pages_at :
      (fuel s : ℕ) (cursor : ℤ)
      → 0 < max_bytes
      → s ≡ start_of rb hist cursor
      → length hist - s < fuel
      → read_pages rb max_bytes fuel cursor ≡ some (drop s hist)
  unfolding read_pages
  pages_at zero s cursor positive e lt = absurd (omega arith)
  pages_at (suc fuel) s cursor positive e lt =
      rw (read_since_max_lem rb hist h cursor (pos max_bytes), ← e)
        (elim (Bool-cases (ltb n all)) [
          | inl more ↦
              rw (more, pages_at fuel (s + n) (pos (s + n)) positive (ground arith) (ground arith))
                (ap some (page-append-rest s n hist))
          | inr last ↦
              rw last (ap some (take_all n (drop s hist) (ground (arith, length-drop s hist))))
        ])
    where
      all : ℕ
      all = length hist - s

      n : ℕ
      n = wanted (pos max_bytes) all

  -- A client that reads pages of at least one byte with `ReadSinceMax`, each from the cursor that
  -- the one before returned, while there is more, gets in the end exactly what one `ReadSince`
  -- returns; as many rounds as there are bytes to read, and one more, are enough.
  pub read_pages_lem :
      (fuel : ℕ) (snap : ℤ)
      → 0 < max_bytes
      → length (read_since rb snap) < fuel
      → read_pages rb max_bytes fuel snap ≡ some (read_since rb snap)
  read_pages_lem fuel snap positive lt =
      pages_at fuel (start_of rb hist snap) snap positive refl
        (omega (arith, length-drop from hist, ap length read))
      ∙ ap some (clip ∙ sym read)
    where
      from : ℕ
      from = readable_from rb.size hist snap

      read : read_since rb snap ≡ drop from hist
      read = read_since_lem rb hist h snap

      clip : drop (start_of rb hist snap) hist ≡ drop from hist
      clip = drop-min from hist

pub since_lem :
    (rb : RingBuffer) (hist : List ℕ)
    → Holds rb hist
    → since rb ≡ drop (max (length hist - rb.size) rb.mark_snapshot) hist
unfolding since
since_lem rb hist h = read_since_lem rb hist h (pos rb.mark_snapshot)

-- What the terminal writes between the two parts of `Since` is read too.
since_between-write :
    (rb : RingBuffer) (p : List ℕ) → since_between rb (write rb p).0 ≡ since (write rb p).0
unfolding since_between since
since_between-write rb p =
    ap (λ k. read_since (write rb p).0 (pos k)) (sym (mark_snapshot-write p rb))

length-since :
    (rb : RingBuffer) (hist : List ℕ)
    → Holds rb hist
    → length (since rb) ≡ length hist - max (length hist - rb.size) rb.mark_snapshot
length-since rb hist h = ap length (since_lem rb hist h) ∙ length-drop _ hist

-- `Since` after `AdvanceMarkBy`, in terms of the history.
since-advance :
    (rb : RingBuffer) (hist : List ℕ) (n : ℕ)
    → Holds rb hist
    → since (advance_mark_by rb n)
      ≡ drop (max (length hist - rb.size) (min (length hist) (rb.mark_snapshot + n))) hist
unfolding since advance_mark_by
since-advance rb hist n h =
    read_since_lem (advance_mark_by rb n) hist (advance_mark_by-Holds n h)
      (pos (advance_mark_by rb n).mark_snapshot)
    ∙ ap (λ t. drop t hist) (ground (arith, h.counted))

-- If no unread byte has been overwritten, a reader takes `Since`, then at most `size` bytes are
-- written, then `AdvanceMarkBy` the length of what it took leaves exactly the new bytes unread.
pub since-advance-write :
    (rb : RingBuffer) (hist p : List ℕ)
    → Holds rb hist
    → length hist ≤ rb.mark_snapshot + rb.size
    → length p ≤ rb.size
    → since (advance_mark_by (write rb p).0 (length (since rb))) ≡ p
unfolding since
since-advance-write rb hist p h fits room =
    since-advance (write rb p).0 (hist ++ p) (length (since rb)) (write-Holds p rb hist h)
    ∙ ap (λ t. drop t (hist ++ p)) at_end
    ∙ drop-append_left (length hist) hist p (omega arith)
    ∙ ap (λ xs. xs ++ p) (drop_all (length hist) hist (omega arith))
  where
    at_end :
        max
          (length (hist ++ p) - (write rb p).0.size)
          (min (length (hist ++ p)) ((write rb p).0.mark_snapshot + length (since rb)))
        ≡ length hist
    at_end = omega (
      arith,
      size-write p rb,
      mark_snapshot-write p rb,
      length-append hist p,
      h.counted,
      h.mark_in,
      length-since rb hist h,
    )

-- If more than `size` bytes are unread when a reader takes `Since`, then advancing the mark by the
-- length of what it got makes the next `Since`, with nothing written in between, return the end of
-- the same bytes once more.
pub since-advance_repeats :
    (rb : RingBuffer) (hist : List ℕ)
    → Holds rb hist
    → rb.mark_snapshot + rb.size < length hist
    → let again = rb.mark_snapshot + rb.size * 2 - length hist in
      (since (advance_mark_by rb (length (since rb))) ≡ drop again (since rb))
      × (again < length (since rb))
since-advance_repeats rb hist h behind = (
  since-advance rb hist (length (since rb)) h
      ∙ ap (λ t. drop t hist) {y = length hist - rb.size + again}
          (omega (arith, length-since rb hist h))
      ∙ sym (drop-drop again (length hist - rb.size) hist)
      ∙ ap (drop again) (sym read),
  omega (arith, length-since rb hist h),
)
  where
    again : ℕ
    again = rb.mark_snapshot + rb.size * 2 - length hist

    read : since rb ≡ drop (length hist - rb.size) hist
    read = since_lem rb hist h ∙ ap (λ t. drop t hist) (omega arith)
