-- ===== src/Buffer/Ring/Inv.antt =====
-- The representation invariant of `RingBuffer`: it holds the end of the history of writes.
use native.Mathlib.Nat.{mod-add-mod, add-mod_right, mod-eq_of_lt, mod-eq-sub-mod, mod-lt, mod-mod}
use native.Mathlib.Decide.{dec_lt, ℕ_discrete}
use pty_mcp.Base.{
  ℕ, ◌+◌, ◌-◌, ◌*◌, ◌%◌, ◌≤◌, ◌<◌, ◌≡◌, ◌≢◌, refl, sym, ap, ◌∙◌, List, [], ◌∷◌, ◌++◌, arith, length,
  get_or, set, length-set, length-replicate, length-append, append_assoc, append-nil,
  get_or-set_self, get_or-set_ne, get_or-append_left, get_or-append_last,
}
use pty_mcp.Buffer.Ring.{RingBuffer, new, write_byte, write_bytes, write, mark, advance_mark_by}

-- `hist` is every byte ever written; byte i of it lies in cell i % size until it is overwritten.
pub record Holds (rb : RingBuffer) (hist : List ℕ) : Type 0 where
  pub has_size : 0 < rb.size
  pub full_buf : length rb.buf ≡ rb.size
  pub counted : rb.written ≡ length hist
  pub at_head : rb.head ≡ rb.written % rb.size
  pub mark_in : rb.mark_snapshot ≤ rb.written
  pub cells :
      (i : ℕ)
      → i < rb.written
      → rb.written ≤ i + rb.size
      → get_or rb.buf (i % rb.size) 0 ≡ get_or hist i 0

-- Positions less than `size` apart lie in different cells.
mod_ne : (size i k : ℕ) → 0 < size → 0 < k → k < size → i % size ≢ (i + k) % size
mod_ne size i k hs hk lt = elim (dec_lt (i % size + k) size) [
  | yes p ↦ omega (arith, mod-add-mod i size k, mod-eq_of_lt p)
  | no p ↦ omega (
    arith,
    mod-add-mod i size k,
    mod-eq-sub-mod {n = i % size + k} {m = size} (omega arith),
    mod-lt i hs,
    mod-eq_of_lt {n = i % size + k - size} {m = size} (omega (arith, mod-lt i hs)),
  )
]

-- Going back from the head by the number of unread bytes gives the cell of the first of them.
pub start_cell :
    (size s k : ℕ) → 0 < size → k ≤ size → ((s + k) % size + size * 2 - k) % size ≡ s % size
start_cell size s k hs hk = elim (dec_lt (s % size + k) size) [
  | yes p ↦
      ap (λ t. t % size) (omega (arith, mod-add-mod s size k, mod-eq_of_lt p))
      ∙ add-mod_right (s % size + size) size
      ∙ add-mod_right (s % size) size
      ∙ mod-mod s size
  | no p ↦
      ap (λ t. t % size)
        (omega (
          arith,
          mod-add-mod s size k,
          mod-eq-sub-mod {n = s % size + k} {m = size} (omega arith),
          mod-lt s hs,
          mod-eq_of_lt {n = s % size + k - size} {m = size} (omega (arith, mod-lt s hs)),
        ))
      ∙ add-mod_right (s % size) size
      ∙ mod-mod s size
]

pub new-Holds : (size : ℕ) → 0 < size → Holds (new size) []
unfolding new
new-Holds size h = record {
  has_size = h;
  full_buf = length-replicate size 0;
  counted = refl;
  at_head = sym (mod-eq_of_lt h);
  mark_in = omega arith;
  cells = λ i lt le. absurd (omega arith);
}

head_next : (size w : ℕ) → (w % size + 1) % size ≡ (w + 1) % size
head_next size w = mod-add-mod w size 1

module _ (rb : RingBuffer) (hist : List ℕ) (b : ℕ) (h : Holds rb hist) where
  cell_new : get_or (set rb.buf rb.head b) (rb.written % rb.size) 0 ≡ b
  cell_new = rw (← h.at_head) (
      get_or-set_self rb.buf rb.head b 0
        (omega (arith, h.full_buf, h.at_head, mod-lt rb.written h.has_size)))

  cell_old :
      (i : ℕ)
      → i < rb.written
      → rb.written < i + rb.size
      → get_or (set rb.buf rb.head b) (i % rb.size) 0 ≡ get_or hist i 0
  cell_old i lt le =
      get_or-set_ne rb.buf rb.head (i % rb.size) b 0 apart ∙ h.cells i lt (omega arith)
    where
      apart : rb.head ≢ i % rb.size
      apart e =
          mod_ne rb.size i (rb.written - i) h.has_size (omega arith) (omega arith)
            (sym e ∙ h.at_head ∙ ap (λ w. w % rb.size) (omega arith))

  pub write_byte-Holds : Holds (write_byte rb b) (hist ++ (b ∷ []))
  unfolding write_byte
  write_byte-Holds = record {
    has_size = h.has_size;
    full_buf = length-set rb.buf rb.head b ∙ h.full_buf;
    counted = omega (arith, h.counted, length-append hist (b ∷ []));
    at_head = ap (λ t. (t + 1) % rb.size) h.at_head ∙ head_next rb.size rb.written;
    mark_in = omega (arith, h.mark_in);
    cells = λ i lt le. elim (ℕ_discrete i rb.written) [
      | yes e ↦ rw e (cell_new ∙ rw h.counted (sym (get_or-append_last hist b 0)))
      | no ne ↦
          cell_old i (omega arith) (omega arith)
          ∙ sym (get_or-append_left hist (b ∷ []) i 0 (omega (arith, h.counted)))
    ];
  }

pub write_bytes-Holds :
    (p : List ℕ) (rb : RingBuffer) (hist : List ℕ)
    → Holds rb hist
    → Holds (write_bytes rb p) (hist ++ p)
unfolding write_bytes
write_bytes-Holds [] rb hist h = rw append-nil h
write_bytes-Holds (b ∷ p) rb hist h =
    rw append_assoc at
      (write_bytes-Holds p (write_byte rb b) (hist ++ (b ∷ [])) (write_byte-Holds rb hist b h))

-- `Write` keeps the representation invariant: the buffer holds the end of the history, to which the
-- written bytes are appended.
pub write-Holds :
    (p : List ℕ) (rb : RingBuffer) (hist : List ℕ)
    → Holds rb hist
    → Holds (write rb p).0 (hist ++ p)
unfolding write
write-Holds p rb hist h =
    let g = write_bytes-Holds p rb hist h in
    record {
      has_size = g.has_size;
      full_buf = g.full_buf;
      counted = g.counted;
      at_head = g.at_head;
      mark_in = g.mark_in;
      cells = g.cells;
    }

pub mark-Holds : {rb : RingBuffer} {hist : List ℕ} → Holds rb hist → Holds (mark rb) hist
unfolding mark
mark-Holds h = record {
  has_size = h.has_size;
  full_buf = h.full_buf;
  counted = h.counted;
  at_head = h.at_head;
  mark_in = omega arith;
  cells = h.cells;
}

pub advance_mark_by-Holds :
    {rb : RingBuffer} {hist : List ℕ} (n : ℕ) → Holds rb hist → Holds (advance_mark_by rb n) hist
unfolding advance_mark_by
advance_mark_by-Holds n h = record {
  has_size = h.has_size;
  full_buf = h.full_buf;
  counted = h.counted;
  at_head = h.at_head;
  mark_in = ground arith;
  cells = h.cells;
}

-- A write changes neither the size nor the mark.
write_bytes_keeps :
    (p : List ℕ) (rb : RingBuffer)
    → ((write_bytes rb p).size ≡ rb.size) × ((write_bytes rb p).mark_snapshot ≡ rb.mark_snapshot)
unfolding write_bytes write_byte
write_bytes_keeps [] rb = (refl, refl)
write_bytes_keeps (b ∷ p) rb = write_bytes_keeps p (write_byte rb b)

pub size-write : (p : List ℕ) (rb : RingBuffer) → (write rb p).0.size ≡ rb.size
unfolding write
size-write p rb = (write_bytes_keeps p rb).0

pub mark_snapshot-write :
    (p : List ℕ) (rb : RingBuffer) → (write rb p).0.mark_snapshot ≡ rb.mark_snapshot
unfolding write
mark_snapshot-write p rb = (write_bytes_keeps p rb).1

pub mark_keeps :
    (rb : RingBuffer) (hist : List ℕ)
    → Holds rb hist
    → ((mark rb).size ≡ rb.size) × ((mark rb).mark_snapshot ≡ length hist)
unfolding mark
mark_keeps rb hist h = (refl, h.counted)
