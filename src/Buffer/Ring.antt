-- ===== src/Buffer/Ring.antt =====
-- internal/buffer/ring.go: `RingBuffer`. Each method but `Since` holds `mu` for its whole body, so it
-- is one step on the state; `Since` takes it twice, and is given the buffer at both times. `written` and `markSnapshot` are int64 counters of bytes; they are natural
-- numbers here, since 2^63 bytes are never written. A snapshot that a client passes in may be
-- negative, and is an integer. A subtraction below stays above 0 wherever its Go original does:
-- `Inv` proves the bounds that this needs.
pub mod Inv
pub mod Read
pub mod Cursor
pub mod Notify
mod Tests
use pty_mcp.Text.{split, last_is_empty, drop_last}
use pty_mcp.Base.{
  ◌≡◌, ℕ, zero, suc, ◌+◌, ◌-◌, ◌*◌, ◌%◌, Bool, true, false, ◌&&◌, List, [], ◌∷◌, ltb, leb, ◌==◌,
  if◌then◌else◌, length, get_or, set, drop, replicate,
}
use pty_mcp.Base.Int.{ℤ, pos, negsuc, is_below, pos_part, sub_ℕ}

-- `notify` is the channel of capacity 1: whether it holds a token.
pub record RingBuffer : Type 0 where
  pub buf : List ℕ
  pub size : ℕ
  pub head : ℕ
  pub written : ℕ
  pub mark_snapshot : ℕ
  pub notify : Bool

unfoldable pub new : ℕ → RingBuffer
new size = record {
  buf = replicate size 0;
  size = size;
  head = 0;
  written = 0;
  mark_snapshot = 0;
  notify = false;
}

-- the body of the loop in `Write`
unfoldable pub write_byte : RingBuffer → ℕ → RingBuffer
write_byte rb b = record rb {
  buf = set rb.buf rb.head b;
  head = (rb.head + 1) % rb.size;
  written = rb.written + 1;
}

unfoldable pub write_bytes : RingBuffer → List ℕ → RingBuffer
write_bytes rb [] = rb
write_bytes rb (b ∷ p) = write_bytes (write_byte rb b) p

-- The send on `notify` does not block: a token that is there already stays the only one.
unfoldable pub write : RingBuffer → List ℕ → RingBuffer × ℕ
write rb p = (record (write_bytes rb p) { notify = true }, length p)

unfoldable pub snapshot : RingBuffer → ℕ
snapshot rb = rb.written

-- `snapshot < written - size`, where the right side may be negative
pub is_truncated : RingBuffer → ℤ → Bool
is_truncated rb (pos s) = ltb (s + rb.size) rb.written
is_truncated rb (negsuc n) = ltb rb.size (rb.written + n + 1)

-- how many bytes the buffer still holds
abbrev pub available : RingBuffer → ℕ
available rb = if ltb rb.size rb.written then rb.size else rb.written

-- the position of the oldest of them
abbrev pub oldest : RingBuffer → ℕ
oldest rb = rb.written - available rb

-- `if snapshot < oldest { snapshot = oldest }`
abbrev pub raise_to : ℕ → ℤ → ℕ
raise_to old s = if is_below s old then old else pos_part s

-- `for i := 0; i < count; i++ { out[i] = rb.buf[(start+int(i))%rb.size] }`, from index i on
abbrev pub copy_from : List ℕ → ℕ → ℕ → ℕ → ℕ → List ℕ
copy_from buf size start i zero = []
copy_from buf size start i (suc n) =
    get_or buf ((start + i) % size) 0 ∷ copy_from buf size start (i + 1) n

-- `ReadSince` after its clamp
unfoldable pub read_from : RingBuffer → ℕ → List ℕ
read_from rb s =
    if leb rb.written s
    then []
    else (let raw = rb.written - s in
        let count = if ltb rb.size raw then rb.size else raw in
        copy_from rb.buf rb.size ((rb.head + rb.size * 2 - count) % rb.size) 0 count)

unfoldable pub read_since : RingBuffer → ℤ → List ℕ
read_since rb snap = read_from rb (raise_to (oldest rb) snap)

-- `if snapshot > rb.written { snapshot = rb.written }`
abbrev pub lower_to : ℕ → ℕ → ℕ
lower_to written s = if ltb written s then written else s

-- `maxBytes > 0 && count > int64(maxBytes)`
pub over_limit : ℤ → ℕ → Bool
over_limit max_bytes count = ltb 0 (pos_part max_bytes) && ltb (pos_part max_bytes) count

-- `ReadSinceMax` after its two clamps
read_max_from : RingBuffer → ℕ → ℤ → List ℕ × ℕ × Bool
read_max_from rb s max_bytes =
    if leb rb.written s
    then ([], s, false)
    else (let raw = rb.written - s in
        let all = if ltb rb.size raw then rb.size else raw in
        let has_more = over_limit max_bytes all in
        let count = if has_more then pos_part max_bytes else all in
        (
          copy_from rb.buf rb.size ((rb.head + rb.size * 2 - raw) % rb.size) 0 count,
          s + count,
          has_more,
        ))

pub read_since_max : RingBuffer → ℤ → ℤ → List ℕ × ℕ × Bool
read_since_max rb snap max_bytes =
    read_max_from rb (lower_to rb.written (raise_to (oldest rb) snap)) max_bytes

pub string : RingBuffer → List ℕ
string rb =
    let n = available rb in
    if n == 0 then [] else copy_from rb.buf rb.size ((rb.head + rb.size * 2 - n) % rb.size) 0 n

-- `Since`, which reads the mark of one buffer and then the bytes of another, later one
unfoldable pub since_between : RingBuffer → RingBuffer → List ℕ
since_between at_mark at_read = read_since at_read (pos at_mark.mark_snapshot)

-- the same where the mark stays as it is in between, as it does while others only write
unfoldable pub since : RingBuffer → List ℕ
unfolding since_between
since rb = since_between rb rb

unfoldable pub mark_position : RingBuffer → ℕ
mark_position rb = rb.mark_snapshot

unfoldable pub mark : RingBuffer → RingBuffer
mark rb = record rb { mark_snapshot = rb.written }

-- Every caller advances by the length of what it read, so `n` is not negative.
unfoldable pub advance_mark_by : RingBuffer → ℕ → RingBuffer
advance_mark_by rb n = record rb {
  mark_snapshot =
      if ltb rb.written (rb.mark_snapshot + n) then rb.written else rb.mark_snapshot + n;
}

-- `Tail(n)`, for n that is not negative
pub tail : RingBuffer → ℕ → List (List ℕ)
unfolding string split last_is_empty drop_last
tail rb n =
    let all = split (string rb) in
    let parts = if last_is_empty all then drop_last all else all in
    if leb (length parts) n then parts else drop (length parts - n) parts

-- `Wait`: the select takes a token, or sees that the context is done. Where both are ready, Go
-- picks one at random; where neither is, it blocks.
pub data Wait (rb : RingBuffer) (done : Bool) : Bool → RingBuffer → Type 0 where
  woken : rb.notify ≡ true → Wait rb done true (record rb { notify = false })
  cancelled : done ≡ true → Wait rb done false rb
