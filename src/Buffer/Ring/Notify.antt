-- ===== src/Buffer/Ring/Notify.antt =====
-- The channel behind `Wait`: a write is never missed, and wakes a reader once.
use pty_mcp.Base.{ℕ, ◌≡◌, refl, Bool, true, false, List}
use pty_mcp.Buffer.Ring.{RingBuffer, write_bytes, write, Wait, woken, cancelled}

-- With no token in the channel and a live context, `Wait` blocks.
pub Wait-blocks : {rb rb' : RingBuffer} {r : Bool} → rb.notify ≡ false → Wait rb false r rb' → ⊥
Wait-blocks e (woken t) = cc
Wait-blocks e (cancelled d) = cc

-- After a write, a reader whose context lives can return from `Wait`, can only return true, finds
-- the written state with the token taken, and blocks if it waits once more.
pub Wait-write :
    (rb : RingBuffer) (p : List ℕ)
    → ((rb' : RingBuffer) × Wait (write rb p).0 false true rb')
      × ((r : Bool) (rb' : RingBuffer)
          → Wait (write rb p).0 false r rb'
          → (r ≡ true)
            × (rb' ≡ record (write_bytes rb p) { notify = false })
            × ((r' : Bool) (rb'' : RingBuffer) → Wait rb' false r' rb'' → ⊥))
unfolding write
Wait-write rb p = ((record (write_bytes rb p) { notify = false }, woken refl), back)
  where
    back :
        (r : Bool) (rb' : RingBuffer)
        → Wait (record (write_bytes rb p) { notify = true }) false r rb'
        → (r ≡ true)
          × (rb' ≡ record (write_bytes rb p) { notify = false })
          × ((r' : Bool) (rb'' : RingBuffer) → Wait rb' false r' rb'' → ⊥)
    back r rb' (woken t) = (refl, refl, λ r' rb'' w. Wait-blocks refl w)
    back r rb' (cancelled d) = absurd (cc)
