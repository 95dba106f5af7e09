-- ===== src/Audit/Client/Latest.antt =====
-- The queue of entries: bounded, and the newest are kept.
use pty_mcp.Base.{
  ℕ, ◌+◌, ◌-◌, ◌≤◌, ◌≡◌, refl, sym, ap, ◌∙◌, true, false, none, some, List, [], ◌∷◌, ◌++◌, length,
  ltb, arith, Bool-cases, inl, inr, drop, length-append, drop-append_left, append_assoc, append-nil,
  drop-drop, length-drop,
}
use pty_mcp.Audit.Client.{Queue, capacity, new_queue, try_send, drop_oldest, enqueue}

abbrev pub Bounded : Queue → Type 0
Bounded q = length q.items ≤ capacity

length-snoc : (xs : List (List ℕ)) (x : List ℕ) → length (xs ++ x ∷ []) ≡ length xs + 1
length-snoc xs x = length-append xs (x ∷ [])

drop_oldest-Bounded : (q : Queue) → Bounded q → Bounded (drop_oldest q)
unfolding drop_oldest
drop_oldest-Bounded q b = shorter q.items b
  where
    shorter :
        (xs : List (List ℕ))
        → length xs ≤ capacity
        → Bounded (drop_oldest (record q { items = xs }))
    shorter [] h = h
    shorter (x ∷ xs) h = omega arith

try_send_room :
    (q : Queue) (bytes : List ℕ)
    → ltb (length q.items) capacity ≡ true
    → try_send q bytes ≡ some (record q { items = q.items ++ bytes ∷ [] })
unfolding try_send
try_send_room q bytes h = rw h refl

try_send_full :
    (q : Queue) (bytes : List ℕ) → ltb (length q.items) capacity ≡ false → try_send q bytes ≡ none
unfolding try_send
try_send_full q bytes h = rw h refl

snoc-Bounded :
    (q : Queue) (bytes : List ℕ)
    → ltb (length q.items) capacity ≡ true
    → Bounded (record q { items = q.items ++ bytes ∷ [] })
snoc-Bounded q bytes h = ground (arith, length-snoc q.items bytes)

-- However other goroutines use the queue meanwhile, as long as they keep it within its capacity, so
-- does `enqueue`.
pub enqueue-Bounded :
    (others : ℕ → Queue → Queue) (q : Queue) (bytes : List ℕ)
    → ((n : ℕ) (p : Queue) → Bounded p → Bounded (others n p))
    → Bounded q
    → Bounded (enqueue others q bytes)
unfolding enqueue
enqueue-Bounded others q bytes keep b = elim (Bool-cases (ltb (length q.items) capacity)) [
  | inl room ↦ rw (try_send_room q bytes room) (snoc-Bounded q bytes room)
  | inr full ↦
      let p = others 1 (drop_oldest (others 0 q)) in
      let p_bounded : Bounded p = keep 1 _ (drop_oldest-Bounded _ (keep 0 q b)) in
      rw (try_send_full q bytes full) (elim (Bool-cases (ltb (length p.items) capacity)) [
        | inl room ↦ rw (try_send_room p bytes room) (snoc-Bounded p bytes room)
        | inr still ↦ rw (try_send_full p bytes still) p_bounded
      ])
]

-- The entries of one goroutine, with no other one at work.
abbrev pub alone : ℕ → Queue → Queue
alone n q = q

pub enqueue_all : Queue → List (List ℕ) → Queue
enqueue_all q [] = q
enqueue_all q (x ∷ xs) = enqueue_all (enqueue alone q x) xs

record IsLatest (hist : List (List ℕ)) (q : Queue) : Type 0 where
  items : q.items ≡ drop (length hist - capacity) hist
  dropped : q.dropped ≡ length hist - capacity

drop-snoc :
    (n : ℕ) (xs : List (List ℕ)) (x : List ℕ)
    → n ≤ length xs
    → drop n xs ++ x ∷ [] ≡ drop n (xs ++ x ∷ [])
drop-snoc n xs x h = sym (drop-append_left n xs (x ∷ []) h)

drop_oldest-long :
    (q : Queue)
    → 1 ≤ length q.items
    → drop_oldest q ≡ record { items = drop 1 q.items; dropped = q.dropped + 1 }
unfolding drop_oldest
drop_oldest-long q h = by_items q.items refl
  where
    by_items :
        (xs : List (List ℕ))
        → q.items ≡ xs
        → drop_oldest q ≡ record { items = drop 1 q.items; dropped = q.dropped + 1 }
    by_items [] e = absurd (omega (arith, ap length e))
    by_items (x ∷ xs) e = rw e refl

-- Alone: at the end, and in the place of the oldest if the queue is full.
enqueue-room :
    (q : Queue) (bytes : List ℕ)
    → ltb (length q.items) capacity ≡ true
    → enqueue alone q bytes ≡ record q { items = q.items ++ bytes ∷ [] }
unfolding enqueue
enqueue-room q bytes h = rw (try_send_room q bytes h) refl

enqueue-full :
    (q : Queue) (bytes : List ℕ)
    → length q.items ≡ capacity
    → enqueue alone q bytes
      ≡ record { items = drop 1 q.items ++ bytes ∷ []; dropped = q.dropped + 1 }
unfolding enqueue
enqueue-full q bytes h =
    let after : Queue = record { items = drop 1 q.items; dropped = q.dropped + 1 } in
    rw
      (
        try_send_full q bytes (ground (arith, h)),
        drop_oldest-long q (omega (arith, h)),
        try_send_room after bytes (ground (arith, h, length-drop 1 q.items)),
      )
      refl

enqueue-IsLatest :
    (hist : List (List ℕ)) (q : Queue) (x : List ℕ)
    → IsLatest hist q
    → IsLatest (hist ++ x ∷ []) (enqueue alone q x)
enqueue-IsLatest hist q x h = elim (Bool-cases (ltb (length q.items) capacity)) [
  | inl room ↦ rw (enqueue-room q x room) (record {
    items =
        ap (λ t. t ++ x ∷ []) h.items
        ∙ drop-snoc (length hist - capacity) hist x (omega arith)
        ∙ ap (λ n. drop n (hist ++ x ∷ [])) {y = length (hist ++ x ∷ []) - capacity}
            (ground (arith, held, length-snoc hist x));
    dropped = ground (arith, held, length-snoc hist x, h.dropped);
  })
  | inr full ↦ rw (enqueue-full q x (ground (arith, held))) (record {
    items =
        ap (λ t. drop 1 t ++ x ∷ []) h.items
        ∙ ap (λ t. t ++ x ∷ []) (drop-drop 1 (length hist - capacity) hist)
        ∙ drop-snoc (length hist - capacity + 1) hist x (ground (arith, held))
        ∙ ap (λ n. drop n (hist ++ x ∷ [])) {y = length (hist ++ x ∷ []) - capacity}
            (ground (arith, held, length-snoc hist x));
    dropped = ground (arith, held, length-snoc hist x, h.dropped);
  })
]
  where
    held : length q.items ≡ length hist - (length hist - capacity)
    held = ap length h.items ∙ length-drop (length hist - capacity) hist

enqueue_all-IsLatest :
    (hist : List (List ℕ)) (q : Queue) (xs : List (List ℕ))
    → IsLatest hist q
    → IsLatest (hist ++ xs) (enqueue_all q xs)
unfolding enqueue_all
enqueue_all-IsLatest hist q [] h = rw (append-nil hist) h
enqueue_all-IsLatest hist q (x ∷ xs) h =
    rw (← append_assoc hist (x ∷ []) xs)
      (enqueue_all-IsLatest (hist ++ x ∷ []) (enqueue alone q x) xs (enqueue-IsLatest hist q x h))

-- Entries that are enqueued while nothing is sent: the queue keeps the last 256 of them in their
-- order, and counts the others as dropped.
pub enqueue_all_lem :
    (xs : List (List ℕ))
    → let q = enqueue_all new_queue xs in
      (q.items ≡ drop (length xs - capacity) xs) × (q.dropped ≡ length xs - capacity)
unfolding new_queue
enqueue_all_lem xs =
    let h = enqueue_all-IsLatest [] new_queue xs (record { items = refl; dropped = refl }) in
    (h.items, h.dropped)
