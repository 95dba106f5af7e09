-- ===== src/Mcp/Tools/Settle.antt =====
-- internal/mcp/tools.go: `waitForSettle`, by which `maybeAutoSendSecret` waits before it writes. It
-- returns nothing and changes nothing; the model tells whether the output had settled. The clock and
-- the snapshots of the buffer are given for each round.
mod Tests
use mathlib.Core.Path.{subst}
use pty_mcp.Base.{
  ap, ℕ, zero, suc, ◌+◌, ◌-◌, ◌*◌, ◌≤◌, ◌<◌, ◌≡◌, ◌⊎◌, inl, inr, refl, sym, Bool, true, false, not,
  Option, none, some, Bool-cases, ltb, leb, ◌==◌, if◌then◌else◌, arith,
}

-- `began_at`, `first_at`: the times that the deadline and the first change are taken from
pub record Rounds : Type 0 where
  pub began_at : ℕ
  pub first_at : ℕ
  pub first_snapshot : ℕ
  pub tested_at : ℕ → ℕ
  pub seen_at : ℕ → ℕ
  pub snapshot : ℕ → ℕ

module _ (rounds : Rounds) (settle deadline : ℕ) where
  -- On fuel: whether the output has settled; none if there are more rounds.
  unfoldable pub wait_from : ℕ → ℕ → ℕ → ℕ → Option Bool
  wait_from zero n last last_change = none
  wait_from (suc fuel) n last last_change =
      let changed = wait_from fuel (suc n) (rounds.snapshot n) (rounds.seen_at n) in
      let same = wait_from fuel (suc n) last last_change in
      if not (ltb (rounds.tested_at n) deadline)
      then some false
      else if not (rounds.snapshot n == last)
      then changed
      else if leb (last_change + settle) (rounds.seen_at n)
      then some true
      else same

  -- the snapshots in their order, and when they were taken
  abbrev pub seen : ℕ → ℕ
  seen zero = rounds.first_snapshot
  seen (suc k) = rounds.snapshot k

  abbrev pub seen_when : ℕ → ℕ
  seen_when zero = rounds.first_at
  seen_when (suc k) = rounds.seen_at k

  -- Either the snapshots from one to another, taken at least `settle` later, were all the same, or the
  -- deadline had passed.
  abbrev pub Ended : Bool → Type 0
  Ended true =
      (j : ℕ) × (n : ℕ) × (j ≤ n)
      × ((k : ℕ) → j ≤ k → k ≤ suc n → seen k ≡ seen j)
      × (seen_when j + settle ≤ seen_when (suc n))
  Ended false = (n : ℕ) × (deadline ≤ rounds.tested_at n)

  still_same :
      (n j : ℕ)
      → ((k : ℕ) → j ≤ k → k ≤ n → seen k ≡ seen j)
      → rounds.snapshot n ≡ seen j
      → (k : ℕ) → j ≤ k
      → k ≤ suc n
      → seen k ≡ seen j
  still_same n j same now k low high = elim (Bool-cases (leb k n)) [
    | inl before ↦ same k low (ground arith)
    | inr after ↦ let last : k ≡ suc n = ground arith in subst (λ i. seen i ≡ seen j) (sym last) now
  ]

  -- A round that begins before the deadline comes within so many rounds.
  wait_from_ends :
      (fuel n j start : ℕ)
      → j ≤ n
      → ((k : ℕ) → j ≤ k → k ≤ n → seen k ≡ seen j)
      → ((k : ℕ) → start + 20 * k ≤ rounds.tested_at k)
      → deadline ≤ start + 20 * (n + fuel - 1)
      → 0 < fuel
      → (settled : Bool) × (wait_from fuel n (seen j) (seen_when j) ≡ some settled) × Ended settled
  unfolding wait_from
  wait_from_ends zero n j start j_n same slow late positive = absurd (omega arith)
  wait_from_ends (suc fuel) n j start j_n same slow late positive =
      elim (Bool-cases (ltb (rounds.tested_at n) deadline)) [
        | inr over ↦ rw over (false, refl, (n, ground arith))
        | inl before ↦
            let more : 0 < fuel = ground (arith, slow n) in
            let alone : (k : ℕ) → suc n ≤ k → k ≤ suc n → seen k ≡ seen (suc n) =
              λ k low high. let last : k ≡ suc n = omega arith in ap seen last in
            let changed =
              wait_from_ends fuel (suc n) (suc n) start (omega arith) alone slow
                (omega (arith, more)) more in
            rw before (elim (Bool-cases (rounds.snapshot n == seen j)) [
              | inr other ↦ rw other changed
              | inl quiet ↦
                  let now : rounds.snapshot n ≡ seen j = ground arith in
                  let unchanged = still_same n j same now in
                  let goes_on =
                    wait_from_ends fuel (suc n) j start (omega arith) unchanged slow
                      (omega (arith, more)) more in
                  rw quiet (elim (Bool-cases (leb (seen_when j + settle) (rounds.seen_at n))) [
                    | inl long ↦ rw long (true, refl, (j, n, j_n, unchanged, ground arith))
                    | inr short ↦ rw short goes_on
                  ])
            ])
      ]

-- `waitForSettle`
pub wait_for_settle : ℕ → Rounds → ℕ → ℕ → Option Bool
unfolding wait_from
wait_for_settle fuel rounds settle_ms max_wait_ms =
    wait_from rounds settle_ms (rounds.began_at + max_wait_ms) fuel 0 rounds.first_snapshot
      rounds.first_at

-- It ends, whatever is written: if a round takes 20 ms at least, a round for each 20 ms of the longest
-- wait, and one more, are enough.
pub wait_for_settle_ends :
    (rounds : Rounds) (settle_ms max_wait_ms fuel : ℕ)
    → ((k : ℕ) → rounds.began_at + 20 * k ≤ rounds.tested_at k)
    → max_wait_ms + 20 ≤ 20 * fuel
    → (settled : Bool) × (wait_for_settle fuel rounds settle_ms max_wait_ms ≡ some settled)
      × Ended rounds settle_ms (rounds.began_at + max_wait_ms) settled
unfolding wait_for_settle
wait_for_settle_ends rounds settle_ms max_wait_ms fuel slow enough =
    wait_from_ends rounds settle_ms (rounds.began_at + max_wait_ms) fuel 0 0 rounds.began_at
      (omega arith)
      (λ k low high.
        let first : k ≡ 0 = omega arith in
        ap (seen rounds settle_ms (rounds.began_at + max_wait_ms)) first)
      slow (omega arith) (omega arith)
