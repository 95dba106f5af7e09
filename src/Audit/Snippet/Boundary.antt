-- ===== src/Audit/Snippet/Boundary.antt =====
-- Where `Snippet` cuts: the last place between two characters that is within the limit.
use mathlib.Core.Path.{subst}
use pty_mcp.Base.{
  ℕ, zero, suc, ◌+◌, ◌≤◌, ◌<◌, ◌≡◌, refl, sym, ◌⊎◌, inl, inr, List, [], ◌∷◌, length, take, leb, ltb,
  arith, Bool-cases,
}
use pty_mcp.Audit.Snippet.{extra_bytes, cut_at, snippet}

-- A character of s starts at a place; the first one after `skip` more bytes.
pub data Starts : List ℕ → ℕ → ℕ → Type 0 where
  first : (c : ℕ) (s : List ℕ) → Starts (c ∷ s) 0 0
  inside : (c : ℕ) (s : List ℕ) (skip k : ℕ) → Starts s skip k → Starts (c ∷ s) (suc skip) (suc k)
  later : (c : ℕ) (s : List ℕ) (k : ℕ) → Starts s (extra_bytes (c ∷ s)) k → Starts (c ∷ s) 0 (suc k)

-- The last start within the limit, from index i on; n if there is none.
record IsLast (max : ℕ) (s : List ℕ) (skip i n cut : ℕ) : Type 0 where
  found : (cut ≡ n) ⊎ ((k : ℕ) × Starts s skip k × (cut ≡ i + k) × (i + k ≤ max))
  above : n ≤ cut
  all : (k : ℕ) → Starts s skip k → i + k ≤ max → i + k ≤ cut

Starts-length : {s : List ℕ} {skip k : ℕ} → Starts s skip k → 1 ≤ length s
Starts-length (first c s) = omega arith
Starts-length (inside c s skip k h) = omega arith
Starts-length (later c s k h) = omega arith

inside_only :
    (c : ℕ) (s : List ℕ) (skip k : ℕ)
    → Starts (c ∷ s) (suc skip) k
    → (j : ℕ) × Starts s skip j × (k ≡ suc j)
inside_only c s skip k (inside _ _ _ j h) = (j, h, refl)

first_or_later :
    (c : ℕ) (s : List ℕ) (k : ℕ)
    → Starts (c ∷ s) 0 k
    → (k ≡ 0) ⊎ ((j : ℕ) × Starts s (extra_bytes (c ∷ s)) j × (k ≡ suc j))
first_or_later c s k (first _ _) = inl refl
first_or_later c s k (later _ _ j h) = inr (j, h, refl)

module _ (max c : ℕ) (s : List ℕ) where
  skip-IsLast :
      (skip i n cut : ℕ) → IsLast max s skip (i + 1) n cut → IsLast max (c ∷ s) (suc skip) i n cut
  skip-IsLast skip i n cut h = record {
    found = elim h.found [
      | inl e ↦ inl e
      | inr (k, st, e, lt) ↦ inr (suc k, inside c s skip k st, omega (arith, e), omega (arith, lt))
    ];
    above = h.above;
    all = λ k st lt.
        let (j, inner, e) = inside_only c s skip k st in
        omega (arith, e, h.all j inner (omega (arith, e, lt)));
  }

  start-IsLast :
      (i n cut : ℕ)
      → n ≤ i
      → i ≤ max
      → IsLast max s (extra_bytes (c ∷ s)) (i + 1) i cut
      → IsLast max (c ∷ s) 0 i n cut
  start-IsLast i n cut le lm h = record {
    found = elim h.found [
      | inl e ↦ inr (0, first c s, omega (arith, e), omega (arith, lm))
      | inr (k, st, e, lt) ↦ inr (suc k, later c s k st, omega (arith, e), omega (arith, lt))
    ];
    above = omega (arith, h.above, le);
    all = λ k st lt. elim (first_or_later c s k st) [
      | inl e ↦ omega (arith, e, h.above)
      | inr (j, inner, e) ↦ omega (arith, e, h.all j inner (omega (arith, e, lt)))
    ];
  }

cut_at-IsLast :
    (max : ℕ) (s : List ℕ) (skip i n : ℕ) → n ≤ i → IsLast max s skip i n (cut_at max s skip i n)
unfolding cut_at
cut_at-IsLast max [] skip i n le = record {
  found = inl refl;
  above = omega arith;
  all = λ k st lt. absurd (omega (arith, Starts-length st));
}
cut_at-IsLast max (c ∷ s) (suc skip) i n le =
    skip-IsLast max c s skip i n _ (cut_at-IsLast max s skip (i + 1) n (omega (arith, le)))
cut_at-IsLast max (c ∷ s) zero i n le = elim (Bool-cases (ltb max i)) [
  | inl past ↦ rw past (record {
    found = inl refl;
    above = omega arith;
    all = λ k st lt. absurd (ground (arith, past, lt));
  })
  | inr within ↦ rw within (
      start-IsLast max c s i n _ le (ground (arith, within))
        (cut_at-IsLast max s (extra_bytes (c ∷ s)) (i + 1) i (omega arith)))
]

-- What `Snippet` returns: the whole string if it has no more bytes than the limit; else its first n
-- bytes, where n is a place at which a character of the string starts, within the limit, and no
-- character starts between n and the limit.
pub snippet_lem :
    (s : List ℕ) (max : ℕ)
    → ((length s ≤ max) × (snippet s max ≡ s))
      ⊎ ((n : ℕ) × (max < length s)
          × (snippet s max ≡ take n s)
          × Starts s 0 n
          × (n ≤ max)
          × ((k : ℕ) → Starts s 0 k → k ≤ max → k ≤ n))
unfolding snippet
snippet_lem s max = elim (Bool-cases (leb (length s) max)) [
  | inl short ↦ rw short (inl (ground (arith, short), refl))
  | inr long ↦ rw long (
      inr (
        cut,
        ground (arith, long),
        refl,
        (in_range (ground (arith, long))).0,
        (in_range (ground (arith, long))).1,
        λ k st lt. omega (arith, h.all k st (omega (arith, lt))),
      ))
]
  where
    cut : ℕ
    cut = cut_at max s 0 0 0

    h : IsLast max s 0 0 0 cut
    h = cut_at-IsLast max s 0 0 0 (omega arith)

    at_zero : (t : List ℕ) → 1 ≤ length t → Starts t 0 0
    at_zero [] le = absurd (omega (arith, le))
    at_zero (c ∷ t) le = first c t

    in_range : max < length s → Starts s 0 cut × (cut ≤ max)
    in_range lt = elim h.found [
      | inl e ↦
          (subst (λ n. Starts s 0 n) (sym e) (at_zero s (omega (arith, lt))), omega (arith, e))
      | inr (k, st, e, le) ↦
          let same : k ≡ cut = omega (arith, e) in
          (subst (λ n. Starts s 0 n) same st, omega (arith, e, le))
    ]
