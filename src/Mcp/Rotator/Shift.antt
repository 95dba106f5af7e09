-- ===== src/Mcp/Rotator/Shift.antt =====
-- What the renames of `rotate` do to the backups.
use pty_mcp.Base.{
  ℕ, zero, suc, ◌≤◌, ◌<◌, ◌≡◌, ◌≢◌, refl, sym, ap, ◌∙◌, Bool-cases, inl, inr, Option, none, some,
  List, ◌==◌, ==_iff, ltb, arith,
}
use pty_mcp.Mcp.Rotator.{Files, moved, rename, shift}

-- among the first n files, a missing one is followed by none
abbrev pub IsPacked : ℕ → Files → Type 0
IsPacked n files = (i : ℕ) → i < n → files i ≡ none → files (suc i) ≡ none

moved_lem :
    (files : Files) (i : ℕ) (c : Option (List ℕ)) (j : ℕ)
    → files i ≡ c
    → (c ≡ none → files (suc i) ≡ none)
    → (j ≡ suc i → moved files i (suc i) c j ≡ files i)
      × (j ≡ i → moved files i (suc i) c j ≡ none)
      × (j ≢ i → j ≢ suc i → moved files i (suc i) c j ≡ files j)
moved_lem files i none j e packed =
    ((λ at. ap files at ∙ packed refl ∙ sym e), (λ at. ap files at ∙ e), λ p q. refl)
moved_lem files i (some x) j e packed =
    ((λ at. ground arith), (λ at. ground arith), λ p q. ground arith)

-- The file i moves to the place of its successor, whether it is there or not.
pub rename_lem :
    (files : Files) (i j : ℕ)
    → (files i ≡ none → files (suc i) ≡ none)
    → (j ≡ suc i → rename files i (suc i) j ≡ files i)
      × (j ≡ i → rename files i (suc i) j ≡ none)
      × (j ≢ i → j ≢ suc i → rename files i (suc i) j ≡ files j)
unfolding rename
rename_lem files i j packed = moved_lem files i (files i) j refl packed

-- one step of the loop leaves what the next one needs
rename-IsPacked :
    (n : ℕ) (files : Files)
    → IsPacked (suc (suc n)) files
    → IsPacked (suc n) (rename files (suc n) (suc (suc n)))
rename-IsPacked n files packed i low gone =
    let here = rename_lem files (suc n) i (packed (suc n) (ground arith)) in
    let next = rename_lem files (suc n) (suc i) (packed (suc n) (ground arith)) in
    elim (Bool-cases (i == n)) [
      | inl e ↦ next.1 (ap suc ((==_iff i n).0 e))
      | inr e ↦
          let decided = ==_iff i n in
          let far : i ≢ n = ground arith in
          let here_same : rename files (suc n) (suc (suc n)) i ≡ files i =
            here.2 (ground arith) (ground arith) in
          let next_same : rename files (suc n) (suc (suc n)) (suc i) ≡ files (suc i) =
            next.2 (ground arith) (ground arith) in
          next_same ∙ packed i (ground arith) (sym here_same ∙ gone)
    ]

abbrev pub IsShifted : ℕ → Files → Files → Type 0
IsShifted n before after =
    ((i : ℕ) → 0 < i → i < n → after (suc i) ≡ before i)
    × ((j : ℕ) → n < j → after j ≡ before j)
    × (after 0 ≡ before 0)
    × (1 < n → after 1 ≡ none)
    × (n ≤ 1 → after 1 ≡ before 1)

pub shift-IsShifted : (n : ℕ) (files : Files) → IsPacked n files → IsShifted n files (shift n files)
unfolding shift
shift-IsShifted zero files packed =
    ((λ i p q. ground arith), (λ j p. refl), refl, (λ p. ground arith), λ p. refl)
shift-IsShifted (suc zero) files packed =
    ((λ i p q. ground arith), (λ j p. refl), refl, (λ p. ground arith), λ p. refl)
shift-IsShifted (suc (suc n)) files packed =
    let renamed : Files = rename files (suc n) (suc (suc n)) in
    let moved_up : (j : ℕ)
        → (j ≡ suc (suc n) → renamed j ≡ files (suc n))
          × (j ≡ suc n → renamed j ≡ none)
          × (j ≢ suc n → j ≢ suc (suc n) → renamed j ≡ files j) =
      λ j. rename_lem files (suc n) j (packed (suc n) (ground arith)) in
    let rest = shift-IsShifted (suc n) renamed (rename-IsPacked n files packed) in
    (
      (λ i p q. elim (Bool-cases (i == suc n)) [
        | inl e ↦
            let at : i ≡ suc n = (==_iff i (suc n)).0 e in
            rest.1 (suc i) (ground arith) ∙ (moved_up (suc i)).0 (ap suc at) ∙ ap files (sym at)
        | inr e ↦
            let decided = ==_iff i (suc n) in
            rest.0 i p (ground arith) ∙ (moved_up i).2 (ground arith) (ground arith)
      ]),
      (λ j p. rest.1 j (ground arith) ∙ (moved_up j).2 (ground arith) (ground arith)),
      rest.2 ∙ (moved_up 0).2 (ground arith) (ground arith),
      (λ p. elim (Bool-cases (ltb 0 n)) [
        | inl e ↦ rest.3 (ground arith)
        | inr e ↦ rest.4 (ground arith) ∙ (moved_up 1).1 (ground arith)
      ]),
      λ p. ground arith,
    )
