-- ===== src/Mcp/Rotator/Keeps.antt =====
-- What a write to the log keeps of the log and its backups.
use pty_mcp.Base.{
  ℕ, suc, ◌+◌, ◌<◌, ◌≡◌, refl, sym, ap, ◌∙◌, Bool, true, false, Bool-cases, inl, inr, Option, none,
  some, List, ◌++◌, length, take, ◌==◌, ltb, ==_iff, ◌&&◌, not, leb, arith,
}
use pty_mcp.Mcp.Rotator.{Files, LogRotator, content, put, create, rename, shift, rotate, write}
use pty_mcp.Mcp.Rotator.Shift.{IsPacked, rename_lem, shift-IsShifted}

-- each of the first n files has moved up by one, the others are as before
abbrev pub IsRotated : ℕ → Option (List ℕ) → Files → Files → Type 0
IsRotated n log before after =
    (after 0 ≡ log)
    × ((i : ℕ) → i < n → after (suc i) ≡ before i)
    × ((j : ℕ) → n < j → after j ≡ before j)

abbrev pub IsAppended : List ℕ → Files → Files → Type 0
IsAppended out before after =
    (after 0 ≡ some (content (before 0) ++ out)) × ((j : ℕ) → 0 < j → after j ≡ before j)

renamed-IsRotated :
    (n : ℕ) (files : Files)
    → 0 < n
    → IsPacked n files
    → IsRotated n none files (rename (shift n files) 0 1)
renamed-IsRotated n files positive packed =
    let shifted = shift-IsShifted n files packed in
    let vacant : shift n files 0 ≡ none → shift n files 1 ≡ none = λ gone.
      elim (Bool-cases (ltb 1 n)) [
        | inl e ↦ shifted.3 (ground arith)
        | inr e ↦ shifted.4 (ground arith) ∙ packed 0 positive (sym shifted.2 ∙ gone)
      ] in
    let moved = λ (j : ℕ). rename_lem (shift n files) 0 j vacant in
    (
      (moved 0).1 refl,
      (λ i low. elim (Bool-cases (i == 0)) [
        | inl e ↦
            let at : i ≡ 0 = (==_iff i 0).0 e in
            (moved (suc i)).0 (ap suc at) ∙ shifted.2 ∙ ap files (sym at)
        | inr e ↦
            let decided = ==_iff i 0 in
            (moved (suc i)).2 (ground arith) (ground arith) ∙ shifted.0 i (ground arith) low
      ]),
      λ j high. (moved j).2 (ground arith) (ground arith) ∙ shifted.1 j high,
    )

put_other : (files : Files) (c : Option (List ℕ)) (j : ℕ) → 0 < j → put files 0 c j ≡ files j
put_other files c j positive = ground arith

-- the new log takes the text, and the backups stay
refilled :
    {before : Files} (n : ℕ) (p : List ℕ) (k : ℕ) (files : Files)
    → IsRotated k none before files
    → IsRotated k
        (some (take n p))
        before
        (put (create files) 0 (some (content (files 0) ++ take n p)))
refilled n p k files (gone, up, rest) =
    let kept : (j : ℕ)
        → 0 < j
        → put (create files) 0 (some (content (files 0) ++ take n p)) j ≡ files j =
      λ j far.
        put_other (create files) (some (content (files 0) ++ take n p)) j far
        ∙ put_other files (some (content (files 0))) j far in
    (
      ap (λ c. some (content c ++ take n p)) gone,
      (λ i low. kept (suc i) (ground arith) ∙ up i low),
      λ j high. kept j (ground arith) ∙ rest j high,
    )

-- whether the text would take the log over its limit, if it has one
unfoldable pub exceeds : LogRotator → ℕ → Bool
exceeds r n = not (r.max_size == 0) && not (leb (r.size + n) r.max_size)

-- what a write of `out` leaves, from whether it exceeds the limit and whether a new log can be opened
abbrev pub IsLogged :
    Bool → Bool → List ℕ → LogRotator → Files → LogRotator × Files × Option ℕ → Type 0
IsLogged false opens out r before (r1, after, answer) =
    IsAppended out before after
    × (r1 ≡ record r { size = r.size + length out })
    × (answer ≡ some (length out))
IsLogged true true out r before (r1, after, answer) =
    IsRotated r.max_files (some out) before after
    × (r1 ≡ record r { is_open = true; size = length out })
    × (answer ≡ some (length out))
IsLogged true false out r before (r1, after, answer) =
    IsRotated r.max_files none before after × (r1 ≡ record r { is_open = false }) × (answer ≡ none)

-- A write to an open log whose backups have no gap, up to the limit of at least one: if the log has
-- no limit, or the text fits, the bytes written are appended to the log and no backup changes; else
-- each backup, and the log itself, moves up by one place, so that only the oldest is lost, and the
-- log holds just the bytes written, or, if it cannot be opened, is missing, and the write fails.
-- The size is counted accordingly.
pub write-IsLogged :
    (opens : Bool) (n : ℕ) (p : List ℕ) (r : LogRotator) (files : Files)
    → r.is_open ≡ true
    → 0 < r.max_files
    → IsPacked r.max_files files
    → IsLogged (exceeds r (length p)) opens (take n p) r files (write opens n p (r, files))
unfolding write rotate exceeds
write-IsLogged opens n p r files is_open positive packed =
    let renamed = renamed-IsRotated r.max_files files positive packed in
    let full : Files = rename (shift r.max_files files) 0 1 in
    elim (Bool-cases (not (r.max_size == 0) && not (leb (r.size + length p) r.max_size))) [
      | inl e ↦
          let must : ltb 0 r.max_size && ltb r.max_size (r.size + length p) ≡ true = ground arith in
          elim (Bool-cases opens) [
            | inl can ↦ rw e (
                rw must (
                  rw can (
                    refilled n p r.max_files full renamed,
                    ap (λ k. record r { is_open = true; size = k }) (omega arith),
                    refl,
                  )))
            | inr cannot ↦ rw e (rw must (rw cannot (renamed, refl, refl)))
          ]
      | inr e ↦
          let must : ltb 0 r.max_size && ltb r.max_size (r.size + length p) ≡ false =
            ground arith in
          rw e (
            rw must (
              rw is_open (
                (refl, λ j far. put_other files (some (content (files 0) ++ take n p)) j far),
                refl,
                refl,
              )))
    ]
