-- ===== src/Session/Ssh/Order.antt =====
-- `semverAtLeast` on versions of three numbers.
use pty_mcp.Base.{
  Bool-cases, ℕ, ◌+◌, ◌-◌, ◌*◌, ◌^◌, ◌≤◌, ◌<◌, ◌≡◌, ◌↔◌, ◌⊎◌, inl, inr, refl, ap, ◌∙◌, true, false,
  some, List, [], ◌∷◌, ◌++◌, ◌==◌, arith, length,
}
use pty_mcp.Base.Int.{pos}
use pty_mcp.Text.{split_cuts, scan_digits, positive_limit, atoi_value, bytes_eq}
use pty_mcp.Session.Ssh.{is_dev, version_parts, at_least, semver_at_least}

-- the number that some digits stand for, after those that stand for n
unfoldable pub decimal_from : ℕ → List ℕ → ℕ
decimal_from n [] = n
decimal_from n (c ∷ s) = decimal_from (n * 10 + (c - 48)) s

abbrev pub decimal : List ℕ → ℕ
decimal s = decimal_from 0 s

unfoldable pub AreDigits : List ℕ → Type 0
AreDigits [] = Unit
AreDigits (c ∷ s) = (48 ≤ c) × (c ≤ 57) × AreDigits s

-- a number in decimal, that a machine integer can hold
pub record IsNumber (s : List ℕ) : Type 0 where
  pub are_digits : AreDigits s
  pub has_some : 0 < length s
  pub fits : decimal s < 2 ^ 63

abbrev pub dotted : List ℕ → List ℕ → List ℕ → List ℕ
dotted x y z = x ++ b'.' ∷ (y ++ b'.' ∷ z)

-- the order of versions: the first number that differs decides
abbrev pub IsAtLeast : ℕ → ℕ → ℕ → ℕ → ℕ → ℕ → Type 0
IsAtLeast a b c a' b' c' = (a' < a) ⊎ ((a ≡ a') × ((b' < b) ⊎ ((b ≡ b') × (c' ≤ c))))

decimal_from-grows : (n : ℕ) (s : List ℕ) → n ≤ decimal_from n s
unfolding decimal_from
decimal_from-grows n [] = omega arith
decimal_from-grows n (c ∷ s) = omega (arith, decimal_from-grows (n * 10 + (c - 48)) s)

scan_digits_lem :
    (n : ℕ) (s : List ℕ)
    → AreDigits s
    → decimal_from n s < 2 ^ 63
    → scan_digits n s ≡ some (decimal_from n s)
unfolding scan_digits decimal_from AreDigits
scan_digits_lem n [] h fits = refl
scan_digits_lem n (c ∷ s) (low, high, h) fits =
    ground (
      arith,
      scan_digits_lem (n * 10 + (c - 48)) s h fits,
      decimal_from-grows (n * 10 + (c - 48)) s,
    )

atoi_value_lem : (s : List ℕ) → IsNumber s → atoi_value s ≡ pos (decimal s)
unfolding atoi_value AreDigits
atoi_value_lem [] h = absurd (omega (arith, h.has_some))
atoi_value_lem (c ∷ s) h =
    let (low, high, others) = h.are_digits in
    let read = scan_digits_lem 0 (c ∷ s) h.are_digits h.fits in
    let no_minus : c == b'-' ≡ false = ground arith in
    let no_plus : c == b'+' ≡ false = ground arith in
    let step : atoi_value (c ∷ s) ≡ positive_limit (scan_digits 0 (c ∷ s)) =
      rw (no_minus, no_plus) refl in
    let limit : positive_limit (some (decimal (c ∷ s))) ≡ pos (decimal (c ∷ s)) =
      ground (arith, h.fits) in
    step ∙ ap positive_limit read ∙ limit

split_first :
    (cuts : ℕ) (x t : List ℕ)
    → AreDigits x
    → 0 < cuts
    → split_cuts b'.' cuts (x ++ b'.' ∷ t) ≡ x ∷ split_cuts b'.' (cuts - 1) t
unfolding split_cuts AreDigits
split_first cuts [] t h positive = ground arith
split_first cuts (c ∷ x) t (low, high, h) positive =
    let no_dot : c == b'.' ≡ false = ground arith in
    rw (no_dot, split_first cuts x t h positive) refl

split_last : (z : List ℕ) → split_cuts b'.' 0 z ≡ z ∷ []
unfolding split_cuts
split_last [] = refl
split_last (c ∷ z) = elim (Bool-cases (c == b'.')) [
  | inl dot ↦ rw (dot, split_last z) refl
  | inr other ↦ rw (other, split_last z) refl
]

at_least_lem :
    (a b c a' b' c' : ℕ)
    → (at_least (pos a ∷ pos b ∷ pos c ∷ []) (pos a' ∷ pos b' ∷ pos c' ∷ []) ≡ true)
      ↔ IsAtLeast a b c a' b' c'
unfolding at_least
at_least_lem a b c a' b' c' = ground arith

version_parts-dotted :
    (x y z : List ℕ)
    → IsNumber x
    → IsNumber y
    → IsNumber z
    → version_parts (dotted x y z) ≡ pos (decimal x) ∷ pos (decimal y) ∷ pos (decimal z) ∷ []
unfolding version_parts
version_parts-dotted x y z hx hy hz =
    let parts : split_cuts b'.' 2 (dotted x y z) ≡ x ∷ y ∷ z ∷ [] =
      split_first 2 x (y ++ b'.' ∷ z) hx.are_digits (omega arith)
      ∙ ap (λ ps. x ∷ ps) (split_first 1 y z hy.are_digits (omega arith))
      ∙ ap (λ ps. x ∷ y ∷ ps) (split_last z) in
    rw (parts, atoi_value_lem x hx, atoi_value_lem y hy, atoi_value_lem z hz) refl

dotted-is_dev : (x y z : List ℕ) → IsNumber x → is_dev (dotted x y z) ≡ false
unfolding bytes_eq AreDigits
dotted-is_dev [] y z h = absurd (omega (arith, h.has_some))
dotted-is_dev (c ∷ x) y z h = let digits = h.are_digits in ground arith

-- Of two versions of three decimal numbers each, with any number of leading zeros and below the
-- limit of an int, `semverAtLeast` says that the first is at least the second exactly if its
-- numbers are, read from the left: the first greater, or equal and the second greater, or both
-- equal and the third not less.
pub semver_at_least_lem :
    (x y z u v w : List ℕ)
    → IsNumber x
    → IsNumber y
    → IsNumber z
    → IsNumber u
    → IsNumber v
    → IsNumber w
    → (semver_at_least (dotted x y z) (dotted u v w) ≡ true)
      ↔ IsAtLeast (decimal x) (decimal y) (decimal z) (decimal u) (decimal v) (decimal w)
unfolding semver_at_least
semver_at_least_lem x y z u v w hx hy hz hu hv hw =
    rw
      (
        dotted-is_dev x y z hx,
        dotted-is_dev u v w hu,
        version_parts-dotted x y z hx hy hz,
        version_parts-dotted u v w hu hv hw,
      )
      (at_least_lem (decimal x) (decimal y) (decimal z) (decimal u) (decimal v) (decimal w))
