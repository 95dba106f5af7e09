-- ===== src/Text.antt =====
-- Go's `strings` functions on byte strings, which are lists of numbers.
pub mod Split
pub mod Space
pub mod Utf8
use Prim.Native.Char.{code}
use mathlib.Core.Bool.{false≢true}
use pty_mcp.Base.Int.{ℤ, pos, sub_ℕ}
use pty_mcp.Base.{
  String, ℕ, ◌+◌, ◌-◌, ◌*◌, ◌^◌, ltb, leb, ◌&&◌, ◌||◌, Option, none, some, Bool, true, false, List,
  [], ◌∷◌, ◌++◌, ◌==◌, if◌then◌else◌, ◌≡◌, ◌≢◌, ◌↔◌, refl, sym, ap₂, arith, ==_iff, Bool-cases, inl,
  inr,
}

-- The bytes of an ASCII text.
abbrev pub codes : String → List ℕ
codes String.[] = []
codes (String.◌∷◌ c s) = code c ∷ codes s

abbrev pub push_front : ℕ → List (List ℕ) → List (List ℕ)
push_front c [] = (c ∷ []) ∷ []
push_front c (l ∷ ls) = (c ∷ l) ∷ ls

unfoldable pub split : List ℕ → List (List ℕ)
split [] = [] ∷ []
split (c ∷ s) = let rest = split s in if c == b'\n' then [] ∷ rest else push_front c rest

unfoldable pub last_is_empty : List (List ℕ) → Bool
last_is_empty [] = false
last_is_empty ([] ∷ []) = true
last_is_empty ((c ∷ l) ∷ []) = false
last_is_empty (l ∷ m ∷ ls) = last_is_empty (m ∷ ls)

unfoldable pub drop_last : List (List ℕ) → List (List ℕ)
drop_last [] = []
drop_last (l ∷ []) = []
drop_last (l ∷ m ∷ ls) = l ∷ drop_last (m ∷ ls)

-- `strconv.Atoi` on a 64-bit machine: an optional sign, then digits; `none` for its errors.
digits_value : ℕ → List ℕ → Option ℕ
digits_value n [] = some n
digits_value n (c ∷ s) =
    let rest = digits_value (n * 10 + (c - 48)) s in if leb 48 c && leb c 57 then rest else none

abbrev digits : List ℕ → Option ℕ
digits [] = none
digits (c ∷ s) = digits_value 0 (c ∷ s)

abbrev positive_int : Option ℕ → Option ℤ
positive_int none = none
positive_int (some n) = if ltb n (2 ^ 63) then some (pos n) else none

abbrev negative_int : Option ℕ → Option ℤ
negative_int none = none
negative_int (some n) = if leb n (2 ^ 63) then some (sub_ℕ 0 n) else none

unfoldable pub atoi : List ℕ → Option ℤ
unfolding digits_value
atoi [] = none
atoi (c ∷ s) =
    if c == b'-'
    then negative_int (digits s)
    else if c == b'+'
    then positive_int (digits s)
    else positive_int (digits (c ∷ s))

-- The number that `strconv.Atoi` returns, an error or not: 0 for no number, the nearest for one that is
-- out of range. It reads the digits up to the first byte that is none, or that takes the number out
-- of 64 bits, after which it does not look at the others.
unfoldable pub scan_digits : ℕ → List ℕ → Option ℕ
scan_digits n [] = some n
scan_digits n (c ∷ s) =
    let next = n * 10 + (c - 48) in
    let rest = scan_digits next s in
    if leb 48 c && leb c 57 then if ltb next (2 ^ 64) then rest else some next else none

abbrev pub scanned : List ℕ → Option ℕ
scanned [] = none
scanned (c ∷ s) = scan_digits 0 (c ∷ s)

abbrev pub positive_limit : Option ℕ → ℤ
positive_limit none = pos 0
positive_limit (some n) = if ltb n (2 ^ 63) then pos n else pos (2 ^ 63 - 1)

abbrev negative_limit : Option ℕ → ℤ
negative_limit none = pos 0
negative_limit (some n) = if leb n (2 ^ 63) then sub_ℕ 0 n else sub_ℕ 0 (2 ^ 63)

unfoldable pub atoi_value : List ℕ → ℤ
unfolding scan_digits
atoi_value [] = pos 0
atoi_value (c ∷ s) =
    if c == b'-'
    then negative_limit (scanned s)
    else if c == b'+'
    then positive_limit (scanned s)
    else positive_limit (scanned (c ∷ s))

-- `strings.SplitN`, at a byte, with so many cuts at most
unfoldable pub split_cuts : ℕ → ℕ → List ℕ → List (List ℕ)
split_cuts sep cuts [] = [] ∷ []
split_cuts sep cuts (c ∷ s) =
    let kept = push_front c (split_cuts sep cuts s) in
    let cut = split_cuts sep (cuts - 1) s in if c == sep && ltb 0 cuts then [] ∷ cut else kept

-- `strings.HasPrefix` together with the slice behind the prefix: none if it has not the prefix.
unfoldable pub cut_prefix : List ℕ → List ℕ → Option (List ℕ)
cut_prefix [] s = some s
cut_prefix (p ∷ ps) [] = none
cut_prefix (p ∷ ps) (c ∷ s) = let rest = cut_prefix ps s in if p == c then rest else none

-- `subtle.ConstantTimeCompare(a, b) == 1`
unfoldable pub bytes_eq : List ℕ → List ℕ → Bool
bytes_eq [] [] = true
bytes_eq (a ∷ s) (b ∷ t) = a == b && bytes_eq s t
bytes_eq _ _ = false

pub cut_prefix-some : (p s r : List ℕ) → cut_prefix p s ≡ some r → s ≡ p ++ r
unfolding cut_prefix
cut_prefix-some [] s r e = cc e
cut_prefix-some (p ∷ ps) [] r e = absurd (cc e)
cut_prefix-some (p ∷ ps) (c ∷ s) r e = elim (Bool-cases (p == c)) [
  | inl same ↦
      ap₂ (λ x xs. x ∷ xs) (sym ((==_iff p c).0 same)) (cut_prefix-some ps s r (rw same at e))
  | inr other ↦ absurd (none_is_some (rw other at e))
]
  where
    none_is_some : none ≢ some r
    none_is_some q = cc q

pub cut_prefix-append : (p r : List ℕ) → cut_prefix p (p ++ r) ≡ some r
unfolding cut_prefix
cut_prefix-append [] r = refl
cut_prefix-append (p ∷ ps) r = rw ((==_iff p p).1 refl) (cut_prefix-append ps r)

pub bytes_eq_iff : (a b : List ℕ) → (bytes_eq a b ≡ true) ↔ (a ≡ b)
unfolding bytes_eq
bytes_eq_iff a b = (to a b, λ e. rw (← e) (same a))
  where
    same : (a : List ℕ) → bytes_eq a a ≡ true
    same [] = refl
    same (x ∷ xs) = ground (arith, ==_iff x x, same xs)

    to : (a b : List ℕ) → bytes_eq a b ≡ true → a ≡ b
    to [] [] e = refl
    to [] (y ∷ ys) e = absurd (false≢true e)
    to (x ∷ xs) [] e = absurd (false≢true e)
    to (x ∷ xs) (y ∷ ys) e = elim (Bool-cases (x == y)) [
      | inl same_head ↦
          ap₂ (λ z zs. z ∷ zs) ((==_iff x y).0 same_head) (to xs ys (rw same_head at e))
      | inr other ↦ absurd (false≢true (rw other at e))
    ]

-- `strings.HasSuffix(s, "\n")`
unfoldable pub ends_with_newline : List ℕ → Bool
ends_with_newline [] = false
ends_with_newline (c ∷ []) = c == b'\n'
ends_with_newline (c ∷ d ∷ s) = ends_with_newline (d ∷ s)

-- `lines[len(lines)-1]`
unfoldable pub last_line : List (List ℕ) → List ℕ
last_line [] = []
last_line (l ∷ []) = l
last_line (l ∷ m ∷ ls) = last_line (m ∷ ls)

-- `strings.Join(lines, "\n")`
unfoldable pub join_lines : List (List ℕ) → List ℕ
join_lines [] = []
join_lines (l ∷ []) = l
join_lines (l ∷ m ∷ ls) = l ++ b'\n' ∷ join_lines (m ∷ ls)

abbrev is_some : Option (List ℕ) → Bool
is_some none = false
is_some (some s) = true

-- `strings.Contains`
unfoldable pub contains : List ℕ → List ℕ → Bool
unfolding cut_prefix
contains [] sub = is_some (cut_prefix sub [])
contains (c ∷ s) sub = is_some (cut_prefix sub (c ∷ s)) || contains s sub

-- no byte of the text is the given one
unfoldable pub Lacks : ℕ → List ℕ → Type 0
Lacks sep [] = Unit
Lacks sep (c ∷ s) = (c ≢ sep) × Lacks sep s
