-- ===== src/Text/Split.antt =====
-- `strings.Split` at line feeds, of a text that comes in parts.
use mathlib.Core.Bool.{false≢true}
use pty_mcp.Base.{
  ℕ, ◌≡◌, refl, ap, ◌∙◌, true, false, List, [], ◌∷◌, ◌++◌, ◌==◌, Bool-cases, inl, inr,
}
use pty_mcp.Text.{split, push_front, drop_last, last_line, ends_with_newline}

-- the lines that are ended, and the last one
abbrev pub complete : List ℕ → List (List ℕ)
complete t = drop_last (split t)

abbrev pub partial : List ℕ → List ℕ
partial t = last_line (split t)

abbrev IsCons : List (List ℕ) → Type 0
IsCons ls = (l : List ℕ) × (ms : List (List ℕ)) × (ls ≡ l ∷ ms)

push_front-IsCons : (c : ℕ) (ls : List (List ℕ)) → IsCons (push_front c ls)
push_front-IsCons c [] = (c ∷ [], [], refl)
push_front-IsCons c (l ∷ ls) = (c ∷ l, ls, refl)

split-IsCons : (t : List ℕ) → IsCons (split t)
unfolding split
split-IsCons [] = ([], [], refl)
split-IsCons (c ∷ t) = elim (Bool-cases (c == b'\n')) [
  | inl e ↦ rw e ([], split t, refl)
  | inr e ↦ rw e (push_front-IsCons c (split t))
]

drop_last-append :
    (xs : List (List ℕ)) (l : List ℕ) (ms : List (List ℕ))
    → drop_last (xs ++ l ∷ ms) ≡ xs ++ drop_last (l ∷ ms)
unfolding drop_last
drop_last-append [] l ms = refl
drop_last-append (x ∷ []) l ms = refl
drop_last-append (x ∷ y ∷ xs) l ms = ap (λ t. x ∷ t) (drop_last-append (y ∷ xs) l ms)

last_line-append :
    (xs : List (List ℕ)) (l : List ℕ) (ms : List (List ℕ))
    → last_line (xs ++ l ∷ ms) ≡ last_line (l ∷ ms)
unfolding last_line
last_line-append [] l ms = refl
last_line-append (x ∷ []) l ms = refl
last_line-append (x ∷ y ∷ xs) l ms = last_line-append (y ∷ xs) l ms

-- One more character in front.
front_lem :
    (x : ℕ) (c : List ℕ) (ls : List (List ℕ)) (s : List (List ℕ))
    → (x == b'\n') ≡ false
    → IsCons ls
    → s ≡ drop_last ls ++ split (last_line ls ++ c)
    → push_front x s ≡ drop_last (push_front x ls) ++ split (last_line (push_front x ls) ++ c)
unfolding split drop_last last_line
front_lem x c [] s ne (l, ms, e) h = absurd (cc e)
front_lem x c (l ∷ []) s ne _ h = rw ne (ap (push_front x) h)
front_lem x c (l ∷ m ∷ ms) s ne _ h = ap (push_front x) h

split-append :
    (t c : List ℕ) → split (t ++ c) ≡ drop_last (split t) ++ split (last_line (split t) ++ c)
unfolding split drop_last last_line
split-append [] c = refl
split-append (x ∷ t) c = elim (Bool-cases (x == b'\n')) [
  | inl e ↦ rw e (newline (split t) (split-IsCons t) (split-append t c))
  | inr e ↦ rw e (front_lem x c (split t) (split (t ++ c)) e (split-IsCons t) (split-append t c))
]
  where
    newline :
        (ls : List (List ℕ))
        → IsCons ls
        → split (t ++ c) ≡ drop_last ls ++ split (last_line ls ++ c)
        → [] ∷ split (t ++ c) ≡ drop_last ([] ∷ ls) ++ split (last_line ([] ∷ ls) ++ c)
    newline [] (l, ms, e) h = absurd (cc e)
    newline (l ∷ ls) _ h = ap (λ r. [] ∷ r) h

-- A text and a text behind it: the complete lines of both are those of the first, and those of the
-- second with the first one's last line before it.
pub complete-append : (t c : List ℕ) → complete (t ++ c) ≡ complete t ++ complete (partial t ++ c)
complete-append t c =
    let (l, ms, e) = split-IsCons (partial t ++ c) in
    ap drop_last (split-append t c) ∙ rw e (drop_last-append (complete t) l ms)

pub partial-append : (t c : List ℕ) → partial (t ++ c) ≡ partial (partial t ++ c)
partial-append t c =
    let (l, ms, e) = split-IsCons (partial t ++ c) in
    ap last_line (split-append t c) ∙ rw e (last_line-append (complete t) l ms)

-- At least two lines, of which the last is empty.
record IsEnded (ls : List (List ℕ)) : Type 0 where
  first : List ℕ
  second : List ℕ
  others : List (List ℕ)
  all : ls ≡ first ∷ second ∷ others
  at_end : last_line (second ∷ others) ≡ []

newline-IsEnded : (ls : List (List ℕ)) → IsEnded ls → IsEnded ([] ∷ ls)
unfolding last_line
newline-IsEnded ls h = record {
  first = [];
  second = h.first;
  others = h.second ∷ h.others;
  all = ap (λ r. [] ∷ r) h.all;
  at_end = h.at_end;
}

push_front-IsEnded : (c : ℕ) (ls : List (List ℕ)) → IsEnded ls → IsEnded (push_front c ls)
push_front-IsEnded c ls h = record {
  first = c ∷ h.first;
  second = h.second;
  others = h.others;
  all = ap (push_front c) h.all;
  at_end = h.at_end;
}

split-IsEnded : (t : List ℕ) → ends_with_newline t ≡ true → IsEnded (split t)
unfolding split ends_with_newline
split-IsEnded [] e = absurd (false≢true e)
split-IsEnded (c ∷ []) e =
    rw e (record {
      first = [];
      second = [];
      others = [];
      all = refl;
      at_end = unfold last_line in refl;
    })
split-IsEnded (c ∷ d ∷ t) e = elim (Bool-cases (c == b'\n')) [
  | inl nl ↦ rw nl (newline-IsEnded (split (d ∷ t)) (split-IsEnded (d ∷ t) e))
  | inr other ↦ rw other (push_front-IsEnded c (split (d ∷ t)) (split-IsEnded (d ∷ t) e))
]

-- After a line feed the last line is empty.
pub partial-ends_with_newline : (t : List ℕ) → ends_with_newline t ≡ true → partial t ≡ []
unfolding last_line
partial-ends_with_newline t e = let h = split-IsEnded t e in ap last_line h.all ∙ h.at_end
