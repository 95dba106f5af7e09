-- ===== src/Base/Lists.antt =====
-- Lists measured and indexed by native numbers.
use Prim.Native.Nat.{ℕ, zero, suc, ◌+◌, ◌-◌, ◌≤◌, ◌<◌, min}
use mathlib.Core.Path.{◌≡◌, refl, sym, ap, ap₂, ◌∙◌}
use mathlib.Core.Logic.{◌≢◌, ◌⊎◌, inl, inr}
use mathlib.Core.Option.{Option, none, some}
use mathlib.Core.List.{List, [], ◌∷◌, ◌++◌}
use native.Mathlib.Omega.{arith}

module _ {ℓ} {A : Type ℓ} where
  abbrev pub length : List A → ℕ
  length [] = 0
  length (x ∷ xs) = suc (length xs)

  abbrev pub get_or : List A → ℕ → A → A
  get_or [] i d = d
  get_or (x ∷ xs) zero d = x
  get_or (x ∷ xs) (suc i) d = get_or xs i d

  -- A write out of bounds changes nothing.
  abbrev pub set : List A → ℕ → A → List A
  set [] i v = []
  set (x ∷ xs) zero v = v ∷ xs
  set (x ∷ xs) (suc i) v = x ∷ set xs i v

  abbrev pub take : ℕ → List A → List A
  take zero xs = []
  take (suc n) [] = []
  take (suc n) (x ∷ xs) = x ∷ take n xs

  abbrev pub drop : ℕ → List A → List A
  drop zero xs = xs
  drop (suc n) [] = []
  drop (suc n) (x ∷ xs) = drop n xs

  abbrev pub replicate : ℕ → A → List A
  replicate zero a = []
  replicate (suc n) a = a ∷ replicate n a

  pub length-append : (xs ys : List A) → length (xs ++ ys) ≡ length xs + length ys
  length-append [] ys = omega arith
  length-append (x ∷ xs) ys = omega (arith, length-append xs ys)

  pub length-set : (xs : List A) (i : ℕ) (v : A) → length (set xs i v) ≡ length xs
  length-set [] i v = refl
  length-set (x ∷ xs) zero v = refl
  length-set (x ∷ xs) (suc i) v = ap suc (length-set xs i v)

  pub get_or-set_self :
      (xs : List A) (i : ℕ) (v d : A) → i < length xs → get_or (set xs i v) i d ≡ v
  get_or-set_self [] i v d h = absurd (omega arith)
  get_or-set_self (x ∷ xs) zero v d h = refl
  get_or-set_self (x ∷ xs) (suc i) v d h = get_or-set_self xs i v d (omega arith)

  pub get_or-set_ne :
      (xs : List A) (i j : ℕ) (v d : A) → i ≢ j → get_or (set xs i v) j d ≡ get_or xs j d
  get_or-set_ne [] i j v d h = refl
  get_or-set_ne (x ∷ xs) zero zero v d h = absurd (h refl)
  get_or-set_ne (x ∷ xs) zero (suc j) v d h = refl
  get_or-set_ne (x ∷ xs) (suc i) zero v d h = refl
  get_or-set_ne (x ∷ xs) (suc i) (suc j) v d h = get_or-set_ne xs i j v d (λ e. h (ap suc e))

  pub get_or-append_left :
      (xs ys : List A) (i : ℕ) (d : A) → i < length xs → get_or (xs ++ ys) i d ≡ get_or xs i d
  get_or-append_left [] ys i d h = absurd (omega arith)
  get_or-append_left (x ∷ xs) ys zero d h = refl
  get_or-append_left (x ∷ xs) ys (suc i) d h = get_or-append_left xs ys i d (omega arith)

  pub get_or-append_last : (xs : List A) (y d : A) → get_or (xs ++ (y ∷ [])) (length xs) d ≡ y
  get_or-append_last [] y d = refl
  get_or-append_last (x ∷ xs) y d = get_or-append_last xs y d

  pub length-replicate : (n : ℕ) (a : A) → length (replicate n a) ≡ n
  length-replicate zero a = refl
  length-replicate (suc n) a = ap suc (length-replicate n a)

  pub length-drop : (n : ℕ) (xs : List A) → length (drop n xs) ≡ length xs - n
  length-drop zero xs = omega arith
  length-drop (suc n) [] = omega arith
  length-drop (suc n) (x ∷ xs) = omega (arith, length-drop n xs)

  pub length-take : (n : ℕ) (xs : List A) → length (take n xs) ≡ min n (length xs)
  length-take zero xs = omega arith
  length-take (suc n) [] = omega arith
  length-take (suc n) (x ∷ xs) = omega (arith, length-take n xs)

  pub take-append-drop : (n : ℕ) (xs : List A) → take n xs ++ drop n xs ≡ xs
  take-append-drop zero xs = refl
  take-append-drop (suc n) [] = refl
  take-append-drop (suc n) (x ∷ xs) = ap (λ ys. x ∷ ys) (take-append-drop n xs)

  pub take_all : (n : ℕ) (xs : List A) → length xs ≤ n → take n xs ≡ xs
  take_all zero [] h = refl
  take_all zero (x ∷ xs) h = absurd (omega arith)
  take_all (suc n) [] h = refl
  take_all (suc n) (x ∷ xs) h = ap (λ ys. x ∷ ys) (take_all n xs (omega arith))

  pub drop_all : (n : ℕ) (xs : List A) → length xs ≤ n → drop n xs ≡ []
  drop_all zero [] h = refl
  drop_all zero (x ∷ xs) h = absurd (omega arith)
  drop_all (suc n) [] h = refl
  drop_all (suc n) (x ∷ xs) h = drop_all n xs (omega arith)

  pub drop-append_left :
      (n : ℕ) (xs ys : List A) → n ≤ length xs → drop n (xs ++ ys) ≡ drop n xs ++ ys
  drop-append_left zero xs ys h = refl
  drop-append_left (suc n) [] ys h = absurd (omega arith)
  drop-append_left (suc n) (x ∷ xs) ys h = drop-append_left n xs ys (omega arith)

  drop-nil : (n : ℕ) → drop n [] ≡ []
  drop-nil zero = refl
  drop-nil (suc n) = refl

  pub drop-drop : (m n : ℕ) (xs : List A) → drop m (drop n xs) ≡ drop (n + m) xs
  drop-drop m zero xs = ap (λ k. drop k xs) (omega arith)
  drop-drop m (suc n) [] = drop-nil m ∙ sym (drop-nil (suc n + m))
  drop-drop m (suc n) (x ∷ xs) = drop-drop m n xs ∙ ap (λ k. drop k (x ∷ xs)) shift
    where
      shift : suc (n + m) ≡ suc n + m
      shift = omega arith

  -- A list is determined by its length and its elements.
  pub get_or_ext :
      (xs ys : List A) (d : A)
      → length xs ≡ length ys
      → ((i : ℕ) → i < length xs → get_or xs i d ≡ get_or ys i d)
      → xs ≡ ys
  get_or_ext [] [] d n h = refl
  get_or_ext [] (y ∷ ys) d n h = absurd (omega arith)
  get_or_ext (x ∷ xs) [] d n h = absurd (omega arith)
  get_or_ext (x ∷ xs) (y ∷ ys) d n h =
      ap₂ ◌∷◌ (h 0 (omega arith))
        (get_or_ext xs ys d (omega arith) (λ i lt. h (suc i) (omega arith)))

  pub get_or-drop :
      (n : ℕ) (xs : List A) (i : ℕ) (d : A) → get_or (drop n xs) i d ≡ get_or xs (n + i) d
  get_or-drop zero xs i d = ap (λ k. get_or xs k d) (omega arith)
  get_or-drop (suc n) [] i d = refl
  get_or-drop (suc n) (x ∷ xs) i d = get_or-drop n xs i d ∙ ap (λ k. get_or (x ∷ xs) k d) shift
    where
      shift : suc (n + i) ≡ suc n + i
      shift = omega arith

  pub get_or-take :
      (n : ℕ) (xs : List A) (i : ℕ) (d : A) → i < n → get_or (take n xs) i d ≡ get_or xs i d
  get_or-take zero xs i d h = absurd (omega arith)
  get_or-take (suc n) [] i d h = refl
  get_or-take (suc n) (x ∷ xs) zero d h = refl
  get_or-take (suc n) (x ∷ xs) (suc i) d h = get_or-take n xs i d (omega arith)

  -- One more element of a run that starts inside the list.
  pub take-suc-drop :
      (n k : ℕ) (xs : List A) (d : A)
      → k < length xs
      → take (suc n) (drop k xs) ≡ get_or xs k d ∷ take n (drop (suc k) xs)
  take-suc-drop n k [] d h = absurd (omega arith)
  take-suc-drop n zero (x ∷ xs) d h = refl
  take-suc-drop n (suc k) (x ∷ xs) d h = take-suc-drop n k xs d (omega arith)

  pub drop-min : (k : ℕ) (xs : List A) → drop (min (length xs) k) xs ≡ drop k xs
  drop-min k [] = drop-nil (min 0 k) ∙ sym (drop-nil k)
  drop-min zero (x ∷ xs) = ap (λ k. drop k (x ∷ xs)) {y = zero} (omega arith)
  drop-min (suc k) (x ∷ xs) =
      ap (λ t. drop t (x ∷ xs)) {y = suc (min (length xs) k)} (omega arith) ∙ drop-min k xs

module _ {ℓ} {A : Type ℓ} where
  abbrev pub get_elem? : List A → ℕ → Option A
  get_elem? [] i = none
  get_elem? (x ∷ xs) zero = some x
  get_elem? (x ∷ xs) (suc i) = get_elem? xs i

  pub get_elem?-lt : (xs : List A) (i : ℕ) (a : A) → get_elem? xs i ≡ some a → i < length xs
  get_elem?-lt [] i a e = absurd (cc)
  get_elem?-lt (x ∷ xs) zero a e = omega arith
  get_elem?-lt (x ∷ xs) (suc i) a e = omega (arith, get_elem?-lt xs i a e)

  pub get_elem?-set_at :
      (xs : List A) (i : ℕ) (v a : A) → get_elem? xs i ≡ some a → get_elem? (set xs i v) i ≡ some v
  get_elem?-set_at [] i v a e = absurd (cc)
  get_elem?-set_at (x ∷ xs) zero v a e = refl
  get_elem?-set_at (x ∷ xs) (suc i) v a e = get_elem?-set_at xs i v a e

  pub get_elem?-set_other :
      (xs : List A) (i j : ℕ) (v : A) → i ≢ j → get_elem? (set xs i v) j ≡ get_elem? xs j
  get_elem?-set_other [] i j v ne = refl
  get_elem?-set_other (x ∷ xs) zero zero v ne = absurd (ne refl)
  get_elem?-set_other (x ∷ xs) zero (suc j) v ne = refl
  get_elem?-set_other (x ∷ xs) (suc i) zero v ne = refl
  get_elem?-set_other (x ∷ xs) (suc i) (suc j) v ne =
      get_elem?-set_other xs i j v (λ e. ne (ap suc e))

  -- An element of a list with one more at the end is the last one, or stood there before.
  pub get_elem?-snoc :
      (xs : List A) (y a : A) (i : ℕ)
      → get_elem? (xs ++ (y ∷ [])) i ≡ some a
      → (get_elem? xs i ≡ some a) ⊎ ((i ≡ length xs) × (a ≡ y))
  get_elem?-snoc [] y a zero e = inr (refl, cc)
  get_elem?-snoc [] y a (suc i) e = absurd (cc)
  get_elem?-snoc (x ∷ xs) y a zero e = inl e
  get_elem?-snoc (x ∷ xs) y a (suc i) e = elim (get_elem?-snoc xs y a i e) [
    | inl old ↦ inl old
    | inr (l, r) ↦ inr (ap suc l, r)
  ]

  pub get_elem?-snoc_old :
      (xs : List A) (y a : A) (i : ℕ)
      → get_elem? xs i ≡ some a
      → get_elem? (xs ++ (y ∷ [])) i ≡ some a
  get_elem?-snoc_old [] y a i e = absurd (cc)
  get_elem?-snoc_old (x ∷ xs) y a zero e = e
  get_elem?-snoc_old (x ∷ xs) y a (suc i) e = get_elem?-snoc_old xs y a i e

  -- What stands in a list after one element was replaced.
  pub get_elem?-set_cases :
      (xs : List A) (i k : ℕ) (old v a : A)
      → get_elem? xs i ≡ some old
      → get_elem? (set xs i v) k ≡ some a
      → ((i ≢ k) × (get_elem? xs k ≡ some a)) ⊎ ((i ≡ k) × (a ≡ v))
  get_elem?-set_cases [] i k old v a e f = absurd (cc)
  get_elem?-set_cases (x ∷ xs) zero zero old v a e f = inr (refl, cc)
  get_elem?-set_cases (x ∷ xs) zero (suc k) old v a e f = inl (omega arith, f)
  get_elem?-set_cases (x ∷ xs) (suc i) zero old v a e f = inl (omega arith, f)
  get_elem?-set_cases (x ∷ xs) (suc i) (suc k) old v a e f =
      elim (get_elem?-set_cases xs i k old v a e f) [
        | inl (ne, g) ↦ inl (λ q. ne (omega arith), g)
        | inr (q, g) ↦ inr (ap suc q, g)
      ]
