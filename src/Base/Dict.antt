-- ===== src/Base/Dict.antt =====
-- Go's maps with string keys: a chain of entries, of which the first one for a key counts.
use Prim.Native.Nat.{ℕ, ◌+◌, ◌≤◌}
use Prim.Native.String.{String}
use mathlib.Core.Path.{◌≡◌, refl}
use mathlib.Core.Bool.{Bool, true, false}
use mathlib.Core.Option.{Option, none, some}
use mathlib.Core.List.{List, [], ◌∷◌}
use native.Mathlib.Omega.{arith}
use text.Mathlib.TextEquality.{eq_iff}
use mathlib.Core.Logic.{inl, inr, ◌≢◌}
use pty_mcp.Base.Tests.{Bool-cases, str_eq, if◌then◌else◌}

pub data Dict {ℓ} (V : Type ℓ) : Type ℓ where
  empty : Dict V
  entry : String → V → Dict V → Dict V

module _ {ℓ} {V : Type ℓ} where
  -- v, ok := m[k]
  unfoldable pub lookup : Dict V → String → Option V
  lookup empty k = none
  lookup (entry j v m) k = if str_eq j k then some v else lookup m k

  -- m[k] = v
  unfoldable pub insert : Dict V → String → V → Dict V
  insert empty k v = entry k v empty
  insert (entry j w m) k v =
      let tail = insert m k v in if str_eq j k then entry j v m else entry j w tail

  -- delete(m, k)
  unfoldable pub remove : Dict V → String → Dict V
  remove empty k = empty
  remove (entry j w m) k = let tail = remove m k in if str_eq j k then tail else entry j w tail

  -- len(m)
  unfoldable pub size : Dict V → ℕ
  size empty = 0
  size (entry j w m) = size m + 1

  -- for k, v := range m, in the order of the chain
  unfoldable pub entries : Dict V → List (String × V)
  entries empty = []
  entries (entry j w m) = (j, w) ∷ entries m

  -- The loop that deletes the entries with a property.
  unfoldable pub retain : (String → V → Bool) → Dict V → Dict V
  retain keep empty = empty
  retain keep (entry j w m) = let tail = retain keep m in if keep j w then entry j w tail else tail

  pub lookup-insert :
      (m : Dict V) (k j : String) (v : V)
      → lookup (insert m k v) j ≡ (if str_eq k j then some v else lookup m j)
  unfolding lookup insert
  lookup-insert empty k j v = refl
  lookup-insert (entry i w m) k j v =
      ground (arith, lookup-insert m k j v, eq_iff i k, eq_iff k j, eq_iff i j)

  pub lookup-remove :
      (m : Dict V) (k j : String)
      → lookup (remove m k) j ≡ (if str_eq k j then none else lookup m j)
  unfolding lookup remove
  lookup-remove empty k j = ground arith
  lookup-remove (entry i w m) k j =
      ground (arith, lookup-remove m k j, eq_iff i k, eq_iff k j, eq_iff i j)

  pub size-insert : (m : Dict V) (k : String) (v : V) → size (insert m k v) ≤ size m + 1
  unfolding insert size
  size-insert empty k v = omega arith
  size-insert (entry j w m) k v = ground (arith, size-insert m k v)

  pub size-insert_old :
      (m : Dict V) (k : String) (v w : V) → lookup m k ≡ some v → size (insert m k w) ≡ size m
  unfolding insert size lookup
  size-insert_old empty k v w e = absurd (cc e)
  size-insert_old (entry j u m) k v w e = ground (arith, size-insert_old m k v w)

  pub size-remove : (m : Dict V) (k : String) → size (remove m k) ≤ size m
  unfolding remove size
  size-remove empty k = omega arith
  size-remove (entry j w m) k = ground (arith, size-remove m k)

  pub size-retain : (keep : String → V → Bool) (m : Dict V) → size (retain keep m) ≤ size m
  unfolding retain size
  size-retain keep empty = omega arith
  size-retain keep (entry j w m) = ground (arith, size-retain keep m)

  -- A key that is kept at its every value keeps its value.
  pub lookup-retain_keep :
      (keep : String → V → Bool) (m : Dict V) (j : String) (v : V)
      → lookup m j ≡ some v
      → keep j v ≡ true
      → lookup (retain keep m) j ≡ some v
  unfolding lookup retain
  lookup-retain_keep keep empty j v e k = cc
  lookup-retain_keep keep (entry i w m) j v e k =
      ground (arith, lookup-retain_keep keep m j v, eq_iff i j)

  -- No new key comes in.
  pub lookup-retain-none :
      (keep : String → V → Bool) (m : Dict V) (j : String)
      → lookup m j ≡ none
      → lookup (retain keep m) j ≡ none
  unfolding lookup retain
  lookup-retain-none keep empty j e = refl
  lookup-retain-none keep (entry i w m) j e =
      ground (arith, lookup-retain-none keep m j, eq_iff i j)

-- Each key has one entry, so that `size` is the number of keys.
abbrev pub Distinct {ℓ} : {V : Type ℓ} → Dict V → Type ℓ
Distinct empty = Unit
Distinct (entry j w m) = (lookup m j ≡ none) × Distinct m

-- A key whose value is not kept goes.
pub lookup-retain_drop {ℓ} :
    {V : Type ℓ} (keep : String → V → Bool) (m : Dict V) (j : String) (v : V)
    → Distinct m
    → lookup m j ≡ some v
    → keep j v ≡ false
    → lookup (retain keep m) j ≡ none
unfolding lookup retain
lookup-retain_drop keep empty j v d e k = refl
lookup-retain_drop keep (entry i w m) j v d e k =
    ground (arith, lookup-retain_drop keep m j v d.1, lookup-retain-none keep m j, d.0, eq_iff i j)

module _ {ℓ} {V : Type ℓ} where
  pub insert-Distinct : (m : Dict V) (k : String) (v : V) → Distinct m → Distinct (insert m k v)
  unfolding insert lookup
  insert-Distinct empty k v d = (refl, tt)
  insert-Distinct (entry j w m) k v d = elim (Bool-cases (str_eq j k)) [
    | inl same ↦ rw same d
    | inr other ↦ rw other (
      rw (lookup-insert m k j v) (ground (arith, d.0, eq_iff k j, eq_iff j k)),
      insert-Distinct m k v d.1,
    )
  ]

  pub remove-Distinct : (m : Dict V) (k : String) → Distinct m → Distinct (remove m k)
  unfolding remove
  remove-Distinct empty k d = tt
  remove-Distinct (entry j w m) k d = elim (Bool-cases (str_eq j k)) [
    | inl same ↦ rw same (remove-Distinct m k d.1)
    | inr other ↦
        rw other
          (rw (lookup-remove m k j) (ground (arith, d.0, eq_iff k j)), remove-Distinct m k d.1)
  ]

module _ {ℓ} {V : Type ℓ} where
  pub lookup-insert_self : (m : Dict V) (k : String) (v : V) → lookup (insert m k v) k ≡ some v
  lookup-insert_self m k v = ground (arith, lookup-insert m k k v, eq_iff k k)

  pub lookup-insert_ne :
      (m : Dict V) (k j : String) (v : V) → k ≢ j → lookup (insert m k v) j ≡ lookup m j
  lookup-insert_ne m k j v ne = ground (arith, lookup-insert m k j v, eq_iff k j)

  pub lookup-remove_self : (m : Dict V) (k : String) → lookup (remove m k) k ≡ none
  lookup-remove_self m k = ground (arith, lookup-remove m k k, eq_iff k k)

  pub lookup-remove_ne : (m : Dict V) (k j : String) → k ≢ j → lookup (remove m k) j ≡ lookup m j
  lookup-remove_ne m k j ne = ground (arith, lookup-remove m k j, eq_iff k j)

pub ruleset dict_laws = (lookup-insert, lookup-remove)
