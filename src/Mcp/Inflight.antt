-- ===== src/Mcp/Inflight.antt =====
-- internal/mcp/server.go: `inflightRegistry`. An entry is known by its address, a number that the
-- caller of `add` takes fresh; `marked` is the entries' `cancelled` flag, which is set together
-- with the call of the entry's cancel function.
use pty_mcp.Base.{
  ℕ, ◌≡◌, ◌≢◌, refl, ◌∙◌, String, Bool, true, false, ◌||◌, Option, none, some, List, [], ◌∷◌, ◌++◌,
  arith, eq_iff, str_eq, ◌==◌, ==_iff, if◌then◌else◌,
}
use pty_mcp.Base.Dict.{Dict, empty, lookup, insert, remove, lookup-insert, lookup-remove}

pub record Inflight : Type 0 where
  pub entries : Dict (List ℕ)
  pub marked : ℕ → Bool

unfoldable pub new_registry : Inflight
new_registry = record { entries = empty; marked = λ e. false }

-- `r.entries[key]`, nil if there is none
abbrev pub or_nil : Option (List ℕ) → List ℕ
or_nil none = []
or_nil (some es) = es

unfoldable pub refs : Inflight → String → List ℕ
refs r key = or_nil (lookup r.entries key)

unfoldable pub mem : ℕ → List ℕ → Bool
mem e [] = false
mem e (x ∷ xs) = x == e || mem e xs

unfoldable pub add : Inflight → String → ℕ → Inflight
unfolding refs
add r key e = record r { entries = insert r.entries key (refs r key ++ e ∷ []) }

unfoldable pub cancel : Inflight → String → Inflight
unfolding refs mem
cancel r key = record r { marked = λ e. mem e (refs r key) || r.marked e }

-- `append(entries[:i], entries[i+1:]...)` at the first place of `e`
unfoldable pub erase : ℕ → List ℕ → List ℕ
erase e [] = []
erase e (x ∷ xs) = let rest = erase e xs in if x == e then xs else x ∷ rest

abbrev pub put_back : Dict (List ℕ) → String → List ℕ → Dict (List ℕ)
put_back d key [] = remove d key
put_back d key (e ∷ es) = insert d key (e ∷ es)

-- The second result tells whether the entry was cancelled.
unfoldable pub finish : Inflight → String → ℕ → Inflight × Bool
unfolding refs erase
finish r key e = (record r { entries = put_back r.entries key (erase e (refs r key)) }, r.marked e)

mem-append : (e x : ℕ) (xs : List ℕ) → mem e (xs ++ x ∷ []) ≡ (mem e xs || x == e)
unfolding mem
mem-append e x [] = ground arith
mem-append e x (y ∷ xs) = ground (arith, mem-append e x xs)

mem-erase_ne : (e x : ℕ) (xs : List ℕ) → x ≢ e → mem e (erase x xs) ≡ mem e xs
unfolding mem erase
mem-erase_ne e x [] ne = refl
mem-erase_ne e x (y ∷ xs) ne = ground (arith, mem-erase_ne e x xs ne)

put_back_refs :
    (d : Dict (List ℕ)) (key k : String) (es : List ℕ)
    → or_nil (lookup (put_back d key es) k) ≡ (if str_eq key k then es else or_nil (lookup d k))
put_back_refs d key k [] = ground (arith, lookup-remove d key k)
put_back_refs d key k (e ∷ es) = ground (arith, lookup-insert d key k (e ∷ es))

-- What each operation does to the entries of a key.
pub refs-add :
    (r : Inflight) (key k : String) (e : ℕ)
    → refs (add r key e) k ≡ (if str_eq key k then refs r key ++ e ∷ [] else refs r k)
unfolding add
refs-add r key k e =
    ground (arith, lookup-insert r.entries key k (or_nil (lookup r.entries key) ++ e ∷ []))

pub refs-finish :
    (r : Inflight) (key k : String) (e : ℕ)
    → refs (finish r key e).0 k ≡ (if str_eq key k then erase e (refs r key) else refs r k)
unfolding finish
refs-finish r key k e = put_back_refs r.entries key k (erase e (refs r key))

-- An entry that was added is there, and others stay.
pub mem-add_self : (r : Inflight) (key : String) (e : ℕ) → mem e (refs (add r key e) key) ≡ true
mem-add_self r key e =
    rw (refs-add r key key e, (eq_iff key key).1 refl)
      (mem-append e e (refs r key) ∙ ground (arith, ==_iff e e))

pub mem-add_keeps :
    (r : Inflight) (key k : String) (e x : ℕ)
    → mem x (refs r k) ≡ true
    → mem x (refs (add r key e) k) ≡ true
mem-add_keeps r key k e x h =
    rw (refs-add r key k e) (ground (arith, mem-append x e (refs r key), eq_iff key k))

-- Only the entry that is finished goes.
pub mem-finish_ne :
    (r : Inflight) (key k : String) (e x : ℕ)
    → e ≢ x
    → mem x (refs (finish r key e).0 k) ≡ mem x (refs r k)
mem-finish_ne r key k e x ne =
    rw (refs-finish r key k e) (ground (arith, mem-erase_ne x e (refs r key), eq_iff key k))

-- A cancellation marks the entries of its key, takes no mark back and leaves the entries.
pub refs-cancel : (r : Inflight) (key k : String) → refs (cancel r key) k ≡ refs r k
unfolding refs cancel
refs-cancel r key k = refl

pub marked-cancel :
    (r : Inflight) (key : String) (e : ℕ)
    → (cancel r key).marked e ≡ (mem e (refs r key) || r.marked e)
unfolding cancel
marked-cancel r key e = refl

pub marked-add : (r : Inflight) (key : String) (e x : ℕ) → (add r key e).marked x ≡ r.marked x
unfolding add
marked-add r key e x = refl

pub marked-finish :
    (r : Inflight) (key : String) (e x : ℕ) → (finish r key e).0.marked x ≡ r.marked x
unfolding finish
marked-finish r key e x = refl

pub was_cancelled : (r : Inflight) (key : String) (e : ℕ) → (finish r key e).1 ≡ r.marked e
unfolding finish
was_cancelled r key e = refl
