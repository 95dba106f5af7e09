-- ===== src/Mcp/Http/Scopes.antt =====
-- The keys of different sessions do not meet.
use Prim.Native.Char.{Char, nul}
use pty_mcp.Base.{
  ℕ, ◌≡◌, ◌≢◌, refl, sym, ap, ap₂, ◌∙◌, String, true, false, ◌||◌, some, str_eq, arith, Bool-cases,
  inl, inr, eq_iff,
}
use pty_mcp.Mcp.Inflight.{
  Inflight, add, refs, mem, marked-cancel, marked-add, refs-add, mem-add_self,
}
use pty_mcp.Mcp.Serve.{CancelParams, cancel_key}
use pty_mcp.Mcp.Http.{scoped_key, cancel_scoped}

-- A header value has no NUL character.
abbrev pub NulFree : String → Type 0
NulFree String.[] = Unit
NulFree (String.◌∷◌ c s) = (c ≢ nul) × NulFree s

abbrev first_or : Char → String → Char
first_or d String.[] = d
first_or d (String.◌∷◌ c s) = c

abbrev rest : String → String
rest String.[] = String.[]
rest (String.◌∷◌ c s) = s

pub scoped_key-injective :
    (a b i j : String) → NulFree a → NulFree b → scoped_key a i ≡ scoped_key b j → (a ≡ b) × (i ≡ j)
unfolding scoped_key
scoped_key-injective String.[] String.[] i j na nb e = (refl, ap rest e)
scoped_key-injective String.[] (String.◌∷◌ c b) i j na nb e =
    absurd (nb.0 (sym (ap (first_or nul) e)))
scoped_key-injective (String.◌∷◌ c a) String.[] i j na nb e = absurd (na.0 (ap (first_or nul) e))
scoped_key-injective (String.◌∷◌ c a) (String.◌∷◌ d b) i j na nb e =
    let (same, ids) = scoped_key-injective a b i j na.1 nb.1 (ap rest e) in
    (ap₂ (λ x y. String.◌∷◌ x y) (ap (first_or nul) e) same, ids)

apart : (k k' : String) → k ≢ k' → str_eq k k' ≡ false
apart k k' ne = ground (arith, eq_iff k k')

-- A request that was taken in from one session, under an address that is new, where no session id
-- has a NUL character: a cancellation from the same session that names its id, neither empty nor
-- "null", cancels it, and no cancellation from another session does.
pub cancel_scoped-add :
    (r : Inflight) (scope other id : String) (e : ℕ) (p : CancelParams)
    → NulFree scope
    → NulFree other
    → scope ≢ other
    → ((k : String) → mem e (refs r k) ≡ false)
    → let r' = add r (scoped_key scope id) e in
      (cancel_key p ≡ id
        → str_eq id "" ≡ false
        → str_eq id "null" ≡ false
        → (cancel_scoped r' scope (some p)).marked e ≡ true)
      × ((cancel_scoped r' other (some p)).marked e ≡ r.marked e)
unfolding cancel_scoped
cancel_scoped-add r scope other id e p own_free other_free ne fresh = (by_own, by_other)
  where
    r' : Inflight
    r' = add r (scoped_key scope id) e

    by_own :
        cancel_key p ≡ id
        → str_eq id "" ≡ false
        → str_eq id "null" ≡ false
        → (cancel_scoped r' scope (some p)).marked e ≡ true
    by_own key_is filled named =
        rw (key_is, filled, named)
          (marked-cancel r' (scoped_key scope id) e
            ∙ rw (mem-add_self r (scoped_key scope id) e) refl)

    by_other : (cancel_scoped r' other (some p)).marked e ≡ r.marked e
    by_other = elim (Bool-cases (str_eq (cancel_key p) "" || str_eq (cancel_key p) "null")) [
      | inl skip ↦ rw skip (marked-add r (scoped_key scope id) e e)
      | inr named ↦
          let keys_apart : str_eq (scoped_key scope id) (scoped_key other (cancel_key p)) ≡ false =
            apart _ _ (λ same.
              ne (scoped_key-injective scope other id (cancel_key p) own_free other_free same).0) in
          rw named (
            marked-cancel r' (scoped_key other (cancel_key p)) e
            ∙ rw
                (
                  refs-add r (scoped_key scope id) (scoped_key other (cancel_key p)) e,
                  keys_apart,
                  fresh (scoped_key other (cancel_key p)),
                )
                (marked-add r (scoped_key scope id) e e))
    ]
