-- ===== src/Session/Manager/Reaper.antt =====
-- One tick of `idleReaper` takes out exactly the idle sessions.
use pty_mcp.Base.{
  ℕ, ◌≡◌, refl, ◌∙◌, ap, String, Bool, true, false, Option, none, some, List, [], ◌∷◌, ◌⊎◌, ◌&&◌,
  arith, eq_iff, str_eq, Bool-cases, inl, inr, if◌then◌else◌,
}
use pty_mcp.Base.Dict.{Dict, empty, entry, Distinct, lookup, lookup-remove}
use pty_mcp.Session.Manager.{
  Session, Info, Manager, Effect, closes, is_idle, reap, reap_one, reap_entry, reap_entries,
}
use pty_mcp.Session.Manager.Valid.{IsValid, has, reap_entry-IsValid}

-- Whether the entry of a key, if there is one, is idle.
abbrev idle_at : ℕ → ℕ → Option Info → Bool
idle_at timeout now none = false
idle_at timeout now (some info) = is_idle timeout now info

-- An effect that was asked for.
abbrev pub Asked : Effect → List Effect → Type 0
Asked e [] = ⊥
Asked e (x ∷ xs) = (x ≡ e) ⊎ Asked e xs

-- One deletion, if the session is there.
module _ (m : Manager) (out : List Effect) (id : String) where
  one_sessions :
      (o : Option Session) (k : String)
      → lookup m.sessions id ≡ o
      → lookup (reap_one (m, out) id o).0.sessions k
        ≡ (if str_eq id k then none else lookup m.sessions k)
  unfolding reap_one
  one_sessions none k e = ground (arith, eq_iff id k)
  one_sessions (some s) k e = lookup-remove m.sessions id k

  one_infos :
      (o : Option Session) (k : String)
      → lookup m.sessions id ≡ o
      → has (lookup m.sessions id) ≡ has (lookup m.infos id)
      → lookup (reap_one (m, out) id o).0.infos k ≡ (if str_eq id k then none else lookup m.infos k)
  unfolding reap_one
  one_infos none k e same = ground (arith, eq_iff id k)
  one_infos (some s) k e same = lookup-remove m.infos id k

  one-Asked : (o : Option Session) (x : Effect) → Asked x out → Asked x (reap_one (m, out) id o).1
  unfolding reap_one
  one-Asked none x a = a
  one-Asked (some s) x a = inr a

-- One round, at its own key and at any other.
module _ (timeout now : ℕ) (m : Manager) (out : List Effect) (id : String) (info : Info) where
  entry_sessions :
      (k : String)
      → lookup (reap_entry timeout now (m, out) id info).0.sessions k
        ≡ (if str_eq id k && is_idle timeout now info then none else lookup m.sessions k)
  unfolding reap_entry
  entry_sessions k = elim (Bool-cases (is_idle timeout now info)) [
    | inl idle ↦ rw (idle, one_sessions m out id (lookup m.sessions id) k refl) (ground arith)
    | inr busy ↦ rw busy (ground arith)
  ]

  entry_infos :
      (k : String)
      → has (lookup m.sessions id) ≡ has (lookup m.infos id)
      → lookup (reap_entry timeout now (m, out) id info).0.infos k
        ≡ (if str_eq id k && is_idle timeout now info then none else lookup m.infos k)
  unfolding reap_entry
  entry_infos k same = elim (Bool-cases (is_idle timeout now info)) [
    | inl idle ↦ rw (idle, one_infos m out id (lookup m.sessions id) k refl same) (ground arith)
    | inr busy ↦ rw busy (ground arith)
  ]

  entry-Asked : (x : Effect) → Asked x out → Asked x (reap_entry timeout now (m, out) id info).1
  unfolding reap_entry
  entry-Asked x a = elim (Bool-cases (is_idle timeout now info)) [
    | inl idle ↦ rw idle (one-Asked m out id (lookup m.sessions id) x a)
    | inr busy ↦ rw busy a
  ]

  entry_closes :
      (s : Session)
      → is_idle timeout now info ≡ true
      → lookup m.sessions id ≡ some s
      → Asked (closes s) (reap_entry timeout now (m, out) id info).1
  unfolding reap_entry reap_one
  entry_closes s idle e = rw (idle, e) (inl refl)

-- The loop over distinct keys.
module _ (timeout now : ℕ) where
  loop_sessions :
      (st : Manager × List Effect) (es : Dict Info) (k : String)
      → Distinct es
      → lookup (reap_entries timeout now st es).0.sessions k
        ≡ (if idle_at timeout now (lookup es k) then none else lookup st.0.sessions k)
  unfolding reap_entries lookup
  loop_sessions st empty k d = refl
  loop_sessions (m, out) (entry id info es) k d = ground (
    arith,
    loop_sessions (reap_entry timeout now (m, out) id info) es k d.1,
    entry_sessions timeout now m out id info k,
    d.0,
    eq_iff id k,
  )

  loop_infos :
      (st : Manager × List Effect) (es : Dict Info) (k : String)
      → Distinct es
      → IsValid st.0
      → lookup (reap_entries timeout now st es).0.infos k
        ≡ (if idle_at timeout now (lookup es k) then none else lookup st.0.infos k)
  unfolding reap_entries lookup
  loop_infos st empty k d v = refl
  loop_infos (m, out) (entry id info es) k d v = ground (
    arith,
    loop_infos (reap_entry timeout now (m, out) id info) es k d.1
        (reap_entry-IsValid timeout now (m, out) id info v),
    entry_infos timeout now m out id info k (v.same_keys id),
    d.0,
    eq_iff id k,
  )

  loop-Asked :
      (st : Manager × List Effect) (es : Dict Info) (x : Effect)
      → Asked x st.1
      → Asked x (reap_entries timeout now st es).1
  unfolding reap_entries
  loop-Asked st empty x a = a
  loop-Asked (m, out) (entry id info es) x a =
      loop-Asked (reap_entry timeout now (m, out) id info) es x
        (entry-Asked timeout now m out id info x a)

  loop_closes :
      (st : Manager × List Effect) (es : Dict Info) (k : String) (s : Session)
      → Distinct es
      → idle_at timeout now (lookup es k) ≡ true
      → lookup st.0.sessions k ≡ some s
      → Asked (closes s) (reap_entries timeout now st es).1
  unfolding reap_entries lookup
  loop_closes st empty k s d idle e = absurd (cc idle)
  loop_closes (m, out) (entry id info es) k s d idle e = elim (Bool-cases (str_eq id k)) [
    | inl same ↦ loop-Asked (reap_entry timeout now (m, out) id info) es (closes s) (
        entry_closes timeout now m out id info s (rw same at idle)
          (ap (lookup m.sessions) ((eq_iff id k).0 same) ∙ e))
    | inr other ↦
        loop_closes (reap_entry timeout now (m, out) id info) es k s d.1 (rw other at idle)
          (entry_sessions timeout now m out id info k ∙ rw other e)
  ]

  entry_secrets :
      (m : Manager) (out : List Effect) (id : String) (info : Info)
      → (reap_entry timeout now (m, out) id info).0.pending_secrets ≡ m.pending_secrets
  unfolding reap_entry
  entry_secrets m out id info = elim (Bool-cases (is_idle timeout now info)) [
    | inl idle ↦ rw idle (one (lookup m.sessions id))
    | inr busy ↦ rw busy refl
  ]
    where
      one : (o : Option Session) → (reap_one (m, out) id o).0.pending_secrets ≡ m.pending_secrets
      one none = refl
      one (some s) = refl

  loop_secrets :
      (st : Manager × List Effect) (es : Dict Info)
      → (reap_entries timeout now st es).0.pending_secrets ≡ st.0.pending_secrets
  unfolding reap_entries
  loop_secrets st empty = refl
  loop_secrets (m, out) (entry id info es) =
      loop_secrets (reap_entry timeout now (m, out) id info) es ∙ entry_secrets m out id info

-- One reaper tick in a valid manager: an id idle for longer than the timeout loses its session and
-- its entry, and the session is closed; every other id keeps both; staged secrets stay, those of
-- reaped ids included.
pub reap_lem :
    (m : Manager) (now : ℕ) (k : String) (info : Info) (s : Session)
    → IsValid m
    → lookup m.infos k ≡ some info
    → lookup m.sessions k ≡ some s
    → (is_idle m.idle_timeout now info ≡ true
        → (lookup (reap m now).0.sessions k ≡ none)
          × (lookup (reap m now).0.infos k ≡ none)
          × Asked (closes s) (reap m now).1)
      × (is_idle m.idle_timeout now info ≡ false
          → (lookup (reap m now).0.sessions k ≡ some s)
            × (lookup (reap m now).0.infos k ≡ some info))
      × (lookup (reap m now).0.pending_secrets k ≡ lookup m.pending_secrets k)
unfolding reap
reap_lem m now k info s v ei es = (
  λ idle. (
    loop_sessions m.idle_timeout now (m, []) m.infos k v.distinct ∙ rw (ei, idle) refl,
    loop_infos m.idle_timeout now (m, []) m.infos k v.distinct v ∙ rw (ei, idle) refl,
    loop_closes m.idle_timeout now (m, []) m.infos k s v.distinct (rw ei idle) es,
  ),
  λ busy. (
    loop_sessions m.idle_timeout now (m, []) m.infos k v.distinct ∙ rw (ei, busy) es,
    loop_infos m.idle_timeout now (m, []) m.infos k v.distinct v ∙ rw (ei, busy) refl,
  ),
  ap (λ d. lookup d k) (loop_secrets m.idle_timeout now (m, []) m.infos),
)
