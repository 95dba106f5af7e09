-- ===== src/Session/Manager/Locks.antt =====
-- The lock of a session id: one holder at a time, and nothing but its own unlock frees it.
use mathlib.Core.Bool.{false≢true}
use pty_mcp.Base.{
  [], ℕ, ◌≡◌, ◌≢◌, refl, sym, ◌∙◌, ap, String, Bool, true, false, Option, none, some, List, arith,
  eq_iff, str_eq, ◌⊎◌, leb, Bool-cases, inl, inr,
}
use pty_mcp.Base.Dict.{Dict, empty, entry, size, lookup, lookup-insert, lookup-insert_self}
use pty_mcp.Session.Manager.{
  Session, Info, Manager, Error, Effect, LockSession, acquired, gave_up, is_locked, or_free,
  set_lock, max_sessions, add, get, found_session, close, close_found, detach, detach_found,
  delete_session, clear_secret, set_pending_secret, take_secret, unlock_session, is_idle, reap,
  reap_one, reap_entry, reap_entries,
}
use pty_mcp.Session.Manager.Valid.{
  Step, adds, gets, closing, detaching, deletes, clears, stages, takes, locks, unlocks, reaps,
}

add-session_locks :
    (m : Manager) (s : Session) (target : String) (now : ℕ)
    → (add m s target now).0.session_locks ≡ m.session_locks
unfolding add
add-session_locks m s target now = elim (Bool-cases (leb max_sessions (size m.sessions))) [
  | inl e ↦ rw e refl
  | inr e ↦ rw e refl
]

get-session_locks :
    (m : Manager) (id : String) (now : ℕ) → (get m id now).0.session_locks ≡ m.session_locks
unfolding get
get-session_locks m id now = found (lookup m.sessions id)
  where
    found : (o : Option Session) → (found_session m id now o).0.session_locks ≡ m.session_locks
    found none = refl
    found (some s) = refl

close-session_locks :
    (m : Manager) (result : Session → Option String) (id : String)
    → (close m result id).0.session_locks ≡ m.session_locks
unfolding close
close-session_locks m result id = found (lookup m.sessions id)
  where
    found :
        (o : Option Session)
        → (close_found (λ m. m) m result id o).0.session_locks ≡ m.session_locks
    found none = refl
    found (some s) = refl

detach-session_locks :
    (m : Manager) (result : Session → Option String) (id : String)
    → (detach m result id).0.session_locks ≡ m.session_locks
unfolding detach
detach-session_locks m result id = found (lookup m.sessions id)
  where
    found :
        (o : Option Session)
        → (detach_found (λ m. m) m result id o).0.session_locks ≡ m.session_locks
    found none = refl
    found (some s) = refl

take_secret-session_locks :
    (m : Manager) (id : String) → (take_secret m id).0.session_locks ≡ m.session_locks
unfolding take_secret
take_secret-session_locks m id = ground arith

reap_entry-session_locks :
    (timeout now : ℕ) (st : Manager × List Effect) (id : String) (info : Info)
    → (reap_entry timeout now st id info).0.session_locks ≡ st.0.session_locks
unfolding reap_entry
reap_entry-session_locks timeout now (m, out) id info =
    elim (Bool-cases (is_idle timeout now info)) [
      | inl idle ↦ rw idle (one (lookup m.sessions id))
      | inr busy ↦ rw busy refl
    ]
  where
    one : (o : Option Session) → (reap_one (m, out) id o).0.session_locks ≡ m.session_locks
    one none = refl
    one (some s) = refl

reap_entries-session_locks :
    (timeout now : ℕ) (st : Manager × List Effect) (es : Dict Info)
    → (reap_entries timeout now st es).0.session_locks ≡ st.0.session_locks
unfolding reap_entries
reap_entries-session_locks timeout now st empty = refl
reap_entries-session_locks timeout now st (entry id info es) =
    reap_entries-session_locks timeout now (reap_entry timeout now st id info) es
    ∙ reap_entry-session_locks timeout now st id info

-- What a step does to the lock of one id, if it does not unlock it.
Keeps : Manager → Manager → String → Type 0
Keeps m m' id = is_locked m id ≡ true → (is_locked m' id ≡ true) ⊎ (m' ≡ unlock_session m id)

same-Keeps : (m m' : Manager) (id : String) → m'.session_locks ≡ m.session_locks → Keeps m m' id
unfolding Keeps is_locked
same-Keeps m m' id e h = inl (ap (λ l. or_free (lookup l id)) e ∙ h)

set_lock-Keeps : (m : Manager) (j id : String) → Keeps m (set_lock m j (is_locked m j)) id
unfolding Keeps is_locked
set_lock-Keeps m j id h =
    inl (ground (arith, lookup-insert m.session_locks j id (is_locked m j), eq_iff j id))

locking-Keeps :
    {m : Manager} {done : Bool} {j : String} {r : Option Error} {m' : Manager} (id : String)
    → LockSession m done j r m'
    → Keeps m m' id
unfolding Keeps is_locked
locking-Keeps {m} {j = j} id (acquired e) h =
    inl (ground (arith, lookup-insert m.session_locks j id true, eq_iff j id))
locking-Keeps {m} {j = j} id (gave_up e) h = set_lock-Keeps m j id h

unlocking-Keeps : (m : Manager) (j id : String) → Keeps m (unlock_session m j) id
unfolding Keeps is_locked unlock_session
unlocking-Keeps m j id h = elim (Bool-cases (str_eq j id)) [
  | inl same ↦ inr (ap (unlock_session m) ((eq_iff j id).0 same))
  | inr other ↦ inl (ground (arith, lookup-insert m.session_locks j id false))
]

Step-Keeps :
    {result : Session → Option String} {m m' : Manager} (id : String)
    → Step result m m'
    → Keeps m m' id
unfolding set_pending_secret delete_session clear_secret reap
Step-Keeps id (adds m s target now) = same-Keeps _ _ id (add-session_locks m s target now)
Step-Keeps id (gets m j now) = same-Keeps _ _ id (get-session_locks m j now)
Step-Keeps {result} id (closing m j) = same-Keeps _ _ id (close-session_locks m result j)
Step-Keeps {result} id (detaching m j) = same-Keeps _ _ id (detach-session_locks m result j)
Step-Keeps id (deletes m j) = same-Keeps _ _ id refl
Step-Keeps id (clears m j) = same-Keeps _ _ id refl
Step-Keeps id (stages m j ps) = same-Keeps _ _ id refl
Step-Keeps id (takes m j) = same-Keeps _ _ id (take_secret-session_locks m j)
Step-Keeps id (locks done j l) = locking-Keeps id l
Step-Keeps id (unlocks m j) = unlocking-Keeps m j id
Step-Keeps id (reaps m now) =
    same-Keeps _ _ id (reap_entries-session_locks m.idle_timeout now (m, []) m.infos)

-- Any steps, of whatever call, but no unlock of `id`.
pub data Quiet (result : Session → Option String) (id : String) (s : Manager)
    : Manager → Type 0 where
  still : Quiet result id s s
  go :
      {t u : Manager}
      → Quiet result id s t
      → Step result t u
      → u ≢ unlock_session t id
      → Quiet result id s u

Quiet-locked :
    {result : Session → Option String} {id : String} {s t : Manager}
    → is_locked s id ≡ true
    → Quiet result id s t
    → is_locked t id ≡ true
unfolding Keeps
Quiet-locked h still = h
Quiet-locked {id = id} h (go q st ne) = elim (Step-Keeps id st (Quiet-locked h q)) [
  | inl l ↦ l
  | inr e ↦ absurd (ne e)
]

acquired-locked :
    {m : Manager} {id : String} {m' : Manager}
    → LockSession m false id none m'
    → is_locked m' id ≡ true
unfolding is_locked
acquired-locked {m} {id} (acquired e) = rw (lookup-insert_self m.session_locks id true) refl

-- Once a call has taken the lock of a session id, whatever steps of the manager follow but the
-- unlock of that id, the closing of the session and the reaper included, no other call with a live
-- context can take it.
pub LockSession-excludes :
    (result : Session → Option String) (m m' m'' : Manager) (id : String)
    → LockSession m false id none m'
    → Quiet result id m' m''
    → (r : Option Error) (m3 : Manager) → ¬ (LockSession m'' false id r m3)
LockSession-excludes result m m' m'' id l q r m3 (acquired e) =
    false≢true (sym e ∙ Quiet-locked (acquired-locked l) q)
LockSession-excludes result m m' m'' id l q r m3 (gave_up e) = false≢true e

-- After `UnlockSession` the lock can be taken at once.
pub LockSession-unlock_session :
    (m : Manager) (id : String)
    → (m' : Manager) × LockSession (unlock_session m id) false id none m'
LockSession-unlock_session m id = (set_lock (unlock_session m id) id true, acquired free)
  where
    free : is_locked (unlock_session m id) id ≡ false
    free = unfold is_locked unlock_session in rw (lookup-insert_self m.session_locks id false) refl

pub is_locked-unlock_session :
    (m : Manager) (id : String) → is_locked (unlock_session m id) id ≡ false
unfolding is_locked unlock_session
is_locked-unlock_session m id = rw (lookup-insert_self m.session_locks id false) refl
