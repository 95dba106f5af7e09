-- ===== src/Session/Manager.antt =====
-- internal/session/session.go: `Manager`. A session is known to it through the interface `Session`:
-- its id, its kind, whether it is alive and what `Close` returns; the last two are of the session
-- itself and come in as arguments. Each method holds its mutex while it reads and writes a map, so
-- that is one step; `Close` and `Detach` take a second mutex for the staged secret after the first:
-- `close_between` and `detach_between` are given what others do in between, and in the steps of Valid
-- the two parts stand both as one and one by one. What a method
-- closes after that is returned as a list. Times are numbers, and an
-- elapsed time is compared without subtracting.
pub mod Valid
pub mod Lifecycle
pub mod Secrets
pub mod Locks
pub mod Reaper
mod Tests
use pty_mcp.Base.{
  ℕ, ◌+◌, ◌≡◌, String, Bool, true, false, Option, none, some, List, [], ◌∷◌, map, leb, ltb,
  if◌then◌else◌,
}
use pty_mcp.Base.Dict.{Dict, empty, entry, lookup, insert, remove, size, entries}

-- what `Type()` tells apart; only `remote` is a `*RemoteSession`
pub data Kind : Type 0 where
  ssh serial local remote : Kind

pub record Session : Type 0 where
  pub id : String
  pub kind : Kind

pub record Info : Type 0 where
  pub id : String
  pub kind : Kind
  pub target : String
  pub is_alive : Bool
  pub created_at : ℕ
  pub last_used : ℕ

pub record PendingSecret : Type 0 where
  pub secret : List ℕ
  pub line_ending : List ℕ

-- A lock is a channel of capacity 1: whether its token is taken.
pub record Manager : Type 0 where
  pub sessions : Dict Session
  pub infos : Dict Info
  pub idle_timeout : ℕ
  pub pending_secrets : Dict PendingSecret
  pub session_locks : Dict Bool

pub data Error : Type 0 where
  not_found : String → Error
  limit_reached : Error
  cancelled : Error
  close_failed : String → Error

-- What a method does to the session itself, after the maps.
pub data Effect : Type 0 where
  closes detaches : Session → Effect

abbrev pub max_sessions : ℕ
max_sessions = 50

unfoldable pub new_manager : ℕ → Manager
new_manager idle_seconds = record {
  sessions = empty;
  infos = empty;
  idle_timeout = idle_seconds;
  pending_secrets = empty;
  session_locks = empty;
}

abbrev pub new_info : Session → String → ℕ → Info
new_info s target now = record {
  id = s.id;
  kind = s.kind;
  target = target;
  is_alive = true;
  created_at = now;
  last_used = now;
}

-- `Add`: at the limit the new session is closed again.
unfoldable pub add : Manager → Session → String → ℕ → Manager × Option Error × List Effect
add m s target now =
    if leb max_sessions (size m.sessions) then (m, some limit_reached, closes s ∷ []) else (
      record m {
        sessions = insert m.sessions s.id s;
        infos = insert m.infos s.id (new_info s target now);
      },
      none,
      [],
    )

-- `if info, ok := m.infos[id]; ok { … }` of `Get`
unfoldable pub touch : Dict Info → String → ℕ → Option Info → Dict Info
touch infos id now none = infos
touch infos id now (some info) = insert infos id (record info { last_used = now })

pub data Found : Type 0 where
  found : Session → Found
  missing : Error → Found

unfoldable pub found_session : Manager → String → ℕ → Option Session → Manager × Found
found_session m id now none = (m, missing (not_found id))
found_session m id now (some s) =
    (record m { infos = touch m.infos id now (lookup m.infos id) }, found s)

-- `Get`
unfoldable pub get : Manager → String → ℕ → Manager × Found
unfolding found_session touch
get m id now = found_session m id now (lookup m.sessions id)

-- The liveness of the session, where there is one, replaces the recorded one.
unfoldable pub refresh : (Session → Bool) → Info → Option Session → Info
refresh alive info none = info
refresh alive info (some s) = record info { is_alive = alive s }

-- `GetInfo`; `none` is the zero `Info{}`
unfoldable pub get_info : Manager → (Session → Bool) → String → Option Info
unfolding refresh
get_info m alive id = elim (lookup m.infos id) [
  | none ↦ none
  | some info ↦ some (refresh alive info (lookup m.sessions id))
]

-- `List`
pub list_infos : Manager → (Session → Bool) → List Info
unfolding refresh
list_infos m alive =
    map (λ (e : String × Info). refresh alive e.1 (lookup m.sessions e.0)) (entries m.infos)

-- `clearSecret`
pub clear_secret : Manager → String → Manager
clear_secret m id = record m { pending_secrets = remove m.pending_secrets id }

-- The deletions of `Close` and `Detach`, under the manager's mutex.
pub delete_session : Manager → String → Manager
delete_session m id = record m { sessions = remove m.sessions id; infos = remove m.infos id }

-- The part of `Close` and `Detach` up to the call of the session's own method; `between` is what other
-- calls do from the release of the manager's mutex to the taking of that of the secrets.
forget : (Manager → Manager) → Manager → String → Manager
unfolding clear_secret delete_session
forget between m id = clear_secret (between (delete_session m id)) id

abbrev pub failure : Option String → Option Error
failure none = none
failure (some e) = some (close_failed e)

close_found :
    (Manager → Manager)
    → Manager
    → (Session → Option String)
    → String
    → Option Session
    → Manager × Option Error × List Effect
close_found between m result id none = (m, some (not_found id), [])
close_found between m result id (some s) = (forget between m id, failure (result s), closes s ∷ [])

-- `Close`; `result` is what the session's own `Close` returns.
pub close_between :
    (Manager → Manager)
    → Manager
    → (Session → Option String)
    → String
    → Manager × Option Error × List Effect
unfolding close_found forget
close_between between m result id = close_found between m result id (lookup m.sessions id)

-- `Close`, where no other call comes between
pub close : Manager → (Session → Option String) → String → Manager × Option Error × List Effect
unfolding close_between
close m result id = close_between (λ m. m) m result id

abbrev pub let_go : Session → Kind → Effect
let_go s remote = detaches s
let_go s _ = closes s

detach_found :
    (Manager → Manager)
    → Manager
    → (Session → Option String)
    → String
    → Option Session
    → Manager × Option Error × List Effect
detach_found between m result id none = (m, some (not_found id), [])
detach_found between m result id (some s) =
    (forget between m id, failure (result s), let_go s s.kind ∷ [])

-- `Detach`; `result` is what the session's own `Detach`, or else its `Close`, returns.
pub detach_between :
    (Manager → Manager)
    → Manager
    → (Session → Option String)
    → String
    → Manager × Option Error × List Effect
unfolding detach_found forget
detach_between between m result id = detach_found between m result id (lookup m.sessions id)

-- `Detach`, where no other call comes between
pub detach : Manager → (Session → Option String) → String → Manager × Option Error × List Effect
unfolding detach_between
detach m result id = detach_between (λ m. m) m result id

-- `SetPendingSecret`, `TakeSecret`
pub set_pending_secret : Manager → String → PendingSecret → Manager
set_pending_secret m id ps = record m { pending_secrets = insert m.pending_secrets id ps }

unfoldable pub take_secret : Manager → String → Manager × Option PendingSecret
take_secret m id = elim (lookup m.pending_secrets id) [
  | none ↦ (m, none)
  | some ps ↦ (record m { pending_secrets = remove m.pending_secrets id }, some ps)
]

-- `sessionLockChan`: whether the lock for the id is taken; one that is not there yet is free.
abbrev pub or_free : Option Bool → Bool
or_free none = false
or_free (some b) = b

pub is_locked : Manager → String → Bool
is_locked m id = or_free (lookup m.session_locks id)

abbrev pub set_lock : Manager → String → Bool → Manager
set_lock m id b = record m { session_locks = insert m.session_locks id b }

-- `LockSession`: the send succeeds if the channel is empty; a context that is done ends the wait.
-- Where both can go on, Go picks one at random; where neither can, the call waits.
pub data LockSession (m : Manager) (done : Bool) (id : String)
    : Option Error → Manager → Type 0 where
  acquired : is_locked m id ≡ false → LockSession m done id none (set_lock m id true)
  gave_up : done ≡ true → LockSession m done id (some cancelled) (set_lock m id (is_locked m id))

-- `UnlockSession`
pub unlock_session : Manager → String → Manager
unlock_session m id = set_lock m id false

-- `now.Sub(info.LastUsed) > m.idleTimeout`
abbrev pub is_idle : ℕ → ℕ → Info → Bool
is_idle timeout now info = ltb (info.last_used + timeout) now

pub reap_one : Manager × List Effect → String → Option Session → Manager × List Effect
unfolding delete_session
reap_one (m, out) id none = (m, out)
reap_one (m, out) id (some s) = (delete_session m id, closes s ∷ out)

-- one round of the loop of `idleReaper`
pub reap_entry : ℕ → ℕ → Manager × List Effect → String → Info → Manager × List Effect
unfolding reap_one
reap_entry timeout now (m, out) id info =
    if is_idle timeout now info then reap_one (m, out) id (lookup m.sessions id) else (m, out)

-- the loop, over the entries as they were when it began
pub reap_entries : ℕ → ℕ → Manager × List Effect → Dict Info → Manager × List Effect
reap_entries timeout now st empty = st
reap_entries timeout now st (entry id info rest) =
    reap_entries timeout now (reap_entry timeout now st id info) rest

-- One tick of `idleReaper`: what it deletes under the lock, and closes after it.
pub reap : Manager → ℕ → Manager × List Effect
unfolding reap_entries reap_entry
reap m now = reap_entries m.idle_timeout now (m, []) m.infos
