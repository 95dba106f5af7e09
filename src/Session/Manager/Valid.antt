-- ===== src/Session/Manager/Valid.antt =====
-- What holds of a manager after any calls: both maps have the same keys, an entry stands at its own
-- id, and there are never more than fifty sessions.
use pty_mcp.Base.{
  ℕ, ◌≤◌, ◌≡◌, refl, String, Bool, true, false, Option, none, some, List, [], arith, eq_iff, leb,
  Bool-cases, Option-cases, inl, inr,
}
use pty_mcp.Base.Dict.{
  Dict, empty, entry, Distinct, insert-Distinct, remove-Distinct, lookup, insert, remove, size,
  lookup-insert, lookup-remove, size-insert, size-remove,
}
use pty_mcp.Session.Manager.{
  Session, Info, PendingSecret, Manager, Error, Effect, LockSession, acquired, gave_up, is_idle,
  max_sessions, new_manager, add, get, found_session, touch, close, close_found, detach,
  detach_found, forget, delete_session, clear_secret, new_info, is_locked, set_pending_secret,
  take_secret, unlock_session, reap, reap_one, reap_entry, reap_entries,
}

abbrev pub has {ℓ} : {A : Type ℓ} → Option A → Bool
has none = false
has (some a) = true

pub record IsValid (m : Manager) : Type 0 where
  pub same_keys : (k : String) → has (lookup m.sessions k) ≡ has (lookup m.infos k)
  pub own_id : (k : String) (s : Session) → lookup m.sessions k ≡ some s → s.id ≡ k
  pub own_info : (k : String) (i : Info) → lookup m.infos k ≡ some i → i.id ≡ k
  pub distinct : Distinct m.infos
  pub limit : size m.sessions ≤ max_sessions

new_manager-IsValid : (n : ℕ) → IsValid (new_manager n)
unfolding new_manager lookup size
new_manager-IsValid n = record {
  same_keys = λ k. refl;
  own_id = λ k s e. cc;
  own_info = λ k i e. cc;
  distinct = tt;
  limit = omega arith;
}

-- The invariant for two maps and a bound, whatever the rest of the manager is.
abbrev Fits : Dict Session → Dict Info → Type 0
Fits ss is = (k : String) → has (lookup ss k) ≡ has (lookup is k)

insert-Fits :
    (ss : Dict Session) (is : Dict Info) (id : String) (s : Session) (i : Info)
    → Fits ss is
    → Fits (insert ss id s) (insert is id i)
insert-Fits ss is id s i f k = ground (arith, lookup-insert ss id k s, lookup-insert is id k i, f k)

remove-Fits :
    (ss : Dict Session) (is : Dict Info) (id : String)
    → Fits ss is
    → Fits (remove ss id) (remove is id)
remove-Fits ss is id f k = ground (arith, lookup-remove ss id k, lookup-remove is id k, f k)

module _ {m : Manager} (v : IsValid m) where
  add-IsValid : (s : Session) (target : String) (now : ℕ) → IsValid (add m s target now).0
  unfolding add
  add-IsValid s target now = elim (Bool-cases (leb max_sessions (size m.sessions))) [
    | inl full ↦ rw full v
    | inr room ↦ rw room (record {
      same_keys = insert-Fits m.sessions m.infos s.id s (new_info s target now) v.same_keys;
      own_id =
          λ k t e. ground (arith, lookup-insert m.sessions s.id k s, v.own_id k t, eq_iff s.id k);
      own_info = λ k i e. ground (
        arith,
        lookup-insert m.infos s.id k (new_info s target now),
        v.own_info k i,
        eq_iff s.id k,
      );
      distinct = insert-Distinct m.infos s.id (new_info s target now) v.distinct;
      limit = ground (arith, size-insert m.sessions s.id s);
    })
  ]

  touched-IsValid :
      (id : String) (now : ℕ) (o : Option Info)
      → lookup m.infos id ≡ o
      → IsValid (record m { infos = touch m.infos id now o })
  unfolding touch
  touched-IsValid id now none e = record {
    same_keys = v.same_keys;
    own_id = v.own_id;
    own_info = v.own_info;
    distinct = v.distinct;
    limit = v.limit;
  }
  touched-IsValid id now (some info) e = record {
    same_keys = λ k. ground (
      arith,
      lookup-insert m.infos id k (record info { last_used = now }),
      v.same_keys k,
      eq_iff id k,
    );
    own_id = v.own_id;
    own_info = λ k i p. ground (
      arith,
      lookup-insert m.infos id k (record info { last_used = now }),
      v.own_info k i,
      v.own_info id info,
      eq_iff id k,
    );
    distinct = insert-Distinct m.infos id (record info { last_used = now }) v.distinct;
    limit = v.limit;
  }

  get-IsValid : (id : String) (now : ℕ) → IsValid (get m id now).0
  unfolding get
  get-IsValid id now = found (lookup m.sessions id)
    where
      found : (o : Option Session) → IsValid (found_session m id now o).0
      found none = v
      found (some s) = touched-IsValid id now (lookup m.infos id) refl

  delete_session-IsValid : (id : String) → IsValid (delete_session m id)
  unfolding delete_session
  delete_session-IsValid id = record {
    same_keys = remove-Fits m.sessions m.infos id v.same_keys;
    own_id = λ k s e. ground (arith, lookup-remove m.sessions id k, v.own_id k s);
    own_info = λ k i e. ground (arith, lookup-remove m.infos id k, v.own_info k i);
    distinct = remove-Distinct m.infos id v.distinct;
    limit = omega (arith, size-remove m.sessions id, v.limit);
  }

  -- A change of the other fields keeps the invariant.
  other-IsValid :
      (secrets : Dict PendingSecret) (locks : Dict Bool)
      → IsValid (record m { pending_secrets = secrets; session_locks = locks })
  other-IsValid secrets locks = record {
    same_keys = v.same_keys;
    own_id = v.own_id;
    own_info = v.own_info;
    distinct = v.distinct;
    limit = v.limit;
  }

forget-IsValid : {m : Manager} (id : String) → IsValid m → IsValid (forget (λ m. m) m id)
unfolding forget
forget-IsValid {m} id v =
    other-IsValid (delete_session-IsValid v id) (remove m.pending_secrets id) m.session_locks

close-IsValid :
    {m : Manager} (result : Session → Option String) (id : String)
    → IsValid m
    → IsValid (close m result id).0
unfolding close
close-IsValid {m} result id v = found (lookup m.sessions id)
  where
    found : (o : Option Session) → IsValid (close_found (λ m. m) m result id o).0
    found none = v
    found (some s) = forget-IsValid id v

detach-IsValid :
    {m : Manager} (result : Session → Option String) (id : String)
    → IsValid m
    → IsValid (detach m result id).0
unfolding detach
detach-IsValid {m} result id v = found (lookup m.sessions id)
  where
    found : (o : Option Session) → IsValid (detach_found (λ m. m) m result id o).0
    found none = v
    found (some s) = forget-IsValid id v

take_secret-IsValid : {m : Manager} (id : String) → IsValid m → IsValid (take_secret m id).0
unfolding take_secret
take_secret-IsValid {m} id v = elim (Option-cases (lookup m.pending_secrets id)) [
  | inl e ↦ rw (e, take_secret) v
  | inr (ps, e) ↦
      rw (e, take_secret) (other-IsValid v (remove m.pending_secrets id) m.session_locks)
]

pub reap_entry-IsValid :
    (timeout now : ℕ) (st : Manager × List Effect) (id : String) (info : Info)
    → IsValid st.0
    → IsValid (reap_entry timeout now st id info).0
unfolding reap_entry
reap_entry-IsValid timeout now (m, out) id info v = elim (Bool-cases (is_idle timeout now info)) [
  | inl idle ↦ rw idle (one (lookup m.sessions id))
  | inr busy ↦ rw busy v
]
  where
    one : (o : Option Session) → IsValid (reap_one (m, out) id o).0
    one none = v
    one (some s) = delete_session-IsValid v id

reap_entries-IsValid :
    (timeout now : ℕ) (st : Manager × List Effect) (es : Dict Info)
    → IsValid st.0
    → IsValid (reap_entries timeout now st es).0
unfolding reap_entries
reap_entries-IsValid timeout now st empty v = v
reap_entries-IsValid timeout now st (entry id info es) v =
    reap_entries-IsValid timeout now (reap_entry timeout now st id info) es
      (reap_entry-IsValid timeout now st id info v)

-- The calls that other parts of the program make, in any order, and the ticks of the reaper.
pub data Step (result : Session → Option String) : Manager → Manager → Type 0 where
  adds :
      (m : Manager) (s : Session) (target : String) (now : ℕ) → Step result m (add m s target now).0
  gets : (m : Manager) (id : String) (now : ℕ) → Step result m (get m id now).0
  closing : (m : Manager) (id : String) → Step result m (close m result id).0
  detaching : (m : Manager) (id : String) → Step result m (detach m result id).0
  -- the two critical sections of `Close` and `Detach`, between which other calls may come
  deletes : (m : Manager) (id : String) → Step result m (delete_session m id)
  clears : (m : Manager) (id : String) → Step result m (clear_secret m id)
  stages :
      (m : Manager) (id : String) (ps : PendingSecret) → Step result m (set_pending_secret m id ps)
  takes : (m : Manager) (id : String) → Step result m (take_secret m id).0
  locks :
      {m m' : Manager} {r : Option Error} (done : Bool) (id : String)
      → LockSession m done id r m'
      → Step result m m'
  unlocks : (m : Manager) (id : String) → Step result m (unlock_session m id)
  reaps : (m : Manager) (now : ℕ) → Step result m (reap m now).0

pub data Reach (result : Session → Option String) (s : Manager) : Manager → Type 0 where
  here : Reach result s s
  next : {t u : Manager} → Reach result s t → Step result t u → Reach result s u

LockSession-IsValid :
    {m : Manager} {done : Bool} {id : String} {r : Option Error} {m' : Manager}
    → LockSession m done id r m'
    → IsValid m
    → IsValid m'
LockSession-IsValid {m} {id = id} (acquired e) v =
    other-IsValid v m.pending_secrets (insert m.session_locks id true)
LockSession-IsValid {m} {id = id} (gave_up e) v =
    other-IsValid v m.pending_secrets (insert m.session_locks id (is_locked m id))

pub Step-IsValid :
    {result : Session → Option String} {m m' : Manager} → Step result m m' → IsValid m → IsValid m'
unfolding set_pending_secret unlock_session clear_secret reap
Step-IsValid (adds m s target now) v = add-IsValid v s target now
Step-IsValid (gets m id now) v = get-IsValid v id now
Step-IsValid {result} (closing m id) v = close-IsValid result id v
Step-IsValid {result} (detaching m id) v = detach-IsValid result id v
Step-IsValid (deletes m id) v = delete_session-IsValid v id
Step-IsValid (clears m id) v = other-IsValid v (remove m.pending_secrets id) m.session_locks
Step-IsValid (stages m id ps) v = other-IsValid v (insert m.pending_secrets id ps) m.session_locks
Step-IsValid (takes m id) v = take_secret-IsValid id v
Step-IsValid (locks done id l) v = LockSession-IsValid l v
Step-IsValid (unlocks m id) v = other-IsValid v m.pending_secrets (insert m.session_locks id false)
Step-IsValid (reaps m now) v = reap_entries-IsValid m.idle_timeout now (m, []) m.infos v

-- From a new manager, any sequence of calls and reaper ticks, those that come between the two parts
-- of a `Close` or `Detach` included, leads to a manager whose two maps have the same keys, whose
-- entries stand at their own ids, and which has at most fifty sessions.
pub Reach-IsValid :
    (result : Session → Option String) (n : ℕ) {m : Manager}
    → Reach result (new_manager n) m
    → IsValid m
Reach-IsValid result n here = new_manager-IsValid n
Reach-IsValid result n (next r st) = Step-IsValid st (Reach-IsValid result n r)
