-- ===== src/Session/Manager/Lifecycle.antt =====
-- From `Add` to `Close` and `Detach`, as the tool handlers see it through `Get`.
use pty_mcp.Base.{
  ◌∙◌, ℕ, ◌≤◌, ◌<◌, ◌≡◌, ◌≢◌, refl, String, false, Option, none, some, [], ◌∷◌, arith, le→leb, leb,
}
use pty_mcp.Base.Dict.{
  lookup, size, lookup-insert_self, lookup-insert_ne, lookup-remove_self, lookup-remove_ne,
}
use pty_mcp.Session.Manager.{
  Session, Manager, not_found, limit_reached, closes, found, missing, max_sessions, delete_session,
  failure, let_go, add, get, close, close_between, detach, forget, take_secret,
}

get-found :
    (m : Manager) (id : String) (now : ℕ) (s : Session)
    → lookup m.sessions id ≡ some s
    → (get m id now).1 ≡ found s
unfolding get
get-found m id now s e = rw e refl

get-missing :
    (m : Manager) (id : String) (now : ℕ)
    → lookup m.sessions id ≡ none
    → get m id now ≡ (m, missing (not_found id))
unfolding get
get-missing m id now e = rw e refl

-- Below the limit an added session is found under its id and the sessions under other ids stay; at
-- the limit nothing changes, the new session is closed and the limit error is returned.
pub add_lem :
    (m : Manager) (s : Session) (target : String) (now later : ℕ)
    → (size m.sessions < max_sessions
        → ((get (add m s target now).0 s.id later).1 ≡ found s)
          × ((add m s target now).1 ≡ none)
          × ((k : String)
              → s.id ≢ k
              → lookup (add m s target now).0.sessions k ≡ lookup m.sessions k))
      × (max_sessions ≤ size m.sessions
          → add m s target now ≡ (m, some limit_reached, closes s ∷ []))
unfolding add
add_lem m s target now later = (room, full)
  where
    room :
        size m.sessions < max_sessions
        → ((get (add m s target now).0 s.id later).1 ≡ found s)
          × ((add m s target now).1 ≡ none)
          × ((k : String)
              → s.id ≢ k
              → lookup (add m s target now).0.sessions k ≡ lookup m.sessions k)
    room lt =
        let e : leb max_sessions (size m.sessions) ≡ false = ground arith in
        rw e (
          get-found _ s.id later s (lookup-insert_self m.sessions s.id s),
          refl,
          λ k ne. lookup-insert_ne m.sessions s.id k s ne,
        )

    full :
        max_sessions ≤ size m.sessions → add m s target now ≡ (m, some limit_reached, closes s ∷ [])
    full le = rw (le→leb _ _ le) refl

-- What `forget` leaves of a session, and of the others.
pub record Gone (m m' : Manager) (id : String) : Type 0 where
  pub not_there : (now : ℕ) → get m' id now ≡ (m', missing (not_found id))
  pub no_secret : (take_secret m' id).1 ≡ none
  pub others : (k : String) → id ≢ k → lookup m'.sessions k ≡ lookup m.sessions k
  pub other_infos : (k : String) → id ≢ k → lookup m'.infos k ≡ lookup m.infos k
  pub other_secrets :
      (k : String) → id ≢ k → lookup m'.pending_secrets k ≡ lookup m.pending_secrets k
  pub locks_stay : m'.session_locks ≡ m.session_locks

forget-Gone : (m : Manager) (id : String) → Gone m (forget (λ m. m) m id) id
unfolding forget take_secret
forget-Gone m id = record {
  not_there = λ now. get-missing (forget (λ m. m) m id) id now (lookup-remove_self m.sessions id);
  no_secret = rw (lookup-remove_self m.pending_secrets id, take_secret) refl;
  others = lookup-remove_ne m.sessions id;
  other_infos = lookup-remove_ne m.infos id;
  other_secrets = lookup-remove_ne m.pending_secrets id;
  locks_stay = refl;
}

-- A session that others leave alone between the two parts of `Close` is gone after it, and closed.
pub close_between-gone :
    (between : Manager → Manager) (m : Manager) (result : Session → Option String) (id : String)
    (s : Session)
    → lookup m.sessions id ≡ some s
    → ((m' : Manager) → lookup (between m').sessions id ≡ lookup m'.sessions id)
    → (lookup (close_between between m result id).0.sessions id ≡ none)
      × ((close_between between m result id).2 ≡ closes s ∷ [])
unfolding close_between
close_between-gone between m result id s known keeps =
    rw known (keeps (delete_session m id) ∙ lookup-remove_self m.sessions id, refl)

-- `Close` and `Detach` of a known id make it unknown, drop its staged secret, keep all other
-- entries and all locks, and close or (a remote session, by `Detach`) detach the session; of an
-- unknown id they change nothing and return the error.
pub close-Gone :
    (m : Manager) (result : Session → Option String) (id : String)
    → ((s : Session)
        → lookup m.sessions id ≡ some s
        → Gone m (close m result id).0 id
          × ((close m result id).1 ≡ failure (result s))
          × ((close m result id).2 ≡ closes s ∷ [])
          × ((detach m result id).0 ≡ (close m result id).0)
          × ((detach m result id).1 ≡ failure (result s))
          × ((detach m result id).2 ≡ let_go s s.kind ∷ []))
      × (lookup m.sessions id ≡ none
          → (close m result id ≡ (m, some (not_found id), []))
            × (detach m result id ≡ (m, some (not_found id), [])))
unfolding close detach
close-Gone m result id =
    (λ s e. rw e (forget-Gone m id, refl, refl, refl, refl, refl), λ e. rw e (refl, refl))
