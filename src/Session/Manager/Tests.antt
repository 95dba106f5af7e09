-- ===== src/Session/Manager/Tests.antt =====
-- A manager with one session, and the theorems at it.
use pty_mcp.Base.{ap, ◌≡◌, ◌≢◌, refl, String, true, false, Option, none, some, [], ◌∷◌}
use pty_mcp.Base.Dict.{empty, entry, lookup, insert, remove, size}
use pty_mcp.Session.Manager.{
  Session, ssh, remote, PendingSecret, Manager, not_found, closes, new_info, new_manager, add,
  close, LockSession, acquired, is_locked, set_lock, unlock_session, is_idle, reap,
}
use pty_mcp.Session.Manager.Valid.{IsValid, here, next, adds, closing, Reach-IsValid}
use pty_mcp.Session.Manager.Locks.{still, go, LockSession-excludes}
use pty_mcp.Session.Manager.Reaper.{Asked, reap_lem}

abbrev shell : Session
shell = record { id = "s1"; kind = remote }

abbrev other : Session
other = record { id = "s2"; kind = ssh }

abbrev fine : Session → Option String
fine s = none

-- `shell`, last used at 5, in a manager that reaps after 30
abbrev one : Manager
one = record {
  sessions = entry "s1" shell empty;
  infos = entry "s1" (new_info shell "me@host" 5) empty;
  idle_timeout = 30;
  pending_secrets = entry "s1" (record { secret = 1 ∷ []; line_ending = 13 ∷ [] }) empty;
  session_locks = empty;
}

abbrev secret : PendingSecret
secret = record { secret = 7 ∷ 8 ∷ []; line_ending = 13 ∷ [] }

add_first : (add (new_manager 30) shell "me@host" 5).0 ≡ record one { pending_secrets = empty }
unfolding add new_manager insert size
add_first = refl

close_missing : close one fine "s2" ≡ (one, some (not_found "s2"), [])
unfolding close lookup
close_missing = refl

one-IsValid : IsValid (record one { pending_secrets = empty })
unfolding add new_manager insert size
one-IsValid = Reach-IsValid fine 30 (next here (adds (new_manager 30) shell "me@host" 5))

Reach-IsValid_example : IsValid (close (add (new_manager 30) shell "me@host" 5).0 fine "s1").0
Reach-IsValid_example = Reach-IsValid fine 30 (
    next (next here (adds (new_manager 30) shell "me@host" 5))
      (closing (add (new_manager 30) shell "me@host" 5).0 "s1"))

abbrev held : Manager
held = set_lock one "s1" true

held-acquired : LockSession one false "s1" none held
unfolding is_locked lookup
held-acquired = acquired refl

closed_differs : (close held fine "s1").0 ≢ unlock_session held "s1"
unfolding close unlock_session lookup remove
closed_differs e = cc (ap (λ (m : Manager). lookup m.sessions "s1") e)

LockSession-excludes_example : ¬ LockSession (close held fine "s1").0 false "s1" none held
LockSession-excludes_example =
    LockSession-excludes fine one held (close held fine "s1").0 "s1" held-acquired
      (go still (closing held "s1") closed_differs) none held

reap_example :
    (is_idle 30 40 (new_info shell "me@host" 5) ≡ true
      → (lookup (reap (record one { pending_secrets = empty }) 40).0.sessions "s1" ≡ none)
        × (lookup (reap (record one { pending_secrets = empty }) 40).0.infos "s1" ≡ none)
        × Asked (closes shell) (reap (record one { pending_secrets = empty }) 40).1)
    × (is_idle 30 40 (new_info shell "me@host" 5) ≡ false
        → (lookup (reap (record one { pending_secrets = empty }) 40).0.sessions "s1" ≡ some shell)
          × (lookup (reap (record one { pending_secrets = empty }) 40).0.infos "s1"
              ≡ some (new_info shell "me@host" 5)))
    × (lookup (reap (record one { pending_secrets = empty }) 40).0.pending_secrets "s1"
        ≡ lookup empty "s1")
unfolding lookup
reap_example =
    reap_lem (record one { pending_secrets = empty }) 40 "s1" (new_info shell "me@host" 5) shell
      one-IsValid refl refl
