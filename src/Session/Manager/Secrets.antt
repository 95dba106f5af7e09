-- ===== src/Session/Manager/Secrets.antt =====
-- Staged secrets are for one use.
use pty_mcp.Base.{◌≡◌, ◌≢◌, refl, ◌∙◌, String, none, some}
use pty_mcp.Base.Dict.{
  lookup, insert, remove, lookup-insert_self, lookup-insert_ne, lookup-remove_self,
  lookup-remove_ne,
}
use pty_mcp.Session.Manager.{PendingSecret, Manager, set_pending_secret, take_secret}

pub take_secret-some :
    (m : Manager) (id : String) (ps : PendingSecret)
    → lookup m.pending_secrets id ≡ some ps
    → take_secret m id ≡ (record m { pending_secrets = remove m.pending_secrets id }, some ps)
unfolding take_secret
take_secret-some m id ps e = rw (e, take_secret) refl

pub take_secret-none :
    (m : Manager) (id : String) → lookup m.pending_secrets id ≡ none → take_secret m id ≡ (m, none)
unfolding take_secret
take_secret-none m id e = rw (e, take_secret) refl

-- A staged secret is returned by the first `TakeSecret` of its id and not by the second; other ids'
-- secrets are untouched.
pub take_secret-set_pending_secret :
    (m : Manager) (id : String) (ps : PendingSecret)
    → let first = take_secret (set_pending_secret m id ps) id in
      (first.1 ≡ some ps)
      × (take_secret first.0 id ≡ (first.0, none))
      × ((k : String) → id ≢ k → lookup first.0.pending_secrets k ≡ lookup m.pending_secrets k)
take_secret-set_pending_secret m id ps =
    rw (take_secret-some (set_pending_secret m id ps) id ps staged) (
      refl,
      take_secret-none _ id (lookup-remove_self (set_pending_secret m id ps).pending_secrets id),
      λ k ne. untouched k ne,
    )
  where
    staged : lookup (set_pending_secret m id ps).pending_secrets id ≡ some ps
    staged = unfold set_pending_secret in lookup-insert_self m.pending_secrets id ps

    untouched :
        (k : String)
        → id ≢ k
        → lookup (remove (set_pending_secret m id ps).pending_secrets id) k
          ≡ lookup m.pending_secrets k
    untouched k ne =
        unfold set_pending_secret in
        lookup-remove_ne (insert m.pending_secrets id ps) id k ne
        ∙ lookup-insert_ne m.pending_secrets id k ps ne

pub lookup-set_pending_secret :
    (m : Manager) (id : String) (ps : PendingSecret)
    → lookup (set_pending_secret m id ps).pending_secrets id ≡ some ps
unfolding set_pending_secret
lookup-set_pending_secret m id ps = lookup-insert_self m.pending_secrets id ps
