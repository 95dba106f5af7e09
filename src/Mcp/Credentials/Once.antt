-- ===== src/Mcp/Credentials/Once.antt =====
-- `InjectSecret` uses up a credential once, and only when it goes on to use it.
use mathlib.Core.Bool.{false≢true}
use pty_mcp.Base.{
  ℕ, ◌≡◌, ◌≢◌, refl, sym, ap, ◌∙◌, String, Bool, true, false, Option, none, some, List, [], ◌∷◌,
  ◌++◌, ◌⊎◌, inl, inr, Bool-cases,
}
use pty_mcp.Base.Dict.{lookup}
use pty_mcp.Session.Manager.{Error, Found, found, missing}
use pty_mcp.Mcp.Credentials.{
  SealedBox, PendingCred, take, World, inject, session_error, no_credential, Reply, failed,
  InjectEnv, get_at, opened, consumed, refetched, lock_at, looked_up, inject_secret, wrote,
}
use pty_mcp.Mcp.Credentials.Inject.{Absent, KeepAbsent, refetched-silent, refetched-Absent}

module _ {K : Type 0} (env : InjectEnv K) (pty : String) (box : SealedBox) where
  -- Without a credential under the box's session id, a call writes nothing.
  Absent-silent :
      (w : World K)
      → KeepAbsent box.session_id env.others
      → Absent box.session_id w
      → (inject_secret env w (inject pty box)).writes ≡ []
  unfolding inject_secret looked_up
  Absent-silent w keep a = by_session (get_at env pty box 0 w).1
    where
      locked : World K × Found
      locked = get_at env pty box 2 (lock_at env pty box (env.others 1 (get_at env pty box 0 w).0))

      by_session : (f : Found) → (looked_up env pty box ((get_at env pty box 0 w).0, f)).writes ≡ []
      by_session (missing e) = refl
      by_session (found s) = elim (Bool-cases env.has_lock) [
        | inr l ↦ rw l refl
        | inl l ↦ rw l (
            refetched-silent env pty box locked.0 locked.1
              (keep 3 _ (keep 2 _ (keep 1 _ (keep 0 w a)))))
      ]

  -- A call that writes leaves none.
  written-Absent :
      (w : World K)
      → KeepAbsent box.session_id env.others
      → (inject_secret env w (inject pty box)).writes ≢ []
      → Absent box.session_id (inject_secret env w (inject pty box)).world
  unfolding inject_secret looked_up
  written-Absent w keep = by_session (get_at env pty box 0 w).1
    where
      locked : World K × Found
      locked = get_at env pty box 2 (lock_at env pty box (env.others 1 (get_at env pty box 0 w).0))

      by_session :
          (f : Found)
          → (looked_up env pty box ((get_at env pty box 0 w).0, f)).writes ≢ []
          → Absent box.session_id (looked_up env pty box ((get_at env pty box 0 w).0, f)).world
      by_session (missing e) = λ ne. absurd (ne refl)
      by_session (found s) = elim (Bool-cases env.has_lock) [
        | inr l ↦ rw l (λ ne. absurd (ne refl))
        | inl l ↦ rw l (λ ne. keep 4 _ (refetched-Absent env pty box locked.0 locked.1 ne))
      ]

  -- A call that fails because the session is unknown, or because it was cancelled while it waited for
  -- the lock, leaves the credentials as the other calls make them.
  refetched-keeps :
      (w : World K) (f : Found) (e : Error)
      → (refetched env pty box (w, f)).reply ≡ failed (session_error e)
      → (refetched env pty box (w, f)).world.creds ≡ w.creds
  unfolding take
  refetched-keeps w (missing _) e r = refl
  refetched-keeps w (found s) e r =
      absurd (refused _ (lookup (env.others 3 w).creds box.session_id) r)
    where
      is_session_error : Reply → Bool
      is_session_error (failed (session_error x)) = true
      is_session_error _ = false

      no_error : (x : Reply) → is_session_error x ≡ false → x ≢ failed (session_error e)
      no_error x f q = false≢true (sym f ∙ ap is_session_error q)

      wrote_error :
          (w' : World K) (bytes : List ℕ) (x : Option String)
          → is_session_error (wrote env pty box w' s bytes x).reply ≡ false
      wrote_error w' bytes none = refl
      wrote_error w' bytes (some x) = refl

      opened_error :
          (w' : World K) (x : String ⊎ List ℕ)
          → is_session_error (opened env pty box w' s x).reply ≡ false
      opened_error w' (inl x) = refl
      opened_error w' (inr x) = elim (Bool-cases env.is_done) [
        | inl d ↦ rw d refl
        | inr l ↦ rw l (wrote_error w' (x ++ b'\r' ∷ []) (env.write_raw s (x ++ b'\r' ∷ [])))
      ]

      refused :
          (w' : World K) (o : Option (PendingCred K))
          → (consumed env pty box w' s o).reply ≢ failed (session_error e)
      refused w' none = no_error (failed (no_credential box.session_id)) refl
      refused w' (some cred) =
          no_error _ (opened_error w' (env.unseal box cred.session_key cred.bundle))

  -- A call that fails because the session is unknown, or because it was cancelled while it waited
  -- for the lock, leaves all credentials in the store, if other calls do.
  pub inject_secret-keeps :
      (w : World K) (e : Error)
      → ((n : ℕ) (v : World K) → (env.others n v).creds ≡ v.creds)
      → (inject_secret env w (inject pty box)).reply ≡ failed (session_error e)
      → (inject_secret env w (inject pty box)).world.creds ≡ w.creds
  unfolding inject_secret looked_up
  inject_secret-keeps w e quiet = by_session (get_at env pty box 0 w).1
    where
      locked : World K × Found
      locked = get_at env pty box 2 (lock_at env pty box (env.others 1 (get_at env pty box 0 w).0))

      by_session :
          (f : Found)
          → (looked_up env pty box ((get_at env pty box 0 w).0, f)).reply ≡ failed (session_error e)
          → (looked_up env pty box ((get_at env pty box 0 w).0, f)).world.creds ≡ w.creds
      by_session (missing x) = λ r. quiet 0 w
      by_session (found s) = elim (Bool-cases env.has_lock) [
        | inr l ↦ rw l (λ r. quiet 1 _ ∙ quiet 0 w)
        | inl l ↦ rw l (λ r.
            quiet 4 _ ∙ refetched-keeps locked.0 locked.1 e r ∙ quiet 2 _ ∙ quiet 1 _ ∙ quiet 0 w)
      ]

-- A credential is for one use: after a call that wrote a secret, no call with a box of the same
-- session id writes anything, to whatever terminal and in whatever circumstances, unless a bundle
-- with that session id is stored again.
pub inject_secret-once :
    {K : Type 0} (env env' : InjectEnv K) (pty pty' : String) (box box' : SealedBox) (w : World K)
    → box.session_id ≡ box'.session_id
    → KeepAbsent box.session_id env.others
    → KeepAbsent box.session_id env'.others
    → (inject_secret env w (inject pty box)).writes ≢ []
    → (inject_secret env' (inject_secret env w (inject pty box)).world (inject pty' box')).writes
      ≡ []
inject_secret-once env env' pty pty' box box' w same keep keep' ne =
    Absent-silent env' pty' box' (inject_secret env w (inject pty box)).world (rw same at keep') (
      ap (lookup (inject_secret env w (inject pty box)).world.creds) (sym same)
      ∙ written-Absent env pty box w keep ne)
