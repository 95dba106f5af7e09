-- ===== src/Mcp/Credentials/Inject.antt =====
-- `InjectSecret`: what it writes, and when it uses up the credential.
use pty_mcp.Base.{
  ℕ, ◌≡◌, ◌≢◌, refl, String, true, false, Option, none, some, List, [], ◌∷◌, ◌++◌, ◌⊎◌, inl, inr,
  Bool-cases, Option-cases,
}
use pty_mcp.Base.Dict.{lookup, remove, lookup-remove_self}
use pty_mcp.Session.Manager.{Session, Found, found, missing}
use pty_mcp.Mcp.Credentials.{
  SealedBox, PendingCred, take, World, inject, success, Outcome, InjectEnv, get_at, opened,
  refetched, lock_at, looked_up, inject_secret, wrote,
}

module _ {K : Type 0} where
  -- No credential under a session id.
  abbrev pub Absent : String → World K → Type 0
  Absent id w = lookup w.creds id ≡ none

  -- Other calls store no second credential under the id.
  abbrev pub KeepAbsent : String → (ℕ → World K → World K) → Type 0
  KeepAbsent id others = (n : ℕ) (w : World K) → Absent id w → Absent id (others n w)

module _ {K : Type 0} (env : InjectEnv K) (pty : String) (box : SealedBox) where
  -- A call writes nothing, and does not report success; or it holds the lock, its context lives after
  -- the decryption, and it writes once: to the session that the manager has under the id after the
  -- lock, and what the store's credential for the box decrypts it to, followed by a carriage return.
  abbrev pub Delivers : World K → Outcome K → Type 0
  Delivers w o =
      let locked =
        get_at env pty box 2 (lock_at env pty box (env.others 1 (get_at env pty box 0 w).0)) in
      (s : Session) × (cred : PendingCred K) × (plaintext : List ℕ) × (o.writes
        ≡ (s, plaintext ++ b'\r' ∷ []) ∷ [])
      × (env.has_lock ≡ true)
      × (env.is_done ≡ false)
      × (locked.1 ≡ found s)
      × (lookup (env.others 3 locked.0).creds box.session_id ≡ some cred)
      × (env.unseal box cred.session_key cred.bundle ≡ inr plaintext)

  abbrev pub Silent : Outcome K → Type 0
  Silent o = (o.writes ≡ []) × (o.reply ≢ success)

  module _ (w : World K) (s : Session) (cred : PendingCred K) where
    opened-world : (r : String ⊎ List ℕ) → (opened env pty box w s r).world ≡ w
    opened-world (inl e) = refl
    opened-world (inr plaintext) = elim (Bool-cases env.is_done) [
      | inl d ↦ rw d refl
      | inr l ↦ rw l (wrote_world (env.write_raw s (plaintext ++ b'\r' ∷ [])))
    ]
      where
        wrote_world :
            (e : Option String) → (wrote env pty box w s (plaintext ++ b'\r' ∷ []) e).world ≡ w
        wrote_world none = refl
        wrote_world (some e) = refl

    opened-Delivers :
        (r : String ⊎ List ℕ)
        → Silent (opened env pty box w s r)
          ⊎ ((plaintext : List ℕ) × ((opened env pty box w s r).writes
                ≡ (s, plaintext ++ b'\r' ∷ []) ∷ [])
              × (env.is_done ≡ false)
              × (r ≡ inr plaintext))
    opened-Delivers (inl e) = inl (refl, λ q. cc q)
    opened-Delivers (inr plaintext) = elim (Bool-cases env.is_done) [
      | inl d ↦ rw d (inl (refl, λ q. cc q))
      | inr l ↦
          rw l (inr (plaintext, wrote_once (env.write_raw s (plaintext ++ b'\r' ∷ [])), refl, refl))
    ]
      where
        wrote_once :
            (e : Option String)
            → (wrote env pty box w s (plaintext ++ b'\r' ∷ []) e).writes
              ≡ (s, plaintext ++ b'\r' ∷ []) ∷ []
        wrote_once none = refl
        wrote_once (some e) = refl

  -- From the second `Get` on.
  refetched-Delivers :
      (w : World K) (f : Found)
      → Silent (refetched env pty box (w, f))
        ⊎ ((s : Session) × (cred : PendingCred K) × (plaintext : List ℕ) × ((refetched env pty box
                (w, f)).writes
              ≡ (s, plaintext ++ b'\r' ∷ []) ∷ [])
            × (env.is_done ≡ false)
            × (f ≡ found s)
            × (lookup (env.others 3 w).creds box.session_id ≡ some cred)
            × (env.unseal box cred.session_key cred.bundle ≡ inr plaintext))
  unfolding take
  refetched-Delivers w (missing e) = inl (refl, λ q. cc q)
  refetched-Delivers w (found s) =
      elim (Option-cases (lookup (env.others 3 w).creds box.session_id)) [
        | inl e ↦ rw e (inl (refl, λ q. cc q))
        | inr (cred, e) ↦
            let w' = record (env.others 3 w) {
              creds = remove (env.others 3 w).creds box.session_id;
            } in
            rw e (elim (opened-Delivers w' s cred (env.unseal box cred.session_key cred.bundle)) [
              | inl q ↦ inl q
              | inr (p, writes, live, r) ↦ inr (s, cred, p, writes, live, refl, refl, r)
            ])
      ]

  pub refetched-silent :
      (w : World K) (f : Found)
      → Absent box.session_id (env.others 3 w)
      → (refetched env pty box (w, f)).writes ≡ []
  unfolding take
  refetched-silent w (missing e) a = refl
  refetched-silent w (found s) a = rw a refl

  pub refetched-Absent :
      (w : World K) (f : Found)
      → (refetched env pty box (w, f)).writes ≢ []
      → Absent box.session_id (refetched env pty box (w, f)).world
  unfolding take
  refetched-Absent w (missing e) ne = absurd (ne refl)
  refetched-Absent w (found s) ne =
      elim (Option-cases (lookup (env.others 3 w).creds box.session_id)) [
        | inl e ↦ rw e e
        | inr (cred, e) ↦
            let w' = record (env.others 3 w) {
              creds = remove (env.others 3 w).creds box.session_id;
            } in
            rw (e, opened-world w' s cred (env.unseal box cred.session_key cred.bundle))
              (lookup-remove_self (env.others 3 w).creds box.session_id)
      ]

  -- A call of `InjectSecret` writes nothing and does not report success; or it holds the lock,
  -- its context lives after the decryption, and it writes once: to the session that the manager
  -- has under the id when the lock is held, what the credential that the store then has for the
  -- box decrypts it to, and a carriage return.
  pub inject_secret-Delivers :
      (w : World K) → let o = inject_secret env w (inject pty box) in Silent o ⊎ Delivers w o
  unfolding inject_secret looked_up
  inject_secret-Delivers w = by_session (get_at env pty box 0 w).1 refl
    where
      by_session :
          (f : Found)
          → (get_at env pty box 0 w).1 ≡ f
          → Silent (looked_up env pty box ((get_at env pty box 0 w).0, f))
            ⊎ Delivers w (looked_up env pty box ((get_at env pty box 0 w).0, f))
      by_session (missing e) _ = inl (refl, λ q. cc q)
      by_session (found s) _ = elim (Bool-cases env.has_lock) [
        | inr l ↦ rw l (inl (refl, λ q. cc q))
        | inl l ↦
            let locked =
              get_at env pty box 2
                (lock_at env pty box (env.others 1 (get_at env pty box 0 w).0)) in
            rw l (elim (refetched-Delivers locked.0 locked.1) [
              | inl q ↦ inl q
              | inr (s, cred, p, writes, live, f, e, r) ↦
                  inr (s, cred, p, writes, refl, live, f, e, r)
            ])
      ]
