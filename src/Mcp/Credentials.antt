-- ===== src/Mcp/Credentials.antt =====
-- internal/mcp/credentials.go: the store of session keys, `GetCredentialBundle`, `InjectSecret`.
-- The type K of session keys, what a sealed box holds besides the fields read here, the key
-- generation and `consumersdk.Open` belong to a package that is not in the repository; they are
-- parameters.
pub mod Store
pub mod Inject
pub mod Once
mod Tests
use pty_mcp.Base.{
  ℕ, ◌≡◌, String, Bool, true, false, not, Option, none, some, List, [], ◌∷◌, ◌++◌, ◌⊎◌, inl, inr,
  ltb, str_eq, if◌then◌else◌,
}
use pty_mcp.Base.Int.{ℤ, pos, is_nonpos, pos_part}
use pty_mcp.Base.Dict.{Dict, empty, lookup, insert, remove, retain}
use pty_mcp.Session.Manager.{
  Session, Manager, Error, cancelled, Found, found, missing, get, is_locked, set_lock,
  unlock_session,
}

-- `credproto.ConsumerBundle` and `credproto.SealedBox`, as far as the code reads them
pub record ConsumerBundle : Type 0 where
  pub session_id : String
  pub consumer_id : String
  pub expires_at : ℕ

pub record SealedBox : Type 0 where
  pub session_id : String
  pub consumer_id : String
  pub item_id : String
  pub purpose : String
  pub ciphertext : List ℕ

pub record PendingCred (K : Type 0) : Type 0 where
  pub session_key : K
  pub bundle : ConsumerBundle
  pub expires_at : ℕ

module _ {K : Type 0} where
  -- `now.After(p.expiresAt)`
  abbrev pub is_fresh : ℕ → String → PendingCred K → Bool
  is_fresh now id p = not (ltb p.expires_at now)

  pub purge_expired : Dict (PendingCred K) → ℕ → Dict (PendingCred K)
  purge_expired creds now = retain (is_fresh now) creds

  pub store : Dict (PendingCred K) → ConsumerBundle → K → ℕ → Dict (PendingCred K)
  unfolding purge_expired
  store creds bundle sk now =
      insert (purge_expired creds now) bundle.session_id
        (record { session_key = sk; bundle = bundle; expires_at = bundle.expires_at })

  abbrev taken : Dict (PendingCred K) → String → Option (PendingCred K) → Dict (PendingCred K)
  taken creds id none = creds
  taken creds id (some p) = remove creds id

  pub take : Dict (PendingCred K) → String → Dict (PendingCred K) × Option (PendingCred K)
  take creds id = (taken creds id (lookup creds id), lookup creds id)

-- The defaults and limits of `GetCredentialBundle`, in seconds.
pub clamp_ttl : ℤ → ℕ
clamp_ttl ttl =
    if is_nonpos ttl then 300 else if ltb 3600 (pos_part ttl) then 3600 else pos_part ttl

abbrev pub or_default : String → String
or_default id = if str_eq id "" then "pty-mcp" else id

pub data BundleError : Type 0 where
  bad_arguments identity_key session_key new_bundle : String → BundleError

-- What the package returns: the identity key, a new session key, a bundle for them.
pub record BundleSdk (K : Type 0) : Type 0 where
  pub load_identity : Option String
  pub generate_session_key : String ⊎ K
  pub sign : K → String → ℕ → String ⊎ ConsumerBundle

module _ {K : Type 0} where
  abbrev signed :
      Dict (PendingCred K)
      → ℕ
      → K
      → String ⊎ ConsumerBundle
      → Dict (PendingCred K) × (BundleError ⊎ ConsumerBundle)
  signed creds now sk (inl e) = (creds, inl (new_bundle e))
  signed creds now sk (inr bundle) = (store creds bundle sk now, inr bundle)

  abbrev generated :
      BundleSdk K
      → Dict (PendingCred K)
      → ℕ
      → String
      → ℤ
      → String ⊎ K
      → Dict (PendingCred K) × (BundleError ⊎ ConsumerBundle)
  generated sdk creds now id ttl (inl e) = (creds, inl (session_key e))
  generated sdk creds now id ttl (inr sk) =
      signed creds now sk (sdk.sign sk (or_default id) (clamp_ttl ttl))

  abbrev identified :
      BundleSdk K
      → Dict (PendingCred K)
      → ℕ
      → String
      → ℤ
      → Option String
      → Dict (PendingCred K) × (BundleError ⊎ ConsumerBundle)
  identified sdk creds now id ttl (some e) = (creds, inl (identity_key e))
  identified sdk creds now id ttl none = generated sdk creds now id ttl sdk.generate_session_key

  -- the arguments decoded: an error, or the consumer's id and the time to live
  pub get_credential_bundle :
      BundleSdk K
      → Dict (PendingCred K)
      → ℕ
      → String ⊎ (String × ℤ)
      → Dict (PendingCred K) × (BundleError ⊎ ConsumerBundle)
  get_credential_bundle sdk creds now (inl e) = (creds, inl (bad_arguments e))
  get_credential_bundle sdk creds now (inr (id, ttl)) =
      identified sdk creds now id ttl sdk.load_identity

-- `InjectSecret`. Other calls work on the manager and the store at the same time: `others n` is all
-- that they do before the n-th access of this call.
pub record World (K : Type 0) : Type 0 where
  pub manager : Manager
  pub creds : Dict (PendingCred K)

pub data InjectArgs : Type 0 where
  bad_json bad_box : String → InjectArgs
  inject : String → SealedBox → InjectArgs

pub data InjectError : Type 0 where
  malformed sealed_box decrypt write_failed : String → InjectError
  session_error : Error → InjectError
  no_credential : String → InjectError
  gave_up : InjectError

pub data Reply : Type 0 where
  success : Reply
  failed : InjectError → Reply

pub data AuditEvent : Type 0 where
  secret_injected : AuditEvent
  inject_failed : InjectError → AuditEvent

-- `audit.CredentialEntry`
pub record CredentialEntry : Type 0 where
  pub at : ℕ
  pub user : String
  pub event : AuditEvent
  pub consumer_id : String
  pub session_key_id : String
  pub pty_session_id : String
  pub item_id : String
  pub purpose : String

-- What the call itself does outside the manager and the store: the bytes it gives to `WriteRaw` of a
-- session, and the audit entries.
pub record Outcome (K : Type 0) : Type 0 where
  pub world : World K
  pub reply : Reply
  pub writes : List (Session × List ℕ)
  pub audits : List CredentialEntry

-- `has_lock`: whether `LockSession` returned nil; `is_done`: whether the context is done after the
-- decryption; `unseal`: what `consumersdk.Open` returns; `write_raw`: an error of the session's write.
pub record InjectEnv (K : Type 0) : Type 0 where
  pub now : ℕ
  pub others : ℕ → World K → World K
  pub has_lock : Bool
  pub unseal : SealedBox → K → ConsumerBundle → String ⊎ List ℕ
  pub is_done : Bool
  pub write_raw : Session → List ℕ → Option String
  -- the user of the audit client, if there is one, and the time of the entry
  pub audit_user : Option String
  pub audited_at : ℕ

module _ {K : Type 0} (env : InjectEnv K) (pty : String) (box : SealedBox) where
  -- `sendInjectAudit`
  abbrev pub audited_by : AuditEvent → Option String → List CredentialEntry
  audited_by e none = []
  audited_by e (some user) =
      record {
        at = env.audited_at;
        user = user;
        event = e;
        consumer_id = box.consumer_id;
        session_key_id = box.session_id;
        pty_session_id = pty;
        item_id = box.item_id;
        purpose = box.purpose;
      }
      ∷ []

  abbrev pub audited : AuditEvent → List CredentialEntry
  audited e = audited_by e env.audit_user

  abbrev pub refuse : InjectError → World K → Outcome K
  refuse e w = record {
    world = w;
    reply = failed e;
    writes = [];
    audits = audited (inject_failed e);
  }

  abbrev pub get_at : ℕ → World K → World K × Found
  get_at n w =
      let here = env.others n w in
      let (m, f) = get here.manager pty env.now in (record here { manager = m }, f)

  abbrev pub wrote : World K → Session → List ℕ → Option String → Outcome K
  wrote w s bytes none = record {
    world = w;
    reply = success;
    writes = (s, bytes) ∷ [];
    audits = audited secret_injected;
  }
  wrote w s bytes (some e) = record {
    world = w;
    reply = failed (write_failed e);
    writes = (s, bytes) ∷ [];
    audits = audited (inject_failed (write_failed e));
  }

  abbrev pub opened : World K → Session → String ⊎ List ℕ → Outcome K
  opened w s (inl e) = refuse (decrypt e) w
  opened w s (inr plaintext) =
      if env.is_done
      then (record { world = w; reply = failed gave_up; writes = []; audits = [] })
      else wrote w s (plaintext ++ b'\r' ∷ []) (env.write_raw s (plaintext ++ b'\r' ∷ []))

  abbrev pub consumed : World K → Session → Option (PendingCred K) → Outcome K
  consumed w s none = refuse (no_credential box.session_id) w
  consumed w s (some cred) = opened w s (env.unseal box cred.session_key cred.bundle)

  abbrev pub refetched : World K × Found → Outcome K
  refetched (w, missing e) = refuse (session_error e) w
  refetched (w, found s) =
      let here = env.others 3 w in
      let (creds, cred) = take here.creds box.session_id in
      consumed (record here { creds = creds }) s cred

  -- the deferred `UnlockSession`
  abbrev pub released : Outcome K → Outcome K
  released o =
      let last = env.others 4 o.world in
      record o { world = record last { manager = unlock_session last.manager pty } }

  abbrev pub lock_at : World K → World K
  lock_at w = record w { manager = set_lock w.manager pty true }

  abbrev pub fail_lock : World K → World K
  fail_lock w = record w { manager = set_lock w.manager pty (is_locked w.manager pty) }

  pub looked_up : World K × Found → Outcome K
  looked_up (w, missing e) = refuse (session_error e) w
  looked_up (w, found s) =
      if env.has_lock
      then released (refetched (get_at 2 (lock_at (env.others 1 w))))
      else refuse (session_error cancelled) (fail_lock (env.others 1 w))

module _ {K : Type 0} (env : InjectEnv K) where
  pub inject_secret : World K → InjectArgs → Outcome K
  unfolding looked_up
  inject_secret w (bad_json e) = record {
    world = w;
    reply = failed (malformed e);
    writes = [];
    audits = [];
  }
  inject_secret w (bad_box e) = record {
    world = w;
    reply = failed (sealed_box e);
    writes = [];
    audits = [];
  }
  inject_secret w (inject pty box) = looked_up env pty box (get_at env pty box 0 w)
