-- ===== src/Mcp/Credentials/Tests.antt =====
-- A credential that is stored and used, and the theorems at it.
use pty_mcp.Base.{ℕ, ◌≡◌, ◌≢◌, refl, sym, ◌∙◌, ◌⊎◌, Bool, true, false, none, some, [], ◌∷◌, inr}
use pty_mcp.Base.Dict.{empty, lookup, insert, remove, retain, size}
use pty_mcp.Session.Manager.{Session, remote, new_manager, add, get, found_session, touch}
use pty_mcp.Mcp.Credentials.{
  ConsumerBundle, SealedBox, store, take, purge_expired, World, inject, InjectEnv, inject_secret,
  looked_up,
}
use pty_mcp.Mcp.Credentials.Inject.{Silent, Delivers, inject_secret-Delivers}
use pty_mcp.Mcp.Credentials.Once.{inject_secret-once}

abbrev bundle : ConsumerBundle
bundle = record { session_id = "b1"; consumer_id = "pty-mcp"; expires_at = 100 }

abbrev box : SealedBox
box = record {
  session_id = "b1";
  consumer_id = "pty-mcp";
  item_id = "";
  purpose = "";
  ciphertext = 7 ∷ [];
}

abbrev shell : Session
shell = record { id = "s1"; kind = remote }

-- the key 5 stored at time 10, in a world with one session
abbrev ready : World ℕ
ready = record {
  manager = (add (new_manager 30) shell "host" 5).0;
  creds = store empty bundle 5 10;
}

abbrev env : Bool → InjectEnv ℕ
env has_lock = record {
  now = 20;
  others = λ n w. w;
  has_lock = has_lock;
  unseal = λ b k c. inr (k ∷ b.ciphertext);
  is_done = false;
  write_raw = λ s bytes. none;
  audit_user = some "ann";
  audited_at = 9;
}

has_written :
    (inject_secret (env true) ready (inject "s1" box)).writes ≡ (shell, 5 ∷ 7 ∷ 13 ∷ []) ∷ []
unfolding inject_secret looked_up take store purge_expired insert remove retain lookup get
    found_session touch add new_manager size
has_written = refl

inject_secret-Delivers_example :
    Silent (env true) "s1" box (inject_secret (env true) ready (inject "s1" box))
    ⊎ Delivers (env true) "s1" box ready (inject_secret (env true) ready (inject "s1" box))
inject_secret-Delivers_example = inject_secret-Delivers (env true) "s1" box ready

has_something : (inject_secret (env true) ready (inject "s1" box)).writes ≢ []
has_something e = cc (sym has_written ∙ e)

inject_secret-once_example :
    (inject_secret
      (env true)
      (inject_secret (env true) ready (inject "s1" box)).world
      (inject "s1" box)).writes
    ≡ []
inject_secret-once_example =
    inject_secret-once (env true) (env true) "s1" "s1" box box ready refl (λ n w a. a) (λ n w a. a)
      has_something
