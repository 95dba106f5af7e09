-- ===== src/Mcp/Credentials/Store.antt =====
-- The store of session keys: single use, and what expires.
use pty_mcp.Base.{
  ℕ, ◌≤◌, ◌≡◌, ◌≢◌, refl, ◌∙◌, ap, String, none, some, arith, Bool-cases, inl, inr, if◌then◌else◌,
}
use pty_mcp.Base.Int.{ℤ, pos, negsuc, pos_part}
use pty_mcp.Base.Dict.{
  Dict, Distinct, lookup, retain, lookup-insert_self, lookup-insert_ne, lookup-remove_self,
  lookup-remove_ne, lookup-retain_keep, lookup-retain_drop,
}
use pty_mcp.Mcp.Credentials.{
  ConsumerBundle, PendingCred, is_fresh, purge_expired, store, take, clamp_ttl,
}

module _ {K : Type 0} where
  -- After a credential is stored under the session id of its bundle, in a store with one entry
  -- per id, the first `take` of that id returns the key and the bundle, and the second nothing.
  -- Of what was stored under other ids, credentials that have not expired are still there, and
  -- those that have are gone.
  pub take-store :
      (creds : Dict (PendingCred K)) (bundle : ConsumerBundle) (sk : K) (now : ℕ)
      → Distinct creds
      → let first = take (store creds bundle sk now) bundle.session_id in
        (first.1
          ≡ some (record { session_key = sk; bundle = bundle; expires_at = bundle.expires_at }))
        × ((take first.0 bundle.session_id).1 ≡ none)
        × ((k : String) (p : PendingCred K)
            → bundle.session_id ≢ k
            → lookup creds k ≡ some p
            → lookup first.0 k ≡ (if is_fresh now k p then some p else none))
  unfolding take store purge_expired
  take-store creds bundle sk now d =
      rw
        (lookup-insert_self (retain (is_fresh now) creds) bundle.session_id
          (record { session_key = sk; bundle = bundle; expires_at = bundle.expires_at }))
        (
          refl,
          lookup-remove_self _ bundle.session_id,
          λ k p ne e.
              lookup-remove_ne _ bundle.session_id k ne
              ∙ lookup-insert_ne _ bundle.session_id k _ ne
              ∙ others k p e,
        )
    where
      others :
          (k : String) (p : PendingCred K)
          → lookup creds k ≡ some p
          → lookup (retain (is_fresh now) creds) k ≡ (if is_fresh now k p then some p else none)
      others k p e = elim (Bool-cases (is_fresh now k p)) [
        | inl fresh ↦ rw fresh (lookup-retain_keep (is_fresh now) creds k p e fresh)
        | inr old ↦ rw old (lookup-retain_drop (is_fresh now) creds k p d e old)
      ]

-- The time to live lies between one second and an hour, and a request within these bounds is
-- granted as it is.
pub clamp_ttl_lem :
    (ttl : ℤ)
    → (1 ≤ clamp_ttl ttl)
      × (clamp_ttl ttl ≤ 3600)
      × ((n : ℕ) → ttl ≡ pos n → 1 ≤ n → n ≤ 3600 → clamp_ttl ttl ≡ n)
unfolding clamp_ttl
clamp_ttl_lem (pos m) = (ground arith, ground arith, λ n e lo hi. within n (ap pos_part e) lo hi)
  where
    within : (n : ℕ) → m ≡ n → 1 ≤ n → n ≤ 3600 → clamp_ttl (pos m) ≡ n
    within n e lo hi = ground arith
clamp_ttl_lem (negsuc m) = (omega arith, omega arith, λ n e. absurd (cc e))
