-- ===== src/Audit/Collector/Accept.antt =====
-- What the collector accepts.
use mathlib.Core.Bool.{false≢true}
use pty_mcp.Base.{
  ℕ, ◌≡◌, ◌↔◌, refl, ap, ◌∙◌, String, Bool, true, ◌||◌, not, Option, none, some, List, [], ◌∷◌,
  ◌++◌, ◌⊎◌, inl, inr, str_eq, Bool-cases, Option-cases, arith, eq_iff,
}
use pty_mcp.Text.{codes, cut_prefix, cut_prefix-some, cut_prefix-append, bytes_eq_iff}
use pty_mcp.Audit.Collector.{
  Server, new_server, check_token, token_matches, HttpRequest, serve_http, written,
}

-- An Authorization header passes at a collector that was started exactly if it is "Bearer ",
-- followed by the token that it was started with.
pub check_token-new_server :
    (token : List ℕ) (opened : String ⊎ List ℕ) (s : Server) (auth : List ℕ)
    → new_server token opened ≡ inr s
    → (check_token s auth ≡ true) ↔ (auth ≡ codes "Bearer " ++ token)
unfolding new_server check_token
check_token-new_server [] opened s auth e = absurd (cc e)
check_token-new_server (c ∷ token) (inl x) s auth e = absurd (cc e)
check_token-new_server (c ∷ token) (inr file) s auth e = rw (← same) (to, from)
  where
    same : record { token = c ∷ token; file = file } ≡ s
    same = cc e

    to :
        token_matches (c ∷ token) (cut_prefix (codes "Bearer ") auth) ≡ true
        → auth ≡ codes "Bearer " ++ c ∷ token
    to h = elim (Option-cases (cut_prefix (codes "Bearer ") auth)) [
      | inl n ↦ absurd (false≢true (rw n at h))
      | inr (tok, p) ↦
          cut_prefix-some (codes "Bearer ") auth tok p
          ∙ ap (λ x. codes "Bearer " ++ x) (matching tok (rw p at h))
    ]
      where
        matching : (tok : List ℕ) → token_matches (c ∷ token) (some tok) ≡ true → tok ≡ c ∷ token
        matching [] q = absurd (false≢true q)
        matching (x ∷ xs) q = (bytes_eq_iff (x ∷ xs) (c ∷ token)).0 q

    from :
        auth ≡ codes "Bearer " ++ c ∷ token
        → token_matches (c ∷ token) (cut_prefix (codes "Bearer ") auth) ≡ true
    from h =
        rw (h, cut_prefix-append (codes "Bearer ") (c ∷ token))
          ((bytes_eq_iff (c ∷ token) (c ∷ token)).1 refl)

abbrev pub Refuses : Server → Server × ℕ → Type 0
Refuses s o = (o.0 ≡ s) × ((o.1 ≡ 400) ⊎ (o.1 ≡ 401) ⊎ (o.1 ≡ 404))

abbrev pub Accepts : (List ℕ → Bool) → Server → HttpRequest → Server × ℕ → Type 0
Accepts is_json s r o =
    (body : List ℕ) × (o.1 ≡ 200)
    × (r.path ≡ "/audit")
    × (r.method ≡ "POST")
    × (check_token s r.authorization ≡ true)
    × (r.read_body ≡ some body)
    × (is_json body ≡ true)
    × (o.0 ≡ record s { file = s.file ++ body ++ b'\n' ∷ [] })

written-Accepts :
    (is_json : List ℕ → Bool) (s : Server) (read : Option (List ℕ))
    → Refuses s (written is_json s read)
      ⊎ ((body : List ℕ) × (read ≡ some body)
          × (is_json body ≡ true)
          × (written is_json s read ≡ (record s { file = s.file ++ body ++ b'\n' ∷ [] }, 200)))
written-Accepts is_json s none = inl (refl, inl refl)
written-Accepts is_json s (some body) = elim (Bool-cases (is_json body)) [
  | inl valid ↦ rw valid (inr (body, refl, valid, refl))
  | inr invalid ↦ rw invalid (inl (refl, inl refl))
]

-- Either the file is as before and the status is 400, 401 or 404; or the status is 200, the request
-- is a POST to /audit whose token passes and whose body was read and is valid JSON, and the body
-- and a line feed are added to the file.
pub serve_http-Accepts :
    (is_json : List ℕ → Bool) (s : Server) (r : HttpRequest)
    → Refuses s (serve_http is_json s r) ⊎ Accepts is_json s r (serve_http is_json s r)
unfolding serve_http
serve_http-Accepts is_json s r =
    elim (Bool-cases (not (str_eq r.path "/audit") || not (str_eq r.method "POST"))) [
      | inl away ↦ rw away (inl (refl, inr (inr refl)))
      | inr here ↦ rw here (elim (Bool-cases (check_token s r.authorization)) [
        | inr bad ↦ rw bad (inl (refl, inr (inl refl)))
        | inl good ↦ rw good (elim (written-Accepts is_json s r.read_body) [
          | inl refused ↦ inl refused
          | inr (body, read, valid, e) ↦ inr (
            body,
            ap (λ (o : Server × ℕ). o.1) e,
            ground (arith, eq_iff r.path "/audit"),
            ground (arith, eq_iff r.method "POST"),
            refl,
            read,
            valid,
            ap (λ (o : Server × ℕ). o.0) e,
          )
        ])
      ])
    ]
