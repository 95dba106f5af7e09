-- ===== src/Mcp/Http/Access.antt =====
-- Who gets in.
use mathlib.Core.Bool.{false≢true}
use pty_mcp.Base.{
  ℕ, ◌≡◌, ◌≢◌, refl, sym, ap, ◌∙◌, String, true, List, ◌∷◌, ◌++◌, Bool-cases, Option-cases, inl,
  inr,
}
use pty_mcp.Text.{codes, cut_prefix, cut_prefix-some, bytes_eq_iff}
use pty_mcp.Mcp.Http.{Transport, authorized, HttpRequest, status, DispatchEnv, serve_http, refused}

authorized_lem :
    (t : Transport) (c : ℕ) (token auth : List ℕ)
    → t.token ≡ c ∷ token
    → authorized t auth ≡ true
    → auth ≡ codes "Bearer " ++ t.token
unfolding authorized
authorized_lem t c token auth e h = elim (Option-cases (cut_prefix (codes "Bearer ") auth)) [
  | inl n ↦ absurd (false≢true (rw (e, n) at h))
  | inr (given, p) ↦
      cut_prefix-some (codes "Bearer ") auth given p
      ∙ ap (λ x. codes "Bearer " ++ x) ((bytes_eq_iff given (c ∷ token)).0 (rw (e, p) at h) ∙ sym e)
]

-- A transport with a token: a request whose Authorization header is not "Bearer " and this token
-- gets the status 401 and changes nothing.
pub serve_http-authorized :
    {R : Type 0} (env : ℕ → DispatchEnv R) (now : ℕ) (id : String) (t : Transport)
    (req : HttpRequest) (c : ℕ) (token : List ℕ)
    → t.token ≡ c ∷ token
    → req.authorization ≢ codes "Bearer " ++ t.token
    → serve_http env now id t req ≡ refused env now id t (status 401)
unfolding serve_http
serve_http-authorized env now id t req c token e ne =
    elim (Bool-cases (authorized t req.authorization)) [
      | inl good ↦ absurd (ne (authorized_lem t c token req.authorization e good))
      | inr bad ↦ rw bad refl
    ]
