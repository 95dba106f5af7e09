-- ===== src/Audit/Collector.antt =====
-- internal/audit/server.go: `Server`, the collector. Headers and bodies are lists of bytes. `read_body`
-- is what reading at most 64 KB of the body gives, `json.Valid` is an argument.
mod Accept
mod Tests
use pty_mcp.Base.{
  ℕ, ◌≡◌, String, Bool, true, false, ◌&&◌, ◌||◌, not, Option, none, some, List, [], ◌∷◌, ◌++◌, ◌⊎◌,
  inl, inr, str_eq, if◌then◌else◌,
}
use pty_mcp.Text.{codes, cut_prefix, bytes_eq}

pub record Server : Type 0 where
  pub token : List ℕ
  pub file : List ℕ

pub data StartError : Type 0 where
  no_token : StartError
  cannot_open : String → StartError

-- `NewServer`; `opened` is what opening the log file gives: an error, or what it holds
pub new_server : List ℕ → (String ⊎ List ℕ) → StartError ⊎ Server
new_server [] opened = inl no_token
new_server (c ∷ token) (inl e) = inl (cannot_open e)
new_server (c ∷ token) (inr file) = inr (record { token = c ∷ token; file = file })

abbrev pub is_empty : List ℕ → Bool
is_empty [] = true
is_empty (c ∷ s) = false

abbrev token_matches : List ℕ → Option (List ℕ) → Bool
token_matches expected none = false
token_matches expected (some tok) =
    if is_empty tok || is_empty expected then false else bytes_eq tok expected

pub check_token : Server → List ℕ → Bool
check_token s auth = token_matches s.token (cut_prefix (codes "Bearer ") auth)

pub record HttpRequest : Type 0 where
  pub path : String
  pub method : String
  pub authorization : List ℕ
  pub read_body : Option (List ℕ)

abbrev written : (List ℕ → Bool) → Server → Option (List ℕ) → Server × ℕ
written is_json s none = (s, 400)
written is_json s (some body) =
    if not (is_json body) then (s, 400) else (record s { file = s.file ++ body ++ b'\n' ∷ [] }, 200)

-- `ServeHTTP`: the server after it, and the status of the response
pub serve_http : (List ℕ → Bool) → Server → HttpRequest → Server × ℕ
unfolding check_token
serve_http is_json s r =
    if not (str_eq r.path "/audit") || not (str_eq r.method "POST")
    then (s, 404)
    else if not (check_token s r.authorization)
    then (s, 401)
    else written is_json s r.read_body
