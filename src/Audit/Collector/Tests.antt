-- ===== src/Audit/Collector/Tests.antt =====
-- A collector that takes an entry.
use pty_mcp.Base.{◌≡◌, refl, true, some, [], ◌∷◌, ◌++◌}
use pty_mcp.Text.{codes, cut_prefix, bytes_eq}
use pty_mcp.Audit.Collector.{Server, check_token, HttpRequest, serve_http}

abbrev server : Server
server = record { token = codes "t1"; file = [] }

abbrev entry_request : HttpRequest
entry_request = record {
  path = "/audit";
  method = "POST";
  authorization = codes "Bearer t1";
  read_body = some (codes "{}");
}

takes_it :
    serve_http (λ b. true) server entry_request
    ≡ (record server { file = codes "{}" ++ b'\n' ∷ [] }, 200)
unfolding serve_http check_token cut_prefix bytes_eq
takes_it = refl
