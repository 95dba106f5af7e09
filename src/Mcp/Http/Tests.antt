-- ===== src/Mcp/Http/Tests.antt =====
-- Requests to the transport, and the theorems at them.
use Prim.Native.Char.{code}
use mathlib.Core.Bool.{false≢true}
use pty_mcp.Base.{eq_iff, ap, arith, ℕ, ◌≡◌, refl, true, false, some, [], str_eq}
use pty_mcp.Base.Dict.{lookup}
use pty_mcp.Text.{codes}
use pty_mcp.Mcp.Inflight.{new_registry, add, refs, mem}
use pty_mcp.Mcp.Serve.{CancelParams, cancel_key}
use pty_mcp.Mcp.Http.{
  Transport, new_transport, scoped_key, cancel_scoped, DispatchEnv, HttpRequest, blank,
}
use pty_mcp.Mcp.Http.Scopes.{NulFree, cancel_scoped-add}

abbrev transport : Transport
transport = new_transport (codes "t1")

abbrev env : ℕ → DispatchEnv ℕ
env i = record {
  entry = i;
  got_slot = true;
  before = λ r. r;
  meanwhile = λ r. r;
  handle = λ req. 0;
}

abbrev delete_request : HttpRequest
delete_request = record {
  method = "DELETE";
  authorization = [];
  session_header = "s1";
  accept = [];
  body = blank;
}

abbrev target : CancelParams
target = record { request_id = "1"; id = "" }

cancel_scoped-add_example :
    let r = add new_registry (scoped_key "s1" "1") 0 in
    (cancel_key target ≡ "1"
      → str_eq "1" "" ≡ false
      → str_eq "1" "null" ≡ false
      → (cancel_scoped r "s1" (some target)).marked 0 ≡ true)
    × ((cancel_scoped r "s2" (some target)).marked 0 ≡ new_registry.marked 0)
unfolding new_registry refs mem lookup
cancel_scoped-add_example =
    cancel_scoped-add new_registry "s1" "s2" "1" 0 target free1 free2
      (λ e. false≢true ((eq_iff "s1" "s2").1 e)) (λ k. refl)
  where
    free1 : NulFree "s1"
    free1 = (λ e. omega (arith, ap code e), (λ e. omega (arith, ap code e), tt))

    free2 : NulFree "s2"
    free2 = (λ e. omega (arith, ap code e), (λ e. omega (arith, ap code e), tt))
