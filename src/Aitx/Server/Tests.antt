-- ===== src/Aitx/Server/Tests.antt =====
-- A server with one terminal, and the theorems at it.
use pty_mcp.Base.{◌≤◌, ◌≡◌, ◌≢◌, refl, String, true, none, some, [], ◌∷◌, ◌⊎◌, inr, arith}
use pty_mcp.Base.Int.{pos}
use pty_mcp.Base.Dict.{empty, entry, lookup, size}
use pty_mcp.Buffer.Ring.{new}
use pty_mcp.Aitx.Server.{
  Terminal, Server, limit_reached, error, created, closes, Env, max_ai_tmux_sessions,
  create_session,
}
use pty_mcp.Aitx.Server.Handle.{resize_session}
use pty_mcp.Aitx.Server.Create.{create_session-started}
use pty_mcp.Aitx.Server.Tables.{Resizes, RefusesResize, resize_session-Resizes}

abbrev shell : Terminal
shell = record {
  id = "a1";
  name = "bash";
  command = "/bin/bash";
  buf = new 8;
  is_alive = true;
  created_at = 5;
  last_used = 5;
}

abbrev one : Server
one = record { sessions = entry "a1" shell empty; idle_timeout = 10 }

abbrev nobody : Server
nobody = record { sessions = empty; idle_timeout = 10 }

abbrev env : Env
env = record {
  now = 20;
  random_id = "a1";
  new_terminal = λ id name command. inr shell;
  write_error = λ t bytes. none;
  resize_error = λ t rows cols. none;
  settle = λ t ms. (t.buf, [], true);
  strip = λ output. output;
  others = λ s. s;
}

create_session-started_example :
    let o = create_session env nobody "bash" "" in
    ((o.1 ≡ created "a1" "bash")
      × (o.2 ≡ [])
      × (lookup o.0.sessions "a1" ≡ some shell)
      × ((k : String) → "a1" ≢ k → lookup o.0.sessions k ≡ lookup nobody.sessions k))
    ⊎ ((max_ai_tmux_sessions ≤ size nobody.sessions)
        × (o ≡ (nobody, error limit_reached, closes shell ∷ [])))
unfolding size
create_session-started_example =
    create_session-started env nobody "bash" "" shell (omega arith) refl

resize_session-Resizes_example :
    let o = resize_session env one "a1" (pos 40) (pos 120) in
    RefusesResize one "a1" (pos 40) (pos 120) o ⊎ Resizes one "a1" (pos 40) (pos 120) o
resize_session-Resizes_example = resize_session-Resizes env one "a1" (pos 40) (pos 120)
