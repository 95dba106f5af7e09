-- ===== src/Aitx/Server/Create.antt =====
-- What becomes of a new terminal.
use pty_mcp.Base.{
  ◌≤◌, ◌<◌, ◌≡◌, ◌≢◌, refl, String, false, some, [], ◌∷◌, ◌⊎◌, inl, inr, leb, arith, Bool-cases,
}
use pty_mcp.Base.Dict.{lookup, size, lookup-insert_self, lookup-insert_ne}
use pty_mcp.Aitx.Server.{
  Terminal, Server, limit_reached, error, created, closes, Env, max_ai_tmux_sessions,
  create_session,
}

-- A terminal that was started for a request, the table not being full at the first check, is not
-- lost: it stands in the table under its id, next to those that the other requests left there; or
-- the table is full by then, nothing is changed, the terminal is closed and the limit is reported.
pub create_session-started :
    (env : Env) (srv : Server) (name command : String) (t : Terminal)
    → size srv.sessions < max_ai_tmux_sessions
    → env.new_terminal env.random_id name command ≡ inr t
    → let o = create_session env srv name command in
      let now = env.others srv in
      ((o.1 ≡ created env.random_id t.name)
        × (o.2 ≡ [])
        × (lookup o.0.sessions env.random_id ≡ some t)
        × ((k : String) → env.random_id ≢ k → lookup o.0.sessions k ≡ lookup now.sessions k))
      ⊎ ((max_ai_tmux_sessions ≤ size now.sessions)
          × (o ≡ (now, error limit_reached, closes t ∷ [])))
unfolding create_session
create_session-started env srv name command t room e =
    rw (has_room, e)
      (elim (Bool-cases (leb max_ai_tmux_sessions (size (env.others srv).sessions))) [
        | inl full ↦ rw full (inr (ground (arith, full), refl))
        | inr free ↦ rw free (
            inl (
              refl,
              refl,
              lookup-insert_self (env.others srv).sessions env.random_id t,
              λ k ne. lookup-insert_ne (env.others srv).sessions env.random_id k t ne,
            ))
      ])
  where
    has_room : leb max_ai_tmux_sessions (size srv.sessions) ≡ false
    has_room = ground (arith, room)
