-- ===== src/Aitx/Server/Limit.antt =====
-- The limit on the number of terminals.
use pty_mcp.Base.{
  ◌%◌, ◌^◌, ℕ, ◌≤◌, ◌≡◌, String, Bool, true, false, ◌||◌, not, Option, none, some, List, [], ◌∷◌,
  ◌++◌, ◌⊎◌, inl, inr, leb, if◌then◌else◌, arith, Bool-cases, Option-cases,
}
use pty_mcp.Base.Int.{ℤ, is_nonpos, exceeds, pos_part}
use pty_mcp.Base.Dict.{lookup, size, size-insert, size-insert_old, size-remove, size-retain}
use pty_mcp.Aitx.Keys.{control_keys, key_bytes}
use pty_mcp.Aitx.Server.{
  Terminal, Server, Error, Handled, Env, max_ai_tmux_sessions, put, started, create_session,
  write_raw, written, send_to, send_input, send_raw, read_output, send_control, list_sessions,
  close_session,
}
use pty_mcp.Aitx.Server.Handle.{
  Request, with_params, resized, resize_found, resize_session, handle, is_idle, reap, close_all,
}

abbrev pub IsBounded : Server → Type 0
IsBounded srv = size srv.sessions ≤ max_ai_tmux_sessions

module _ (env : Env) (srv : Server) (b : IsBounded srv) where
  create_session-IsBounded :
      (name command : String)
      → IsBounded (env.others srv)
      → IsBounded (create_session env srv name command).0
  unfolding create_session
  create_session-IsBounded name command o =
      elim (Bool-cases (leb max_ai_tmux_sessions (size srv.sessions))) [
        | inl full ↦ rw full b
        | inr room ↦ rw room (by_start (env.new_terminal env.random_id name command))
      ]
    where
      by_start : (r : String ⊎ Terminal) → IsBounded (started env srv r).0
      by_start (inl e) = o
      by_start (inr t) =
          elim (Bool-cases (leb max_ai_tmux_sessions (size (env.others srv).sessions))) [
            | inl full ↦ rw full o
            | inr room ↦
                rw room
                  (ground (arith, room, size-insert (env.others srv).sessions env.random_id t))
          ]

  put-IsBounded :
      (id : String) (t t' : Terminal)
      → lookup srv.sessions id ≡ some t
      → IsBounded (put env srv id t')
  unfolding put
  put-IsBounded id t t' e = omega (arith, b, size-insert_old srv.sessions id t t' e)

  written-IsBounded :
      (id : String) (ms : ℤ) (t : Terminal) (r : Terminal × Option Error)
      → lookup srv.sessions id ≡ some t
      → IsBounded (written env srv id ms r).0
  written-IsBounded id ms t (t', some e) at_id = put-IsBounded id t t' at_id
  written-IsBounded id ms t (t', none) at_id = put-IsBounded id t _ at_id

  send_to-IsBounded :
      (id : String) (bytes : List ℕ) (ms : ℤ)
      → IsBounded (send_to env srv id bytes ms (lookup srv.sessions id)).0
  send_to-IsBounded id bytes ms = elim (Option-cases (lookup srv.sessions id)) [
    | inl n ↦ rw n b
    | inr (t, e) ↦ rw e (written-IsBounded id ms t (write_raw env t bytes) e)
  ]

  read_output-IsBounded : (id : String) (ms : ℤ) → IsBounded (read_output env srv id ms).0
  unfolding read_output
  read_output-IsBounded id ms = elim (Option-cases (lookup srv.sessions id)) [
    | inl n ↦ rw n b
    | inr (t, e) ↦ rw e (put-IsBounded id t _ e)
  ]

  send_control-IsBounded : (id key : String) → IsBounded (send_control env srv id key).0
  unfolding send_control
  send_control-IsBounded id key = elim (Option-cases (key_bytes control_keys key)) [
    | inl n ↦ rw n b
    | inr (bytes, e) ↦ rw e (send_to-IsBounded id bytes (ℤ.pos 5000))
  ]

  close_session-IsBounded : (id : String) → IsBounded (close_session env srv id).0
  unfolding close_session
  close_session-IsBounded id = elim (Option-cases (lookup srv.sessions id)) [
    | inl n ↦ rw n b
    | inr (t, e) ↦ rw e (omega (arith, b, size-remove srv.sessions id))
  ]

  resize_session-IsBounded :
      (id : String) (rows cols : ℤ) → IsBounded (resize_session env srv id rows cols).0
  unfolding resize_session
  resize_session-IsBounded id rows cols = elim (Bool-cases (is_nonpos rows || is_nonpos cols)) [
    | inl low ↦ rw low b
    | inr high ↦ rw high (elim (Bool-cases (exceeds rows 500 || exceeds cols 1000)) [
      | inl large ↦ rw large b
      | inr fits ↦ rw fits (found (pos_part rows) (pos_part cols) (lookup srv.sessions id))
    ])
  ]
    where
      sized : (t : Terminal) (r c : ℕ) (e : Option String) → IsBounded (resized env srv t r c e).0
      sized t r c none = b
      sized t r c (some e) = b

      found : (r c : ℕ) (o : Option Terminal) → IsBounded (resize_found env srv id r c o).0
      found r c none = b
      found r c (some t) =
          sized t (r % 2 ^ 16) (c % 2 ^ 16) (env.resize_error t (r % 2 ^ 16) (c % 2 ^ 16))

  with_params-IsBounded {ℓ} :
      {P : Type ℓ} (decoded : String ⊎ P) (run : P → Handled)
      → ((p : P) → IsBounded (run p).0)
      → IsBounded (with_params srv decoded run).0
  with_params-IsBounded (inl e) run h = b
  with_params-IsBounded (inr p) run h = h p

  handle-IsBounded : (req : Request) → IsBounded (env.others srv) → IsBounded (handle env srv req).0
  unfolding handle list_sessions send_input send_raw
  handle-IsBounded req o =
      pick _ _ _
        (with_params-IsBounded req.params.create _ (λ p. create_session-IsBounded p.1 p.0 o))
        (pick _ _ _
          (with_params-IsBounded req.params.input _
            (λ p. send_to-IsBounded p.0 (p.1 ++ b'\r' ∷ []) p.2))
          (pick _ _ _ (with_params-IsBounded req.params.read _ (λ p. read_output-IsBounded p.0 p.1))
            (pick _ _ _
              (with_params-IsBounded req.params.control _ (λ p. send_control-IsBounded p.0 p.1))
              (pick _ _ _ b (
                pick _ _ _
                  (with_params-IsBounded req.params.session _ (λ id. close_session-IsBounded id))
                  (pick _ _ _
                    (with_params-IsBounded req.params.resize _
                      (λ p. resize_session-IsBounded p.0 p.1 p.2))
                    (pick _ _ _
                      (with_params-IsBounded req.params.raw _ (λ p. send_to-IsBounded p.0 p.1 p.2))
                      b)))))))
    where
      pick :
          (test : Bool) (x y : Handled)
          → IsBounded x.0
          → IsBounded y.0
          → IsBounded (if test then x else y).0
      pick true x y hx hy = hx
      pick false x y hx hy = hy

-- No request makes more than 100 terminals, even if others add terminals between the two checks of
-- `createSession`, as long as they keep the limit too. The reaper and the end of the server keep
-- it.
pub handle-reap-IsBounded :
    (env : Env) (srv : Server)
    → IsBounded srv
    → IsBounded (env.others srv)
    → ((req : Request) → IsBounded (handle env srv req).0)
      × ((now : ℕ) → IsBounded (reap srv now).0)
      × IsBounded (close_all srv).0
unfolding reap close_all size
handle-reap-IsBounded env srv b o = (
  λ req. handle-IsBounded env srv b req o,
  λ now. omega (arith, b, size-retain (λ id t. not (is_idle srv.idle_timeout now t)) srv.sessions),
  omega arith,
)
