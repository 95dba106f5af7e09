-- ===== src/Mcp/Tools/Input/Secrets.antt =====
-- A staged secret leaves the manager only for a session that asks for it.
use pty_mcp.Base.{ℕ, ◌+◌, ◌≡◌, ◌⊎◌, Bool, true, false, none, some, List, ◌∷◌, ◌++◌}
use pty_mcp.Base.Dict.{lookup}
use pty_mcp.Session.Classifier.{classify_output, is_password_prompt}
use pty_mcp.Session.Manager.{Session, Manager, PendingSecret}
use pty_mcp.Mcp.Tools.{writes_raw, settles, Env, State}
use pty_mcp.Mcp.Tools.Settle.{Ended}

module _ (env : Env) (s : Session) (output : List ℕ) (st : State) where
  -- The secret is gone, others do what they do during the wait, and it is written once; or it stays
  -- staged and nothing is written.
  abbrev pub Offered : PendingSecret → State × Bool → Type 0
  Offered ps (st', sent) =
      ((is_password_prompt (classify_output env.prompts output).state ≡ true)
        × (sent ≡ true)
        × ((is_quiet : Bool) × Ended (env.settle_rounds s) 100
              ((env.settle_rounds s).began_at + 2000) is_quiet
            × (st'.acts
                ≡ writes_raw s (ps.secret ++ ps.line_ending) ∷ settles s (some is_quiet) ∷ st.acts))
        × ((m : Manager) × (lookup m.pending_secrets s.id ≡ none)
            × (st'.mgr ≡ env.others (st.step + 1) m)))
      ⊎ ((is_password_prompt (classify_output env.prompts output).state ≡ false)
          × (sent ≡ false)
          × (st'.acts ≡ st.acts)
          × (lookup st'.mgr.pending_secrets s.id ≡ some ps))
