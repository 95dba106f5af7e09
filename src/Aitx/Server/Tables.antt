-- ===== src/Aitx/Server/Tables.antt =====
-- Closing, resizing and reaping.
use mathlib.Core.Bool.{false≢true}
use mathlib.Core.Path.{subst}
use native.Mathlib.Nat.{mod-eq_of_lt}
use pty_mcp.Base.{
  List, ℕ, ◌^◌, ◌%◌, true, str_eq, ◌≤◌, ◌≡◌, ◌≢◌, refl, sym, String, Bool, false, ◌||◌, not, Option,
  none, some, [], ◌∷◌, ◌⊎◌, inl, inr, if◌then◌else◌, arith, Bool-cases, Option-cases,
}
use pty_mcp.Base.Int.{ℤ, pos, negsuc, is_nonpos, exceeds, pos_part}
use pty_mcp.Base.Dict.{
  Dict, empty, entry, Distinct, lookup, lookup-remove_self, lookup-remove_ne, lookup-retain_keep,
  lookup-retain_drop,
}
use pty_mcp.Aitx.Server.{
  Effect, Terminal, Server, not_found, bad_size, too_large, error, success, closes, resizes,
  Handled, Env, close_session,
}
use pty_mcp.Aitx.Server.Handle.{
  resized, resize_found, resize_session, is_idle, idle_terminals, reap,
}

-- A terminal that is closed leaves the table and is closed once: a second request for it finds
-- none, and changes and closes nothing. Other ids keep what they have.
pub close_session-twice :
    (env env' : Env) (srv : Server) (id : String) (t : Terminal)
    → lookup srv.sessions id ≡ some t
    → let first = close_session env srv id in
      (first.1 ≡ success)
      × (first.2 ≡ closes t ∷ [])
      × (close_session env' first.0 id ≡ (first.0, error (not_found id), []))
      × ((k : String) → id ≢ k → lookup first.0.sessions k ≡ lookup srv.sessions k)
unfolding close_session
close_session-twice env env' srv id t e = rw e (
  refl,
  refl,
  rw (lookup-remove_self srv.sessions id) refl,
  λ k ne. lookup-remove_ne srv.sessions id k ne,
)

-- The terminal gets the size that was asked for, and the conversion to 16 bits keeps it.
abbrev pub Resizes : Server → String → ℤ → ℤ → Handled → Type 0
Resizes srv id rows cols o =
    (t : Terminal) × (r : ℕ) × (c : ℕ) × (lookup srv.sessions id ≡ some t)
    × (rows ≡ pos r)
    × (cols ≡ pos c)
    × (1 ≤ r)
    × (r ≤ 500)
    × (1 ≤ c)
    × (c ≤ 1000)
    × (o.2 ≡ resizes t r c ∷ [])

-- Nothing is done, and there is a reason for it.
abbrev pub RefusesResize : Server → String → ℤ → ℤ → Handled → Type 0
RefusesResize srv id rows cols o =
    (o.2 ≡ [])
    × (o.1 ≢ success)
    × ((lookup srv.sessions id ≡ none)
        ⊎ ((is_nonpos rows || is_nonpos cols ≡ true)
            ⊎ (exceeds rows 500 || exceeds cols 1000 ≡ true)))

resize_found-Resizes :
    (env : Env) (srv : Server) (id : String) (rows cols : ℤ) (r c : ℕ)
    → rows ≡ pos r
    → cols ≡ pos c
    → 1 ≤ r
    → r ≤ 500
    → 1 ≤ c
    → c ≤ 1000
    → let o = resize_found env srv id r c (lookup srv.sessions id) in
      RefusesResize srv id rows cols o ⊎ Resizes srv id rows cols o
resize_found-Resizes env srv id rows cols r c r_is c_is r1 r2 c1 c2 =
    elim (Option-cases (lookup srv.sessions id)) [
      | inl n ↦ rw n (inl (refl, (λ q. cc q), inl refl))
      | inr (t, e) ↦
          let r_kept : r % 2 ^ 16 ≡ r = mod-eq_of_lt {n = r} {m = 2 ^ 16} (omega arith) in
          let c_kept : c % 2 ^ 16 ≡ c = mod-eq_of_lt {n = c} {m = 2 ^ 16} (omega arith) in
          rw (e, r_kept, c_kept)
            (inr (t, r, c, refl, r_is, c_is, r1, r2, c1, c2, resizing t (env.resize_error t r c)))
    ]
  where
    resizing : (t : Terminal) (x : Option String) → (resized env srv t r c x).2 ≡ resizes t r c ∷ []
    resizing t none = refl
    resizing t (some e) = refl

in_range :
    (n : ℤ) (k : ℕ)
    → is_nonpos n ≡ false
    → exceeds n k ≡ false
    → (1 ≤ pos_part n) × (pos_part n ≤ k) × (n ≡ pos (pos_part n))
in_range (pos n) k e f = (ground (arith, e), ground (arith, f), refl)
in_range (negsuc n) k e f = absurd (false≢true (sym e))

-- A request to resize sets the terminal under its id to the rows and the columns that it asks for,
-- of which there are 1 to 500 and 1 to 1000, so that the conversion to 16 bits keeps them; or it
-- does nothing and is no success, and there is no terminal under the id, or a number is not
-- positive, or one is above its limit.
pub resize_session-Resizes :
    (env : Env) (srv : Server) (id : String) (rows cols : ℤ)
    → let o = resize_session env srv id rows cols in
      RefusesResize srv id rows cols o ⊎ Resizes srv id rows cols o
unfolding resize_session
resize_session-Resizes env srv id rows cols = elim (Bool-cases (is_nonpos rows || is_nonpos cols)) [
  | inl low ↦
      let at : resize_session env srv id rows cols ≡ (srv, error bad_size, []) = rw low refl in
      rw at (inl (refl, (λ q. cc q), inr (inl low)))
  | inr high ↦ elim (Bool-cases (exceeds rows 500 || exceeds cols 1000)) [
    | inl large ↦
        let at : resize_session env srv id rows cols ≡ (srv, error too_large, []) =
          rw (high, large) refl in
        rw at (inl (refl, (λ q. cc q), inr (inr large)))
    | inr fits ↦
        let (r1, r2, r_is) = in_range rows 500 (ground arith) (ground arith) in
        let (c1, c2, c_is) = in_range cols 1000 (ground arith) (ground arith) in
        let at : resize_session env srv id rows cols
            ≡ resize_found env srv id (pos_part rows) (pos_part cols) (lookup srv.sessions id) =
          rw (high, fits) refl in
        subst (λ o. RefusesResize srv id rows cols o ⊎ Resizes srv id rows cols o) (sym at)
          (resize_found-Resizes env srv id rows cols (pos_part rows) (pos_part cols) r_is c_is r1 r2
            c1 c2)
  ]
]

-- An effect that was asked for.
abbrev pub Asked : Effect → List Effect → Type 0
Asked e [] = ⊥
Asked e (x ∷ xs) = (x ≡ e) ⊎ Asked e xs

idle_terminals-Asked :
    (timeout now : ℕ) (m : Dict Terminal) (k : String) (t : Terminal)
    → lookup m k ≡ some t
    → is_idle timeout now t ≡ true
    → Asked (closes t) (idle_terminals timeout now m)
unfolding idle_terminals lookup
idle_terminals-Asked timeout now empty k t e idle = absurd (cc e)
idle_terminals-Asked timeout now (entry i w m) k t e idle = elim (Bool-cases (str_eq i k)) [
  | inl here ↦ let same : w ≡ t = cc (rw here at e) in rw (same, idle) (inl refl)
  | inr later ↦
      let rest = idle_terminals-Asked timeout now m k t (rw later at e) idle in
      elim (Bool-cases (is_idle timeout now w)) [
        | inl also ↦ rw also (inr rest)
        | inr busy ↦ rw busy rest
      ]
]

-- One tick of the reaper, on a table with one entry per id: a terminal that was idle for longer
-- than the timeout leaves the table and is closed, and the others stay.
pub reap-sessions :
    (srv : Server) (now : ℕ) (k : String) (t : Terminal)
    → Distinct srv.sessions
    → lookup srv.sessions k ≡ some t
    → (lookup (reap srv now).0.sessions k
        ≡ (if is_idle srv.idle_timeout now t then none else some t))
      × (is_idle srv.idle_timeout now t ≡ true → Asked (closes t) (reap srv now).1)
unfolding reap
reap-sessions srv now k t d e = (
  elim (Bool-cases (is_idle srv.idle_timeout now t)) [
    | inl idle ↦ rw idle (lookup-retain_drop keep srv.sessions k t d e (rw idle refl))
    | inr busy ↦ rw busy (lookup-retain_keep keep srv.sessions k t e (rw busy refl))
  ],
  λ idle. idle_terminals-Asked srv.idle_timeout now srv.sessions k t e idle,
)
  where
    keep : String → Terminal → Bool
    keep id t = not (is_idle srv.idle_timeout now t)
