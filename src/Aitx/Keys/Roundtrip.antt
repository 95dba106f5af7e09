-- ===== src/Aitx/Keys/Roundtrip.antt =====
-- The bytes of `WriteRaw` on their way to the terminal.
use mathlib.Core.Path.{subst}
use pty_mcp.Text.Utf8.{utf8_valid}
use pty_mcp.Base.{
  ap, true, ℕ, ◌≡◌, refl, String, some, List, [], ◌∷◌, Bool-cases, Option-cases, inl, inr,
}
use pty_mcp.Text.{bytes_eq, bytes_eq_iff}
use pty_mcp.Aitx.Keys.{control_keys, key_bytes, raw_to_key_name, key_name, raw_call, received}

-- a name that a table has for some bytes: an entry of it
abbrev AllNamed : (List ℕ → String → Type 0) → List (List ℕ × String) → Type 0
AllNamed P [] = Unit
AllNamed P ((raw, name) ∷ table) = P raw name × AllNamed P table

key_name-AllNamed :
    (P : List ℕ → String → Type 0) (table : List (List ℕ × String)) (bytes : List ℕ) (name : String)
    → AllNamed P table
    → key_name table bytes ≡ some name
    → P bytes name
unfolding key_name
key_name-AllNamed P [] bytes name all e = absurd (cc e)
key_name-AllNamed P ((raw, first) ∷ table) bytes name (p, all) e =
    elim (Bool-cases (bytes_eq raw bytes)) [
      | inl same ↦
          let raw_is : raw ≡ bytes = (bytes_eq_iff raw bytes).0 same in
          let name_is : first ≡ name = cc (rw same at e) in
          subst (λ n. P bytes n) name_is (subst (λ b. P b first) raw_is p)
      | inr other ↦ key_name-AllNamed P table bytes name all (rw other at e)
    ]

-- Whatever bytes `WriteRaw` of a remote session is given, if they are valid UTF-8, then they are
-- sent by a key's name or as raw data, and the server writes the same bytes to the terminal. It is
-- assumed that JSON keeps a text that is valid UTF-8; of others nothing is said.
pub received-raw_call :
    (json : List ℕ → List ℕ) (bytes : List ℕ)
    → ((text : List ℕ) → utf8_valid text ≡ true → json text ≡ text)
    → utf8_valid bytes ≡ true
    → received json (raw_call bytes) ≡ some bytes
unfolding raw_call received
received-raw_call json bytes keeps valid = elim (Option-cases (key_name raw_to_key_name bytes)) [
  | inl n ↦ rw n (ap some (keeps bytes valid))
  | inr (name, e) ↦ rw e (
      key_name-AllNamed (λ b n. key_bytes control_keys n ≡ some b) raw_to_key_name bytes name named
        e)
]
  where
    named : AllNamed (λ b n. key_bytes control_keys n ≡ some b) raw_to_key_name
    named =
        unfold key_bytes in
        (
          refl,
          (
            refl,
            (refl, (refl, (refl, (refl, (refl, (refl, (refl, (refl, (refl, (refl, tt)))))))))),
          ),
        )
