-- ===== src/Mcp/Tools/Dispatch/Versions.antt =====
-- The protocol version that the server settles on.
use pty_mcp.Base.{
  ◌≡◌, ◌⊎◌, inl, inr, refl, sym, ◌∙◌, String, true, false, List, [], ◌∷◌, str_eq, eq_iff,
  Bool-cases,
}
use pty_mcp.Mcp.Tools.Dispatch.{
  server_protocol_version, supported_protocol_versions, pick_version, negotiate_protocol_version,
}

pub IsOneOf : String → List String → Type 0
IsOneOf v [] = ⊥
IsOneOf v (w ∷ ws) = (v ≡ w) ⊎ IsOneOf v ws

pick_version_same :
    (vs : List String) (asked : String) → IsOneOf asked vs → pick_version vs asked ≡ asked
unfolding pick_version IsOneOf
pick_version_same [] asked h = absurd h
pick_version_same (v ∷ vs) asked h = elim (Bool-cases (str_eq v asked)) [
  | inl same ↦ rw same ((eq_iff v asked).0 same)
  | inr other ↦ elim h [
    | inl e ↦ rw other (absurd (differ (sym other ∙ (eq_iff v asked).1 (sym e))))
    | inr later ↦ rw other (pick_version_same vs asked later)
  ]
]
  where
    differ : false ≡ true → ⊥
    differ e = cc e

pick_version_hit :
    (v : String) (vs : List String) (asked : String)
    → str_eq v asked ≡ true
    → pick_version (v ∷ vs) asked ≡ v
unfolding pick_version
pick_version_hit v vs asked e = rw e refl

pick_version_miss :
    (v : String) (vs : List String) (asked : String)
    → str_eq v asked ≡ false
    → pick_version (v ∷ vs) asked ≡ pick_version vs asked
unfolding pick_version
pick_version_miss v vs asked e = rw e refl

own_or_listed_later :
    (p v : String) (vs : List String)
    → (p ≡ server_protocol_version) ⊎ IsOneOf p vs
    → (p ≡ server_protocol_version) ⊎ IsOneOf p (v ∷ vs)
unfolding IsOneOf
own_or_listed_later p v vs (inl own) = inl own
own_or_listed_later p v vs (inr listed) = inr (inr listed)

listed_first : (p v : String) (vs : List String) → p ≡ v → IsOneOf p (v ∷ vs)
unfolding IsOneOf
listed_first p v vs e = inl e

pick_version-IsOneOf :
    (vs : List String) (asked : String)
    → (pick_version vs asked ≡ server_protocol_version) ⊎ IsOneOf (pick_version vs asked) vs
pick_version-IsOneOf [] asked = unfold pick_version in inl refl
pick_version-IsOneOf (v ∷ vs) asked = elim (Bool-cases (str_eq v asked)) [
  | inl same ↦ inr (listed_first _ v vs (pick_version_hit v vs asked same))
  | inr other ↦
      rw (pick_version_miss v vs asked other)
        (own_or_listed_later (pick_version vs asked) v vs (pick_version-IsOneOf vs asked))
]

pub negotiate_protocol_version_lem :
    (asked : String)
    → IsOneOf (negotiate_protocol_version asked) supported_protocol_versions
      × (IsOneOf asked supported_protocol_versions → negotiate_protocol_version asked ≡ asked)
unfolding negotiate_protocol_version IsOneOf
negotiate_protocol_version_lem asked = (
  elim (pick_version-IsOneOf supported_protocol_versions asked) [
    | inl own ↦ inl own
    | inr listed ↦ listed
  ],
  pick_version_same supported_protocol_versions asked,
)
