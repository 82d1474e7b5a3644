-- ===== src/A2a/Cards.antt =====
-- Agent cards: `negotiate_interface` of core/a2a_adapter/schema.py and `AgentCardTrustPolicy.verify` of
-- core/a2a_adapter/trust.py.
pub mod Chosen
use s13code.Prelude.{
  ℕ, zero, suc, String, Bool, true, false, not, ◌&&◌, ◌||◌, ◌==◌, Option, none, some, List, [], ◌∷◌,
  Outcome, ok, err, ltb, if◌then◌else◌, elem, filter, any, map,
}

-- An entry of `supportedInterfaces`; a missing key reads as the empty text.
pub record Interface : Type 0 where
  pub url : String
  pub protocol_binding : String
  pub protocol_version : String

abbrev later : Option ℕ → ℕ → Option ℕ
later none n = some n
later (some m) n = some m

-- `rank[version]`: the dict keeps the last index of a version that is repeated.
unfoldable pub rank_from : ℕ → String → List String → Option ℕ
rank_from n version [] = none
rank_from n version (v ∷ vs) =
    let rest = rank_from (suc n) version vs in if v == version then later rest n else rest

abbrev or_zero : Option ℕ → ℕ
or_zero none = 0
or_zero (some n) = n

abbrev pub rank : List String → Interface → ℕ
rank versions i = or_zero (rank_from 0 i.protocol_version versions)

-- `upper` is `str.upper`.
abbrev pub is_candidate : (String → String) → List String → List String → Interface → Bool
is_candidate upper bindings versions i =
    elem (upper i.protocol_binding) (map upper bindings) && elem i.protocol_version versions

-- `min` with a key: the first of the smallest.
unfoldable pub min_by : (Interface → ℕ) → Interface → List Interface → Interface
min_by key best [] = best
min_by key best (i ∷ is) = min_by key (if ltb (key i) (key best) then i else best) is

pub data CardError : Type 0 where
  invalid_card no_interface unsigned unverified : CardError

abbrev pick : List String → List Interface → Outcome CardError Interface
pick versions [] = err no_interface
pick versions (i ∷ is) = ok (min_by (rank versions) i is)

-- `validate_agent_card`, which the A2A SDK does, has accepted the card.
unfoldable pub negotiate_interface :
    (String → String) → List String → List String → List Interface → Outcome CardError Interface
negotiate_interface upper bindings versions interfaces =
    pick versions (filter (is_candidate upper bindings versions) interfaces)

-- A signature of a card, with the algorithm and the key name of its decoded header, none when it
-- cannot be decoded.
pub record Signature : Type 0 where
  pub protected : String
  pub signature : String
  pub header : Option (Option String × Option String)

-- `key_resolver` gives the key of a name; `is_valid` stands for the check of the cryptography
-- library, and false for any exception of it.
pub record TrustPolicy : Type 0 where
  pub key_resolver : String → Option String
  pub require_signature : Bool
  pub allowed_algorithms : List String
  pub is_valid : String → Signature → String → Bool

abbrev pub named : Option String → Option String
named none = none
named (some s) = if s == "" then none else some s

-- One round of the loop, for a header that was decoded.
abbrev pub checks : TrustPolicy → String → Signature → Option String → Option String → Bool
checks p payload s algorithm kid = elim algorithm [
  | none ↦ false
  | some a ↦ elem a p.allowed_algorithms && (elim (named kid) [
    | none ↦ false
    | some k ↦ elim (named (p.key_resolver k)) [
      | none ↦ false
      | some key ↦ p.is_valid key s payload
    ]
  ])
]

unfoldable pub verifies : TrustPolicy → String → Signature → Bool
verifies p payload s = elim s.header [
  | none ↦ false
  | some (algorithm, kid) ↦ checks p payload s algorithm kid
]

abbrev verify_all : TrustPolicy → String → List Signature → Outcome CardError Unit
verify_all p payload [] = if p.require_signature then err unsigned else ok tt
verify_all p payload (s ∷ ss) = if any (verifies p payload) (s ∷ ss) then ok tt else err unverified

-- `payload` is the canonical form of the card without its signatures.
unfoldable pub verify : TrustPolicy → String → List Signature → Outcome CardError Unit
verify p payload signatures = verify_all p payload signatures
