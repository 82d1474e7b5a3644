-- ===== src/A2a/Cards/Chosen.antt =====
-- The interface that `negotiate_interface` chooses, and the cards that `verify` trusts.
use mathlib.Core.List.Memᴰ
use s13code.Prelude.{
  String, ◌≡◌, refl, ◌∙◌, true, false, Option, none, some, List, [], ◌∷◌, ok, arith, elem, any,
  Bool-cases, Option-cases, ◌⊎◌, inl, inr, Memᴰ,
}
use s13code.A2a.Cards.{Signature, TrustPolicy, named, checks, verifies, verify}

-- The signature names an allowed algorithm and a trusted key, and is valid for the payload.
pub record Verified (p : TrustPolicy) (payload : String) (s : Signature) : Type 0 where
  pub algorithm : String
  pub kid : String
  pub key : String
  pub header : s.header ≡ some (some algorithm, some kid)
  pub allowed : elem algorithm p.allowed_algorithms ≡ true
  pub resolved : p.key_resolver kid ≡ some key
  pub valid : p.is_valid key s payload ≡ true

named_some : (o : Option String) (k : String) → named o ≡ some k → o ≡ some k
named_some none k h = absurd (ground arith)
named_some (some s) k h = ground arith

checks-Verified :
    (p : TrustPolicy) (payload : String) (s : Signature) (algorithm kid : Option String)
    → s.header ≡ some (algorithm, kid)
    → checks p payload s algorithm kid ≡ true
    → Verified p payload s
checks-Verified p payload s none kid e h = absurd (ground arith)
checks-Verified p payload s (some a) kid e h = elim (Option-cases (named kid)) [
  | inl n ↦ absurd (ground arith)
  | inr (k, n) ↦ elim (Option-cases (named (p.key_resolver k))) [
    | inl q ↦ absurd (ground arith)
    | inr (key, q) ↦ record {
      algorithm = a;
      kid = k;
      key = key;
      header = e ∙ rw (named_some kid k n);
      allowed = ground arith;
      resolved = named_some (p.key_resolver k) key q;
      valid = ground arith;
    }
  ]
]

verifies-Verified :
    (p : TrustPolicy) (payload : String) (s : Signature)
    → verifies p payload s ≡ true
    → Verified p payload s
unfolding verifies
verifies-Verified p payload s h = elim (Option-cases s.header) [
  | inl e ↦ absurd (let k : verifies p payload s ≡ false = rw (verifies, e) in ground arith)
  | inr ((a, k), e) ↦ checks-Verified p payload s a k e (rw (verifies, e) at h)
]

any-found :
    (p : TrustPolicy) (payload : String) (ss : List Signature)
    → any (verifies p payload) ss ≡ true
    → (s : Signature) × Memᴰ s ss × Verified p payload s
any-found p payload [] h = absurd (ground arith)
any-found p payload (s ∷ ss) h = elim (Bool-cases (verifies p payload s)) [
  | inl e ↦ (s, Memᴰ.head refl, verifies-Verified p payload s e)
  | inr e ↦ let (t, m, v) = any-found p payload ss (rw e at h) in (t, Memᴰ.tail m, v)
]

-- If `verify` accepts a card, then it has no signatures and the policy does not require one, or
-- one of them names an allowed algorithm and a key that the resolver knows and is valid for the
-- payload under that key.
pub verify_lem :
    (p : TrustPolicy) (payload : String) (signatures : List Signature)
    → verify p payload signatures ≡ ok tt
    → ((signatures ≡ []) × (p.require_signature ≡ false))
      ⊎ ((s : Signature) × Memᴰ s signatures × Verified p payload s)
unfolding verify
verify_lem p payload [] h = elim (Bool-cases p.require_signature) [
  | inl e ↦ absurd (ground arith)
  | inr e ↦ inl (refl, e)
]
verify_lem p payload (s ∷ ss) h = elim (Bool-cases (any (verifies p payload) (s ∷ ss))) [
  | inl e ↦ inr (any-found p payload (s ∷ ss) e)
  | inr e ↦ absurd (let k = rw e at h in ground arith)
]
