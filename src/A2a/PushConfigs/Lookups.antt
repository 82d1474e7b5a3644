-- ===== src/A2a/PushConfigs/Lookups.antt =====
-- Lemmas on `get` of `DurablePushConfigs` in core/a2a_adapter/official.py: rows found, absent, and
-- among those that a test keeps.
use mathlib.Core.List.Memᴰ
use s13code.Prelude.{
  String, ◌≡◌, refl, Bool, true, false, ◌==◌, none, some, List, [], ◌∷◌, ◌++◌, arith, eq_iff,
  if◌then◌else◌, filter, Memᴰ, Bool-cases, inl, inr, ap, ◌∙◌, sym,
}
use s13code.Prelude.Members.{Memᴰ_cons}
use s13code.A2a.PushConfigs.{PushConfig, others, get_config}

pub get-Memᴰ :
    (k : String) (cs : List PushConfig) (d : PushConfig)
    → get_config k cs ≡ some d
    → Memᴰ d cs × ((d.id == k) ≡ true)
unfolding get_config
get-Memᴰ k [] d h = absurd (ground arith)
get-Memᴰ k (c ∷ cs) d h = elim (Bool-cases (c.id == k)) [
  | inl e ↦
      let same : some c ≡ some d = rw (get_config, e) at h in
      let q : c ≡ d = ground arith in (Memᴰ.head (sym q), ap (λ x. x.id == k) (sym q) ∙ e)
  | inr e ↦ let (m, i) = get-Memᴰ k cs d (rw (get_config, e) at h) in (Memᴰ.tail m, i)
]

pub get-none :
    (k : String) (cs : List PushConfig)
    → get_config k cs ≡ none
    → (c : PushConfig) → Memᴰ c cs
    → (c.id == k) ≡ false
unfolding get_config
get-none k [] h c m = absurd (Memᴰ.not-nil m)
get-none k (x ∷ cs) h c m = elim (Bool-cases (x.id == k)) [
  | inl e ↦ let f = rw (get_config, e) at h in absurd (ground arith)
  | inr e ↦ elim ((Memᴰ_cons c x cs).0 m) [
    | inl q ↦ ap (λ y. y.id == k) q ∙ e
    | inr t ↦ get-none k cs (rw (get_config, e) at h) c t
  ]
]

-- A search among the rows that a test keeps.
pub get-filter :
    (p : PushConfig → Bool) (k : String) (cs : List PushConfig) (d : PushConfig)
    → get_config k cs ≡ some d
    → p d ≡ true
    → get_config k (filter p cs) ≡ some d
unfolding get_config
get-filter p k [] d h t = absurd (ground arith)
get-filter p k (c ∷ cs) d h t = elim (Bool-cases (c.id == k)) [
  | inl e ↦
      let same : some c ≡ some d = rw (get_config, e) at h in
      let q : c ≡ d = ground arith in let f : p c ≡ true = ap p q ∙ t in rw (f, get_config, e) same
  | inr e ↦
      let rest = get-filter p k cs d (rw (get_config, e) at h) t in
      elim (Bool-cases (p c)) [ inl f ↦ rw (f, get_config, e) rest | inr f ↦ rw f rest ]
]

pub get-absent :
    (k : String) (cs : List PushConfig)
    → ((c : PushConfig) → Memᴰ c cs → (c.id == k) ≡ false)
    → get_config k cs ≡ none
unfolding get_config
get-absent k [] h = refl
get-absent k (c ∷ cs) h =
    rw (get_config, h c (Memᴰ.head refl)) (get-absent k cs (λ d m. h d (Memᴰ.tail m)))

pub get-others :
    (c : PushConfig) (k : String) (cs : List PushConfig)
    → get_config k (others c.id cs ++ c ∷ []) ≡ (if c.id == k then some c else get_config k cs)
unfolding get_config
get-others c k [] = refl
get-others c k (x ∷ cs) =
    ground (arith, get-others c k cs, eq_iff x.id c.id, eq_iff c.id k, eq_iff x.id k)
