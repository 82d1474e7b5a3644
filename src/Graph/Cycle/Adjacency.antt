-- ===== src/Graph/Cycle/Adjacency.antt =====
-- The dict that `_has_cycle` of core/live_graph/store.py builds from the rows.
use mathlib.Core.List.Memᴰ
use mathlib.Core.Logic.{⊎_elim}
use s13code.Prelude.{
  String, ◌≡◌, refl, ◌⊎◌, inl, inr, ◌↔◌, true, false, ◌==◌, List, [], ◌∷◌, ◌++◌, Memᴰ, arith,
  eq_iff, elem, Bool-cases,
}
use s13code.Graph.Cycle.{Adjacency, append_child, adjacency, children, keys, build_from}

pub Memᴰ-concat : (c d : String) (xs : List String) → Memᴰ c (xs ++ d ∷ []) ↔ (Memᴰ c xs ⊎ (c ≡ d))
Memᴰ-concat c d xs = (
  λ m. ⊎_elim inl (λ last. inr (Memᴰ.eq_of_singleton last)) (Memᴰ.append_cases xs m),
  ⊎_elim (Memᴰ.append_left _) (λ e. Memᴰ.append_right xs (Memᴰ.head e)),
)

pub Memᴰ-cons {ℓ} : {A : Type ℓ} (a x : A) (xs : List A) → Memᴰ a (x ∷ xs) ↔ ((a ≡ x) ⊎ Memᴰ a xs)
Memᴰ-cons a x xs = (Memᴰ.cases_cons, ⊎_elim Memᴰ.head Memᴰ.tail)

pub elem→Memᴰ : (x : String) (xs : List String) → elem x xs ≡ true → Memᴰ x xs
elem→Memᴰ x [] h = ground arith
elem→Memᴰ x (y ∷ ys) h = elim (Bool-cases (x == y)) [
  | inl e ↦ Memᴰ.head ((eq_iff x y).0 e)
  | inr ne ↦ Memᴰ.tail (elem→Memᴰ x ys (rw ne at h))
]

pub Memᴰ→elem : (x : String) (xs : List String) → Memᴰ x xs → elem x xs ≡ true
Memᴰ→elem x [] m = absurd (Memᴰ.not-nil m)
Memᴰ→elem x (y ∷ ys) m = elim (Memᴰ.cases_cons m) [
  | inl e ↦ rw ((eq_iff x y).1 e)
  | inr t ↦ ground (arith, Memᴰ→elem x ys t)
]

children-append_child :
    (u c p d : String) (adj : Adjacency)
    → Memᴰ c (children u (append_child p d adj)) ↔ (Memᴰ c (children u adj) ⊎ ((u ≡ p) × (c ≡ d)))
unfolding children append_child
children-append_child u c p d [] =
    ground (arith, eq_iff p u, Memᴰ-cons c d [], λ (m : Memᴰ c []). Memᴰ.not-nil m)
children-append_child u c p d ((q, cs) ∷ adj) = ground (
  arith,
  eq_iff q p,
  eq_iff q u,
  eq_iff p u,
  Memᴰ-concat c d cs,
  children-append_child u c p d adj,
)

children-build_from :
    (u c : String) (adj : Adjacency) (rows : List (String × String))
    → Memᴰ c (children u (build_from adj rows)) ↔ (Memᴰ c (children u adj) ⊎ Memᴰ (u, c) rows)
children-build_from u c adj [] = (inl, ⊎_elim (λ m. m) (λ m. absurd (Memᴰ.not-nil m)))
children-build_from u c adj ((p, d) ∷ rows) = ground (
  arith,
  children-build_from u c (append_child p d adj) rows,
  children-append_child u c p d adj,
  Memᴰ-cons (u, c) (p, d) rows,
)

not_listed : (u c : String) → Memᴰ c (children u []) → ⊥
unfolding children
not_listed u c m = Memᴰ.not-nil m

-- `c` is listed under `u` exactly when (u, c) is a row.
pub children-adjacency :
    (u c : String) (rows : List (String × String))
    → Memᴰ c (children u (adjacency rows)) ↔ Memᴰ (u, c) rows
unfolding adjacency
children-adjacency u c rows =
    let both = children-build_from u c [] rows in
    (λ m. ⊎_elim (λ n. absurd (not_listed u c n)) (λ k. k) (both.0 m), λ m. both.1 (inr m))

-- A node that is no key has no children.
pub children-nil : (u : String) (adj : Adjacency) → elem u (keys adj) ≡ false → children u adj ≡ []
unfolding children
children-nil u [] h = refl
children-nil u ((p, cs) ∷ adj) h = ground (arith, eq_iff u p, eq_iff p u, children-nil u adj)
