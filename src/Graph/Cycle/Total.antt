-- ===== src/Graph/Cycle/Total.antt =====
-- The fuel of `has_cycle`, for `_has_cycle` of core/live_graph/store.py, against the keys on its
-- stack.
use s13code.Prelude.{
  ℕ, zero, suc, ◌≤◌, ◌<◌, String, ◌≡◌, refl, inl, inr, Bool, true, false, Option, none, some, List,
  [], ◌∷◌, arith, eq_iff, elem, if◌then◌else◌, Bool-cases, length,
}
use s13code.Graph.Cycle.{
  Adjacency, adjacency, children, keys, Marks, any_visit, visit, has_cycle, unmarked, enter, leave,
  remove,
}
use s13code.Graph.Cycle.Adjacency.{children-nil}
use s13code.Graph.Cycle.Sound.{visit-Restores}

-- The keys that are not on the stack.
abbrev free : List String → List String → ℕ
free [] active = 0
free (k ∷ ks) active = let rest = free ks active in if elem k active then rest else suc rest

free-push-le :
    (ks : List String) (n : String) (active : List String) → free ks (n ∷ active) ≤ free ks active
free-push-le [] n active = omega arith
free-push-le (k ∷ ks) n active = ground (arith, free-push-le ks n active)

free-push-lt :
    (ks : List String) (n : String) (active : List String)
    → elem n ks ≡ true
    → elem n active ≡ false
    → free ks (n ∷ active) < free ks active
free-push-lt [] n active h a = absurd (ground arith)
free-push-lt (k ∷ ks) n active h a =
    ground (arith, eq_iff n k, eq_iff k n, free-push-le ks n active, free-push-lt ks n active)

free-nil : (ks : List String) → free ks [] ≡ length ks
free-nil [] = refl
free-nil (k ∷ ks) = ground (arith, free-nil ks)

abbrev Answers : Option (Bool × Marks) → Type 0
Answers o = (r : Bool × Marks) × (o ≡ some r)

any_visit-Answers :
    (adj : Adjacency) (fuel : ℕ)
    → ((c : String) (m : Marks) → free (keys adj) m.active < fuel → Answers (visit adj fuel c m))
    → (cs : List String) (m : Marks) → free (keys adj) m.active < fuel
    → Answers (any_visit (visit adj fuel) cs m)
unfolding any_visit
any_visit-Answers adj fuel v [] m h = ((false, m), refl)
any_visit-Answers adj fuel v (c ∷ cs) m h =
    visited (v c m h)
      (λ n e. any_visit-Answers adj fuel v cs n (rw (visit-Restores adj fuel c m n false e) h))
  where
    visited :
        Answers (visit adj fuel c m)
        → ((n : Marks)
            → visit adj fuel c m ≡ some (false, n)
            → Answers (any_visit (visit adj fuel) cs n))
        → Answers (any_visit (visit adj fuel) (c ∷ cs) m)
    visited ((true, n), e) rest = ((true, n), rw (e, any_visit))
    visited ((false, n), e) rest = rw (e, any_visit) (rest n e)

leave-Answers : (n : String) (o : Option (Bool × Marks)) → Answers o → Answers (leave n o)
leave-Answers n none (r, e) = absurd (ground arith)
leave-Answers n (some (b, m)) a = ((b, record m { active = remove n m.active }), refl)

inside-Answers :
    (adj : Adjacency) (fuel : ℕ) (n : String) (m : Marks)
    → ((c : String) (m' : Marks) → free (keys adj) m'.active < fuel → Answers (visit adj fuel c m'))
    → free (keys adj) m.active < suc fuel
    → elem n m.active ≡ false
    → Answers (any_visit (visit adj fuel) (children n adj) (enter n m))
inside-Answers adj fuel n m v h a = elim (Bool-cases (elem n (keys adj))) [
  | inl e ↦
      any_visit-Answers adj fuel v (children n adj) (enter n m)
        (omega (arith, free-push-lt (keys adj) n m.active e a))
  | inr e ↦ rw (children-nil n adj e) ((false, enter n m), unfold any_visit in refl)
]

visit-Answers :
    (adj : Adjacency) (fuel : ℕ) (n : String) (m : Marks)
    → free (keys adj) m.active < fuel
    → Answers (visit adj fuel n m)
unfolding visit
visit-Answers adj zero n m h = absurd (omega arith)
visit-Answers adj (suc fuel) n m h = elim (Bool-cases (elem n m.active)) [
  | inl a ↦ ((true, m), rw a)
  | inr a ↦ elim (Bool-cases (elem n m.seen)) [
    | inl s ↦ ((false, m), rw (a, s))
    | inr s ↦
        rw (a, s) (leave-Answers n _ (inside-Answers adj fuel n m (visit-Answers adj fuel) h a))
  ]
]

-- The search always answers.
pub has_cycle_total : (rows : List (String × String)) → (b : Bool) × (has_cycle rows ≡ some b)
unfolding has_cycle
has_cycle_total rows =
    let adj = adjacency rows in
    let fuel = suc (suc (length (keys adj))) in
    let ((b, m), e) =
      any_visit-Answers adj fuel (visit-Answers adj fuel) (keys adj) unmarked
        (omega (arith, free-nil (keys adj))) in
    (b, rw e)
