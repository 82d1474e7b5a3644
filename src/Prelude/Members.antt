-- ===== src/Prelude/Members.antt =====
-- Membership in the lists that filters, sorts and prefixes give.
use mathlib.Core.List.Memᴰ
use mathlib.Core.Path.{◌≡◌, refl, ap, ◌∙◌}
use mathlib.Core.Logic.{◌⊎◌, inl, inr, ◌↔◌, ⊎_elim}
use mathlib.Core.Bool.{Bool, true, false, ◌||◌}
use mathlib.Core.List.{List, [], ◌∷◌, ◌++◌, map, Memᴰ}
use Prim.Native.Nat.{ℕ, zero, suc, ◌<◌}
use native.Mathlib.Omega.{arith}
use s13code.Prelude.Tests.{Bool-cases}
use s13code.Prelude.Lists.{filter, insert_by, sort_by, take, any, length}

module _ {ℓ} {A : Type ℓ} where
  pub Memᴰ_cons : (a x : A) (xs : List A) → Memᴰ a (x ∷ xs) ↔ ((a ≡ x) ⊎ Memᴰ a xs)
  Memᴰ_cons a x xs = (Memᴰ.cases_cons, ⊎_elim Memᴰ.head Memᴰ.tail)

  pub Memᴰ-filter :
      (p : A → Bool) (a : A) (xs : List A) → Memᴰ a (filter p xs) ↔ (Memᴰ a xs × (p a ≡ true))
  Memᴰ-filter p a [] = (λ m. absurd (Memᴰ.not-nil m), λ m. m.0)
  Memᴰ-filter p a (x ∷ xs) = elim (Bool-cases (p x)) [
    | inl e ↦ rw e (
        ground (
          arith,
          Memᴰ-filter p a xs,
          Memᴰ_cons a x xs,
          Memᴰ_cons a x (filter p xs),
          λ (q : a ≡ x). ap p q,
        ))
    | inr e ↦ rw e (ground (arith, Memᴰ-filter p a xs, Memᴰ_cons a x xs, λ (q : a ≡ x). ap p q))
  ]

  pub Memᴰ-insert_by :
      (le : A → A → Bool) (a x : A) (ys : List A)
      → Memᴰ a (insert_by le x ys) ↔ ((a ≡ x) ⊎ Memᴰ a ys)
  Memᴰ-insert_by le a x [] = Memᴰ_cons a x []
  Memᴰ-insert_by le a x (y ∷ ys) = elim (Bool-cases (le x y)) [
    | inl e ↦ rw e (Memᴰ_cons a x (y ∷ ys))
    | inr e ↦ rw e (
        ground
          (arith, Memᴰ-insert_by le a x ys, Memᴰ_cons a y ys, Memᴰ_cons a y (insert_by le x ys)))
  ]

  pub Memᴰ-sort_by : (le : A → A → Bool) (a : A) (xs : List A) → Memᴰ a (sort_by le xs) ↔ Memᴰ a xs
  Memᴰ-sort_by le a [] = (λ m. m, λ m. m)
  Memᴰ-sort_by le a (x ∷ xs) =
      ground (arith, Memᴰ-sort_by le a xs, Memᴰ-insert_by le a x (sort_by le xs), Memᴰ_cons a x xs)

  pub Memᴰ-take : (n : ℕ) (a : A) (xs : List A) → Memᴰ a (take n xs) → Memᴰ a xs
  Memᴰ-take zero a xs m = absurd (Memᴰ.not-nil m)
  Memᴰ-take (suc n) a [] m = m
  Memᴰ-take (suc n) a (x ∷ xs) m =
      ⊎_elim Memᴰ.head (λ t. Memᴰ.tail (Memᴰ-take n a xs t)) (Memᴰ.cases_cons m)

  -- A prefix that is not full is the whole list.
  pub take_all : (n : ℕ) (xs : List A) → length (take n xs) < n → take n xs ≡ xs
  take_all zero xs h = absurd (omega arith)
  take_all (suc n) [] h = refl
  take_all (suc n) (x ∷ xs) h = ap (λ r. x ∷ r) (take_all n xs (omega arith))

  pub any-false : (p : A → Bool) (a : A) (xs : List A) → any p xs ≡ false → Memᴰ a xs → p a ≡ false
  any-false p a [] h m = absurd (Memᴰ.not-nil m)
  any-false p a (x ∷ xs) h m = elim (Memᴰ.cases_cons m) [
    | inl e ↦ ap p e ∙ ground arith
    | inr t ↦ any-false p a xs (ground arith) t
  ]

  pub any-true : (p : A → Bool) (a : A) (xs : List A) → Memᴰ a xs → p a ≡ true → any p xs ≡ true
  any-true p a [] m h = absurd (Memᴰ.not-nil m)
  any-true p a (x ∷ xs) m h = elim (Memᴰ.cases_cons m) [
    | inl e ↦ rw (← e, h)
    | inr t ↦ rw (any-true p a xs t h) (ground arith)
  ]

  -- No element passes the test exactly when `any` says so.
  pub all-not-any :
      (p : A → Bool) (xs : List A) → ((a : A) → Memᴰ a xs → p a ≡ false) → any p xs ≡ false
  all-not-any p [] h = refl
  all-not-any p (x ∷ xs) h = rw (h x (Memᴰ.head refl)) (all-not-any p xs (λ a m. h a (Memᴰ.tail m)))

  pub length-map {κ} : {B : Type κ} (f : A → B) (xs : List A) → length (map f xs) ≡ length xs
  length-map f [] = refl
  length-map f (x ∷ xs) = ap suc (length-map f xs)

pub any-append {ℓ} :
    {A : Type ℓ} (p : A → Bool) (xs ys : List A) → any p (xs ++ ys) ≡ (any p xs || any p ys)
any-append p [] ys = refl
any-append p (x ∷ xs) ys = ground (arith, any-append p xs ys)
