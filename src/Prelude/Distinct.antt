-- ===== src/Prelude/Distinct.antt =====
-- Lists whose elements have keys: searches by key, and keys that do not repeat.
use mathlib.Core.Path.{◌≡◌, refl, sym}
use mathlib.Core.Logic.{inl, inr}
use mathlib.Core.Bool.{Bool, true, false, ◌&&◌, ◌||◌, not}
use mathlib.Core.List.{List, [], ◌∷◌, ◌++◌, map, Memᴰ}
use Prim.Native.Nat.{ℕ, zero, suc, ◌<◌, ◌≤◌}
use Prim.Native.String.{String}
use text.Mathlib.Text.{◌==◌}
use text.Mathlib.TextEquality.{eq_iff}
use native.Mathlib.Omega.{arith}
use s13code.Prelude.Tests.{Bool-cases, eq_self}
use s13code.Prelude.Lists.{filter, insert_by, sort_by, take, length, elem, has_duplicates}

pub eq_sym : (s t : String) → (s == t) ≡ (t == s)
eq_sym s t = ground (arith, eq_iff s t, eq_iff t s)

pub has_duplicates-append :
    (xs ys : List String)
    → has_duplicates xs ≡ false
    → has_duplicates ys ≡ false
    → ((x : String) → elem x xs ≡ true → elem x ys ≡ false)
    → has_duplicates (xs ++ ys) ≡ false
has_duplicates-append [] ys a b d = b
has_duplicates-append (x ∷ xs) ys a b d =
    let here : elem x ys ≡ false = d x (ground (arith, eq_self x)) in
    let rest = has_duplicates-append xs ys (ground arith) b (λ y h. d y (ground arith)) in
    rw (rest, elem_append x xs ys, here) (ground arith)
  where
    elem_append : (x : String) (xs ys : List String) → elem x (xs ++ ys) ≡ (elem x xs || elem x ys)
    elem_append x [] ys = refl
    elem_append x (y ∷ xs) ys = ground (arith, elem_append x xs ys)

module _ {ℓ} {A : Type ℓ} (key : A → String) where
  abbrev keyed : List A → List String
  keyed xs = map key xs

  pub elem-insert_by :
      (le : A → A → Bool) (s : String) (x : A) (xs : List A)
      → elem s (map key (insert_by le x xs)) ≡ (s == key x || elem s (map key xs))
  elem-insert_by le s x [] = refl
  elem-insert_by le s x (y ∷ ys) = elim (Bool-cases (le x y)) [
    | inl e ↦ rw e
    | inr e ↦ rw e (rw (elem-insert_by le s x ys) (ground arith))
  ]

  has_duplicates-insert_by :
      (le : A → A → Bool) (x : A) (xs : List A)
      → has_duplicates (map key (insert_by le x xs))
        ≡ (elem (key x) (map key xs) || has_duplicates (map key xs))
  has_duplicates-insert_by le x [] = refl
  has_duplicates-insert_by le x (y ∷ ys) = elim (Bool-cases (le x y)) [
    | inl e ↦ rw e
    | inr e ↦ rw e (
        rw
          (elem-insert_by le (key y) x ys, has_duplicates-insert_by le x ys, eq_sym (key y) (key x))
          (ground arith))
  ]

  pub elem-sort_by :
      (le : A → A → Bool) (s : String) (xs : List A)
      → elem s (map key (sort_by le xs)) ≡ elem s (map key xs)
  elem-sort_by le s [] = refl
  elem-sort_by le s (x ∷ xs) = rw (elem-insert_by le s x (sort_by le xs), elem-sort_by le s xs)

  pub has_duplicates-sort_by :
      (le : A → A → Bool) (xs : List A)
      → has_duplicates (map key (sort_by le xs)) ≡ has_duplicates (map key xs)
  has_duplicates-sort_by le [] = refl
  has_duplicates-sort_by le (x ∷ xs) = rw (
    has_duplicates-insert_by le x (sort_by le xs),
    elem-sort_by le (key x) xs,
    has_duplicates-sort_by le xs,
  )

  pub elem-take :
      (n : ℕ) (s : String) (xs : List A)
      → elem s (map key xs) ≡ false
      → elem s (map key (take n xs)) ≡ false
  elem-take zero s xs h = refl
  elem-take (suc n) s [] h = refl
  elem-take (suc n) s (x ∷ xs) h = ground (arith, elem-take n s xs)

  pub has_duplicates-take :
      (n : ℕ) (xs : List A)
      → has_duplicates (map key xs) ≡ false
      → has_duplicates (map key (take n xs)) ≡ false
  has_duplicates-take zero xs h = refl
  has_duplicates-take (suc n) [] h = refl
  has_duplicates-take (suc n) (x ∷ xs) h =
      ground (arith, elem-take n (key x) xs, has_duplicates-take n xs)

  -- Every element with this key is taken out.
  pub elem-without :
      (k s : String) (xs : List A)
      → elem s (map key (filter (λ x. not (key x == k)) xs)) ≡ (not (s == k) && elem s (map key xs))
  elem-without k s [] = ground arith
  elem-without k s (x ∷ xs) =
      ground (arith, elem-without k s xs, eq_iff s k, eq_iff s (key x), eq_iff (key x) k)

  pub has_duplicates-without :
      (k : String) (xs : List A)
      → has_duplicates (map key xs) ≡ false
      → has_duplicates (map key (filter (λ x. not (key x == k)) xs)) ≡ false
  has_duplicates-without k [] h = refl
  has_duplicates-without k (x ∷ xs) h =
      ground (arith, elem-without k (key x) xs, has_duplicates-without k xs)

  pub length-without-le :
      (k : String) (xs : List A) → length (filter (λ x. not (key x == k)) xs) ≤ length xs
  length-without-le k [] = omega arith
  length-without-le k (x ∷ xs) = ground (arith, length-without-le k xs)

  pub length-without-lt :
      (k : String) (xs : List A)
      → elem k (map key xs) ≡ true
      → length (filter (λ x. not (key x == k)) xs) < length xs
  length-without-lt k [] h = absurd (ground arith)
  length-without-lt k (x ∷ xs) h =
      ground (arith, length-without-lt k xs, length-without-le k xs, eq_sym k (key x))

  pub elem-found :
      (s : String) (xs : List A) → elem s (map key xs) ≡ true → (x : A) × Memᴰ x xs × (key x ≡ s)
  elem-found s [] h = absurd (ground arith)
  elem-found s (x ∷ xs) h = elim (Bool-cases (s == key x)) [
    | inl e ↦ (x, Memᴰ.head refl, sym ((eq_iff s (key x)).0 e))
    | inr e ↦ let (y, m, k) = elem-found s xs (rw e at h) in (y, Memᴰ.tail m, k)
  ]
