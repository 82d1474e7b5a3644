-- ===== src/Prelude/Effects.antt =====
-- State passing with errors, where an exception leaves the state as it is.
use s13code.Prelude.Results.{Outcome, ok, err}

module _ {S E : Type 0} where
  abbrev pub and_then :
      {A B : Type 0} → Outcome E A × S → (A → S → Outcome E B × S) → Outcome E B × S
  and_then (ok a, s) f = f a s
  and_then (err e, s) f = (err e, s)

  infixl 10 ◌>>=◌ ◌>>◌
  abbrev pub ◌>>=◌ :
      {A B : Type 0} → (S → Outcome E A × S) → (A → S → Outcome E B × S) → S → Outcome E B × S
  ◌>>=◌ m f s = and_then (m s) f

  abbrev pub ◌>>◌ :
      {A B : Type 0} → (S → Outcome E A × S) → (S → Outcome E B × S) → S → Outcome E B × S
  m >> k = m >>= λ _. k

  abbrev pub return : {A : Type 0} → A → S → Outcome E A × S
  return a s = (ok a, s)

  abbrev pub fail : {A : Type 0} → E → S → Outcome E A × S
  fail e s = (err e, s)

  abbrev pub check : Outcome E Unit → S → Outcome E Unit × S
  check (ok _) s = (ok tt, s)
  check (err e) s = (err e, s)

  abbrev pub update : (S → S) → S → Outcome E Unit × S
  update f s = (ok tt, f s)

  -- `with db:` on a connection whose work is rolled back on an exception.
  abbrev pub rolled_back : {A : Type 0} → Outcome E A × S → S → Outcome E A × S
  rolled_back (ok a, s') s = (ok a, s')
  rolled_back (err e, s') s = (err e, s)

  -- The predicate holds after the part, whether it returned or raised.
  abbrev pub Keeps : {A : Type 0} → (S → Type 0) → (S → Outcome E A × S) → Type 0
  Keeps P m = (s : S) → P s → P (m s).1

  pub bind-Keeps :
      {A B : Type 0} (P : S → Type 0) (m : S → Outcome E A × S) (f : A → S → Outcome E B × S)
      → Keeps P m
      → ((a : A) → Keeps P (f a))
      → Keeps P (m >>= f)
  bind-Keeps {A} {B} P m f km kf s p = go (m s) (km s p)
    where
      go : (o : Outcome E A × S) → P o.1 → P (and_then o f).1
      go (ok a, s') q = kf a s' q
      go (err e, s') q = q

  pub rolled_back-Keeps :
      {A : Type 0} (P : S → Type 0) (o : Outcome E A × S) (s : S)
      → P s
      → P o.1
      → P (rolled_back o s).1
  rolled_back-Keeps P (ok a, s') s p q = q
  rolled_back-Keeps P (err e, s') s p q = p
