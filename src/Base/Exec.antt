-- ===== src/Base/Exec.antt =====
-- Go functions that change shared state: the state comes back beside every outcome, since what was
-- written before an error stays written.
use mathlib.Core.Path.{◌≡◌, refl, ap}
use mathlib.Core.Logic.{◌⊎◌, inl, inr}
use mathlib.Core.Option.{Option, none, some}
use native.Mathlib.Omega.{arith}
use ramsql.Base.Outcome.{Outcome, ok, err, panic, blocked, Error}

abbrev pub Exec {ℓ} : Type ℓ → Type ℓ → Type ℓ
Exec S A = S → Outcome A × S

module _ {ℓ} {S A : Type ℓ} where
  abbrev pub pure : A → Exec S A
  pure a s = (ok a, s)

  abbrev pub raise : Error → Exec S A
  raise e s = (err e, s)

  abbrev pub wait_forever : Exec S A
  wait_forever s = (blocked, s)

  abbrev pub lift : Outcome A → Exec S A
  lift r s = (r, s)

  abbrev pub gets : (S → A) → Exec S A
  gets f s = (ok (f s), s)

  -- A pointer that is read: nil panics.
  abbrev pub deref : Option A → Exec S A
  deref none s = (panic, s)
  deref (some a) s = (ok a, s)

abbrev pub modify : {S : Type 0} → (S → S) → Exec S (Unit {0})
modify f s = (ok tt, f s)

module _ {ℓ} {S A B : Type ℓ} where
  abbrev pub continue : Outcome A → (A → Exec S B) → Exec S B
  continue (ok a) f s = f a s
  continue (err e) f s = (err e, s)
  continue panic f s = (panic, s)
  continue blocked f s = (blocked, s)

  infixl 5 ◌>>=◌ ◌>>◌
  abbrev pub ◌>>=◌ : Exec S A → (A → Exec S B) → Exec S B
  ◌>>=◌ m f s = let (r, s') = m s in continue r f s'

  abbrev pub ◌>>◌ : Exec S A → Exec S B → Exec S B
  m >> n = m >>= λ _. n

-- A chain that ends with a value: its first part did, and the rest ran from there.
module _ {ℓ} {S A B : Type ℓ} where
  continue-eq-ok :
      (o : Outcome A) (f : A → Exec S B) (s u : S) (b : B)
      → continue o f s ≡ (ok b, u)
      → (a : A) × (o ≡ ok a) × (f a s ≡ (ok b, u))
  continue-eq-ok (ok a) f s u b h = (a, refl, h)
  continue-eq-ok (err e) f s u b h = absurd (ground arith)
  continue-eq-ok panic f s u b h = absurd (ground arith)
  continue-eq-ok blocked f s u b h = absurd (ground arith)

  pub >>=-eq-ok :
      (m : Exec S A) (f : A → Exec S B) (s u : S) (b : B)
      → (m >>= f) s ≡ (ok b, u)
      → (a : A) × ((m s).0 ≡ ok a) × (f a (m s).1 ≡ (ok b, u))
  >>=-eq-ok m f s u b h = continue-eq-ok (m s).0 f (m s).1 u b h

module _ {S A B : Type 0} where
  continue-eq-err :
      (o : Outcome A) (f : A → Exec S B) (s u : S) (e : Error)
      → continue o f s ≡ (err e, u)
      → ((o ≡ err e) × (s ≡ u)) ⊎ ((a : A) × (o ≡ ok a) × (f a s ≡ (err e, u)))
  continue-eq-err (ok a) f s u e h = inr (a, refl, h)
  continue-eq-err (err x) f s u e h = inl (ground arith, ap (λ (y : Outcome B × S). y.1) h)
  continue-eq-err panic f s u e h = absurd (ground arith)
  continue-eq-err blocked f s u e h = absurd (ground arith)

  -- A chain that ends with an error: its first part did, or the rest did from there.
  pub >>=-eq-err :
      (m : Exec S A) (f : A → Exec S B) (s u : S) (e : Error)
      → (m >>= f) s ≡ (err e, u)
      → (((m s).0 ≡ err e) × ((m s).1 ≡ u))
        ⊎ ((a : A) × ((m s).0 ≡ ok a) × (f a (m s).1 ≡ (err e, u)))
  >>=-eq-err m f s u e h = continue-eq-err (m s).0 f (m s).1 u e h
