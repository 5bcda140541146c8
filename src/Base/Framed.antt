-- ===== src/Base/Framed.antt =====
-- What an action leaves alone, as a relation between the states before and after, whatever the
-- outcome: a rule for each way to build an action.
use mathlib.Core.Path.{◌≡◌}
use mathlib.Core.Option.{Option}
use native.Mathlib.Omega.{arith}
use ramsql.Base.Outcome.{Outcome, ok, err, panic, blocked}
use ramsql.Base.Exec.{Exec, continue, deref, ◌>>=◌}

abbrev pub Framed : {S A : Type 0} → (S → S → Type 0) → Exec S A → Type 0
Framed {S} R m = (s : S) → R s (m s).1

abbrev pub Transitive : {S : Type 0} → (S → S → Type 0) → Type 0
Transitive {S} R = (s t u : S) → R s t → R t u → R s u

module _ {S A B : Type 0} {R : S → S → Type 0} (trans : Transitive R) where
  Framed-continue :
      (o : Outcome A) (f : A → Exec S B) (s t : S)
      → R s t
      → ((a : A) → Framed R (f a))
      → R s (continue o f t).1
  Framed-continue (ok a) f s t h k = trans s t _ h (k a t)
  Framed-continue (err e) f s t h k = h
  Framed-continue panic f s t h k = h
  Framed-continue blocked f s t h k = h

  pub Framed-bind :
      (m : Exec S A) (f : A → Exec S B)
      → Framed R m
      → ((a : A) → Framed R (f a))
      → Framed R (m >>= f)
  Framed-bind m f h k s = Framed-continue (m s).0 f s (m s).1 (h s) k

pub deref-state : {S A : Type 0} (o : Option A) (s : S) → (deref o s).1 ≡ s
deref-state o s = ground arith

-- The call comes back, with a value or an error.
abbrev pub Settled {ℓ} : {A : Type ℓ} → Outcome A → Type 0
Settled (ok a) = Unit
Settled (err e) = Unit
Settled panic = ⊥
Settled blocked = ⊥

-- As `Framed`, where the call comes back.
abbrev pub Settles : {S A : Type 0} → (S → S → Type 0) → Exec S A → Type 0
Settles {S} R m = (s : S) → Settled (m s).0 → R s (m s).1

module _ {S A B : Type 0} {R : S → S → Type 0} (trans : Transitive R) where
  Settles-continue :
      (o : Outcome A) (f : A → Exec S B) (s t : S)
      → (Settled o → R s t)
      → ((a : A) → Settles R (f a))
      → Settled (continue o f t).0
      → R s (continue o f t).1
  Settles-continue (ok a) f s t h k d = trans s t _ (h tt) (k a t d)
  Settles-continue (err e) f s t h k d = h tt
  Settles-continue panic f s t h k d = absurd d
  Settles-continue blocked f s t h k d = absurd d

  pub Settles-bind :
      (m : Exec S A) (f : A → Exec S B)
      → Settles R m
      → ((a : A) → Settles R (f a))
      → Settles R (m >>= f)
  Settles-bind m f h k s = Settles-continue (m s).0 f s (m s).1 (h s) k
