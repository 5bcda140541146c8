-- ===== src/Base/Table.antt =====
-- Go maps keyed by a uint64, as association lists: at most the first entry of a key counts.
use mathlib.Core.Path.{◌≡◌}
use mathlib.Core.Option.{Option, none, some}
use mathlib.Core.List.{List, [], ◌∷◌}
use native.Mathlib.Omega.{arith}
use Prim.Native.Nat.{ℕ}
use ramsql.Base.Tests.{◌==◌, if◌then◌else◌}

abbrev pub Table {ℓ} : Type ℓ → Type ℓ
Table V = List (ℕ × V)

module _ {ℓ} {V : Type ℓ} where
  unfoldable pub find : ℕ → Table V → Option V
  find k [] = none
  find k ((j, v) ∷ m) = if j == k then some v else find k m

  unfoldable pub erase : ℕ → Table V → Table V
  erase k [] = []
  erase k ((j, v) ∷ m) = let rest = erase k m in if j == k then rest else (j, v) ∷ rest

  unfoldable pub put : ℕ → V → Table V → Table V
  put k v m = (k, v) ∷ erase k m

  pub find-erase :
      (k j : ℕ) (m : Table V) → find j (erase k m) ≡ (if k == j then none else find j m)
  unfolding find erase
  find-erase k j [] = ground arith
  find-erase k j ((i, v) ∷ m) = ground (arith, find-erase k j m)

  pub find-put :
      (k j : ℕ) (v : V) (m : Table V) → find j (put k v m) ≡ (if k == j then some v else find j m)
  unfolding find put
  find-put k j v m = ground (arith, find-erase k j m)
