-- ===== src/Base/Maps.antt =====
-- `std::map` from numbers as an association list in the order of its comparator, which is also the
-- order of iteration. `std::unordered_map` uses the same, where its order is never read.
use Prim.Native.Nat.{ℕ}
use mathlib.Core.Path.{◌≡◌, refl}
use mathlib.Core.Bool.{Bool}
use mathlib.Core.List.{List, [], ◌∷◌}
use mathlib.Core.Option.{Option, none, some}
use native.Mathlib.Omega.{arith}
use nebula_x.Base.Tests.{◌==◌, if◌then◌else◌}

module _ {ℓ} {V : Type ℓ} where
  unfoldable pub lookup : ℕ → List (ℕ × V) → Option V
  lookup k [] = none
  lookup k ((j, v) ∷ m) = if j == k then some v else lookup k m

  -- `m[k] = v`.
  unfoldable pub put : (ℕ → ℕ → Bool) → ℕ → V → List (ℕ × V) → List (ℕ × V)
  put before k v [] = (k, v) ∷ []
  put before k v ((j, w) ∷ m) =
      if j == k
      then (k, v) ∷ m
      else if before k j
      then (k, v) ∷ (j, w) ∷ m
      else (j, w) ∷ put before k v m

  -- `m.erase(k)`: the keys of a map are distinct, so one entry at most goes.
  unfoldable pub erase : ℕ → List (ℕ × V) → List (ℕ × V)
  erase k [] = []
  erase k ((j, v) ∷ m) = if j == k then erase k m else (j, v) ∷ erase k m

  pub lookup-put :
      (before : ℕ → ℕ → Bool) (k j : ℕ) (v : V) (m : List (ℕ × V))
      → lookup j (put before k v m) ≡ (if k == j then some v else lookup j m)
  unfolding lookup put
  lookup-put before k j v [] = refl
  lookup-put before k j v ((i, w) ∷ m) = ground (arith, lookup-put before k j v m)

  pub lookup-erase :
      (k j : ℕ) (m : List (ℕ × V)) → lookup j (erase k m) ≡ (if k == j then none else lookup j m)
  unfolding lookup erase
  lookup-erase k j [] = ground arith
  lookup-erase k j ((i, w) ∷ m) = ground (arith, lookup-erase k j m)
