-- ===== src/Shared/Table/Defs.antt =====
-- The operations of `Map` that the program uses.
use Prim.Native.Nat.{ℕ, ◌+◌}
use mathlib.Core.Bool.{Bool, true, false}
use mathlib.Core.Path.{◌≡◌}
use mathlib.Core.Option.{Option, none, some}
use mathlib.Core.List.{List, [], ◌∷◌}
use gptsession_bridge.Shared.Tests.{Eq, ◌==◌, if◌then◌else◌}

abbrev pub Table {ℓ κ} : Type ℓ → Type κ → Type (ℓ ⊔ κ)
Table K V = List (K × V)

module _ {ℓ κ} {K : Type ℓ} {V : Type κ} ⦃e : Eq K⦄ where
  unfoldable pub get : Table K V → K → Option V
  get [] k = none
  get ((j, v) ∷ m) k = if j == k then some v else get m k

  unfoldable pub has : Table K V → K → Bool
  has [] k = false
  has ((j, v) ∷ m) k = if j == k then true else has m k

  unfoldable pub set : Table K V → K → V → Table K V
  set [] k v = (k, v) ∷ []
  set ((j, w) ∷ m) k v = if j == k then (j, v) ∷ m else (j, w) ∷ set m k v

  unfoldable pub delete : Table K V → K → Table K V
  delete [] k = []
  delete ((j, w) ∷ m) k = if j == k then m else (j, w) ∷ delete m k

  -- No key stands twice.
  abbrev pub Distinct : Table K V → Type 0
  Distinct [] = Unit
  Distinct ((j, w) ∷ m) = (has m j ≡ false) × Distinct m

module _ {ℓ κ} {K : Type ℓ} {V : Type κ} where
  abbrev pub size : Table K V → ℕ
  size [] = 0
  size (entry ∷ m) = size m + 1

  -- How many values pass a test.
  unfoldable pub count : (V → Bool) → Table K V → ℕ
  count p [] = 0
  count p ((j, w) ∷ m) = count p m + (if p w then 1 else 0)
