-- ===== src/Shared/Search.antt =====
-- Tests over a list: `includes`, `every`, and `new Set(xs).size === xs.length`.

use mathlib.Core.Bool.{Bool, true, false, not, ◌&&◌}
use mathlib.Core.List.{List, [], ◌∷◌}
use gptsession_bridge.Shared.Tests.{Eq, ◌==◌, if◌then◌else◌}

module _ {ℓ} {A : Type ℓ} where
  unfoldable pub all : (A → Bool) → List A → Bool
  all p [] = true
  all p (x ∷ xs) = p x && all p xs

module _ {ℓ} {A : Type ℓ} ⦃e : Eq A⦄ where
  unfoldable pub contains : List A → A → Bool
  contains [] a = false
  contains (x ∷ xs) a = if x == a then true else contains xs a

  unfoldable pub all_distinct : List A → Bool
  unfolding contains
  all_distinct [] = true
  all_distinct (x ∷ xs) = not (contains xs x) && all_distinct xs
