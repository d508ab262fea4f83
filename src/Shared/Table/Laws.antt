-- ===== src/Shared/Table/Laws.antt =====
-- What the operations do, in terms of `get`, `size` and `count`.
use Prim.Native.Nat.{◌+◌, ◌≤◌}
use mathlib.Core.Bool.{Bool, true, false}
use mathlib.Core.Path.{◌≡◌, refl}
use mathlib.Core.Option.{none, some}
use mathlib.Core.List.{[], ◌∷◌}
use mathlib.Core.Logic.{inl, inr}
use native.Mathlib.Omega.{arith}
use gptsession_bridge.Shared.Tests.{Eq, ◌==◌, ==_iff, Option-cases, if◌then◌else◌}
use gptsession_bridge.Shared.Table.Defs.{Table, get, has, set, delete, Distinct, size, count}

module _ {ℓ κ} {K : Type ℓ} {V : Type κ} ⦃e : Eq K⦄ where
  pub get-set :
      (m : Table K V) (k j : K) (v : V) → get (set m k v) j ≡ (if k == j then some v else get m j)
  unfolding get set
  get-set [] k j v = refl
  get-set ((i, w) ∷ m) k j v = ground (arith, ==_iff k j, ==_iff i k, ==_iff i j, get-set m k j v)

  pub has-set :
      (m : Table K V) (k j : K) (v : V) → has (set m k v) j ≡ (if k == j then true else has m j)
  unfolding has set
  has-set [] k j v = refl
  has-set ((i, w) ∷ m) k j v = ground (arith, ==_iff k j, ==_iff i k, ==_iff i j, has-set m k j v)

  pub get-none : (m : Table K V) (k : K) → has m k ≡ false → get m k ≡ none
  unfolding get has
  get-none [] k h = refl
  get-none ((i, w) ∷ m) k h = ground (arith, get-none m k)

  pub has_of_get : (m : Table K V) (k : K) (v : V) → get m k ≡ some v → has m k ≡ true
  unfolding get has
  has_of_get [] k v h = cc
  has_of_get ((i, w) ∷ m) k v h = ground (arith, has_of_get m k v)

  pub has_of_none : (m : Table K V) (k : K) → get m k ≡ none → has m k ≡ false
  unfolding get has
  has_of_none [] k h = refl
  has_of_none ((i, w) ∷ m) k h = ground (arith, has_of_none m k)

  pub get-some : (m : Table K V) (k : K) → has m k ≡ true → (v : V) × (get m k ≡ some v)
  get-some m k h = elim (Option-cases (get m k)) [
    | inl e ↦ absurd (cc (has_of_none m k e))
    | inr found ↦ found
  ]

  -- Deleting makes no key appear.
  pub has-delete-false : (m : Table K V) (k j : K) → has m j ≡ false → has (delete m k) j ≡ false
  unfolding has delete
  has-delete-false [] k j h = refl
  has-delete-false ((i, w) ∷ m) k j h = ground (arith, has-delete-false m k j)

  pub get-delete :
      (m : Table K V) (k j : K)
      → Distinct m
      → get (delete m k) j ≡ (if k == j then none else get m j)
  unfolding get delete
  get-delete [] k j d = ground arith
  get-delete ((i, w) ∷ m) k j d =
      ground (arith, ==_iff k j, ==_iff i k, ==_iff i j, get-none m i, get-delete m k j d.1)

  pub Distinct-set : (m : Table K V) (k : K) (v : V) → Distinct m → Distinct (set m k v)
  unfolding has set
  Distinct-set [] k v d = (refl, tt)
  Distinct-set ((i, w) ∷ m) k v d =
      ground (arith, ==_iff i k, ==_iff k i, has-set m k i v, Distinct-set m k v d.1)

  pub Distinct-delete : (m : Table K V) (k : K) → Distinct m → Distinct (delete m k)
  unfolding delete
  Distinct-delete [] k d = tt
  Distinct-delete ((i, w) ∷ m) k d =
      ground (arith, has-delete-false m k i d.0, Distinct-delete m k d.1)

  pub size-set_new :
      (m : Table K V) (k : K) (v : V) → has m k ≡ false → size (set m k v) ≡ size m + 1
  unfolding has set
  size-set_new [] k v h = refl
  size-set_new ((i, w) ∷ m) k v h = ground (arith, size-set_new m k v)

  pub size-set_old : (m : Table K V) (k : K) (v : V) → has m k ≡ true → size (set m k v) ≡ size m
  unfolding has set
  size-set_old [] k v h = cc
  size-set_old ((i, w) ∷ m) k v h = ground (arith, size-set_old m k v)

  pub size-set_le : (m : Table K V) (k : K) (v : V) → size (set m k v) ≤ size m + 1
  unfolding set
  size-set_le [] k v = omega arith
  size-set_le ((i, w) ∷ m) k v = ground (arith, size-set_le m k v)

  pub size-delete_le : (m : Table K V) (k : K) → size (delete m k) ≤ size m
  unfolding delete
  size-delete_le [] k = omega arith
  size-delete_le ((i, w) ∷ m) k = ground (arith, size-delete_le m k)

  pub size-delete : (m : Table K V) (k : K) → has m k ≡ true → size m ≡ size (delete m k) + 1
  unfolding has delete
  size-delete [] k h = cc
  size-delete ((i, w) ∷ m) k h = ground (arith, size-delete m k)

  pub count-set_new :
      (p : V → Bool) (m : Table K V) (k : K) (v : V)
      → has m k ≡ false
      → count p (set m k v) ≡ count p m + (if p v then 1 else 0)
  unfolding has set count
  count-set_new p [] k v h = refl
  count-set_new p ((i, w) ∷ m) k v h = ground (arith, count-set_new p m k v)

  pub count-delete :
      (p : V → Bool) (m : Table K V) (k : K) (v : V)
      → get m k ≡ some v
      → count p m ≡ count p (delete m k) + (if p v then 1 else 0)
  unfolding get delete count
  count-delete p [] k v h = cc
  count-delete p ((i, w) ∷ m) k v h = ground (arith, count-delete p m k v)

module _ {ℓ κ} {K : Type ℓ} {V : Type κ} where
  pub count-le-size : (p : V → Bool) (m : Table K V) → count p m ≤ size m
  unfolding count
  count-le-size p [] = omega arith
  count-le-size p ((i, w) ∷ m) = ground (arith, count-le-size p m)
