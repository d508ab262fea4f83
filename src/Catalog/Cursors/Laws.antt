-- ===== src/Catalog/Cursors/Laws.antt =====
-- What pruning and eviction do to the entries.
use gptsession_bridge.Shared.{
  ℕ, ◌≤◌, ◌<◌, ◌≡◌, refl, String, true, false, Option, some, [], ◌∷◌, string_eq, option_eq, ==_iff,
  arith,
}
use gptsession_bridge.Shared.Table.{Table, get, has, set, delete, size, Distinct}
use gptsession_bridge.Protocol.Text.{max_safe_integer}
use gptsession_bridge.Values.Strings.{starts_with}
use gptsession_bridge.Catalog.Cursors.{Stored, prune, without_oldest, evict}

module _ {ℓ} {T : Type ℓ} where
  pub size-prune_le :
      (now : ℕ) (o : Option String) (m : Table String (Stored T)) → size (prune now o m) ≤ size m
  unfolding prune
  size-prune_le now o [] = omega arith
  size-prune_le now o ((k, v) ∷ m) = ground (arith, size-prune_le now o m)

  pub has-prune-false :
      (now : ℕ) (o : Option String) (m : Table String (Stored T)) (j : String)
      → has m j ≡ false
      → has (prune now o m) j ≡ false
  unfolding prune has
  has-prune-false now o [] j h = refl
  has-prune-false now o ((k, v) ∷ m) j h = ground (arith, has-prune-false now o m j)

  pub Distinct-prune :
      (now : ℕ) (o : Option String) (m : Table String (Stored T))
      → Distinct m
      → Distinct (prune now o m)
  unfolding prune
  Distinct-prune now o [] d = tt
  Distinct-prune now o ((k, v) ∷ m) d =
      ground (arith, has-prune-false now o m k d.0, Distinct-prune now o m d.1)

  -- The entry that is named stays, and so does one that has not expired.
  pub get-prune_except :
      (now : ℕ) (k : String) (m : Table String (Stored T)) → get (prune now (some k) m) k ≡ get m k
  unfolding prune get
  get-prune_except now k [] = refl
  get-prune_except now k ((j, v) ∷ m) = ground (arith, ==_iff j k, get-prune_except now k m)

  pub get-prune_live :
      (now : ℕ) (o : Option String) (k : String) (v : Stored T) (m : Table String (Stored T))
      → get m k ≡ some v
      → now < v.expires_at
      → get (prune now o m) k ≡ some v
  unfolding prune get
  get-prune_live now o k v [] h l = cc
  get-prune_live now o k v ((j, w) ∷ m) h l = ground (arith, ==_iff j k, get-prune_live now o k v m)

  pub size-evict : (n : ℕ) (m : Table String (Stored T)) → 1 ≤ n → size m ≤ n → size (evict n m) < n
  unfolding evict without_oldest
  size-evict n [] h k = ground arith
  size-evict n (x ∷ m) h k = ground arith

  pub Distinct-evict : (n : ℕ) (m : Table String (Stored T)) → Distinct m → Distinct (evict n m)
  unfolding evict without_oldest
  Distinct-evict n [] d = ground arith
  Distinct-evict n (x ∷ m) d = ground arith

  pub has-evict-false :
      (n : ℕ) (m : Table String (Stored T)) (k : String)
      → has m k ≡ false
      → has (evict n m) k ≡ false
  unfolding evict without_oldest has
  has-evict-false n [] k d = ground arith
  has-evict-false n (x ∷ m) k d = ground arith

  -- Every cursor begins with the prefix, and every expiry is a safe integer.
  abbrev pub AllOwned : String → Table String (Stored T) → Type 0
  AllOwned p [] = Unit {0}
  AllOwned p ((k, v) ∷ m) =
      (starts_with k p ≡ true) × (v.expires_at ≤ max_safe_integer) × AllOwned p m

  pub AllOwned-prune :
      (now : ℕ) (o : Option String) (p : String) (m : Table String (Stored T))
      → AllOwned p m
      → AllOwned p (prune now o m)
  unfolding prune
  AllOwned-prune now o p [] a = tt
  AllOwned-prune now o p ((k, v) ∷ m) a = ground (arith, AllOwned-prune now o p m a.2)

  pub AllOwned-evict :
      (n : ℕ) (p : String) (m : Table String (Stored T)) → AllOwned p m → AllOwned p (evict n m)
  unfolding evict without_oldest
  AllOwned-evict n p [] a = ground arith
  AllOwned-evict n p (x ∷ m) a = ground arith

  pub AllOwned-delete :
      (p k : String) (m : Table String (Stored T)) → AllOwned p m → AllOwned p (delete m k)
  unfolding delete
  AllOwned-delete p k [] a = tt
  AllOwned-delete p k ((j, v) ∷ m) a = ground (arith, AllOwned-delete p k m a.2)

  pub AllOwned-set :
      (p k : String) (v : Stored T) (m : Table String (Stored T))
      → starts_with k p ≡ true
      → v.expires_at ≤ max_safe_integer
      → AllOwned p m
      → AllOwned p (set m k v)
  unfolding set
  AllOwned-set p k v [] h e a = (h, e, tt)
  AllOwned-set p k v ((j, w) ∷ m) h e a = ground (arith, AllOwned-set p k v m h e a.2)
