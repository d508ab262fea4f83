-- ===== src/Catalog/Cursors/Kept.antt =====
-- A cursor lives until it expires or as many others as the store holds were made after it.
use gptsession_bridge.Shared.{
  ℕ, zero, suc, ◌+◌, ◌≤◌, ◌<◌, ◌≡◌, refl, String, false, Option, none, some, [], ◌∷◌, leb,
  string_eq, option_eq, ◌==◌, ==_iff, if◌then◌else◌, arith, Bool-cases, Option-cases, inl, inr,
}
use gptsession_bridge.Shared.Table.{Table, get, has, set, size, get-set, has_of_get, size-set_le}
use gptsession_bridge.Protocol.Text.{max_safe_integer}
use gptsession_bridge.Values.Strings.{concat}
use gptsession_bridge.Catalog.Cursors.{
  Stored, Store, prune, evict, without_oldest, safe_expiry, read_now, insert, attempt, create,
  with_entries,
}
use gptsession_bridge.Catalog.Cursors.Laws.{get-prune_live, size-prune_le, has-evict-false}

module _ {ℓ} {T : Type ℓ} where
  -- How many entries were made after a cursor.
  unfoldable pub behind : String → Table String (Stored T) → ℕ
  behind k [] = 0
  behind k ((j, v) ∷ m) = if j == k then size m else behind k m

  behind-prune :
      (now : ℕ) (o : Option String) (k : String) (v : Stored T) (m : Table String (Stored T))
      → get m k ≡ some v
      → now < v.expires_at
      → behind k (prune now o m) ≤ behind k m
  unfolding behind prune get
  behind-prune now o k v [] h l = omega arith
  behind-prune now o k v ((j, w) ∷ m) h l =
      ground (arith, ==_iff j k, size-prune_le now o m, behind-prune now o k v m)

  pub behind-set_new :
      (k : String) (v : Stored T) (m : Table String (Stored T))
      → has m k ≡ false
      → behind k (set m k v) ≡ 0
  unfolding behind set has
  behind-set_new k v [] h = ground (arith, ==_iff k k)
  behind-set_new k v ((j, w) ∷ m) h = ground (arith, ==_iff j k, behind-set_new k v m)

  behind-set_le :
      (k j : String) (v w : Stored T) (m : Table String (Stored T))
      → get m k ≡ some w
      → behind k (set m j v) ≤ behind k m + 1
  unfolding behind set get
  behind-set_le k j v w [] h = cc
  behind-set_le k j v w ((i, u) ∷ m) h =
      ground (arith, ==_iff i k, ==_iff i j, size-set_le m j v, behind-set_le k j v w m)

  -- With room behind it, an entry is not the one that is evicted.
  evict-keeps :
      (n : ℕ) (k : String) (v : Stored T) (m : Table String (Stored T))
      → get m k ≡ some v
      → behind k m + 1 < n
      → (get (evict n m) k ≡ some v) × (behind k (evict n m) ≡ behind k m)
  unfolding behind evict without_oldest get
  evict-keeps n k v [] h l = cc
  evict-keeps n k v ((j, w) ∷ m) h l = ground (arith, ==_iff j k)

  -- The entry is there, with at most so many behind it.
  pub record IsKept (k : String) (v : Stored T) (n b : ℕ) (p : String) (s : Store T) : Type ℓ where
    pub there : get s.entries k ≡ some v
    pub young : behind k s.entries ≤ b
    pub same_room : s.max_entries ≡ n
    pub same_prefix : s.prefix ≡ p

  module _ (k : String) (v : Stored T) (n : ℕ) (p : String) where
    pub pruned-IsKept :
        (now : ℕ) (o : Option String) (b : ℕ) (s : Store T)
        → now < v.expires_at
        → IsKept k v n b p s
        → IsKept k v n b p (with_entries (prune now o s.entries) s)
    pruned-IsKept now o b s l h = record {
      there = get-prune_live now o k v s.entries h.there l;
      young = omega (arith, h.young, behind-prune now o k v s.entries h.there l);
      same_room = h.same_room;
      same_prefix = h.same_prefix;
    }

    pub weaken : (b : ℕ) (s : Store T) → IsKept k v n b p s → IsKept k v n (b + 1) p s
    weaken b s h = record {
      there = h.there;
      young = omega (arith, h.young);
      same_room = h.same_room;
      same_prefix = h.same_prefix;
    }

    evicted-IsKept :
        (b : ℕ) (s : Store T)
        → b + 1 < n
        → IsKept k v n b p s
        → IsKept k v n (b + 1) p (with_entries (evict s.max_entries s.entries) s)
    evicted-IsKept b s l h =
        let (there, same) =
          evict-keeps s.max_entries k v s.entries h.there (omega (arith, h.young, h.same_room)) in
        record {
          there = there;
          young = omega (arith, same, h.young);
          same_room = h.same_room;
          same_prefix = h.same_prefix;
        }

    added-IsKept :
        (j : String) (w : Stored T) (b : ℕ) (s : Store T)
        → b + 1 < n
        → has s.entries j ≡ false
        → IsKept k v n b p s
        → IsKept k v n (b + 1) p (with_entries (set (evict s.max_entries s.entries) j w) s)
    added-IsKept j w b s l fresh h =
        let m = evict s.max_entries s.entries in
        let (there, same) =
          evict-keeps s.max_entries k v s.entries h.there (omega (arith, h.young, h.same_room)) in
        record {
          there = ground (
            arith,
            get-set m j k w,
            ==_iff j k,
            there,
            has_of_get m k v there,
            has-evict-false s.max_entries s.entries j fresh,
          );
          young = omega (arith, same, h.young, behind-set_le k j w v m there);
          same_room = h.same_room;
          same_prefix = h.same_prefix;
        }

    insert-IsKept :
        (value : T) (now : ℕ) (j : String) (b : ℕ) (s : Store T)
        → b + 1 < n
        → has s.entries j ≡ false
        → IsKept k v n b p s
        → IsKept k v n (b + 1) p (insert value now j s).1
    unfolding insert safe_expiry
    insert-IsKept value now j b s l fresh h =
        elim (Bool-cases (leb (now + s.ttl) max_safe_integer)) [
          | inl safe ↦
              rw safe
                (added-IsKept j (record { expires_at = now + s.ttl; value = value }) b s l fresh h)
          | inr big ↦ rw big (evicted-IsKept b s l h)
        ]

    attempt-IsKept :
        (value : T) (now : ℕ) (random : ℕ → Option String) (left i b : ℕ) (s : Store T)
        → b + 1 < n
        → IsKept k v n b p s
        → IsKept k v n (b + 1) p (attempt value now random left i s).1
    unfolding attempt
    attempt-IsKept value now random zero i b s l h = weaken b s h
    attempt-IsKept value now random (suc left) i b s l h = elim (Option-cases (random i)) [
      | inl e ↦ rw e (weaken b s h)
      | inr (entropy, e) ↦ rw e (
          ground (
            arith,
            weaken b s h,
            attempt-IsKept value now random left (i + 1) b s l h,
            insert-IsKept value now (concat s.prefix entropy) b s l,
          ))
    ]

    pub create-IsKept :
        (value : T) (clock : Option ℕ) (random : ℕ → Option String) (b : ℕ) (s : Store T)
        → b + 1 < n
        → ((now : ℕ) → clock ≡ some now → now < v.expires_at)
        → IsKept k v n b p s
        → IsKept k v n (b + 1) p (create value clock random s).1
    unfolding create read_now
    create-IsKept value none random b s l t h = weaken b s h
    create-IsKept value (some now) random b s l t h = elim (Bool-cases (leb now max_safe_integer)) [
      | inl e ↦
          rw e
            (attempt-IsKept value now random 8 0 b _ l (pruned-IsKept now none b s (t now refl) h))
      | inr e ↦ rw e (weaken b s h)
    ]
