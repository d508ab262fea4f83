-- ===== src/Catalog/Cursors/Bounds.antt =====
-- The store stays within its capacity.
use gptsession_bridge.Shared.{
  ℕ, zero, suc, ◌+◌, ◌≤◌, ◌≡◌, String, true, Option, none, some, List, [], ◌∷◌, ok, leb, string_eq,
  arith, Bool-cases, Option-cases, inl, inr,
}
use gptsession_bridge.Shared.Table.{
  get, set, delete, size, Distinct, Distinct-set, Distinct-delete, size-set_le, size-delete_le,
}
use gptsession_bridge.Protocol.Text.{max_safe_integer}
use gptsession_bridge.Values.Strings.{starts_with, concat, starts_with-concat}
use gptsession_bridge.Catalog.Cursors.{
  Stored, Store, create_store, prune, evict, safe_expiry, read_now, insert, attempt, create, read,
  active_size, Call, creates, reads, sizes, step, run, with_entries, read_stored,
}
use gptsession_bridge.Catalog.Cursors.Laws.{
  size-prune_le, Distinct-prune, size-evict, Distinct-evict, AllOwned, AllOwned-prune,
  AllOwned-evict, AllOwned-delete, AllOwned-set,
}

-- What `create_store` sets up and every call keeps.
pub record IsStore {ℓ} {T : Type ℓ} (s : Store T) : Type 0 where
  pub room : 1 ≤ s.max_entries
  pub few : size s.entries ≤ s.max_entries
  pub distinct : Distinct s.entries
  pub owned : AllOwned s.prefix s.entries

module _ {ℓ} {T : Type ℓ} where
  pruned-IsStore :
      (now : ℕ) (o : Option String) (s : Store T)
      → IsStore s
      → IsStore (with_entries (prune now o s.entries) s)
  pruned-IsStore now o s v = record {
    room = v.room;
    few = omega (arith, v.few, size-prune_le now o s.entries);
    distinct = Distinct-prune now o s.entries v.distinct;
    owned = AllOwned-prune now o s.prefix s.entries v.owned;
  }

  deleted-IsStore :
      (k : String) (s : Store T) → IsStore s → IsStore (with_entries (delete s.entries k) s)
  deleted-IsStore k s v = record {
    room = v.room;
    few = omega (arith, v.few, size-delete_le s.entries k);
    distinct = Distinct-delete s.entries k v.distinct;
    owned = AllOwned-delete s.prefix k s.entries v.owned;
  }

  evicted-IsStore :
      (s : Store T) → IsStore s → IsStore (with_entries (evict s.max_entries s.entries) s)
  evicted-IsStore s v = record {
    room = v.room;
    few = omega (arith, size-evict s.max_entries s.entries v.room v.few);
    distinct = Distinct-evict s.max_entries s.entries v.distinct;
    owned = AllOwned-evict s.max_entries s.prefix s.entries v.owned;
  }

  added-IsStore :
      (k : String) (e : Stored T) (s : Store T)
      → starts_with k s.prefix ≡ true
      → e.expires_at ≤ max_safe_integer
      → IsStore s
      → IsStore (with_entries (set (evict s.max_entries s.entries) k e) s)
  added-IsStore k e s own safe v =
      let w = evicted-IsStore s v in
      record {
        room = v.room;
        few = omega (
          arith,
          size-evict s.max_entries s.entries v.room v.few,
          size-set_le (evict s.max_entries s.entries) k e,
        );
        distinct = Distinct-set (evict s.max_entries s.entries) k e w.distinct;
        owned = AllOwned-set s.prefix k e (evict s.max_entries s.entries) own safe w.owned;
      }

  insert-IsStore :
      (value : T) (now : ℕ) (k : String) (s : Store T)
      → starts_with k s.prefix ≡ true
      → IsStore s
      → IsStore (insert value now k s).1
  unfolding insert safe_expiry
  insert-IsStore value now k s own v = elim (Bool-cases (leb (now + s.ttl) max_safe_integer)) [
    | inl safe ↦ rw safe (
        added-IsStore k (record { expires_at = now + s.ttl; value = value }) s own (ground arith) v)
    | inr big ↦ rw big (evicted-IsStore s v)
  ]

  attempt-IsStore :
      (value : T) (now : ℕ) (random : ℕ → Option String) (n i : ℕ) (s : Store T)
      → IsStore s
      → IsStore (attempt value now random n i s).1
  unfolding attempt
  attempt-IsStore value now random zero i s v = v
  attempt-IsStore value now random (suc n) i s v = elim (Option-cases (random i)) [
    | inl e ↦ rw e v
    | inr (entropy, e) ↦ rw e (
        ground (
          arith,
          v,
          attempt-IsStore value now random n (i + 1) s v,
          insert-IsStore value now (concat s.prefix entropy) s (starts_with-concat s.prefix entropy)
              v,
        ))
  ]

  create-IsStore :
      (value : T) (clock : Option ℕ) (random : ℕ → Option String) (s : Store T)
      → IsStore s
      → IsStore (create value clock random s).1
  unfolding create read_now
  create-IsStore value none random s v = v
  create-IsStore value (some now) random s v = elim (Bool-cases (leb now max_safe_integer)) [
    | inl e ↦ rw e (attempt-IsStore value now random 8 0 _ (pruned-IsStore now none s v))
    | inr e ↦ rw e v
  ]

  read_stored-IsStore :
      (k : String) (now : ℕ) (o : Option (Stored T)) (s : Store T)
      → IsStore s
      → IsStore (read_stored k now o s).1
  read_stored-IsStore k now none s v = pruned-IsStore now none s v
  read_stored-IsStore k now (some stored) s v = ground (
    arith,
    pruned-IsStore now none (with_entries (delete s.entries k) s) (deleted-IsStore k s v),
    pruned-IsStore now (some k) s v,
  )

  read-IsStore :
      (k : String) (clock : Option ℕ) (s : Store T) → IsStore s → IsStore (read k clock s).1
  unfolding read read_now
  read-IsStore k none s v = ground (arith, v)
  read-IsStore k (some now) s v = ground (arith, v, read_stored-IsStore k now (get s.entries k) s v)

  active_size-IsStore :
      (clock : Option ℕ) (s : Store T) → IsStore s → IsStore (active_size clock s).1
  unfolding active_size read_now
  active_size-IsStore none s v = v
  active_size-IsStore (some now) s v = elim (Bool-cases (leb now max_safe_integer)) [
    | inl e ↦ rw e (pruned-IsStore now none s v)
    | inr e ↦ rw e v
  ]

  step-IsStore : (c : Call T) (s : Store T) → IsStore s → IsStore (step c s)
  unfolding step
  step-IsStore (creates value clock random) s v = create-IsStore value clock random s v
  step-IsStore (reads k clock) s v = read-IsStore k clock s v
  step-IsStore (sizes clock) s v = active_size-IsStore clock s v

  run-IsStore : (cs : List (Call T)) (s : Store T) → IsStore s → IsStore (run cs s)
  unfolding run
  run-IsStore [] s v = v
  run-IsStore (c ∷ cs) s v = run-IsStore cs (step c s) (step-IsStore c s v)

  create_store-IsStore :
      (n ttl : ℕ) (p : Option String) (s : Store T) → create_store n ttl p ≡ ok s → IsStore s
  unfolding create_store
  create_store-IsStore n ttl p s h = ground arith

  pub create_store-run-IsStore :
      (n ttl : ℕ) (p : Option String) (s : Store T) (cs : List (Call T))
      → create_store n ttl p ≡ ok s
      → IsStore (run cs s)
  create_store-run-IsStore n ttl p s cs h = run-IsStore cs s (create_store-IsStore n ttl p s h)
