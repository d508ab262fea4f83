-- ===== src/Catalog/Cursors/Lifetime.antt =====
-- From its making on: what a cursor reads as.
use gptsession_bridge.Shared.{
  ℕ, zero, suc, ◌+◌, ◌≤◌, ◌<◌, ◌≡◌, refl, ap, subst, String, true, false, Option, none, some, List,
  Result, ok, err, leb, string_eq, option_eq, ==_iff, arith, Bool-cases, Option-cases, inl, inr,
}
use gptsession_bridge.Shared.Table.{
  Table, get, has, delete, Distinct, get-set, get-delete, get-none, has_of_none,
}
use gptsession_bridge.Protocol.Text.{max_safe_integer}
use gptsession_bridge.Values.Strings.{starts_with, concat, starts_with-concat}
use gptsession_bridge.Catalog.Codes.{Code, cursor_expired, invalid_cursor}
use gptsession_bridge.Catalog.Cursors.{
  Stored, Store, prune, evict, is_valid_entropy, safe_expiry, read_now, insert, attempt, create,
  owns, read, Call, run, with_entries,
}
use gptsession_bridge.Catalog.Cursors.Laws.{has-prune-false, has-evict-false}
use gptsession_bridge.Catalog.Cursors.Bounds.{IsStore}
use gptsession_bridge.Catalog.Cursors.Kept.{behind-set_new, IsKept}
use gptsession_bridge.Catalog.Cursors.Reading.{AllBefore, makes, run-IsKept}

at_most : (a b : ℕ) → a ≤ b → leb a b ≡ true
at_most a b h = ground arith

module _ {ℓ} {T : Type ℓ} where
  abbrev stored_until : ℕ → T → Stored T
  stored_until t value = record { expires_at = t; value = value }

  -- A cursor that was made is the youngest entry.
  abbrev IsMade : T → ℕ → Store T → Result Code String × Store T → Type ℓ
  IsMade value now s (err c, s') = Unit
  IsMade value now s (ok k, s') =
      IsKept k (stored_until (now + s.ttl) value) s.max_entries 0 s.prefix s'
      × (starts_with k s.prefix ≡ true)

  insert-IsMade :
      (value : T) (now : ℕ) (k : String) (s : Store T)
      → has s.entries k ≡ false
      → starts_with k s.prefix ≡ true
      → IsMade value now s (insert value now k s)
  unfolding insert safe_expiry
  insert-IsMade value now k s fresh own = elim (Bool-cases (leb (now + s.ttl) max_safe_integer)) [
    | inl safe ↦ rw safe (
        let m = evict s.max_entries s.entries in
        let e : Stored T = stored_until (now + s.ttl) value in
        let gone = has-evict-false s.max_entries s.entries k fresh in
        (
          record {
            there = ground (arith, get-set m k k e, ==_iff k k);
            young = omega (arith, behind-set_new k e m gone);
            same_room = refl;
            same_prefix = refl;
          },
          own,
        ))
    | inr big ↦ rw big tt
  ]

  attempt-IsMade :
      (value : T) (now : ℕ) (random : ℕ → Option String) (n i : ℕ) (s : Store T)
      → IsMade value now s (attempt value now random n i s)
  unfolding attempt
  attempt-IsMade value now random zero i s = tt
  attempt-IsMade value now random (suc n) i s = elim (Option-cases (random i)) [
    | inl e ↦ rw e tt
    | inr (entropy, e) ↦ rw e (elim (Bool-cases (is_valid_entropy entropy)) [
      | inr bad ↦ rw bad tt
      | inl good ↦ elim (Bool-cases (has s.entries (concat s.prefix entropy))) [
        | inl old ↦ rw (good, old) (attempt-IsMade value now random n (i + 1) s)
        | inr fresh ↦
            rw (good, fresh)
              (insert-IsMade value now (concat s.prefix entropy) s fresh
                (starts_with-concat s.prefix entropy))
      ]
    ])
  ]

  create-IsMade :
      (value : T) (now : ℕ) (random : ℕ → Option String) (s : Store T)
      → IsMade value now s (create value (some now) random s)
  unfolding create read_now
  create-IsMade value now random s = elim (Bool-cases (leb now max_safe_integer)) [
    | inl e ↦ rw e (attempt-IsMade value now random 8 0 (with_entries (prune now none s.entries) s))
    | inr e ↦ rw e tt
  ]

  created-IsKept :
      (value : T) (now : ℕ) (random : ℕ → Option String) (s s' : Store T) (k : String)
      → create value (some now) random s ≡ (ok k, s')
      → IsMade value now s (ok k, s')
  created-IsKept value now random s s' k h =
      subst (IsMade value now s) h (create-IsMade value now random s)

  -- Reading in time.
  read-kept :
      (k : String) (v : Stored T) (n b now : ℕ) (p : String) (s : Store T)
      → starts_with k p ≡ true
      → now ≤ max_safe_integer
      → now < v.expires_at
      → IsKept k v n b p s
      → (read k (some now) s).0 ≡ ok v.value
  unfolding read owns read_now
  read-kept k v n b now p s own safe l h = ground (arith, h.there, h.same_prefix)

  pub create-run-read :
      (value : T) (now later : ℕ) (random : ℕ → Option String) (s s' : Store T) (k : String)
      (cs : List (Call T))
      → create value (some now) random s ≡ (ok k, s')
      → makes cs < s.max_entries
      → AllBefore (now + s.ttl) cs
      → later < now + s.ttl
      → later ≤ max_safe_integer
      → (read k (some later) (run cs s')).0 ≡ ok value
  create-run-read value now later random s s' k cs h few before l safe =
      let (kept, own) = created-IsKept value now random s s' k h in
      let v = stored_until (now + s.ttl) value in
      let (b, still) =
        run-IsKept k v s.max_entries s.prefix cs 0 s' (omega (arith, few)) before kept in
      read-kept k v s.max_entries b later s.prefix (run cs s') own safe l still

  gone-after :
      (k : String) (now : ℕ) (m : Table String (Stored T))
      → Distinct m
      → get (prune now none (delete m k)) k ≡ none
  gone-after k now m d = get-none (prune now none (delete m k)) k (
      has-prune-false now none (delete m k) k
        (has_of_none (delete m k) k (ground (arith, get-delete m k k d, ==_iff k k))))

  read-expired :
      (k : String) (v : Stored T) (now : ℕ) (s : Store T)
      → starts_with k s.prefix ≡ true
      → get s.entries k ≡ some v
      → v.expires_at ≤ now
      → now ≤ max_safe_integer
      → read k (some now) s
        ≡ (err cursor_expired, with_entries (prune now none (delete s.entries k)) s)
  unfolding read owns read_now
  read-expired k v now s own h late safe =
      rw (own, at_most now max_safe_integer safe, h, at_most v.expires_at now late) refl

  read-absent :
      (k : String) (now : ℕ) (s : Store T)
      → starts_with k s.prefix ≡ true
      → get s.entries k ≡ none
      → now ≤ max_safe_integer
      → (read k (some now) s).0 ≡ err invalid_cursor
  unfolding read owns read_now
  read-absent k now s own h safe = rw (own, at_most now max_safe_integer safe, h) refl

  -- Reading too late, and once more.
  pub read-expired-read :
      (k : String) (v : Stored T) (now later : ℕ) (s : Store T)
      → IsStore s
      → starts_with k s.prefix ≡ true
      → get s.entries k ≡ some v
      → v.expires_at ≤ now
      → now ≤ max_safe_integer
      → later ≤ max_safe_integer
      → ((read k (some now) s).0 ≡ err cursor_expired)
        × ((read k (some later) (read k (some now) s).1).0 ≡ err invalid_cursor)
  read-expired-read k v now later s i own h late safe safe_later =
      let e = read-expired k v now s own h late safe in
      (
        ap (λ r. r.0) e,
        rw e (
            read-absent k later (with_entries (prune now none (delete s.entries k)) s) own
              (gone-after k now s.entries i.distinct) safe_later),
      )
