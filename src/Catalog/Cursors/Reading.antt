-- ===== src/Catalog/Cursors/Reading.antt =====
-- What reading a cursor gives, in time and too late.
use gptsession_bridge.Shared.{
  ℕ, ◌+◌, ◌≤◌, ◌<◌, ◌≡◌, refl, String, false, Option, none, some, List, [], ◌∷◌, leb, string_eq,
  option_eq, ◌==◌, ==_iff, arith, Bool-cases, inl, inr,
}
use gptsession_bridge.Shared.Table.{Table, get, delete, size-delete_le}
use gptsession_bridge.Protocol.Text.{max_safe_integer}
use gptsession_bridge.Catalog.Cursors.{
  Stored, Store, read_now, create, read, active_size, Call, creates, reads, sizes, step, run,
  with_entries, read_stored,
}
use gptsession_bridge.Catalog.Cursors.Kept.{behind, IsKept, pruned-IsKept, create-IsKept}

module _ {ℓ} {T : Type ℓ} where
  get-delete_other :
      (j k : String) (m : Table String (Stored T)) → (j == k) ≡ false → get (delete m j) k ≡ get m k
  unfolding get delete
  get-delete_other j k [] h = refl
  get-delete_other j k ((i, w) ∷ m) h =
      ground (arith, ==_iff i j, ==_iff i k, ==_iff j k, get-delete_other j k m)

  behind-delete_le :
      (j k : String) (m : Table String (Stored T))
      → (j == k) ≡ false
      → behind k (delete m j) ≤ behind k m
  unfolding behind delete
  behind-delete_le j k [] h = omega arith
  behind-delete_le j k ((i, w) ∷ m) h =
      ground (arith, ==_iff i j, ==_iff i k, ==_iff j k, size-delete_le m j, behind-delete_le j k m)

  module _ (k : String) (v : Stored T) (n : ℕ) (p : String) where
    deleted-IsKept :
        (j : String) (b : ℕ) (s : Store T)
        → (j == k) ≡ false
        → IsKept k v n b p s
        → IsKept k v n b p (with_entries (delete s.entries j) s)
    deleted-IsKept j b s e h = record {
      there = ground (arith, get-delete_other j k s.entries e, h.there);
      young = omega (arith, h.young, behind-delete_le j k s.entries e);
      same_room = h.same_room;
      same_prefix = h.same_prefix;
    }

    expired_other :
        (j : String) (w : Stored T) (now b : ℕ) (s : Store T)
        → get s.entries j ≡ some w
        → w.expires_at ≤ now
        → now < v.expires_at
        → IsKept k v n b p s
        → (j == k) ≡ false
    expired_other j w now b s g e l h = ground (arith, ==_iff j k, h.there)

    read_stored-IsKept :
        (j : String) (now b : ℕ) (o : Option (Stored T)) (s : Store T)
        → get s.entries j ≡ o
        → now < v.expires_at
        → IsKept k v n b p s
        → IsKept k v n b p (read_stored j now o s).1
    read_stored-IsKept j now b none s g l h = pruned-IsKept k v n p now none b s l h
    read_stored-IsKept j now b (some w) s g l h = elim (Bool-cases (leb w.expires_at now)) [
      | inl e ↦ rw e (
          pruned-IsKept k v n p now none b (with_entries (delete s.entries j) s) l
            (deleted-IsKept j b s (expired_other j w now b s g (ground arith) l h) h))
      | inr e ↦ rw e (pruned-IsKept k v n p now (some j) b s l h)
    ]

    read-IsKept :
        (j : String) (clock : Option ℕ) (b : ℕ) (s : Store T)
        → ((now : ℕ) → clock ≡ some now → now < v.expires_at)
        → IsKept k v n b p s
        → IsKept k v n b p (read j clock s).1
    unfolding read read_now
    read-IsKept j none b s t h = ground (arith, h)
    read-IsKept j (some now) b s t h =
        ground (arith, h, read_stored-IsKept j now b (get s.entries j) s refl (t now refl) h)

    active_size-IsKept :
        (clock : Option ℕ) (b : ℕ) (s : Store T)
        → ((now : ℕ) → clock ≡ some now → now < v.expires_at)
        → IsKept k v n b p s
        → IsKept k v n b p (active_size clock s).1
    unfolding active_size read_now
    active_size-IsKept none b s t h = h
    active_size-IsKept (some now) b s t h = elim (Bool-cases (leb now max_safe_integer)) [
      | inl e ↦ rw e (pruned-IsKept k v n p now none b s (t now refl) h)
      | inr e ↦ rw e h
    ]

  -- The value that the clock returns to a call.
  abbrev pub clock_of : Call T → Option ℕ
  clock_of (creates value clock random) = clock
  clock_of (reads k clock) = clock
  clock_of (sizes clock) = clock

  -- No call sees the clock at `t` or later.
  abbrev pub AllBefore : ℕ → List (Call T) → Type 0
  AllBefore t [] = Unit {0}
  AllBefore t (c ∷ cs) = ((now : ℕ) → clock_of c ≡ some now → now < t) × AllBefore t cs

  -- How many of the calls make a cursor.
  abbrev pub makes : List (Call T) → ℕ
  makes [] = 0
  makes (creates value clock random ∷ cs) = makes cs + 1
  makes (c ∷ cs) = makes cs

  module _ (k : String) (v : Stored T) (n : ℕ) (p : String) where
    pub run-IsKept :
        (cs : List (Call T)) (b : ℕ) (s : Store T)
        → b + makes cs < n
        → AllBefore v.expires_at cs
        → IsKept k v n b p s
        → (b' : ℕ) × IsKept k v n b' p (run cs s)
    unfolding run step
    run-IsKept [] b s l t h = (b, h)
    run-IsKept (creates value clock random ∷ cs) b s l t h =
        run-IsKept cs (b + 1) (create value clock random s).1 (omega arith) t.1
          (create-IsKept k v n p value clock random b s (omega arith) t.0 h)
    run-IsKept (reads j clock ∷ cs) b s l t h =
        run-IsKept cs b (read j clock s).1 l t.1 (read-IsKept k v n p j clock b s t.0 h)
    run-IsKept (sizes clock ∷ cs) b s l t h =
        run-IsKept cs b (active_size clock s).1 l t.1 (active_size-IsKept k v n p clock b s t.0 h)
