-- ===== src/Catalog/Merge/Laws.antt =====
-- The sets of what was seen, and what the check for collisions rules out.
use gptsession_bridge.Shared.{
  ◌≡◌, refl, String, false, ◌||◌, List, [], ◌∷◌, ◌++◌, contains, string_eq, ◌==◌, ==_iff, arith,
}
use gptsession_bridge.Catalog.Virtual.{Entry}
use gptsession_bridge.Catalog.Merge.{add, add_all, collides}

contains-append :
    (xs ys : List String) (k : String) → contains (xs ++ ys) k ≡ (contains xs k || contains ys k)
unfolding contains
contains-append [] ys k = refl
contains-append (x ∷ xs) ys k = ground (arith, contains-append xs ys k)

contains-add : (xs : List String) (j k : String) → contains (add xs j) k ≡ (contains xs k || j == k)
unfolding add contains
contains-add xs j k = ground (arith, contains-append xs (j ∷ []) k, ==_iff j k)

-- The set holds what it held and what was added.
pub contains-add_all :
    (xs ks : List String) (k : String)
    → contains (add_all xs ks) k ≡ (contains xs k || contains ks k)
unfolding add_all contains
contains-add_all xs [] k = ground arith
contains-add_all xs (j ∷ ks) k =
    ground (arith, contains-add_all (add xs j) ks k, contains-add xs j k)

-- No entry's id is among the ids, and no entry's model among the models.
abbrev pub AllClear : List String → List String → List Entry → Type 0
AllClear ids models [] = Unit {0}
AllClear ids models (e ∷ es) =
    (contains ids e.id ≡ false) × (contains models e.model ≡ false) × AllClear ids models es

pub collides-AllClear :
    (ids models : List String) (es : List Entry)
    → collides ids models es ≡ false
    → AllClear ids models es
unfolding collides
collides-AllClear ids models [] h = tt
collides-AllClear ids models (e ∷ es) h = ground (arith, collides-AllClear ids models es)

-- With fewer keys to meet there are fewer collisions.
pub AllClear-fewer :
    (ids models js ns : List String) (es : List Entry)
    → ((k : String) → contains ids k ≡ false → contains js k ≡ false)
    → ((k : String) → contains models k ≡ false → contains ns k ≡ false)
    → AllClear ids models es
    → AllClear js ns es
AllClear-fewer ids models js ns [] h k a = tt
AllClear-fewer ids models js ns (e ∷ es) h k a =
    (h e.id a.0, k e.model a.1, AllClear-fewer ids models js ns es h k a.2)
