-- ===== src/Catalog/Paging/Walk.antt =====
-- A client that follows the cursors from page to page.
use gptsession_bridge.Shared.{
  ℕ, zero, suc, ◌+◌, ◌≤◌, ◌<◌, ◌≡◌, refl, sym, ap, subst, ◌∙◌, String, Bool, Option, none, some,
  List, [], ◌∷◌, ◌++◌, map, Result, ok, take, drop, arith,
}
use gptsession_bridge.Protocol.Text.{max_safe_integer}
use gptsession_bridge.Catalog.Codes.{Code}
use gptsession_bridge.Catalog.Cursors.{Call, read, run}
use gptsession_bridge.Catalog.Cursors.Reading.{AllBefore, makes}
use gptsession_bridge.Catalog.Virtual.{Entry}
use gptsession_bridge.Catalog.Models.{
  Item, web, Page, CursorState, paging, Catalog, World, paginate,
}
use gptsession_bridge.Catalog.Paging.{Leaves, paginate-Leaves}

-- A page that was asked for, what happened to the store until its cursor was read, and the state
-- that was read.
pub record Visit : Type 0 where
  pub world : World
  pub limit : ℕ
  pub hidden : Bool
  pub before : Catalog
  pub after : Catalog
  pub page : Page
  pub now : ℕ
  pub later : ℕ
  pub between : List (Call CursorState)
  pub flag : Bool
  pub rest : List Entry

-- The cursor is read before it expires or is crowded out; without one the walk is over.
abbrev pub ReadBack : Visit → Option String → Type 0
ReadBack v none = v.rest ≡ []
ReadBack v (some k) =
    (v.world.clock ≡ some v.now)
    × (makes v.between < v.before.store.max_entries)
    × AllBefore (v.now + v.before.store.ttl) v.between
    × (v.later < v.now + v.before.store.ttl)
    × (v.later ≤ max_safe_integer)
    × ((read k (some v.later) (run v.between v.after.store)).0 ≡ ok (paging v.flag v.rest))

abbrev pub Visited : Visit → List Entry → Type 0
Visited v models =
    (paginate v.world models v.limit v.hidden v.before ≡ (ok v.page, v.after))
    × ReadBack v v.page.next_cursor

-- From the models that are left, page by page, until none are.
abbrev pub AllVisited : List Visit → List Entry → Type 0
AllVisited [] models = models ≡ []
AllVisited (v ∷ vs) models = Visited v models × AllVisited vs v.rest

abbrev pub shown : List Visit → List Item
shown [] = []
shown (v ∷ vs) = v.page.items ++ shown vs

map_web-append : (xs ys : List Entry) → map web (xs ++ ys) ≡ map web xs ++ map web ys
map_web-append [] ys = refl
map_web-append (x ∷ xs) ys = ap (◌∷◌ (web x)) (map_web-append xs ys)

take-drop {ℓ} : {A : Type ℓ} (n : ℕ) (xs : List A) → take n xs ++ drop n xs ≡ xs
take-drop zero xs = refl
take-drop (suc n) [] = refl
take-drop (suc n) (x ∷ xs) = ap (◌∷◌ x) (take-drop n xs)

same_paging :
    (g h : Bool) (xs ys : List Entry) (o : Result Code CursorState)
    → o ≡ ok (paging g xs)
    → o ≡ ok (paging h ys)
    → xs ≡ ys
same_paging g h xs ys o e k = ground arith

same_key : (j k : String) → some j ≡ some k → j ≡ k
same_key j k h = ground arith

rest_of :
    (v : Visit) (o : Option String) (left : List Entry)
    → Leaves v.world v.hidden left v.before o v.after
    → ReadBack v o
    → v.rest ≡ left
rest_of v none [] l r = r
rest_of v (some k) [] l r = absurd (cc l)
rest_of v none (e ∷ es) (k, o, reads) r = absurd (cc o)
rest_of v (some j) (e ∷ es) (k, o, reads) (clock, few, before, soon, safe, got) =
    let found = reads v.now v.later v.between clock few before soon safe in
    same_paging v.flag v.hidden v.rest (e ∷ es)
      (read j (some v.later) (run v.between v.after.store)).0 got
      (subst
        (λ i.
          (read i (some v.later) (run v.between v.after.store)).0 ≡ ok (paging v.hidden (e ∷ es)))
        (sym (same_key j k o)) found)

-- The pages that a client gets by following the cursors until none is left, each read before it
-- expires or is crowded out, put together show exactly the virtual models in their order.
pub walk-shown :
    (vs : List Visit) (models : List Entry) → AllVisited vs models → shown vs ≡ map web models
walk-shown [] models h = ap (map web) (sym h)
walk-shown (v ∷ vs) models (visited, more) =
    let (items, leaves) =
      paginate-Leaves v.world models v.limit v.hidden v.before v.after v.page visited.0 in
    let e = rest_of v v.page.next_cursor (drop v.limit models) leaves visited.1 in
    rw (items, walk-shown vs v.rest more, e)
      (sym (map_web-append (take v.limit models) (drop v.limit models))
        ∙ ap (map web) (take-drop v.limit models))
