-- ===== src/Catalog/Paging.antt =====
-- packages/core/src/catalog/model-catalog.ts, `#paginateVirtualModels`: a page of virtual models and
-- its cursor, which reads as the models that are left.
pub mod Walk
use gptsession_bridge.Shared.{
  ℕ, zero, suc, ◌+◌, ◌≤◌, ◌<◌, ◌≡◌, refl, subst, String, Bool, Option, none, some, List, [], ◌∷◌,
  map, Result, ok, err, length, take, drop,
}
use gptsession_bridge.Shared.Exec.{pure, continue}
use gptsession_bridge.Protocol.Text.{max_safe_integer}
use gptsession_bridge.Catalog.Codes.{Code}
use gptsession_bridge.Catalog.Cursors.{Store, Call, create, read, run}
use gptsession_bridge.Catalog.Cursors.Reading.{AllBefore, makes}
use gptsession_bridge.Catalog.Cursors.Lifetime.{create-run-read}
use gptsession_bridge.Catalog.Virtual.{Entry}
use gptsession_bridge.Catalog.Models.{
  web, Page, CursorState, paging, Catalog, World, cursor_for_rest, paginate,
}

drop-length-take {ℓ} : {A : Type ℓ} (n : ℕ) (xs : List A) → drop (length (take n xs)) xs ≡ drop n xs
drop-length-take zero xs = refl
drop-length-take (suc n) [] = refl
drop-length-take (suc n) (x ∷ xs) = drop-length-take n xs

-- Until it expires, and while fewer cursors follow than the store holds, a cursor reads as a state.
abbrev pub ReadsAs : World → Store CursorState → Store CursorState → String → CursorState → Type 0
ReadsAs w s s' k state =
    (now later : ℕ) (cs : List (Call CursorState))
    → w.clock ≡ some now
    → makes cs < s.max_entries
    → AllBefore (now + s.ttl) cs
    → later < now + s.ttl
    → later ≤ max_safe_integer
    → (read k (some later) (run cs s')).0 ≡ ok state

-- The models that are left have a cursor, and no cursor is made where none are.
abbrev pub Leaves : World → Bool → List Entry → Catalog → Option String → Catalog → Type 0
Leaves w hidden [] c o c' = o ≡ none
Leaves w hidden (e ∷ rest) c o c' =
    (k : String) × (o ≡ some k) × ReadsAs w c.store c'.store k (paging hidden (e ∷ rest))

abbrev LeavesOk :
    World → Bool → List Entry → Catalog → Result Code (Option String) × Catalog → Type 0
LeavesOk w hidden rest c (err e, c') = Unit {0}
LeavesOk w hidden rest c (ok o, c') = Leaves w hidden rest c o c'

created-LeavesOk :
    (w : World) (hidden : Bool) (e : Entry) (rest : List Entry) (c : Catalog)
    (r : Result Code String × Store CursorState)
    → create (paging hidden (e ∷ rest)) w.clock w.random c.store ≡ r
    → LeavesOk w hidden (e ∷ rest) c (continue r.0 (λ k. pure (some k)) (record c { store = r.1 }))
created-LeavesOk w hidden e rest c (err x, s') h = tt
created-LeavesOk w hidden e rest c (ok k, s') h = (
  k,
  refl,
  λ now later cs clock few before l safe.
      create-run-read (paging hidden (e ∷ rest)) now later w.random c.store s' k cs
        (subst (λ t. create (paging hidden (e ∷ rest)) t w.random c.store ≡ (ok k, s')) clock h) few
        before l safe,
)

cursor_for_rest-LeavesOk :
    (w : World) (hidden : Bool) (rest : List Entry) (c : Catalog)
    → LeavesOk w hidden rest c (cursor_for_rest w hidden rest c)
unfolding cursor_for_rest
cursor_for_rest-LeavesOk w hidden [] c = refl
cursor_for_rest-LeavesOk w hidden (e ∷ rest) c =
    created-LeavesOk w hidden e rest c (create (paging hidden (e ∷ rest)) w.clock w.random c.store)
      refl

abbrev PagesOk : World → List Entry → ℕ → Bool → Catalog → Result Code Page × Catalog → Type 0
PagesOk w models limit hidden c (err e, c') = Unit {0}
PagesOk w models limit hidden c (ok p, c') =
    (p.items ≡ map web (take limit models)) × Leaves w hidden (drop limit models) c p.next_cursor c'

with_cursor :
    (w : World) (models : List Entry) (limit : ℕ) (hidden : Bool) (c : Catalog)
    (r : Result Code (Option String) × Catalog)
    → LeavesOk w hidden (drop limit models) c r
    → PagesOk w models limit hidden c (
        continue r.0
          (λ o. pure (record { items = map web (take limit models); next_cursor = o }))
          r.1)
with_cursor w models limit hidden c (err e, c') h = tt
with_cursor w models limit hidden c (ok o, c') h = (refl, h)

paginate-PagesOk :
    (w : World) (models : List Entry) (limit : ℕ) (hidden : Bool) (c : Catalog)
    → PagesOk w models limit hidden c (paginate w models limit hidden c)
unfolding paginate
paginate-PagesOk w models limit hidden c =
    let rest = drop (length (take limit models)) models in
    with_cursor w models limit hidden c (cursor_for_rest w hidden rest c) (
      subst (λ r. LeavesOk w hidden r c (cursor_for_rest w hidden rest c))
        (drop-length-take limit models) (cursor_for_rest-LeavesOk w hidden rest c))

-- A page of virtual models holds the first so many of them; the cursor with it reads, until it
-- expires or is crowded out, as the models that are left, and there is none where none are left.
pub paginate-Leaves :
    (w : World) (models : List Entry) (limit : ℕ) (hidden : Bool) (c c' : Catalog) (p : Page)
    → paginate w models limit hidden c ≡ (ok p, c')
    → (p.items ≡ map web (take limit models))
      × Leaves w hidden (drop limit models) c p.next_cursor c'
paginate-Leaves w models limit hidden c c' p h =
    subst (PagesOk w models limit hidden c) h (paginate-PagesOk w models limit hidden c)
