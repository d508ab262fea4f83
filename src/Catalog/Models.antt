-- ===== src/Catalog/Models.antt =====
-- packages/core/src/catalog/model-catalog.ts, `VirtualModelCatalog`: the pages of the native catalog,
-- and the virtual models behind the last of them. What the clock, the entropy source and the source
-- of virtual models return comes with the call.
use gptsession_bridge.Shared.{
  ℕ, String, Bool, true, false, not, ◌&&◌, ◌||◌, Option, none, some, List, [], ◌∷◌, map, Result, ok,
  err, leb, contains, length, take, drop, string_eq, if◌then◌else◌,
}
use gptsession_bridge.Shared.Exec.{Exec, pure, lift, gets, deny_if, ◌>>=◌, ◌>>◌}
use gptsession_bridge.Protocol.Text.{length_within}
use gptsession_bridge.Catalog.Codes.{
  Code, invalid_configuration, invalid_cursor, invalid_limit, model_collision,
}
use gptsession_bridge.Catalog.Cursors.{Store, create, read, owns}
use gptsession_bridge.Catalog.Virtual.{Definition, Entry, create_entries}

-- NativeModelEntry; the members that the catalog does not look at are passed on as they are.
pub record Native : Type 0 where
  pub id : String
  pub model : String
  pub is_default : Bool

pub record NativePage : Type 0 where
  pub listed : List Native
  pub next_cursor : Option String

-- CatalogModelEntry
pub data Item : Type 0 where
  native : Native → Item
  web : Entry → Item

pub record Page : Type 0 where
  pub items : List Item
  pub next_cursor : Option String

-- A number of the request; `none` where it is no natural number.
pub record Request : Type 0 where
  pub cursor : Option String
  pub include_hidden : Option Bool
  pub limit : Option (Option ℕ)

-- NativeModelListContext
pub record Context : Type 0 where
  pub complete : Bool
  pub include_hidden : Bool
  pub limit : ℕ
  pub native_cursor : Option String
  pub ids : List String
  pub models : List String
  pub virtual_models : List Entry

-- CatalogCursorState
pub data CursorState : Type 0 where
  continuing : Bool → Bool → List String → List String → String → List Entry → CursorState
  paging : Bool → List Entry → CursorState

pub data Prepared : Type 0 where
  forward : Context → Option String → Prepared
  page : Page → Prepared

pub record Catalog : Type 0 where
  pub store : Store CursorState
  pub default_limit : ℕ
  pub fixed : Option (List Entry)

-- What a call meets outside: the source's models, and the clock when a cursor is read and when one
-- is made, with the entropy for it.
pub record World : Type 0 where
  pub source : Option (List Definition)
  pub read_clock : Option ℕ
  pub clock : Option ℕ
  pub random : ℕ → Option String

abbrev pub on_store {ℓ} : {A : Type ℓ} → Exec (Store CursorState) Code A → Exec Catalog Code A
on_store m c = let (r, s) = m c.store in (r, record c { store = s })

at_least_one : ℕ → ℕ
at_least_one n = if leb 1 n then n else 1

unfoldable pub normalize_limit : Option ℕ → Result Code ℕ
unfolding at_least_one
normalize_limit none = err invalid_limit
normalize_limit (some n) = if leb n 4294967295 then ok (at_least_one n) else err invalid_limit

unfoldable pub normalize_cursor : Option String → Result Code (Option String)
normalize_cursor none = ok none
normalize_cursor (some c) = if length_within 1 4096 c then ok (some c) else err invalid_cursor

-- assertUniqueVirtualModels, with the ids and the models that it has seen.
unfoldable pub unique : List String → List String → List Entry → Bool
unique ids models [] = true
unique ids models (e ∷ es) =
    not (contains ids e.id || contains models e.model) && unique (e.id ∷ ids) (e.model ∷ models) es

unfoldable pub check_unique : List Entry → Result Code (List Entry)
unfolding unique
check_unique es = if unique [] [] es then ok es else err model_collision

unfoldable pub checked : Result Code (List Entry) → Result Code (List Entry)
unfolding check_unique
checked (ok es) = check_unique es
checked (err c) = err c

-- #readVirtualModels
unfoldable pub read_virtual_models :
    Option (List Entry) → Option (List Definition) → Result Code (List Entry)
unfolding checked
read_virtual_models (some es) source = ok es
read_virtual_models none none = err invalid_configuration
read_virtual_models none (some ds) =
    if leb (length ds) 128 then checked (create_entries ds) else err invalid_configuration

or_default : Option (Option ℕ) → ℕ → Option ℕ
or_default none n = some n
or_default (some given) n = given

or_false : Option Bool → Bool
or_false none = false
or_false (some b) = b

-- A cursor for the models that are left, if there are any.
unfoldable pub cursor_for_rest : World → Bool → List Entry → Exec Catalog Code (Option String)
cursor_for_rest w hidden [] = pure none
cursor_for_rest w hidden (e ∷ rest) = do
  c ← on_store (create (paging hidden (e ∷ rest)) w.clock w.random)
  pure (some c)

-- #paginateVirtualModels
unfoldable pub paginate : World → List Entry → ℕ → Bool → Exec Catalog Code Page
unfolding cursor_for_rest
paginate w models limit hidden = do
  c ← cursor_for_rest w hidden (drop (length (take limit models)) models)
  pure (record { items = map web (take limit models); next_cursor = c })

same_flag : Bool → Bool → Bool
same_flag true b = b
same_flag false b = not b

hidden_of : CursorState → Bool
hidden_of (continuing complete hidden ids models native_cursor virtual_models) = hidden
hidden_of (paging hidden models) = hidden

resume : World → ℕ → Bool → CursorState → Exec Catalog Code Prepared
unfolding paginate
resume w limit hidden (paging h models) = do p ← paginate w models limit hidden; pure (page p)
resume w limit hidden (continuing complete h ids models native_cursor virtual_models) = pure (
    forward
      (record {
        complete = complete;
        include_hidden = hidden;
        limit = limit;
        native_cursor = some native_cursor;
        ids = ids;
        models = models;
        virtual_models = virtual_models;
      })
      (some native_cursor))

continue_with : World → String → ℕ → Bool → Exec Catalog Code Prepared
unfolding same_flag hidden_of resume
continue_with w cursor limit hidden = do
  state ← on_store (read cursor w.read_clock)
  deny_if (not (same_flag (hidden_of state) hidden)) invalid_cursor
  resume w limit hidden state

is_none : Option String → Bool
is_none none = true
is_none (some s) = false

start_over : World → Option String → ℕ → Bool → Exec Catalog Code Prepared
unfolding read_virtual_models is_none
start_over w cursor limit hidden = do
  fixed ← gets (λ c. c.fixed)
  models ← lift (read_virtual_models fixed w.source)
  pure (
      forward
        (record {
          complete = is_none cursor;
          include_hidden = hidden;
          limit = limit;
          native_cursor = cursor;
          ids = [];
          models = [];
          virtual_models = models;
        })
        cursor)

prepare_with : World → Option String → ℕ → Bool → Exec Catalog Code Prepared
unfolding start_over continue_with
prepare_with w none limit hidden c = start_over w none limit hidden c
prepare_with w (some cursor) limit hidden c =
    if owns cursor c.store
    then continue_with w cursor limit hidden c
    else start_over w (some cursor) limit hidden c

unfoldable pub prepare : Request → World → Exec Catalog Code Prepared
unfolding or_default or_false normalize_limit normalize_cursor prepare_with
prepare r w = do
  default_limit ← gets (λ c. c.default_limit)
  limit ← lift (normalize_limit (or_default r.limit default_limit))
  cursor ← lift (normalize_cursor r.cursor)
  prepare_with w cursor limit (or_false r.include_hidden)
