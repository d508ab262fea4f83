-- ===== src/Catalog/Merge.antt =====
-- packages/core/src/catalog/model-catalog.ts, `mergeNativePage`: a native page is checked, and
-- the virtual models follow the last one. `raw` is the page as it came: `none` where it or one of
-- its entries is no record with the members that are read, each of its type.
pub mod Laws
pub mod Disjoint
pub mod Continued
use gptsession_bridge.Shared.{
  ℕ, ◌+◌, ◌-◌, String, Bool, true, false, not, ◌&&◌, ◌||◌, Option, none, some, List, [], ◌∷◌, ◌++◌,
  map, Result, ok, err, leb, ltb, contains, all, length, take, drop, string_eq, ◌==◌, if◌then◌else◌,
}
use gptsession_bridge.Shared.Exec.{Exec, pure, lift, deny_if, ◌>>=◌, ◌>>◌}
use gptsession_bridge.Protocol.Text.{length_within}
use gptsession_bridge.Namespace.{is_reserved_text}
use gptsession_bridge.Catalog.Codes.{Code, invalid_model_page, model_collision}
use gptsession_bridge.Catalog.Cursors.{create}
use gptsession_bridge.Catalog.Virtual.{Entry}
use gptsession_bridge.Catalog.Models.{
  Native, NativePage, Item, native, web, Page, Context, CursorState, continuing, paging, Catalog,
  World, on_store, cursor_for_rest,
}

native_ok : Native → Bool
native_ok n = length_within 1 512 n.id && length_within 1 512 n.model

cursor_ok : Option String → Bool
cursor_ok none = true
cursor_ok (some c) = length_within 1 4096 c

unfoldable pub page_ok : NativePage → Bool
unfolding native_ok cursor_ok
page_ok p = leb (length p.listed) 4096 && (cursor_ok p.next_cursor && all native_ok p.listed)

-- normalizeNativePage
unfoldable pub normalize_page : Option NativePage → Result Code NativePage
unfolding page_ok
normalize_page none = err invalid_model_page
normalize_page (some p) = if page_ok p then ok p else err invalid_model_page

-- Set.add, for each of the keys.
unfoldable pub add : List String → String → List String
add seen k = if contains seen k then seen else seen ++ k ∷ []

unfoldable pub add_all : List String → List String → List String
unfolding add
add_all seen [] = seen
add_all seen (k ∷ ks) = add_all (add seen k) ks

unfoldable pub collides : List String → List String → List Entry → Bool
collides ids models [] = false
collides ids models (e ∷ es) =
    (contains ids e.id || contains models e.model) || collides ids models es

any_reserved : List String → Bool
any_reserved [] = false
any_reserved (k ∷ ks) = is_reserved_text k || any_reserved ks

-- assertNoNativeCollision
unfoldable pub has_collision : List String → List String → List Entry → Bool
unfolding collides any_reserved
has_collision ids models es = collides ids models es || (any_reserved ids || any_reserved models)

abbrev pub is_empty {ℓ} : {A : Type ℓ} → List A → Bool
is_empty [] = true
is_empty (x ∷ xs) = false

-- `mergeNativePage` from the checks on, by the cursor of the native page.
unfoldable pub finish_page :
    World
    → Context
    → NativePage
    → List String
    → List String
    → Option String
    → Exec Catalog Code Page
unfolding cursor_for_rest
finish_page w ctx p ids models (some next) = do
  c ← on_store (
      create (continuing ctx.complete ctx.include_hidden ids models next ctx.virtual_models) w.clock
        w.random)
  pure (record { items = map native p.listed; next_cursor = some c })
finish_page w ctx p ids models none =
    if not ctx.complete || is_empty ctx.virtual_models
    then pure (record { items = map native p.listed; next_cursor = none })
    else (do
      let slots = ctx.limit - length p.listed
      let appended = take slots ctx.virtual_models
      c ← cursor_for_rest w ctx.include_hidden (drop (length appended) ctx.virtual_models)
      pure (record { items = map native p.listed ++ map web appended; next_cursor = c }))

unfoldable pub merge_sets :
    World → Context → NativePage → List String → List String → Exec Catalog Code Page
unfolding finish_page has_collision
merge_sets w ctx p ids models =
    deny_if (ltb 4096 (length ids) || ltb 4096 (length models)) invalid_model_page
    >> (deny_if (has_collision ids models ctx.virtual_models) model_collision
        >> finish_page w ctx p ids models p.next_cursor)

unfoldable pub merge_native_page : World → Context → Option NativePage → Exec Catalog Code Page
unfolding normalize_page add_all merge_sets
merge_native_page w ctx raw = do
  p ← lift (normalize_page raw)
  merge_sets w ctx p (add_all ctx.ids (map (λ n. n.id) p.listed))
      (add_all ctx.models (map (λ n. n.model) p.listed))
