-- ===== src/Catalog/Merge/Disjoint.antt =====
-- What a merged page holds.
use gptsession_bridge.Shared.{
  ℕ, ◌-◌, ◌≤◌, ◌≡◌, refl, sym, subst, String, Bool, true, false, not, ◌||◌, Option, none, some,
  List, ◌++◌, map, Result, ok, err, ltb, length, take, drop, string_eq, arith, Bool-cases, inl, inr,
}
use mathlib.Core.List.{append-nil}
use gptsession_bridge.Shared.Exec.{Exec, pure, continue}
use gptsession_bridge.Catalog.Codes.{Code}
use gptsession_bridge.Catalog.Cursors.{create}
use gptsession_bridge.Catalog.Virtual.{Entry}
use gptsession_bridge.Catalog.Models.{
  NativePage, native, web, Page, Context, continuing, Catalog, World, on_store, cursor_for_rest,
}
use gptsession_bridge.Catalog.Merge.{
  page_ok, normalize_page, add_all, collides, has_collision, is_empty, finish_page, merge_sets,
  merge_native_page,
}
use gptsession_bridge.Catalog.Merge.Laws.{AllClear, collides-AllClear}

abbrev pub ids_of : NativePage → List String
ids_of p = map (λ n. n.id) p.listed

abbrev pub models_of : NativePage → List String
models_of p = map (λ n. n.model) p.listed

-- The page has the native entries and then virtual ones, `n` at most, of which none collides, and
-- only at the end of a catalog that was seen from its beginning.
pub record Merges (ctx : Context) (p : NativePage) (page : Page) : Type 0 where
  pub appended : ℕ
  pub holds : page.items ≡ map native p.listed ++ map web (take appended ctx.virtual_models)
  pub fits : appended ≤ ctx.limit - length p.listed
  pub at_end : 1 ≤ appended → (p.next_cursor ≡ none) × (ctx.complete ≡ true)
  pub clear :
      AllClear (add_all ctx.ids (ids_of p)) (add_all ctx.models (models_of p)) ctx.virtual_models

abbrev Ends : Context → NativePage → Result Code Page → Type 0
Ends ctx p (err c) = Unit {0}
Ends ctx p (ok page) =
    (n : ℕ) × (page.items ≡ map native p.listed ++ map web (take n ctx.virtual_models))
    × (n ≤ ctx.limit - length p.listed)
    × (1 ≤ n → (p.next_cursor ≡ none) × (ctx.complete ≡ true))

complete_of : (a b : Bool) → (not a || b) ≡ false → a ≡ true
complete_of true b h = refl
complete_of false b h = absurd (cc)

continue-Ends {ℓ} :
    {A : Type ℓ} (ctx : Context) (p : NativePage) (r : Result Code A)
    (f : A → Exec Catalog Code Page) (c : Catalog)
    → ((a : A) → Ends ctx p (f a c).0)
    → Ends ctx p (continue r f c).0
continue-Ends ctx p (ok a) f c h = h a
continue-Ends ctx p (err e) f c h = tt

natives_only :
    (ctx : Context) (p : NativePage) (o : Option String)
    → Ends ctx p (ok (record { items = map native p.listed; next_cursor = o }))
natives_only ctx p o =
    (0, sym (append-nil (map native p.listed)), omega arith, λ h. absurd (omega (arith, h)))

virtual_too :
    (ctx : Context) (p : NativePage) (o : Option String)
    → p.next_cursor ≡ none
    → ctx.complete ≡ true
    → Ends ctx p (
        ok (record {
          items =
              map native p.listed
              ++ map web (take (ctx.limit - length p.listed) ctx.virtual_models);
          next_cursor = o;
        }))
virtual_too ctx p o e complete =
    (ctx.limit - length p.listed, refl, omega arith, λ h. (e, complete))

finish_page-Ends :
    (w : World) (ctx : Context) (p : NativePage) (ids models : List String) (o : Option String)
    (c : Catalog)
    → p.next_cursor ≡ o
    → Ends ctx p (finish_page w ctx p ids models o c).0
unfolding finish_page
finish_page-Ends w ctx p ids models (some next) c e =
    let m = on_store (
      create (continuing ctx.complete ctx.include_hidden ids models next ctx.virtual_models) w.clock
        w.random) in
    continue-Ends ctx p (m c).0
      (λ k. pure (record { items = map native p.listed; next_cursor = some k })) (m c).1
      (λ k. natives_only ctx p (some k))
finish_page-Ends w ctx p ids models none c e =
    elim (Bool-cases (not ctx.complete || is_empty ctx.virtual_models)) [
      | inl stop ↦ rw stop (natives_only ctx p none)
      | inr go ↦ rw go (
          let appended = take (ctx.limit - length p.listed) ctx.virtual_models in
          let m =
            cursor_for_rest w ctx.include_hidden (drop (length appended) ctx.virtual_models) in
          continue-Ends ctx p (m c).0
            (λ k.
              pure (record { items = map native p.listed ++ map web appended; next_cursor = k }))
            (m c).1
            (λ k.
              virtual_too ctx p k e (complete_of ctx.complete (is_empty ctx.virtual_models) go)))
    ]

abbrev MergesInto : Context → NativePage → Result Code Page → Type 0
MergesInto ctx p (err c) = Unit {0}
MergesInto ctx p (ok page) = Merges ctx p page

both_parts :
    (ctx : Context) (p : NativePage) (r : Result Code Page)
    → AllClear (add_all ctx.ids (ids_of p)) (add_all ctx.models (models_of p)) ctx.virtual_models
    → Ends ctx p r
    → MergesInto ctx p r
both_parts ctx p (err c) h e = tt
both_parts ctx p (ok page) h (n, holds, fits, at_end) = record {
  appended = n;
  holds = holds;
  fits = fits;
  at_end = at_end;
  clear = h;
}

no_collision :
    (ids models : List String) (es : List Entry)
    → has_collision ids models es ≡ false
    → collides ids models es ≡ false
unfolding has_collision
no_collision ids models es h = ground arith

merge_sets-MergesInto :
    (w : World) (ctx : Context) (p : NativePage) (c : Catalog)
    → MergesInto ctx p
        (merge_sets w ctx p (add_all ctx.ids (ids_of p)) (add_all ctx.models (models_of p)) c).0
unfolding merge_sets
merge_sets-MergesInto w ctx p c =
    let ids = add_all ctx.ids (ids_of p) in
    let models = add_all ctx.models (models_of p) in
    elim (Bool-cases (ltb 4096 (length ids) || ltb 4096 (length models))) [
      | inl big ↦ rw big tt
      | inr small ↦ elim (Bool-cases (has_collision ids models ctx.virtual_models)) [
        | inl bad ↦ rw (small, bad) tt
        | inr good ↦
            rw (small, good)
              (both_parts ctx p (finish_page w ctx p ids models p.next_cursor c).0
                (collides-AllClear ids models ctx.virtual_models
                  (no_collision ids models ctx.virtual_models good))
                (finish_page-Ends w ctx p ids models p.next_cursor c refl))
      ]
    ]

merge-MergesInto :
    (w : World) (ctx : Context) (p : NativePage) (c : Catalog)
    → MergesInto ctx p (merge_native_page w ctx (some p) c).0
unfolding merge_native_page normalize_page
merge-MergesInto w ctx p c = elim (Bool-cases (page_ok p)) [
  | inl good ↦ rw good (merge_sets-MergesInto w ctx p c)
  | inr bad ↦ rw bad tt
]

-- A merged page holds the native entries in their order and then the first so many virtual
-- models, within the limit; there are any only behind the last page of a catalog that was seen
-- from its start, and no virtual model has an id or a model that was seen on this page or before.
pub merge_native_page-Merges :
    (w : World) (ctx : Context) (p : NativePage) (c c' : Catalog) (page : Page)
    → merge_native_page w ctx (some p) c ≡ (ok page, c')
    → Merges ctx p page
merge_native_page-Merges w ctx p c c' page h =
    subst (λ r. MergesInto ctx p r.0) h (merge-MergesInto w ctx p c)
