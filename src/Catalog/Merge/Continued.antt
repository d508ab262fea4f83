-- ===== src/Catalog/Merge/Continued.antt =====
-- A native page that is not the last: its cursor reads as all that was seen so far.
use gptsession_bridge.Shared.{
  ◌≡◌, refl, subst, String, ◌||◌, Option, none, some, map, Result, ok, err, ltb, length, arith,
  Bool-cases, inl, inr,
}
use gptsession_bridge.Shared.Exec.{pure, continue}
use gptsession_bridge.Catalog.Codes.{Code}
use gptsession_bridge.Catalog.Cursors.{Store, create}
use gptsession_bridge.Catalog.Cursors.Lifetime.{create-run-read}
use gptsession_bridge.Catalog.Models.{
  NativePage, native, Page, Context, CursorState, continuing, Catalog, World,
}
use gptsession_bridge.Catalog.Paging.{ReadsAs}
use gptsession_bridge.Catalog.Merge.{
  page_ok, normalize_page, add_all, has_collision, finish_page, merge_sets, merge_native_page,
}
use gptsession_bridge.Catalog.Merge.Disjoint.{ids_of, models_of}

-- What a later request for the next native page starts from.
abbrev pub seen_after : Context → NativePage → String → CursorState
seen_after ctx p next =
    continuing ctx.complete ctx.include_hidden (add_all ctx.ids (ids_of p))
      (add_all ctx.models (models_of p)) next ctx.virtual_models

abbrev pub Continues : World → Context → NativePage → Catalog → Page → Catalog → Type 0
Continues w ctx p c page c' =
    (next : String)
    → p.next_cursor ≡ some next
    → (k : String) × (page.next_cursor ≡ some k)
      × (page.items ≡ map native p.listed)
      × ReadsAs w c.store c'.store k (seen_after ctx p next)

abbrev ContinuesOk : World → Context → NativePage → Catalog → Result Code Page × Catalog → Type 0
ContinuesOk w ctx p c (err e, c') = Unit {0}
ContinuesOk w ctx p c (ok page, c') = Continues w ctx p c page c'

same_next : (a b : String) {o : Option String} → o ≡ some a → o ≡ some b → a ≡ b
same_next a b h k = ground arith

last_page :
    (w : World) (ctx : Context) (p : NativePage) (c : Catalog) (r : Result Code Page × Catalog)
    → p.next_cursor ≡ none
    → ContinuesOk w ctx p c r
last_page w ctx p c (err e, c') h = tt
last_page w ctx p c (ok page, c') h = λ next e. absurd (cc (e, h))

created-ContinuesOk :
    (w : World) (ctx : Context) (p : NativePage) (next : String) (c : Catalog)
    (r : Result Code String × Store CursorState)
    → p.next_cursor ≡ some next
    → create (seen_after ctx p next) w.clock w.random c.store ≡ r
    → ContinuesOk w ctx p c (
        continue r.0
          (λ k. pure (record { items = map native p.listed; next_cursor = some k }))
          (record c { store = r.1 }))
created-ContinuesOk w ctx p next c (err x, s') e h = tt
created-ContinuesOk w ctx p next c (ok k, s') e h = λ next' e'. (
  k,
  refl,
  refl,
  λ now later cs clock few before l safe.
      create-run-read (seen_after ctx p next') now later w.random c.store s' k cs
        (subst (λ n. create (seen_after ctx p n) (some now) w.random c.store ≡ (ok k, s'))
          (same_next next next' e e')
          (subst (λ t. create (seen_after ctx p next) t w.random c.store ≡ (ok k, s')) clock h))
        few before l safe,
)

finish_page-ContinuesOk :
    (w : World) (ctx : Context) (p : NativePage) (o : Option String) (c : Catalog)
    → p.next_cursor ≡ o
    → ContinuesOk w ctx p c
        (finish_page w ctx p (add_all ctx.ids (ids_of p)) (add_all ctx.models (models_of p)) o c)
unfolding finish_page
finish_page-ContinuesOk w ctx p (some next) c e =
    created-ContinuesOk w ctx p next c (create (seen_after ctx p next) w.clock w.random c.store) e
      refl
finish_page-ContinuesOk w ctx p none c e = last_page w ctx p c _ e

merge_sets-ContinuesOk :
    (w : World) (ctx : Context) (p : NativePage) (c : Catalog)
    → ContinuesOk w ctx p c
        (merge_sets w ctx p (add_all ctx.ids (ids_of p)) (add_all ctx.models (models_of p)) c)
unfolding merge_sets
merge_sets-ContinuesOk w ctx p c =
    let ids = add_all ctx.ids (ids_of p) in
    let models = add_all ctx.models (models_of p) in
    elim (Bool-cases (ltb 4096 (length ids) || ltb 4096 (length models))) [
      | inl big ↦ rw big tt
      | inr small ↦ elim (Bool-cases (has_collision ids models ctx.virtual_models)) [
        | inl bad ↦ rw (small, bad) tt
        | inr good ↦ rw (small, good) (finish_page-ContinuesOk w ctx p p.next_cursor c refl)
      ]
    ]

merge-ContinuesOk :
    (w : World) (ctx : Context) (p : NativePage) (c : Catalog)
    → ContinuesOk w ctx p c (merge_native_page w ctx (some p) c)
unfolding merge_native_page normalize_page
merge-ContinuesOk w ctx p c = elim (Bool-cases (page_ok p)) [
  | inl good ↦ rw good (merge_sets-ContinuesOk w ctx p c)
  | inr bad ↦ rw bad tt
]

-- A native page that is merged and is not the last gets a cursor in place of its own, which
-- reads, until it expires or is crowded out, as the native cursor with every id and model seen so
-- far.
pub merge_native_page-Continues :
    (w : World) (ctx : Context) (p : NativePage) (c c' : Catalog) (page : Page)
    → merge_native_page w ctx (some p) c ≡ (ok page, c')
    → Continues w ctx p c page c'
merge_native_page-Continues w ctx p c c' page h =
    subst (ContinuesOk w ctx p c) h (merge-ContinuesOk w ctx p c)
