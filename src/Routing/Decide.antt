-- ===== src/Routing/Decide.antt =====
-- The routing decision of thread-router.ts: `#decideLifecycleRoute` and what it calls.
use gptsession_bridge.Shared.{
  String, Bool, true, false, not, ◌&&◌, ◌||◌, Option, none, some, Result, ok, err, throw_if, ◌>>=◌,
  ◌>>◌, contains, string_eq, option_eq, ◌==◌, if◌then◌else◌,
}
use gptsession_bridge.Values.{Value, null, string, Fields, same_as}
use gptsession_bridge.Namespace.{is_reserved_web_model_reference}
use gptsession_bridge.Routing.Codes.{
  Code, invalid_params, provider_switch, pinned_selection_mismatch, thread_route_unknown,
  web_model_unavailable,
}
use gptsession_bridge.Routing.Registry.{Definition, Registry, lookup_selected}
use gptsession_bridge.Routing.Params.{
  Method, is_start, web_provider_id, read_lifecycle_model, read_selected_provider,
  read_lifecycle_effort,
}

-- ThreadRouteKind
pub data Kind : Type 0 where
  native web : Kind

abbrev pub is_web : Kind → Bool
is_web web = true
is_web native = false

abbrev pub same_kind : Kind → Kind → Bool
same_kind web k = is_web k
same_kind native k = not (is_web k)

-- PinnedThreadRoute; `none` is `null`.
pub record Route : Type 0 where
  pub catalog_revision : Option String
  pub kind : Kind
  pub model : Option String
  pub model_provider : Option String
  pub provider_model : Option String
  pub reasoning_effort : Option String

-- routesEqual
unfoldable pub routes_equal : Route → Route → Bool
routes_equal left right =
    left.catalog_revision == right.catalog_revision
    && (same_kind left.kind right.kind
        && (left.model == right.model
            && (left.model_provider == right.model_provider
                && (left.provider_model == right.provider_model
                    && left.reasoning_effort == right.reasoning_effort))))

-- createWebRoute
unfoldable pub create_web_route : Definition → Option String → Result Code Route
create_web_route d selected_effort =
    let effort : String = elim selected_effort [ none ↦ d.default_reasoning_effort | some e ↦ e ] in
    if contains d.supported_reasoning_efforts effort
    then ok (record {
      catalog_revision = some d.catalog_revision;
      kind = web;
      model = some d.public_model;
      model_provider = some web_provider_id;
      provider_model = some d.provider_model;
      reasoning_effort = some effort;
    })
    else err invalid_params

-- createNativeRoute where it makes a new route.
abbrev pub native_route : Option String → Option String → Option String → Route
native_route model effort revision = record {
  catalog_revision = revision;
  kind = native;
  model = model;
  model_provider = none;
  provider_model = model;
  reasoning_effort = effort;
}

unfoldable pub create_native_route :
    Option String → Option String → Option String → Method → Option Route → Route
create_native_route model effort revision method none = native_route model effort revision
create_native_route model effort revision method (some r) =
    if not (is_start method) && not (is_web r.kind) then r else native_route model effort revision

-- virtualMatchesPinned
unfoldable pub virtual_matches_pinned : Definition → Route → Bool
virtual_matches_pinned d r =
    is_web r.kind
    && (some d.public_model == r.model
        && (some d.provider_model == r.provider_model
            && some d.catalog_revision == r.catalog_revision))

abbrev pub is_some {ℓ} : {A : Type ℓ} → Option A → Bool
is_some none = false
is_some (some a) = true

-- assertAvailableWebReference
unfoldable pub assert_available : Value → Option Definition → Option String → Result Code (Unit {0})
assert_available v selected permitted =
    throw_if
      (not (is_some selected) && (not (same_as v permitted) && is_reserved_web_model_reference v))
      web_model_unavailable

-- assertPinnedModelSelection
unfoldable pub assert_pinned_selection :
    Option String → Option Definition → Route → Result Code (Unit {0})
unfolding virtual_matches_pinned
assert_pinned_selection none virtual r = ok tt
assert_pinned_selection (some m) none r =
    throw_if (not (some m == r.provider_model)) provider_switch
assert_pinned_selection (some m) (some d) r =
    throw_if (not (some m == r.provider_model) && not (virtual_matches_pinned d r))
      pinned_selection_mismatch

-- readOptionalCatalogRevision
unfoldable pub read_revision : Option String → Result Code (Option String)
read_revision none = ok none
read_revision (some s) = if s == "" then err invalid_params else ok (some s)

-- A provider is selected, and it is not the Web provider.
abbrev pub is_foreign : Option String → Bool
is_foreign none = false
is_foreign (some p) = not (p == web_provider_id)

-- The provider model that a Web source permits.
unfoldable pub permitted_model : Option Route → Option String
permitted_model none = none
permitted_model (some r) = if is_web r.kind then r.provider_model else none

-- What a request selects.
pub record Selection : Type 0 where
  pub model : Option String
  pub provider : Option String
  pub effort : Option String
  pub virtual : Option Definition

abbrev pub text_value : Option String → Value
text_value none = null
text_value (some s) = string s

unfoldable pub decide_web : Selection → Route → Result Code Route
unfolding assert_pinned_selection
decide_web c r = do
  throw_if (is_foreign c.provider) provider_switch
  assert_pinned_selection c.model c.virtual r
  throw_if (is_some c.effort && not (c.effort == r.reasoning_effort)) pinned_selection_mismatch
  ok r

-- The part after the two tests of the source route.
unfoldable pub decide_fresh :
    Method → Option Route → Option String → Selection → Option Definition → Result Code Route
unfolding create_web_route create_native_route read_revision
decide_fresh method source revision c (some d) = do
  throw_if (is_foreign c.provider) provider_switch
  throw_if (not (is_start method) && not (is_some source)) thread_route_unknown
  create_web_route d c.effort
decide_fresh method source revision c none = do
  throw_if (c.provider == some web_provider_id) invalid_params
  catalog ← read_revision revision
  ok (create_native_route c.model c.effort catalog method source)

unfoldable pub decide_from : Method → Option Route → Option String → Selection → Result Code Route
unfolding decide_web decide_fresh
decide_from method none revision c = decide_fresh method none revision c c.virtual
decide_from method (some r) revision c =
    if is_web r.kind
    then decide_web c r
    else (throw_if (is_some c.virtual || c.provider == some web_provider_id) provider_switch
        >> decide_fresh method (some r) revision c c.virtual)

unfoldable pub read_selection : Registry → Option Fields → Option Route → Result Code Selection
unfolding assert_available permitted_model
read_selection models params source = do
  model ← read_lifecycle_model params
  provider ← read_selected_provider params
  effort ← read_lifecycle_effort params
  virtual ← lookup_selected models model
  assert_available (text_value model) virtual (permitted_model source)
  ok (record { model = model; provider = provider; effort = effort; virtual = virtual })

-- #decideLifecycleRoute
unfoldable pub decide_lifecycle_route :
    Registry → Method → Option Fields → Option Route → Option String → Result Code Route
unfolding decide_from read_selection
decide_lifecycle_route models method params source revision = do
  selection ← read_selection models params source
  decide_from method source revision selection
