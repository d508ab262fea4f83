-- ===== src/Routing/Validate.antt =====
-- The checks of `ThreadRouter` that write nothing.
use gptsession_bridge.Shared.{
  String, Bool, true, false, not, ◌&&◌, ◌||◌, List, [], ◌∷◌, Option, none, some, Result, ok, err,
  throw_if, ◌>>=◌, ◌>>◌, ltb, string_eq, option_eq, ◌==◌, if◌then◌else◌,
}
use gptsession_bridge.Shared.Table.{size}
use gptsession_bridge.Values.{
  Value, string, array, object, Items, nil, cons, Fields, at, member, read_record, set_property,
  clone_fields, is_nullish,
}
use gptsession_bridge.Routing.Codes.{
  Code, invalid_params, provider_switch, pinned_selection_mismatch, route_conflict,
  thread_route_pending, thread_route_unknown, web_derived_thread_unsupported,
  web_method_unsupported, web_realtime_unsupported, web_review_unsupported,
}
use gptsession_bridge.Routing.Registry.{Definition, lookup_selected}
use gptsession_bridge.Routing.Params.{
  web_provider_id, read_optional_string, read_selected_provider, assert_no_reserved_definitions,
  Collaboration, read_collaboration,
}
use gptsession_bridge.Routing.Decide.{
  is_web, is_some, is_foreign, Route, routes_equal, assert_available, assert_pinned_selection,
  permitted_model,
}
use gptsession_bridge.Routing.Inject.{or_invalid, set_text}
use gptsession_bridge.Routing.State.{Router, assert_integrity, assert_thread_available, route_of}

-- What a thread-bound request selects.
pub record Bound : Type 0 where
  pub model : Option String
  pub provider : Option String
  pub virtual : Option Definition
  pub collaboration : Collaboration
  pub collaboration_virtual : Option Definition
  pub effort : Option String

unfoldable pub read_bound : Router → Option Fields → Option Route → Result Code Bound
unfolding read_optional_string
read_bound r params pinned = do
  let model = read_optional_string (at params "model")
  provider ← read_selected_provider params
  virtual ← lookup_selected r.models model
  assert_available (at params "model") virtual (permitted_model pinned)
  collaboration ← read_collaboration params
  collaboration_virtual ← lookup_selected r.models collaboration.model
  assert_available collaboration.model_value collaboration_virtual (permitted_model pinned)
  ok (record {
    model = model;
    provider = provider;
    virtual = virtual;
    collaboration = collaboration;
    collaboration_virtual = collaboration_virtual;
    effort = read_optional_string (at params "effort");
  })

abbrev pub selects_virtual : Bound → Bool
selects_virtual b = is_some b.virtual || is_some b.collaboration_virtual

-- The settings of a collaboration mode, written into the copy.
unfoldable pub pin_settings :
    Fields → Fields → Option Fields → String → Option String → Result Code Fields
pin_settings params collaboration none model effort = err invalid_params
pin_settings params collaboration (some settings) model effort =
    let pinned =
      set_text (set_property settings "model" (string model)) "reasoning_effort" effort in
    ok (
      set_property params "collaborationMode"
        (object (set_property collaboration "settings" (object pinned))))

-- pinCollaborationSelection
unfoldable pub pin_collaboration : Fields → String → Option String → Result Code Fields
unfolding pin_settings
pin_collaboration params model effort = elim (read_record (member params "collaborationMode")) [
  | none ↦ ok params
  | some c ↦ pin_settings params c (read_record (member c "settings")) model effort
]

-- The copy of the parameters with the pinned selection.
unfoldable pub rewrite_bound : Option Fields → Route → Result Code Value
unfolding pin_collaboration
rewrite_bound params route = do
  fs ← or_invalid params
  model ← or_invalid route.provider_model
  cloned ← or_invalid (clone_fields fs)
  let pinned = set_text (set_property cloned "model" (string model)) "effort" route.reasoning_effort
  result ← pin_collaboration pinned model route.reasoning_effort
  ok (object result)

unfoldable pub bound_to_web : Option Fields → Bound → Route → Result Code Value
unfolding rewrite_bound
bound_to_web params b route = do
  throw_if (is_foreign b.provider) provider_switch
  assert_pinned_selection b.model b.virtual route
  assert_pinned_selection b.collaboration.model b.collaboration_virtual route
  throw_if
      ((is_some b.effort && not (b.effort == route.reasoning_effort))
        || (is_some b.collaboration.effort
            && not (b.collaboration.effort == route.reasoning_effort)))
      pinned_selection_mismatch
  rewrite_bound params route

unfoldable pub bound_by_route : Value → Option String → Bound → Option Route → Result Code Value
unfolding bound_to_web
bound_by_route original thread b none =
    if selects_virtual b
    then err (if is_some thread then thread_route_unknown else invalid_params)
    else ok original
bound_by_route original thread b (some route) =
    if is_web route.kind
    then bound_to_web (read_record original) b route
    else if selects_virtual b || b.provider == some web_provider_id
    then err provider_switch
    else ok original

-- validateThreadBound
unfoldable pub validate_thread_bound : Router → Value → Result Code Value
unfolding read_optional_string
validate_thread_bound r original = do
  assert_integrity r
  let params = read_record original
  assert_no_reserved_definitions params
  let thread = read_optional_string (at params "threadId")
  assert_thread_available r thread
  b ← read_bound r params (route_of r thread)
  bound_by_route original thread b (route_of r thread)

abbrev pub pinned_to_web : Option Route → Bool
pinned_to_web none = false
pinned_to_web (some route) = is_web route.kind

-- validateReviewStart
unfoldable pub validate_review_start : Router → Value → Result Code Value
unfolding read_optional_string
validate_review_start r original = do
  assert_integrity r
  let thread = read_optional_string (at (read_record original) "threadId")
  assert_thread_available r thread
  throw_if (pinned_to_web (route_of r thread)) web_review_unsupported
  ok original

-- validateRealtimeStart
unfoldable pub validate_realtime_start : Router → Value → Result Code Value
unfolding read_optional_string
validate_realtime_start r original = do
  assert_integrity r
  let params = read_record original
  let thread = read_optional_string (at params "threadId")
  assert_thread_available r thread
  virtual ← lookup_selected r.models (read_optional_string (at params "model"))
  assert_available (at params "model") virtual none
  throw_if (pinned_to_web (route_of r thread)) web_realtime_unsupported
  throw_if (is_some virtual && not (is_some thread)) invalid_params
  throw_if (is_some virtual && not (is_some (route_of r thread))) thread_route_unknown
  throw_if (is_some virtual) provider_switch
  ok original

-- The id of an entry of `threads`: a text, or the `threadId`, or else the `id`, of a record.
unfoldable pub entry_thread_id : Value → Option String
unfolding read_optional_string
entry_thread_id (string s) = read_optional_string (string s)
entry_thread_id v =
    let named = at (read_record v) "threadId" in
    if is_nullish named
    then read_optional_string (at (read_record v) "id")
    else read_optional_string named

unfoldable pub assert_entries_available : Router → Items → Result Code (Unit {0})
unfolding entry_thread_id
assert_entries_available r nil = ok tt
assert_entries_available r (cons v vs) =
    assert_thread_available r (entry_thread_id v) >> assert_entries_available r vs

unfoldable pub assert_keys_available : Router → Fields → List String → Result Code (Unit {0})
unfolding read_optional_string
assert_keys_available r params [] = ok tt
assert_keys_available r params (k ∷ ks) =
    assert_thread_available r (read_optional_string (member params k))
    >> assert_keys_available r params ks

abbrev pub identity_keys : List String
identity_keys =
    "ancestorThreadId" ∷ "beforeThreadId" ∷ "conversationId" ∷ "parentThreadId" ∷ "threadId" ∷ []

assert_listed_available : Router → Value → Result Code (Unit {0})
unfolding assert_entries_available
assert_listed_available r (array vs) = assert_entries_available r vs
assert_listed_available r _ = ok tt

-- #assertReferencedThreadsAvailable
unfoldable pub assert_referenced_available : Router → Option Fields → Result Code (Unit {0})
unfolding assert_keys_available assert_listed_available
assert_referenced_available r none = ok tt
assert_referenced_available r (some params) = do
  assert_keys_available r params identity_keys
  assert_listed_available r (member params "threads")

-- validateThreadIdentity
unfoldable pub validate_thread_identity : Router → Value → Result Code Value
unfolding assert_referenced_available
validate_thread_identity r original = do
  assert_integrity r
  assert_referenced_available r (read_record original)
  ok original

-- validateUnsupportedWebOperation
unfoldable pub validate_unsupported_web_operation : Router → Value → Result Code Value
unfolding read_optional_string
validate_unsupported_web_operation r original = do
  identified ← validate_thread_identity r original
  let thread = read_optional_string (at (read_record original) "threadId")
  throw_if (pinned_to_web (route_of r thread)) web_method_unsupported
  ok original

related : Option Route → Option Route → Option String → Result Code Bool
related none child provider = ok false
related (some parent) child provider = do
  throw_if (is_web parent.kind && not (provider == some web_provider_id)) provider_switch
  elim child [
    | some existing ↦ if routes_equal existing parent then ok true else err route_conflict
    | none ↦ if is_web parent.kind then err web_derived_thread_unsupported else ok false
  ]

-- validateThreadRelation, of a parent, a child and a provider.
unfoldable pub validate_thread_relation :
    Router → String → String → Option String → Result Code Bool
unfolding read_optional_string related
validate_thread_relation r parent_id child_id provider = do
  assert_integrity r
  parent ← or_invalid (read_optional_string (string parent_id))
  child ← or_invalid (read_optional_string (string child_id))
  assert_thread_available r (some parent)
  assert_thread_available r (some child)
  related (route_of r (some parent)) (route_of r (some child)) provider

-- validateServerRequest
unfoldable pub validate_server_request : Router → Result Code (Unit {0})
validate_server_request r = do
  assert_integrity r
  throw_if (ltb 0 (size r.provisional)) thread_route_pending
