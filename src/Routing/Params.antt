-- ===== src/Routing/Params.antt =====
-- How thread-router.ts reads the parameters of a request.
use gptsession_bridge.Shared.{
  String, Bool, true, false, not, ◌&&◌, ◌||◌, Option, none, some, Result, ok, err, throw_if, ◌>>=◌,
  ◌>>◌, leb, string_eq, ◌==◌, if◌then◌else◌,
}
use gptsession_bridge.Protocol.Text.{utf16_length}
use gptsession_bridge.Values.Strings.{starts_with}
use gptsession_bridge.Values.{
  Value, undefined, null, string, object, Fields, at, read_record, some_key, has_own, is_nullish,
}
use gptsession_bridge.Routing.Codes.{Code, invalid_params}

-- WEB_MODEL_PROVIDER_ID
abbrev pub web_provider_id : String
web_provider_id = "gptsessionbridge_web"

-- PROVIDER_CONFIG_PREFIX
abbrev pub provider_config_prefix : String
provider_config_prefix = "model_providers.gptsessionbridge_web"

pub data Method : Type 0 where
  fork resume start : Method

-- readOptionalString
unfoldable pub read_optional_string : Value → Option String
unfolding utf16_length
read_optional_string (string s) =
    if leb 1 (utf16_length s) && leb (utf16_length s) 1024 then some s else none
read_optional_string _ = none

-- readOptionalRoutingString
unfoldable pub read_routing_string : Value → Result Code (Option String)
unfolding read_optional_string
read_routing_string undefined = ok none
read_routing_string null = ok none
read_routing_string v = elim (read_optional_string v) [
  | none ↦ err invalid_params
  | some s ↦ ok (some s)
]

-- `direct ?? configured`, refused where both are there and differ.
unfoldable pub agree : Option String → Option String → Result Code (Option String)
agree none configured = ok configured
agree (some a) none = ok (some a)
agree (some a) (some b) = if a == b then ok (some a) else err invalid_params

abbrev pub config_of : Option Fields → Option Fields
config_of params = read_record (at params "config")

-- readSelectedProvider
unfoldable pub read_selected_provider : Option Fields → Result Code (Option String)
unfolding read_optional_string agree
read_selected_provider params =
    agree (read_optional_string (at params "modelProvider"))
      (read_optional_string (at (config_of params) "model_provider"))

-- readLifecycleModel
unfoldable pub read_lifecycle_model : Option Fields → Result Code (Option String)
unfolding read_routing_string agree
read_lifecycle_model params = do
  direct ← read_routing_string (at params "model")
  configured ← read_routing_string (at (config_of params) "model")
  agree direct configured

-- readLifecycleReasoningEffort
unfoldable pub read_lifecycle_effort : Option Fields → Result Code (Option String)
unfolding read_optional_string agree
read_lifecycle_effort params =
    agree (read_optional_string (at params "effort"))
      (read_optional_string (at (config_of params) "model_reasoning_effort"))

-- A key of the reserved provider.
unfoldable pub is_reserved_key : String → Bool
unfolding starts_with
is_reserved_key k =
    k == provider_config_prefix || starts_with k "model_providers.gptsessionbridge_web."

unfoldable pub names_reserved_provider : Value → Bool
names_reserved_provider (object fs) = has_own fs web_provider_id
names_reserved_provider _ = false

unfoldable pub defines_reserved_provider : Fields → Bool
unfolding is_reserved_key names_reserved_provider
defines_reserved_provider config =
    some_key is_reserved_key config || names_reserved_provider (at (some config) "model_providers")

-- assertNoReservedProviderDefinitions
unfoldable pub assert_no_reserved_definitions : Option Fields → Result Code (Unit {0})
unfolding defines_reserved_provider
assert_no_reserved_definitions params = elim (config_of params) [
  | none ↦ ok tt
  | some config ↦ throw_if (defines_reserved_provider config) invalid_params
]

is_ambiguous_key : String → Bool
unfolding starts_with
is_ambiguous_key k = k == "features" || (k == "model_providers" || starts_with k "model_providers.")

-- assertNoAmbiguousWebConfigTables
unfoldable pub assert_no_ambiguous_tables : Option Fields → Result Code (Unit {0})
unfolding is_ambiguous_key
assert_no_ambiguous_tables params = elim (config_of params) [
  | none ↦ ok tt
  | some config ↦ throw_if (some_key is_ambiguous_key config) invalid_params
]

abbrev pub is_resume : Method → Bool
is_resume resume = true
is_resume _ = false

abbrev pub is_start : Method → Bool
is_start start = true
is_start _ = false

abbrev pub is_fork : Method → Bool
is_fork fork = true
is_fork _ = false

abbrev is_empty_text : Value → Bool
is_empty_text (string s) = s == ""
is_empty_text _ = false

abbrev is_nonempty_text : Value → Bool
is_nonempty_text (string s) = not (s == "")
is_nonempty_text _ = false

-- assertSupportedWebLifecycleIdentity
unfoldable pub assert_web_identity : Method → Option Fields → Result Code (Unit {0})
assert_web_identity method none = ok tt
assert_web_identity method (some fs) = do
  throw_if (is_resume method && not (is_nullish (at (some fs) "history"))) invalid_params
  throw_if
      (not (is_start method)
        && not (is_nullish (at (some fs) "path") || is_empty_text (at (some fs) "path")))
      invalid_params

-- lifecycleIdentityOverridesThreadId
unfoldable pub identity_overrides : Method → Option Fields → Bool
identity_overrides method params =
    (is_resume method && not (is_nullish (at params "history")))
    || (not (is_start method) && is_nonempty_text (at params "path"))

-- CollaborationSelection; `model_value` is `undefined` where there is none.
pub record Collaboration : Type 0 where
  pub effort : Option String
  pub model : Option String
  pub model_value : Value

collaboration_of : Option Fields → Result Code Collaboration
unfolding read_routing_string
collaboration_of none = err invalid_params
collaboration_of (some settings) = do
  effort ← read_routing_string (at (some settings) "reasoning_effort")
  model ← read_routing_string (at (some settings) "model")
  ok (record { effort = effort; model = model; model_value = at (some settings) "model" })

-- readCollaborationSelection: settings of a value that is no record are not there either.
unfoldable pub read_collaboration : Option Fields → Result Code Collaboration
unfolding collaboration_of
read_collaboration params =
    if is_nullish (at params "collaborationMode")
    then ok (record { effort = none; model = none; model_value = undefined })
    else collaboration_of
        (read_record (at (read_record (at params "collaborationMode")) "settings"))
