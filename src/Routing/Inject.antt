-- ===== src/Routing/Inject.antt =====
-- `#injectWebRoute`: the provider configuration that a Web thread is started with.
use gptsession_bridge.Shared.{
  String, false, Option, none, some, Result, ok, err, ◌>>=◌, string_eq, if◌then◌else◌,
}
use gptsession_bridge.Values.{
  Value, undefined, null, boolean, number, string, object, integer, Fields, end, field, member,
  set_property, delete_property, has_own, clone_fields,
}
use gptsession_bridge.Routing.Codes.{Code, invalid_params}
use gptsession_bridge.Routing.Params.{web_provider_id, is_reserved_key}
use gptsession_bridge.Routing.Decide.{Route}

-- ProviderConfiguration
pub record Configuration : Type 0 where
  pub base_url : String
  pub capability_token : String

unfoldable pub or_invalid {ℓ} : {A : Type ℓ} → Option A → Result Code A
or_invalid none = err invalid_params
or_invalid (some a) = ok a

-- The first loop of removeReservedProviderConfiguration.
unfoldable pub drop_reserved_keys : Fields → Fields
drop_reserved_keys end = end
drop_reserved_keys (field k v fs) =
    let rest = drop_reserved_keys fs in if is_reserved_key k then rest else field k v rest

unfoldable pub sanitize_providers : Fields → Value → Fields
sanitize_providers config (object providers) =
    if has_own providers web_provider_id
    then set_property config "model_providers" (object (delete_property providers web_provider_id))
    else config
sanitize_providers config _ = config

-- removeReservedProviderConfiguration; the copy of the nested table is the table.
unfoldable pub remove_reserved : Fields → Fields
unfolding drop_reserved_keys sanitize_providers
remove_reserved config =
    let dropped = drop_reserved_keys config in
    sanitize_providers dropped (member dropped "model_providers")

unfoldable pub original_config : Value → Result Code Fields
unfolding or_invalid
original_config undefined = ok end
original_config null = ok end
original_config (object fs) = or_invalid (clone_fields fs)
original_config _ = err invalid_params

-- setDataProperty where a text is there.
unfoldable pub set_text : Fields → String → Option String → Fields
set_text fs k none = fs
set_text fs k (some s) = set_property fs k (string s)

unfoldable pub web_config : Configuration → Fields → String → Option String → Fields
unfolding remove_reserved set_text
web_config c original provider_model effort =
    let c0 = set_property (remove_reserved original) "model" (string provider_model) in
    let c1 = set_property c0 "model_provider" (string web_provider_id) in
    let c2 = set_property c1 "features.respect_system_proxy" (boolean false) in
    let c3 =
      set_property c2 "model_providers.gptsessionbridge_web.name" (string "GPTSessionBridge Web") in
    let c4 = set_property c3 "model_providers.gptsessionbridge_web.base_url" (string c.base_url) in
    let c5 =
      set_property c4 "model_providers.gptsessionbridge_web.experimental_bearer_token"
        (string c.capability_token) in
    let c6 = set_property c5 "model_providers.gptsessionbridge_web.wire_api" (string "responses") in
    let c7 =
      set_property c6 "model_providers.gptsessionbridge_web.requires_openai_auth" (boolean false) in
    let c8 =
      set_property c7 "model_providers.gptsessionbridge_web.request_max_retries"
        (number (integer false 0)) in
    let c9 =
      set_property c8 "model_providers.gptsessionbridge_web.stream_max_retries"
        (number (integer false 0)) in
    set_text c9 "model_reasoning_effort" effort

unfoldable pub web_params : Fields → Fields → String → Fields
web_params cloned config provider_model =
    let p0 = set_property cloned "config" (object config) in
    let p1 = set_property p0 "model" (string provider_model) in
    let p2 = set_property p1 "modelProvider" (string web_provider_id) in
    set_property p2 "allowProviderModelFallback" (boolean false)

unfoldable pub inject_into : Configuration → Fields → String → Option String → Result Code Value
unfolding or_invalid original_config web_config web_params
inject_into c params provider_model effort = do
  cloned ← or_invalid (clone_fields params)
  original ← original_config (member cloned "config")
  ok (object (web_params cloned (web_config c original provider_model effort) provider_model))

unfoldable pub inject_web_route : Configuration → Option Fields → Route → Result Code Value
unfolding inject_into or_invalid
inject_web_route c params route = do
  fs ← or_invalid params
  provider_model ← or_invalid route.provider_model
  inject_into c fs provider_model route.reasoning_effort
