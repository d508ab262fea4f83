-- ===== src/Routing/Injected.antt =====
-- The parameters of a Web thread: what the official child is told, whatever the client wrote.
use gptsession_bridge.Shared.{
  ◌≡◌, refl, ◌∙◌, String, false, Option, none, some, ok, bind-ok, arith, string_eq, ◌==◌,
}
use gptsession_bridge.Values.{
  Value, object, string, boolean, number, integer, Fields, member, clone_fields,
}
use gptsession_bridge.Values.Laws.{member-set}
use gptsession_bridge.Routing.Params.{web_provider_id}
use gptsession_bridge.Routing.Decide.{Route}
use gptsession_bridge.Routing.Inject.{
  Configuration, web_config, web_params, inject_web_route, inject_into, original_config, or_invalid,
  set_text,
}

abbrev pub EffortIs : Fields → Option String → Type 0
EffortIs config none = Unit {0}
EffortIs config (some e) = member config "model_reasoning_effort" ≡ string e

-- The values that decide where the thread's requests go.
pub record PointsAtBridge (c : Configuration) (config : Fields) (model : String)
    (effort : Option String) : Type 0 where
  pub model_set : member config "model" ≡ string model
  pub provider_set : member config "model_provider" ≡ string web_provider_id
  pub proxy_off : member config "features.respect_system_proxy" ≡ boolean false
  pub url_set : member config "model_providers.gptsessionbridge_web.base_url" ≡ string c.base_url
  pub token_set :
      member config "model_providers.gptsessionbridge_web.experimental_bearer_token"
      ≡ string c.capability_token
  pub wire_set : member config "model_providers.gptsessionbridge_web.wire_api" ≡ string "responses"
  pub auth_off :
      member config "model_providers.gptsessionbridge_web.requires_openai_auth" ≡ boolean false
  pub no_retry :
      member config "model_providers.gptsessionbridge_web.request_max_retries"
      ≡ number (integer false 0)
  pub no_stream_retry :
      member config "model_providers.gptsessionbridge_web.stream_max_retries"
      ≡ number (integer false 0)
  pub effort_set : EffortIs config effort

pub record WebParams (c : Configuration) (v : Value) (model : String) (effort : Option String)
    : Type 0 where
  pub params : Fields
  pub config : Fields
  pub is_object : v ≡ object params
  pub model_named : member params "model" ≡ string model
  pub provider_named : member params "modelProvider" ≡ string web_provider_id
  pub fallback_off : member params "allowProviderModelFallback" ≡ boolean false
  pub config_given : member params "config" ≡ object config
  pub points : PointsAtBridge c config model effort

pub member-set_text :
    (fs : Fields) (k j : String) (o : Option String)
    → (k == j) ≡ false
    → member (set_text fs k o) j ≡ member fs j
unfolding set_text
member-set_text fs k j none h = refl
member-set_text fs k j (some s) h = ground (arith, member-set fs k j (string s))

before_effort :
    (fs : Fields) (j : String) (o : Option String) {v : Value}
    → ("model_reasoning_effort" == j) ≡ false
    → member fs j ≡ v
    → member (set_text fs "model_reasoning_effort" o) j ≡ v
before_effort fs j o h e = member-set_text fs "model_reasoning_effort" j o h ∙ e

effort-EffortIs :
    (fs : Fields) (o : Option String) → EffortIs (set_text fs "model_reasoning_effort" o) o
unfolding set_text
effort-EffortIs fs none = tt
effort-EffortIs fs (some e) = simp member-set

web_config-PointsAtBridge :
    (c : Configuration) (original : Fields) (model : String) (effort : Option String)
    → PointsAtBridge c (web_config c original model effort) model effort
unfolding web_config
web_config-PointsAtBridge c original model effort = record {
  model_set = before_effort _ "model" effort refl (simp member-set);
  provider_set = before_effort _ "model_provider" effort refl (simp member-set);
  proxy_off = before_effort _ "features.respect_system_proxy" effort refl (simp member-set);
  url_set =
      before_effort _ "model_providers.gptsessionbridge_web.base_url" effort refl (simp member-set);
  token_set =
      before_effort _ "model_providers.gptsessionbridge_web.experimental_bearer_token" effort refl
        (simp member-set);
  wire_set =
      before_effort _ "model_providers.gptsessionbridge_web.wire_api" effort refl (simp member-set);
  auth_off =
      before_effort _ "model_providers.gptsessionbridge_web.requires_openai_auth" effort refl
        (simp member-set);
  no_retry =
      before_effort _ "model_providers.gptsessionbridge_web.request_max_retries" effort refl
        (simp member-set);
  no_stream_retry =
      before_effort _ "model_providers.gptsessionbridge_web.stream_max_retries" effort refl
        (simp member-set);
  effort_set = effort-EffortIs _ effort;
}

inject_into-WebParams :
    (c : Configuration) (fs : Fields) (model : String) (effort : Option String) (v : Value)
    → inject_into c fs model effort ≡ ok v
    → WebParams c v model effort
unfolding inject_into
inject_into-WebParams c fs model effort v h =
    bind-ok (or_invalid (clone_fields fs)) _ h λ cloned _ h1.
      bind-ok (original_config (member cloned "config")) _ h1 λ original _ h2.
        let config = web_config c original model effort in
        record {
          params = web_params cloned config model;
          config = config;
          is_object = cc;
          model_named = unfold web_params in simp member-set;
          provider_named = unfold web_params in simp member-set;
          fallback_off = unfold web_params in simp member-set;
          config_given = unfold web_params in simp member-set;
          points = web_config-PointsAtBridge c original model effort;
        }

-- Injected parameters carry the route's provider model and point at the bridge.
pub inject_web_route-WebParams :
    (c : Configuration) (params : Option Fields) (route : Route) (v : Value)
    → inject_web_route c params route ≡ ok v
    → (m : String) × (route.provider_model ≡ some m) × WebParams c v m route.reasoning_effort
unfolding inject_web_route
inject_web_route-WebParams c params route v h = bind-ok (or_invalid params) _ h λ fs _ h1.
    bind-ok (or_invalid route.provider_model) _ h1 λ m named h2. (
      m,
      unfold or_invalid in ground arith,
      inject_into-WebParams c fs m route.reasoning_effort v h2,
    )
