-- ===== src/Routing/Examples/Requests.antt =====
-- Runs of the theorems on requests and their checks.
use gptsession_bridge.Routing.Params.{assert_no_ambiguous_tables}
use gptsession_bridge.Routing.Params.{assert_web_identity}
use gptsession_bridge.Values.{clone_fields}
use gptsession_bridge.Values.{set_property}
use gptsession_bridge.Values.{has_own}
use gptsession_bridge.Namespace.{is_canonical_web_provider_model_reference}
use gptsession_bridge.Shared.{all}
use gptsession_bridge.Routing.Inject.{original_config}
use gptsession_bridge.Routing.Inject.{remove_reserved}
use gptsession_bridge.Routing.Inject.{web_config}
use gptsession_bridge.Routing.Inject.{web_params}
use gptsession_bridge.Routing.Inject.{set_text}
use gptsession_bridge.Routing.Inject.{drop_reserved_keys}
use gptsession_bridge.Routing.Inject.{sanitize_providers}
use gptsession_bridge.Routing.Params.{is_reserved_key}
use gptsession_bridge.Routing.Inject.{or_invalid}
use gptsession_bridge.Routing.Registry.{definition_ok}
use gptsession_bridge.Namespace.{is_canonical_web_model_reference}
use gptsession_bridge.Values.Strings.{last_is}
use gptsession_bridge.Routing.Decide.{create_web_route}
use gptsession_bridge.Values.{some_key}
use gptsession_bridge.Routing.State.{quarantine}
use gptsession_bridge.Values.{delete_property}
use gptsession_bridge.Routing.Decide.{decide_web}
use gptsession_bridge.Routing.Prepare.{commit}
use gptsession_bridge.Routing.Prepare.{finish}
use gptsession_bridge.Shared.{
  ◌≡◌, ◌≤◌, refl, arith, String, true, false, [], ◌∷◌, none, some, ok, string_eq, contains,
  all_distinct,
}
use gptsession_bridge.Shared.Table.{get, has, set, delete, count}
use gptsession_bridge.Protocol.Text.{all_chars}
use gptsession_bridge.Namespace.{is_base64url, is_reserved_web_model_reference}
use gptsession_bridge.Values.Strings.{strip_prefix}
use gptsession_bridge.Values.{number, boolean, object, integer, end, field, member, at, read_record}
use gptsession_bridge.Routing.Keys.{
  client_to_server, server_to_client, number_id, text_id, serialize,
}
use gptsession_bridge.Routing.Registry.{normalize_definitions}
use gptsession_bridge.Routing.Decide.{native, web, decide_lifecycle_route}
use gptsession_bridge.Routing.Params.{Method, read_optional_string, identity_overrides}
use gptsession_bridge.Routing.Inject.{inject_web_route}
use gptsession_bridge.Routing.State.{Pending}
use gptsession_bridge.Routing.Prepare.{Prepared, prepare}
use gptsession_bridge.Routing.Run.{run}
use gptsession_bridge.Routing.Examples.{
  provider_model, model, models, token, url, fresh, created, web_route, pinned, text_field,
  resume_request, native_route, mixed, native_resume, waiting, calls, naming,
}
use gptsession_bridge.Routing.Invariant.{IsConsistent}
use gptsession_bridge.Routing.Run.{run-create-IsConsistent}
use gptsession_bridge.Routing.Pinned.{run-IsPinned, never_forgets}
use gptsession_bridge.Routing.Prepared.{
  prepare-WebParams, prepare-web_source, prepare-native_source, prepare-native_kept,
}
use gptsession_bridge.Routing.Provider.{FromModel, decide-fresh_source}
use gptsession_bridge.Routing.Listed.{AllFound, AllListed, normalize_definitions-AllFound}
use gptsession_bridge.Routing.Injected.{WebParams}
use gptsession_bridge.Values.{same_as}
use gptsession_bridge.Routing.Registry.{lookup_selected}
use gptsession_bridge.Routing.Params.{read_selected_provider}
use gptsession_bridge.Routing.Params.{read_lifecycle_model}
use gptsession_bridge.Routing.Params.{read_lifecycle_effort}
use gptsession_bridge.Routing.Params.{assert_no_reserved_definitions}
use gptsession_bridge.Routing.State.{assert_thread_available}
use gptsession_bridge.Routing.Prepare.{admit}
use gptsession_bridge.Routing.Prepare.{read_source}
use gptsession_bridge.Routing.Prepare.{routing_source}
use gptsession_bridge.Routing.Prepare.{check_web}
use gptsession_bridge.Routing.Prepare.{effective_source}
use gptsession_bridge.Routing.Prepare.{pending_of}
use gptsession_bridge.Routing.Prepare.{prepared_params}
use gptsession_bridge.Routing.Prepare.{plan}

serialize_number :
    serialize client_to_server (number_id (integer true 120)) ≡ ok "client-to-server:number:-120"
unfolding serialize
serialize_number = refl

serialize_text : serialize server_to_client (text_id "a:b") ≡ ok "server-to-client:string:3:a:b"
unfolding serialize
serialize_text = refl

run-create-IsConsistent_example : IsConsistent (run fresh calls)
run-create-IsConsistent_example =
    run-create-IsConsistent token (some url) none (some 2) models fresh calls created

pub pinned-IsConsistent : IsConsistent pinned
unfolding get count has
pinned-IsConsistent = record {
  pending_distinct = tt;
  provisional_distinct = tt;
  threads_distinct = (refl, tt);
  reserved = refl;
  quarantined = λ t. refl;
  pending_bounded = omega arith;
  threads_bounded = omega arith;
  blocked_bounded = omega arith;
}

run-IsPinned_example : get (run pinned calls).threads "thread-1" ≡ some web_route
unfolding never_forgets get
run-IsPinned_example = run-IsPinned "thread-1" web_route pinned calls pinned-IsConsistent refl refl

-- What the child is told of the resumption.
abbrev resumed : Prepared
resumed = record {
  params = object (
      text_field "threadId" "thread-1" (
        field "config"
          (object (
            text_field "model" provider_model (
              text_field "model_provider" "gptsessionbridge_web" (
                field "features.respect_system_proxy" (boolean false) (
                  text_field "model_providers.gptsessionbridge_web.name" "GPTSessionBridge Web" (
                    text_field "model_providers.gptsessionbridge_web.base_url"
                      "http://127.0.0.1:8123/v1"
                      (text_field "model_providers.gptsessionbridge_web.experimental_bearer_token"
                        token
                        (text_field "model_providers.gptsessionbridge_web.wire_api" "responses" (
                          field "model_providers.gptsessionbridge_web.requires_openai_auth"
                            (boolean false)
                            (field "model_providers.gptsessionbridge_web.request_max_retries"
                              (number (integer false 0))
                              (field "model_providers.gptsessionbridge_web.stream_max_retries"
                                (number (integer false 0))
                                (text_field "model_reasoning_effort" "medium" end))))))))))))
          (text_field "model" provider_model (
            text_field "modelProvider" "gptsessionbridge_web"
              (field "allowProviderModelFallback" (boolean false) end)))));
  request_key = "client-to-server:number:7";
  route = web;
}

resume_prepared : (prepare resume_request pinned).0 ≡ ok resumed
unfolding all_distinct get has member read_record at same_as serialize lookup_selected
    read_selected_provider read_lifecycle_model read_lifecycle_effort assert_no_reserved_definitions
    identity_overrides decide_lifecycle_route assert_thread_available admit read_source
    routing_source check_web effective_source pending_of prepared_params plan prepare
    assert_no_ambiguous_tables assert_web_identity inject_web_route clone_fields set_property
    has_own set is_canonical_web_provider_model_reference strip_prefix is_base64url all all_chars
    contains original_config remove_reserved web_config web_params set_text drop_reserved_keys
    sanitize_providers is_reserved_key or_invalid definition_ok normalize_definitions
    is_canonical_web_model_reference last_is create_web_route some_key quarantine delete
    delete_property decide_web commit finish is_reserved_web_model_reference
resume_prepared = refl

pub resume_waits : (prepare resume_request pinned).1 ≡ waiting
unfolding all_distinct get has member read_record at same_as serialize lookup_selected
    read_selected_provider read_lifecycle_model read_lifecycle_effort assert_no_reserved_definitions
    identity_overrides decide_lifecycle_route assert_thread_available admit read_source
    routing_source check_web effective_source pending_of prepared_params plan prepare
    assert_no_ambiguous_tables assert_web_identity inject_web_route clone_fields set_property
    has_own set is_canonical_web_provider_model_reference strip_prefix is_base64url all all_chars
    contains original_config remove_reserved web_config web_params set_text drop_reserved_keys
    sanitize_providers is_reserved_key or_invalid definition_ok normalize_definitions
    is_canonical_web_model_reference last_is create_web_route some_key quarantine delete
    delete_property decide_web commit finish is_reserved_web_model_reference
resume_waits = refl

native_prepared :
    (prepare native_resume mixed).0
    ≡ ok (record {
      params = naming "thread-0";
      request_key = "client-to-server:string:1:b";
      route = native;
    })
unfolding all_distinct get has member read_record at same_as serialize lookup_selected
    read_selected_provider read_lifecycle_model read_lifecycle_effort assert_no_reserved_definitions
    identity_overrides decide_lifecycle_route assert_thread_available admit read_source
    routing_source check_web effective_source pending_of prepared_params plan prepare
native_prepared = refl

web_decided :
    decide_lifecycle_route models Method.start
      (some (text_field "model" "gptsessionbridge/web/gpt-5" end))
      none
      none
    ≡ ok web_route
unfolding all_distinct get has member read_record at same_as serialize lookup_selected
    read_selected_provider read_lifecycle_model read_lifecycle_effort assert_no_reserved_definitions
    identity_overrides decide_lifecycle_route assert_thread_available admit read_source
    routing_source check_web effective_source pending_of prepared_params plan prepare
    assert_no_ambiguous_tables assert_web_identity inject_web_route clone_fields set_property
    has_own set is_canonical_web_provider_model_reference strip_prefix is_base64url all all_chars
    contains original_config remove_reserved web_config web_params set_text drop_reserved_keys
    sanitize_providers is_reserved_key or_invalid definition_ok normalize_definitions
    is_canonical_web_model_reference last_is create_web_route some_key quarantine delete
    delete_property decide_web commit finish is_reserved_web_model_reference
web_decided = refl

registered : normalize_definitions (model ∷ []) 16 ≡ ok (("gptsessionbridge/web/gpt-5", model) ∷ [])
unfolding all_distinct get has member read_record at same_as serialize lookup_selected
    read_selected_provider read_lifecycle_model read_lifecycle_effort assert_no_reserved_definitions
    identity_overrides decide_lifecycle_route assert_thread_available admit read_source
    routing_source check_web effective_source pending_of prepared_params plan prepare
    assert_no_ambiguous_tables assert_web_identity inject_web_route clone_fields set_property
    has_own set is_canonical_web_provider_model_reference strip_prefix is_base64url all all_chars
    contains original_config remove_reserved web_config web_params set_text drop_reserved_keys
    sanitize_providers is_reserved_key or_invalid definition_ok normalize_definitions
    is_canonical_web_model_reference last_is create_web_route some_key quarantine delete
    delete_property decide_web commit finish is_reserved_web_model_reference
registered = refl

prepare-WebParams_example :
    (d : Pending) × (m : String) × (get
        (prepare resume_request pinned).1.pending
        "client-to-server:number:7"
      ≡ some d)
    × (d.route.provider_model ≡ some m)
    × WebParams pinned.configuration resumed.params m d.route.reasoning_effort
prepare-WebParams_example = prepare-WebParams resume_request pinned resumed resume_prepared refl

prepare-web_source_example :
    (d : Pending) × (get (prepare resume_request pinned).1.pending "client-to-server:number:7"
      ≡ some d)
    × (d.route ≡ web_route)
unfolding get read_optional_string at member read_record
prepare-web_source_example =
    prepare-web_source resume_request pinned resumed "thread-1" web_route resume_prepared refl refl
      refl

prepare-native_source_example : native ≡ native
unfolding get read_optional_string at member read_record identity_overrides
prepare-native_source_example =
    prepare-native_source native_resume mixed _ "thread-0" native_route native_prepared refl refl
      refl refl

prepare-native_kept_example :
    (naming "thread-0" ≡ native_resume.params)
    × (d : Pending) × (get (prepare native_resume mixed).1.pending "client-to-server:string:1:b"
        ≡ some d)
    × (d.route ≡ native_route)
unfolding get read_optional_string at member read_record identity_overrides
prepare-native_kept_example =
    prepare-native_kept native_resume mixed _ "thread-0" native_route native_prepared refl refl refl
      refl refl

decide-fresh_source_example : FromModel models web_route
decide-fresh_source_example =
    decide-fresh_source models Method.start
      (some (text_field "model" "gptsessionbridge/web/gpt-5" end)) web_route none refl web_decided

normalize_definitions-AllFound_example :
    (1 ≤ 16)
    × AllFound (model ∷ []) (("gptsessionbridge/web/gpt-5", model) ∷ [])
    × AllListed (("gptsessionbridge/web/gpt-5", model) ∷ [])
normalize_definitions-AllFound_example =
    normalize_definitions-AllFound (model ∷ []) 16 (("gptsessionbridge/web/gpt-5", model) ∷ [])
      registered
