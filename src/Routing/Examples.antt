-- ===== src/Routing/Examples.antt =====
-- A router at work: one Web model, a thread that is started on it, resumed and bound, and the runs
-- of the routing theorems on it.
pub mod Requests
mod Responses
use gptsession_bridge.Shared.{
  ℕ, ◌≡◌, ◌≢◌, refl, String, Bool, true, false, List, [], ◌∷◌, Option, none, some, Result, ok, err,
  string_eq, contains, all_distinct,
}
use gptsession_bridge.Shared.Table.{get, has, set, size, delete, count}
use gptsession_bridge.Protocol.Text.{utf16_length, all_chars}
use gptsession_bridge.Namespace.{is_capability_token, is_base64url}
use gptsession_bridge.Values.Strings.{strip_prefix}
use gptsession_bridge.Values.{Value, null, string, number, object, integer, Fields, end, field}
use gptsession_bridge.Routing.Codes.{Code}
use gptsession_bridge.Routing.Keys.{
  client_to_server, server_to_client, number_id, text_id, serialize,
}
use gptsession_bridge.Routing.Registry.{Definition, Registry, sourced, fixed, normalize_definitions}
use gptsession_bridge.Routing.Decide.{Kind, native, web, Route}
use gptsession_bridge.Routing.Params.{Method}
use gptsession_bridge.Routing.State.{Pending, Router, Url, create}
use gptsession_bridge.Routing.Prepare.{Request, Prepared, prepare}
use gptsession_bridge.Routing.Settle.{committed, invalid_result, settle}
use gptsession_bridge.Routing.Run.{
  Call, prepares, settles, discards, clears, forgets, refreshes, run,
}

abbrev pub provider_model : String
provider_model = "gptsessionbridge/web/route-v1-abcdefghijklmnopqrstuvwxyzABCDEFGHIJKLMNOPQ"

abbrev pub model : Definition
model = record {
  catalog_revision = "revision-1";
  default_reasoning_effort = "medium";
  provider_model = provider_model;
  public_model = "gptsessionbridge/web/gpt-5";
  supported_reasoning_efforts = "low" ∷ "medium" ∷ [];
}

abbrev pub models : Registry
models = sourced 16 (some (model ∷ []))

abbrev pub token : String
token = "gsb_abcdefghijklmnopqrstuvwxyzABCDEFGHIJKLMNOPQ"

abbrev pub url : Url
url = record {
  protocol = "http:";
  hostname = "127.0.0.1";
  port = "8123";
  username = "";
  password = "";
  search = "";
  hash = "";
  pathname = "/v1";
  text = "http://127.0.0.1:8123/v1";
}

abbrev pub fresh : Router
fresh = record {
  configuration = record { base_url = "http://127.0.0.1:8123/v1"; capability_token = token };
  max_pending = 256;
  max_threads = 2;
  blocked = [];
  models = models;
  pending = [];
  provisional = [];
  threads = [];
  reservations = 0;
  compromised = false;
}

pub created : create token (some url) none (some 2) models ≡ ok fresh
unfolding create is_capability_token strip_prefix utf16_length all_chars is_base64url
created = refl

-- The route that a thread on the model is pinned to.
abbrev pub web_route : Route
web_route = record {
  catalog_revision = some "revision-1";
  kind = web;
  model = some "gptsessionbridge/web/gpt-5";
  model_provider = some "gptsessionbridge_web";
  provider_model = some provider_model;
  reasoning_effort = some "medium";
}

-- After `thread-1` was started on the model.
abbrev pub pinned : Router
pinned = record fresh { threads = ("thread-1", web_route) ∷ [] }

abbrev pub text_field : String → String → Fields → Fields
text_field k s fs = field k (string s) fs

abbrev pub start_request : Request
start_request = record {
  catalog_revision = none;
  direction = client_to_server;
  id = text_id "a";
  method = Method.start;
  params = object (text_field "model" "gptsessionbridge/web/gpt-5" end);
}

abbrev pub resume_request : Request
resume_request = record {
  catalog_revision = none;
  direction = client_to_server;
  id = number_id (integer false 7);
  method = Method.resume;
  params = object (text_field "threadId" "thread-1" end);
}

abbrev pub result_of_thread : String → Fields
result_of_thread t = text_field "model" provider_model (
    text_field "modelProvider" "gptsessionbridge_web" (
      text_field "reasoningEffort" "medium" (
        field "thread"
          (object (text_field "id" t (text_field "modelProvider" "gptsessionbridge_web" end)))
          end)))

abbrev pub reply : Value → String → Value
reply id t = object (field "id" id (field "result" (object (result_of_thread t)) end))

-- The first thread is native, and the second is Web.
abbrev pub native_route : Route
native_route = record {
  catalog_revision = some "revision-1";
  kind = native;
  model = some "gpt-5";
  model_provider = some "openai";
  provider_model = none;
  reasoning_effort = none;
}

abbrev pub mixed : Router
mixed = record fresh { threads = ("thread-0", native_route) ∷ ("thread-1", web_route) ∷ [] }

abbrev pub native_resume : Request
native_resume = record {
  catalog_revision = some "revision-1";
  direction = client_to_server;
  id = text_id "b";
  method = Method.resume;
  params = object (text_field "threadId" "thread-0" end);
}

-- While the resumption of `thread-1` is pending.
abbrev pub resuming : Pending
resuming = record {
  expected_fork_source = none;
  expected_resume = some "thread-1";
  quarantined = some "thread-1";
  requires_new_thread = false;
  requires_fork_source = false;
  reserves_slot = false;
  route = web_route;
}

abbrev pub waiting : Router
waiting = record pinned {
  pending = ("client-to-server:number:7", resuming) ∷ [];
  provisional = ("thread-1", 1) ∷ [];
}

-- One call of each kind, the start of a second thread among them.
abbrev pub calls : List Call
calls =
    prepares start_request
    ∷ settles client_to_server (reply (string "a") "thread-2")
    ∷ prepares resume_request
    ∷ settles client_to_server (reply (number (integer false 7)) "thread-3")
    ∷ discards server_to_client (text_id "c")
    ∷ forgets "thread-2"
    ∷ refreshes none
    ∷ clears
    ∷ []

abbrev pub naming : String → Value
naming t = object (text_field "threadId" t end)
