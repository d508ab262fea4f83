-- ===== src/Routing/Examples/Responses.antt =====
-- Runs of the theorems on responses and on what is refused.
use gptsession_bridge.Values.{has_own}
use gptsession_bridge.Shared.{
  ◌≡◌, refl, subst, String, true, false, [], ◌∷◌, none, some, ok, err, string_eq, contains,
  all_distinct,
}
use gptsession_bridge.Shared.Table.{get, has, set, delete}
use gptsession_bridge.Values.{
  Value, number, object, integer, Fields, end, field, member, at, read_record,
}
use gptsession_bridge.Routing.Codes.{thread_route_blocked}
use gptsession_bridge.Routing.Keys.{client_to_server, number_id, serialize, read_request_id}
use gptsession_bridge.Routing.Decide.{web}
use gptsession_bridge.Routing.Params.{read_optional_string}
use gptsession_bridge.Routing.State.{Router, route_of}
use gptsession_bridge.Routing.Prepare.{prepare}
use gptsession_bridge.Routing.Settle.{
  committed, invalid_result, settle, unknown, unverified_thread_id,
}
use gptsession_bridge.Routing.Validate.{validate_thread_bound, validate_server_request}
use gptsession_bridge.Routing.Run.{run}
use gptsession_bridge.Routing.Examples.{
  web_route, pinned, resume_request, result_of_thread, reply, waiting, calls, naming,
}
use gptsession_bridge.Routing.Settle.{
  response_thread_id, fork_source_id, reports, reports_web_route, invalid_identity, committed_route,
  settle_found, settle_pending, settle_verified, settle_identified, settle_thread, pin_thread,
  conflicts,
}
use gptsession_bridge.Routing.State.{
  release_pending, block_thread, release_quarantine, assert_thread_available,
}
use gptsession_bridge.Routing.Decide.{routes_equal}
use gptsession_bridge.Values.{same_as, has_own}
use gptsession_bridge.Routing.Examples.Requests.{resume_waits, pinned-IsConsistent}
use gptsession_bridge.Routing.Invariant.{IsConsistent, prepare-IsConsistent}
use gptsession_bridge.Routing.Committed.{Committed, settle-Committed}
use gptsession_bridge.Routing.Settled.{HasKey, IsShut, settle-once, settle-invalid}
use gptsession_bridge.Routing.Refused.{AreRefused, run-blocked-AreRefused, run-compromised}

waiting-IsConsistent : IsConsistent waiting
waiting-IsConsistent =
    subst IsConsistent resume_waits (prepare-IsConsistent resume_request pinned pinned-IsConsistent)

abbrev good : Value
good = reply (number (integer false 7)) "thread-1"

abbrev bad : Value
bad = reply (number (integer false 7)) "thread-3"

good_settles : (settle client_to_server good waiting).0 ≡ ok (committed web_route)
unfolding all_distinct get has member read_record at same_as serialize read_request_id settle
    response_thread_id unverified_thread_id fork_source_id read_optional_string reports
    release_pending invalid_identity has_own committed_route block_thread contains set delete
    routes_equal release_quarantine route_of settle_found settle_pending settle_verified
    settle_identified settle_thread pin_thread reports_web_route conflicts assert_thread_available
good_settles = refl

bad_settles : (settle client_to_server bad waiting).0 ≡ ok (invalid_result web)
unfolding all_distinct get has member read_record at same_as serialize read_request_id settle
    response_thread_id unverified_thread_id fork_source_id read_optional_string reports
    release_pending invalid_identity has_own committed_route block_thread contains set delete
    routes_equal release_quarantine route_of settle_found settle_pending settle_verified
    settle_identified settle_thread pin_thread reports_web_route conflicts assert_thread_available
bad_settles = refl

abbrev fields : String → Fields
fields t = field "id" (number (integer false 7)) (field "result" (object (result_of_thread t)) end)

has_key :
    (t : String)
    → HasKey client_to_server
        (reply (number (integer false 7)) t)
        "client-to-server:number:7"
        (fields t)
unfolding read_record read_request_id member serialize
has_key t = (refl, (number_id (integer false 7), refl, refl))

settle-Committed_example :
    Committed client_to_server good web_route waiting (settle client_to_server good waiting).1
settle-Committed_example = settle-Committed client_to_server good web_route waiting good_settles

settle-once_example :
    (get (settle client_to_server good waiting).1.pending "client-to-server:number:7" ≡ none)
    × (settle client_to_server bad (settle client_to_server good waiting).1
        ≡ (ok unknown, (settle client_to_server good waiting).1))
settle-once_example =
    settle-once client_to_server good bad "client-to-server:number:7" (fields "thread-1")
      (fields "thread-3") waiting waiting-IsConsistent (has_key "thread-1") (has_key "thread-3")

bad_names : unverified_thread_id (fields "thread-3") ≡ some "thread-3"
unfolding unverified_thread_id member read_record at read_optional_string
bad_names = refl

settle-invalid_example : IsShut "thread-3" (settle client_to_server bad waiting).1
settle-invalid_example =
    settle-invalid client_to_server bad "client-to-server:number:7" "thread-3" (fields "thread-3")
      web waiting (has_key "thread-3") bad_names bad_settles

abbrev blocking : Router
blocking = record pinned { blocked = "thread-9" ∷ [] }

run-blocked-AreRefused_example : AreRefused (run blocking calls) (naming "thread-9")
unfolding contains read_optional_string at member read_record
run-blocked-AreRefused_example =
    run-blocked-AreRefused "thread-9" (naming "thread-9") blocking calls refl refl

abbrev lost : Router
lost = record pinned { compromised = true }

run-compromised_example :
    (prepare resume_request (run lost calls) ≡ (err thread_route_blocked, run lost calls))
    × (validate_thread_bound (run lost calls) (naming "thread-1") ≡ err thread_route_blocked)
    × (validate_server_request (run lost calls) ≡ err thread_route_blocked)
run-compromised_example = run-compromised resume_request (naming "thread-1") lost calls refl
