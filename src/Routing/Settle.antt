-- ===== src/Routing/Settle.antt =====
-- `settleThreadLifecycle` and the methods that forget: what was written before a throw stays.
use gptsession_bridge.Shared.{
  ℕ, String, Bool, true, false, not, ◌&&◌, ◌||◌, Option, none, some, [], Result, ok, err, leb,
  string_eq, option_eq, ◌==◌, if◌then◌else◌,
}
use gptsession_bridge.Shared.Exec.{Exec, lift, gets, ◌>>=◌, ◌>>◌}
use gptsession_bridge.Shared.Table.{get, has, set, delete, size}
use gptsession_bridge.Values.{Value, Fields, at, member, has_own, read_record, same_as}
use gptsession_bridge.Namespace.{is_reserved_text}
use gptsession_bridge.Routing.Codes.{Code, route_conflict, thread_capacity}
use gptsession_bridge.Routing.Keys.{Direction, RequestId, read_request_id, serialize}
use gptsession_bridge.Routing.Params.{web_provider_id, read_optional_string}
use gptsession_bridge.Routing.Decide.{Kind, native, web, is_web, is_some, Route, routes_equal}
use gptsession_bridge.Routing.State.{
  Pending, Router, assert_thread_available, route_of, block_thread, release_pending,
}

-- ThreadLifecycleSettlement
pub data Settlement : Type 0 where
  unknown : Settlement
  failed invalid_result : Kind → Settlement
  committed : Route → Settlement

abbrev pub result_of : Fields → Option Fields
result_of response = read_record (member response "result")

abbrev pub thread_of : Fields → Option Fields
thread_of response = read_record (at (result_of response) "thread")

-- readUnverifiedResponseThreadId
unfoldable pub unverified_thread_id : Fields → Option String
unfolding read_optional_string
unverified_thread_id response = read_optional_string (at (thread_of response) "id")

-- readUnverifiedResponseForkSourceThreadId
unfoldable pub fork_source_id : Fields → Option String
unfolding read_optional_string
fork_source_id response = read_optional_string (at (thread_of response) "forkedFromId")

-- The response reports the model, the provider and the effort that were pinned.
unfoldable pub reports_web_route : Fields → Route → Bool
reports_web_route response route =
    same_as (at (result_of response) "model") route.provider_model
    && (same_as (at (result_of response) "modelProvider") (some web_provider_id)
        && (same_as (at (result_of response) "reasoningEffort") route.reasoning_effort
            && same_as (at (thread_of response) "modelProvider") (some web_provider_id)))

unfoldable pub native_identity : Option String → Option String → Option String → Bool
native_identity (some model) (some provider) (some thread_provider) =
    provider == thread_provider
    && (not (provider == web_provider_id) && not (is_reserved_text model))
native_identity _ _ _ = false

unfoldable pub reports_native_route : Fields → Bool
unfolding read_optional_string native_identity
reports_native_route response =
    native_identity (read_optional_string (at (result_of response) "model"))
      (read_optional_string (at (result_of response) "modelProvider"))
      (read_optional_string (at (thread_of response) "modelProvider"))

unfoldable pub reports : Kind → Fields → Route → Bool
unfolding reports_web_route reports_native_route
reports web response route = reports_web_route response route
reports native response route = reports_native_route response

-- readResponseThreadId
unfoldable pub response_thread_id : Fields → Route → Option String
unfolding unverified_thread_id reports
response_thread_id response route =
    if reports route.kind response route then unverified_thread_id response else none

-- invalidForkRelation
unfoldable pub invalid_fork : Pending → Option String → Option String → Bool
invalid_fork p thread fork_source =
    p.requires_fork_source
    && (not (is_some fork_source)
        || (fork_source == thread
            || (is_some p.expected_fork_source && not (fork_source == p.expected_fork_source))))

-- The response does not identify a thread that the request may have.
unfoldable pub invalid_identity : Router → Pending → String → Option String → Bool
unfolding invalid_fork
invalid_identity r p thread fork_source =
    (is_some p.expected_resume && not (some thread == p.expected_resume))
    || (invalid_fork p (some thread) fork_source || (p.requires_new_thread && has r.threads thread))

abbrev pub route_is : Kind → Option Route → Bool
route_is k none = false
route_is web (some r) = is_web r.kind
route_is native (some r) = not (is_web r.kind)

-- What a native thread takes over from the source of a fork.
unfoldable pub inherited_route : Pending → Option Route → Route
inherited_route p none = p.route
inherited_route p (some f) = if is_web f.kind then p.route else f

-- committedRoute: a native thread keeps the route that it, or its fork source, has.
unfoldable pub committed_route : Pending → Option Route → Option Route → Route
unfolding inherited_route
committed_route p none fork_route =
    if is_web p.route.kind then p.route else inherited_route p fork_route
committed_route p (some e) fork_route =
    if is_web p.route.kind
    then p.route
    else if is_web e.kind
    then inherited_route p fork_route
    else e

unfoldable pub conflicts : Option Route → Route → Bool
conflicts none route = false
conflicts (some e) route = not (routes_equal e route)

-- The end of `settleThreadLifecycle`: the thread is known, and its route is pinned.
unfoldable pub pin_thread : String → Option Route → Route → Exec Router Code Settlement
pin_thread thread existing route s =
    if conflicts existing route
    then (err route_conflict, block_thread (some thread) s)
    else if not (is_some existing) && leb s.max_threads (size s.threads)
    then (err thread_capacity, block_thread (some thread) s)
    else (ok (committed route), record s { threads = set s.threads thread route })

unfoldable pub settle_thread : Pending → String → Option String → Exec Router Code Settlement
settle_thread p thread fork_source s =
    let existing = get s.threads thread in
    let fork_route : Option Route =
      if p.requires_fork_source then route_of s fork_source else none in
    if not (is_web p.route.kind) && route_is web fork_route
    then (ok (invalid_result p.route.kind), block_thread (some thread) s)
    else pin_thread thread existing (committed_route p existing fork_route) s

-- Both threads that the response names must be free.
unfoldable pub settle_identified : Pending → String → Option String → Exec Router Code Settlement
settle_identified p thread fork_source = do
  r ← gets (λ s. s)
  lift (assert_thread_available r (some thread))
  lift (assert_thread_available r (if p.requires_fork_source then fork_source else none))
  settle_thread p thread fork_source

unfoldable pub settle_verified : Pending → Fields → Option String → Exec Router Code Settlement
settle_verified p response none s =
    (ok (invalid_result p.route.kind), block_thread (unverified_thread_id response) s)
settle_verified p response (some thread) s =
    if invalid_identity s p thread (fork_source_id response)
    then (ok (invalid_result p.route.kind), block_thread (unverified_thread_id response) s)
    else settle_identified p thread (fork_source_id response) s

unfoldable pub settle_pending : String → Pending → Fields → Exec Router Code Settlement
settle_pending key p response s =
    if has_own response "error"
    then (ok (failed p.route.kind), release_pending key p s)
    else settle_verified p response (response_thread_id response p.route) (release_pending key p s)

unfoldable pub settle_found : String → Option Pending → Fields → Exec Router Code Settlement
settle_found key none response s = (ok unknown, s)
settle_found key (some p) response s = settle_pending key p response s

unfoldable pub settle_keyed : Result Code String → Fields → Exec Router Code Settlement
settle_keyed (err e) response s = (err e, s)
settle_keyed (ok key) response s = settle_found key (get s.pending key) response s

unfoldable pub settle_id : Direction → Option RequestId → Fields → Exec Router Code Settlement
settle_id d none response s = (ok unknown, s)
settle_id d (some id) response s = settle_keyed (serialize d id) response s

unfoldable pub settle_record : Direction → Option Fields → Exec Router Code Settlement
settle_record d none s = (ok unknown, s)
settle_record d (some response) s = settle_id d (read_request_id (member response "id")) response s

unfoldable pub settle : Direction → Value → Exec Router Code Settlement
unfolding settle_record settle_id settle_keyed settle_found settle_pending settle_verified
    settle_identified settle_thread pin_thread committed_route conflicts assert_thread_available
settle d response s = settle_record d (read_record response) s

unfoldable pub discard_found : String → Option Pending → Exec Router Code Bool
discard_found key none s = (ok false, s)
discard_found key (some p) s = (ok true, release_pending key p s)

-- discardPending
unfoldable pub discard_pending : Direction → RequestId → Exec Router Code Bool
unfolding discard_found
discard_pending d id = do
  key ← lift (serialize d id)
  r ← gets (λ s. s)
  discard_found key (get r.pending key)

-- clearPending
unfoldable pub clear_pending : Router → ℕ × Router
clear_pending r = (size r.pending, record r { pending = []; provisional = []; reservations = 0 })

-- forgetThread
unfoldable pub forget_thread : String → Router → Bool × Router
forget_thread t r = (has r.threads t, record r { threads = delete r.threads t })
