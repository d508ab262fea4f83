-- ===== src/Routing/Prepare.antt =====
-- `prepareThreadLifecycle`. It throws before it writes, so its checks are a plan over the state.
use gptsession_bridge.Shared.{
  ◌+◌, String, Bool, false, not, ◌&&◌, ◌||◌, Option, none, some, Result, ok, err, throw_if, ◌>>=◌,
  ◌>>◌, leb, string_eq, if◌then◌else◌,
}
use gptsession_bridge.Shared.Table.{has, set, size}
use gptsession_bridge.Values.{Value, Fields, at, read_record}
use gptsession_bridge.Routing.Codes.{
  Code, invalid_params, request_id_conflict, pending_capacity, thread_capacity,
}
use gptsession_bridge.Routing.Keys.{Direction, RequestId, serialize}
use gptsession_bridge.Routing.Params.{
  Method, is_start, is_fork, is_resume, read_optional_string, assert_no_reserved_definitions,
  identity_overrides, assert_web_identity, assert_no_ambiguous_tables,
}
use gptsession_bridge.Routing.Decide.{Kind, is_web, is_some, Route, decide_lifecycle_route}
use gptsession_bridge.Routing.Inject.{inject_web_route}
use gptsession_bridge.Routing.State.{
  Pending, Router, assert_integrity, assert_thread_available, route_of, quarantine,
}

-- PrepareThreadLifecycleRequest
pub record Request : Type 0 where
  pub catalog_revision : Option String
  pub direction : Direction
  pub id : RequestId
  pub method : Method
  pub params : Value

-- PreparedThreadLifecycleRequest
pub record Prepared : Type 0 where
  pub params : Value
  pub request_key : String
  pub route : Kind

pub record Plan : Type 0 where
  pub key : String
  pub decision : Pending
  pub params : Value

-- The checks before the parameters are read.
unfoldable pub admit : Router → Request → Result Code String
unfolding assert_integrity
admit r q = do
  assert_integrity r
  key ← serialize q.direction q.id
  throw_if (has r.pending key) request_id_conflict
  throw_if (leb r.max_pending (size r.pending)) pending_capacity
  ok key

abbrev pub is_web_source : Option Route → Bool
is_web_source none = false
is_web_source (some s) = is_web s.kind

-- The thread that the request names.
unfoldable pub read_source : Router → Method → Option Fields → Result Code (Option String)
unfolding read_optional_string
read_source r method params = do
  assert_no_reserved_definitions params
  let source = read_optional_string (at params "threadId")
  throw_if (not (is_start method) && not (is_some source)) invalid_params
  let checked : Bool = not (identity_overrides method params) || is_web_source (route_of r source)
  if checked then assert_thread_available r source else ok tt
  ok source

-- The source route that counts: history or a path identify another thread, unless it is a Web one.
unfoldable pub routing_source : Router → Method → Option Fields → Option String → Option Route
unfolding route_of
routing_source r method params source =
    if identity_overrides method params && not (is_web_source (route_of r source))
    then none
    else route_of r source

unfoldable pub check_web : Kind → Method → Option Fields → Result Code (Unit {0})
check_web Kind.native method params = ok tt
check_web Kind.web method params = do
  assert_web_identity method params
  assert_no_ambiguous_tables params

unfoldable pub effective_source : Method → Option Fields → Kind → Option String → Option String
effective_source method params kind source =
    if identity_overrides method params && not (is_web kind) then none else source

unfoldable pub reserves : Router → Method → Option String → Bool
unfolding route_of
reserves r method effective =
    is_start method || (is_fork method || not (is_some (route_of r effective)))

unfoldable pub pending_of : Router → Method → Option String → Route → Pending
unfolding reserves
pending_of r method effective decision = record {
  expected_fork_source = if is_fork method then effective else none;
  expected_resume = if is_resume method then effective else none;
  quarantined = if is_start method then none else effective;
  requires_new_thread = not (is_resume method);
  requires_fork_source = is_fork method;
  reserves_slot = reserves r method effective;
  route = decision;
}

unfoldable pub prepared_params : Router → Value → Option Fields → Route → Result Code Value
prepared_params r original params decision =
    if is_web decision.kind then inject_web_route r.configuration params decision else ok original

-- The rest of the plan, once the decision is made.
unfoldable pub plan_decided : Router → Request → String → Option String → Route → Result Code Plan
plan_decided r q key source decision = do
  let params = read_record q.params
  check_web decision.kind q.method params
  let effective = effective_source q.method params decision.kind source
  throw_if (reserves r q.method effective && leb r.max_threads (size r.threads + r.reservations))
      thread_capacity
  prepared ← prepared_params r q.params params decision
  ok (record { key = key; decision = pending_of r q.method effective decision; params = prepared })

unfoldable pub plan : Router → Request → Result Code Plan
unfolding plan_decided
plan r q = do
  key ← admit r q
  let params = read_record q.params
  source ← read_source r q.method params
  decision ←
      decide_lifecycle_route r.models q.method params (routing_source r q.method params source)
        q.catalog_revision
  plan_decided r q key source decision

-- The three writes at the end.
unfoldable pub commit : Plan → Router → Router
unfolding quarantine
commit p r = record r {
  pending = set r.pending p.key p.decision;
  provisional = quarantine p.decision.quarantined r.provisional;
  reservations = if p.decision.reserves_slot then r.reservations + 1 else r.reservations;
}

unfoldable pub finish : Router → Result Code Plan → Result Code Prepared × Router
finish r (err e) = (err e, r)
finish r (ok p) = (
  ok (record { params = p.params; request_key = p.key; route = p.decision.route.kind }),
  commit p r,
)

unfoldable pub prepare : Request → Router → Result Code Prepared × Router
unfolding finish commit
prepare q r = finish r (plan r q)
