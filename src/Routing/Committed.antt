-- ===== src/Routing/Committed.antt =====
-- What a settled response must have shown for its thread to be pinned.
use gptsession_bridge.Shared.{
  ◌≡◌, refl, String, Bool, true, false, not, ◌&&◌, Option, none, some, Result, ok, err, arith,
  string_eq, ==_refl, Bool-cases, inl, inr, ◌⊎◌, contains, if◌then◌else◌,
}
use gptsession_bridge.Shared.Table.{get, get-set}
use gptsession_bridge.Values.{Value, Fields, has_own, member, read_record}
use gptsession_bridge.Routing.Codes.{Code}
use gptsession_bridge.Routing.Keys.{Direction, RequestId, read_request_id, serialize}
use gptsession_bridge.Routing.Decide.{Kind, native, web, Route, is_web}
use gptsession_bridge.Routing.State.{
  Pending, Router, assert_thread_available, route_of, release_pending,
}
use gptsession_bridge.Routing.Settle.{
  Settlement, committed, invalid_result, pin_thread, settle_thread, settle_identified,
  settle_verified, settle_pending, settle_found, settle_keyed, settle_id, settle_record, settle,
  committed_route, route_is, response_thread_id, fork_source_id, invalid_identity,
}

-- The route `e` was pinned to `t`, after the request `p`, by a response that named its thread.
pub record Pinned (p : Pending) (t : String) (e : Route) (s s' : Router) : Type 0 where
  pub stored : get s'.threads t ≡ some e
  pub same_kind : e.kind ≡ p.route.kind
  pub web_route : (p.route.kind ≡ native) ⊎ (e ≡ p.route)
  pub was_free : contains s.blocked t ≡ false

pub record Committed (d : Direction) (v : Value) (e : Route) (s s' : Router) : Type 0 where
  pub response : Fields
  pub identity : RequestId
  pub key : String
  pub pending : Pending
  pub thread : String
  pub is_record : read_record v ≡ some response
  pub has_id : read_request_id (member response "id") ≡ some identity
  pub keyed : serialize d identity ≡ ok key
  pub was_pending : get s.pending key ≡ some pending
  pub identified : response_thread_id response pending.route ≡ some thread
  pub pinned : Pinned pending thread e s s'

pin_thread-committed :
    (t : String) (o : Option Route) (d e : Route) (s : Router)
    → (pin_thread t o d s).0 ≡ ok (committed e)
    → (e ≡ d) × (get (pin_thread t o d s).1.threads t ≡ some e)
unfolding pin_thread
pin_thread-committed t o d e s h = ground (arith, get-set s.threads t t d, ==_refl t)

committed_route-kind :
    (p : Pending) (o f : Option Route)
    → ((not (is_web p.route.kind)) && route_is web f) ≡ false
    → ((committed_route p o f).kind ≡ p.route.kind)
      × ((p.route.kind ≡ native) ⊎ (committed_route p o f ≡ p.route))
unfolding committed_route
committed_route-kind p none none h = ground arith
committed_route-kind p none (some f) h = ground arith
committed_route-kind p (some e) none h = ground arith
committed_route-kind p (some e) (some f) h = ground arith

-- A guarded refusal that ended in a commitment was not refused.
past_guard :
    (b : Bool) (k : Kind) (x : Router) (m : Result Code Settlement × Router) (e : Route)
    → (if b then (ok (invalid_result k), x) else m).0 ≡ ok (committed e)
    → b ≡ false
past_guard true k x m e h = cc
past_guard false k x m e h = refl

settle_thread-committed :
    (p : Pending) (t : String) (f : Option String) (e : Route) (s : Router)
    → contains s.blocked t ≡ false
    → (settle_thread p t f s).0 ≡ ok (committed e)
    → Pinned p t e s (settle_thread p t f s).1
unfolding settle_thread
settle_thread-committed p t f e s free h =
    let fork : Option Route = if p.requires_fork_source then route_of s f else none in
    let fine : (not (is_web p.route.kind) && route_is web fork) ≡ false = past_guard _ _ _ _ e h in
    let pinned : (pin_thread t (get s.threads t) (committed_route p (get s.threads t) fork) s).0
        ≡ ok (committed e) =
      rw fine at h in
    let (same, stored) =
      pin_thread-committed t (get s.threads t) (committed_route p (get s.threads t) fork) e s
        pinned in
    let (kind, route) = committed_route-kind p (get s.threads t) fork fine in
    rw fine (record {
      stored = stored;
      same_kind = rw same kind;
      web_route = rw same route;
      was_free = free;
    })

settle_identified_lem :
    (p : Pending) (t : String) (f : Option String) (e : Route) (s : Router)
    → (settle_identified p t f s).0 ≡ ok (committed e)
    → (contains s.blocked t ≡ false) × (settle_identified p t f s ≡ settle_thread p t f s)
unfolding settle_identified assert_thread_available
settle_identified_lem p t f e s h = ground arith

settle_identified-committed :
    (p : Pending) (t : String) (f : Option String) (e : Route) (s : Router)
    → (settle_identified p t f s).0 ≡ ok (committed e)
    → Pinned p t e s (settle_identified p t f s).1
settle_identified-committed p t f e s h =
    let (free, same) = settle_identified_lem p t f e s h in
    rw same (settle_thread-committed p t f e s free (rw same at h))

settle_verified-committed :
    (p : Pending) (response : Fields) (o : Option String) (e : Route) (s : Router)
    → (settle_verified p response o s).0 ≡ ok (committed e)
    → (t : String) × (o ≡ some t) × Pinned p t e s (settle_verified p response o s).1
unfolding settle_verified
settle_verified-committed p response none e s h = absurd (cc)
settle_verified-committed p response (some t) e s h =
    let fine : invalid_identity s p t (fork_source_id response) ≡ false = past_guard _ _ _ _ e h in
    (
      t,
      refl,
      rw fine (settle_identified-committed p t (fork_source_id response) e s (rw fine at h)),
    )

settle_found-committed :
    (d : Direction) (v : Value) (response : Fields) (id : RequestId) (key : String)
    (o : Option Pending) (e : Route) (s : Router)
    → read_record v ≡ some response
    → read_request_id (member response "id") ≡ some id
    → serialize d id ≡ ok key
    → get s.pending key ≡ o
    → (settle_found key o response s).0 ≡ ok (committed e)
    → Committed d v e s (settle_found key o response s).1
unfolding settle_found settle_pending
settle_found-committed d v response id key none e s r i k g h = absurd (cc)
settle_found-committed d v response id key (some p) e s r i k g h =
    elim (Bool-cases (has_own response "error")) [
      | inl bad ↦ absurd (cc (rw bad at h))
      | inr fine ↦ rw fine (
          let (t, identified, pinned) =
            settle_verified-committed p response (response_thread_id response p.route) e
              (release_pending key p s) (rw fine at h) in
          record {
            response = response;
            identity = id;
            key = key;
            pending = p;
            thread = t;
            is_record = r;
            has_id = i;
            keyed = k;
            was_pending = g;
            identified = identified;
            pinned = record {
              stored = pinned.stored;
              same_kind = pinned.same_kind;
              web_route = pinned.web_route;
              was_free = unfold release_pending in pinned.was_free;
            };
          })
    ]

settle_keyed-committed :
    (d : Direction) (v : Value) (response : Fields) (id : RequestId) (k : Result Code String)
    (e : Route) (s : Router)
    → read_record v ≡ some response
    → read_request_id (member response "id") ≡ some id
    → serialize d id ≡ k
    → (settle_keyed k response s).0 ≡ ok (committed e)
    → Committed d v e s (settle_keyed k response s).1
unfolding settle_keyed
settle_keyed-committed d v response id (err c) e s r i k h = absurd (cc)
settle_keyed-committed d v response id (ok key) e s r i k h =
    settle_found-committed d v response id key _ e s r i k refl h

settle_id-committed :
    (d : Direction) (v : Value) (response : Fields) (o : Option RequestId) (e : Route) (s : Router)
    → read_record v ≡ some response
    → read_request_id (member response "id") ≡ o
    → (settle_id d o response s).0 ≡ ok (committed e)
    → Committed d v e s (settle_id d o response s).1
unfolding settle_id
settle_id-committed d v response none e s r i h = absurd (cc)
settle_id-committed d v response (some id) e s r i h =
    settle_keyed-committed d v response id (serialize d id) e s r i refl h

settle_record-committed :
    (d : Direction) (v : Value) (o : Option Fields) (e : Route) (s : Router)
    → read_record v ≡ o
    → (settle_record d o s).0 ≡ ok (committed e)
    → Committed d v e s (settle_record d o s).1
unfolding settle_record
settle_record-committed d v none e s r h = absurd (cc)
settle_record-committed d v (some response) e s r h =
    settle_id-committed d v response (read_request_id (member response "id")) e s r refl h

-- A settlement that commits a route answers the request that was pending under the direction and
-- id of its response, names its thread, and pins to that unblocked thread a route of the kind
-- that was decided.
pub settle-Committed :
    (d : Direction) (v : Value) (e : Route) (s : Router)
    → (settle d v s).0 ≡ ok (committed e)
    → Committed d v e s (settle d v s).1
unfolding settle
settle-Committed d v e s h = settle_record-committed d v (read_record v) e s refl h
