-- ===== src/Routing/Refused.antt =====
-- The threads that the router refuses: a blocked one, one in quarantine, and every one once its
-- integrity is lost.
use gptsession_bridge.Shared.{
  ◌≡◌, ◌≢◌, String, Bool, true, false, List, [], ◌∷◌, Option, none, some, Result, ok, err, arith,
  string_eq, contains,
}
use gptsession_bridge.Shared.Table.{get, has}
use gptsession_bridge.Values.{Value, at, read_record}
use gptsession_bridge.Routing.Codes.{Code, thread_route_blocked}
use gptsession_bridge.Routing.Params.{read_optional_string}
use gptsession_bridge.Routing.State.{
  Pending, Router, assert_integrity, assert_thread_available, block_thread, release_pending,
}
use gptsession_bridge.Routing.Prepare.{
  Request, Prepared, Plan, admit, plan, commit, finish, prepare,
}
use gptsession_bridge.Routing.Prepared.{prepare-quarantines}
use gptsession_bridge.Routing.Settle.{clear_pending, forget_thread}
use gptsession_bridge.Routing.Rule.{settle_keeps, discard_pending_keeps}
use gptsession_bridge.Routing.Run.{
  Call, prepares, settles, discards, clears, forgets, refreshes, step, run,
}
use gptsession_bridge.Routing.Pinned.{run-IsBlocked}
use gptsession_bridge.Routing.Validate.{
  validate_thread_bound, validate_server_request, validate_review_start, validate_realtime_start,
}

abbrev pub is_ok {ℓ} : {A : Type ℓ} → Result Code A → Bool
is_ok (ok a) = true
is_ok (err e) = false

-- No check of a thread-bound request lets the parameters pass.
pub record AreRefused (r : Router) (v : Value) : Type 0 where
  pub bound : is_ok (validate_thread_bound r v) ≡ false
  pub review : is_ok (validate_review_start r v) ≡ false
  pub realtime : is_ok (validate_realtime_start r v) ≡ false

-- The thread that parameters name.
abbrev pub thread_named_in : Value → Option String
thread_named_in v = read_optional_string (at (read_record v) "threadId")

unavailable-AreRefused :
    (r : Router) (t : String) (v : Value)
    → thread_named_in v ≡ some t
    → assert_thread_available r (some t) ≢ ok tt
    → AreRefused r v
unfolding validate_thread_bound validate_review_start validate_realtime_start
unavailable-AreRefused r t v e h = record {
  bound = ground arith;
  review = ground arith;
  realtime = ground arith;
}

blocked-unavailable :
    (r : Router) (t : String)
    → contains r.blocked t ≡ true
    → assert_thread_available r (some t) ≢ ok tt
unfolding assert_thread_available
blocked-unavailable r t h k = ground arith

provisional-unavailable :
    (r : Router) (t : String)
    → has r.provisional t ≡ true
    → assert_thread_available r (some t) ≢ ok tt
unfolding assert_thread_available
provisional-unavailable r t h k = ground arith

-- Parameters that name a blocked thread are refused by the thread-bound, review and realtime
-- checks after any sequence of calls.
pub run-blocked-AreRefused :
    (t : String) (v : Value) (r : Router) (cs : List Call)
    → contains r.blocked t ≡ true
    → thread_named_in v ≡ some t
    → AreRefused (run r cs) v
run-blocked-AreRefused t v r cs h e =
    unavailable-AreRefused (run r cs) t v e
      (blocked-unavailable (run r cs) t (run-IsBlocked t r cs h))

-- The thread that an admitted resume or fork counts on is refused while that is pending.
pub prepare-quarantined-AreRefused :
    (q : Request) (r : Router) (p : Prepared) (d : Pending) (t : String) (v : Value)
    → (prepare q r).0 ≡ ok p
    → get (prepare q r).1.pending p.request_key ≡ some d
    → d.quarantined ≡ some t
    → thread_named_in v ≡ some t
    → AreRefused (prepare q r).1 v
prepare-quarantined-AreRefused q r p d t v h found k e =
    unavailable-AreRefused (prepare q r).1 t v e
      (provisional-unavailable (prepare q r).1 t (prepare-quarantines q r p d t h found k))

IsCompromised : Router → Type 0
IsCompromised r = r.compromised ≡ true

block_thread-IsCompromised :
    (t : Option String) (r : Router) → IsCompromised r → IsCompromised (block_thread t r)
unfolding IsCompromised block_thread
block_thread-IsCompromised none r h = h
block_thread-IsCompromised (some t) r h = ground arith

finish-IsCompromised :
    (r : Router) (o : Result Code Plan) → IsCompromised r → IsCompromised (finish r o).1
unfolding IsCompromised finish commit
finish-IsCompromised r (ok p) h = h
finish-IsCompromised r (err c) h = h

step-IsCompromised : (r : Router) (c : Call) → IsCompromised r → IsCompromised (step r c)
unfolding IsCompromised step prepare clear_pending forget_thread
step-IsCompromised r (prepares q) h = finish-IsCompromised r (plan r q) h
step-IsCompromised r (settles d w) h =
    settle_keeps IsCompromised block_thread-IsCompromised
      (λ key p s f k. unfold release_pending in k) (λ u e s a b k. k) d w r h
step-IsCompromised r (discards d id) h =
    discard_pending_keeps IsCompromised block_thread-IsCompromised
      (λ key p s f k. unfold release_pending in k) (λ u e s a b k. k) d id r h
step-IsCompromised r clears h = h
step-IsCompromised r (forgets u) h = h
step-IsCompromised r (refreshes o) h = h

run-IsCompromised : (r : Router) (cs : List Call) → IsCompromised r → IsCompromised (run r cs)
unfolding run
run-IsCompromised r [] h = h
run-IsCompromised r (c ∷ cs) h = run-IsCompromised (step r c) cs (step-IsCompromised r c h)

compromised-refuses :
    (q : Request) (v : Value) (r : Router)
    → IsCompromised r
    → (prepare q r ≡ (err thread_route_blocked, r))
      × (validate_thread_bound r v ≡ err thread_route_blocked)
      × (validate_server_request r ≡ err thread_route_blocked)
unfolding IsCompromised prepare finish plan admit assert_integrity validate_thread_bound
    validate_server_request
compromised-refuses q v r h = ground arith

-- A compromised router refuses every lifecycle request, thread-bound request and server request
-- after any sequence of calls.
pub run-compromised :
    (q : Request) (v : Value) (r : Router) (cs : List Call)
    → r.compromised ≡ true
    → (prepare q (run r cs) ≡ (err thread_route_blocked, run r cs))
      × (validate_thread_bound (run r cs) v ≡ err thread_route_blocked)
      × (validate_server_request (run r cs) ≡ err thread_route_blocked)
unfolding IsCompromised
run-compromised q v r cs h = compromised-refuses q v (run r cs) (run-IsCompromised r cs h)
