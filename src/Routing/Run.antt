-- ===== src/Routing/Run.antt =====
-- The router under any sequence of calls.
use gptsession_bridge.Shared.{
  ℕ, ◌≡◌, String, List, [], ◌∷◌, Option, ok, arith, string_eq, option_eq,
}
use gptsession_bridge.Shared.Table.{get, count}
use gptsession_bridge.Values.{Value}
use gptsession_bridge.Routing.Keys.{Direction, RequestId}
use gptsession_bridge.Routing.Registry.{Definition, Registry, fixed, sourced}
use gptsession_bridge.Routing.State.{Router, Url, create}
use gptsession_bridge.Routing.Prepare.{Request, prepare}
use gptsession_bridge.Routing.Settle.{settle, discard_pending, clear_pending, forget_thread}
use gptsession_bridge.Routing.Invariant.{
  IsConsistent, prepare-IsConsistent, settle-IsConsistent, discard_pending-IsConsistent,
  clear_pending-IsConsistent, forget_thread-IsConsistent,
}

-- A call of a method that writes, or a new answer of the model source.
pub data Call : Type 0 where
  prepares : Request → Call
  settles : Direction → Value → Call
  discards : Direction → RequestId → Call
  clears : Call
  forgets : String → Call
  refreshes : Option (List Definition) → Call

refreshed : Option (List Definition) → Registry → Registry
refreshed o (fixed m) = fixed m
refreshed o (sourced n old) = sourced n o

unfoldable pub step : Router → Call → Router
unfolding refreshed
step r (prepares q) = (prepare q r).1
step r (settles d v) = (settle d v r).1
step r (discards d id) = (discard_pending d id r).1
step r clears = (clear_pending r).1
step r (forgets t) = (forget_thread t r).1
step r (refreshes o) = record r { models = refreshed o r.models }

unfoldable pub run : Router → List Call → Router
run r [] = r
run r (c ∷ cs) = run (step r c) cs

pub step-IsConsistent : (r : Router) (c : Call) → IsConsistent r → IsConsistent (step r c)
unfolding step
step-IsConsistent r (prepares q) v = prepare-IsConsistent q r v
step-IsConsistent r (settles d w) v = settle-IsConsistent d w r v
step-IsConsistent r (discards d id) v = discard_pending-IsConsistent d id r v
step-IsConsistent r clears v = clear_pending-IsConsistent r v
step-IsConsistent r (forgets t) v = forget_thread-IsConsistent t r v
step-IsConsistent r (refreshes o) v = record {
  pending_distinct = v.pending_distinct;
  provisional_distinct = v.provisional_distinct;
  threads_distinct = v.threads_distinct;
  reserved = v.reserved;
  quarantined = v.quarantined;
  pending_bounded = v.pending_bounded;
  threads_bounded = v.threads_bounded;
  blocked_bounded = v.blocked_bounded;
}

pub run-IsConsistent : (r : Router) (cs : List Call) → IsConsistent r → IsConsistent (run r cs)
unfolding run
run-IsConsistent r [] v = v
run-IsConsistent r (c ∷ cs) v = run-IsConsistent (step r c) cs (step-IsConsistent r c v)

create-empty :
    (token : String) (url : Option Url) (p t : Option ℕ) (m : Registry) (r : Router)
    → create token url p t m ≡ ok r
    → (r.pending ≡ [])
      × (r.provisional ≡ [])
      × (r.threads ≡ [])
      × (r.reservations ≡ 0)
      × (r.blocked ≡ [])
unfolding create
create-empty token url p t m r h = ground arith

create-IsConsistent :
    (token : String) (url : Option Url) (p t : Option ℕ) (m : Registry) (r : Router)
    → create token url p t m ≡ ok r
    → IsConsistent r
unfolding get count
create-IsConsistent token url p t m r h =
    let (no_pending, no_provisional, no_threads, none_reserved, none_blocked) =
      create-empty token url p t m r h in
    record {
      pending_distinct = rw no_pending tt;
      provisional_distinct = rw no_provisional tt;
      threads_distinct = rw no_threads tt;
      reserved = rw (no_pending, none_reserved);
      quarantined = λ u. rw (no_pending, no_provisional);
      pending_bounded = rw no_pending (omega arith);
      threads_bounded = rw no_threads (omega arith);
      blocked_bounded = rw none_blocked (omega arith);
    }

-- From its creation on, whatever sequence of calls follows, the pending table, the quarantine
-- counts, the reservations and the capacities of the router agree.
pub run-create-IsConsistent :
    (token : String) (url : Option Url) (p t : Option ℕ) (m : Registry) (r : Router)
    (cs : List Call)
    → create token url p t m ≡ ok r
    → IsConsistent (run r cs)
run-create-IsConsistent token url p t m r cs h =
    run-IsConsistent r cs (create-IsConsistent token url p t m r h)
