-- ===== src/Routing/Pinned.antt =====
-- A thread keeps its route until it is forgotten, and a blocked thread stays blocked.
use gptsession_bridge.Shared.{
  ◌≡◌, String, Bool, true, false, not, ◌&&◌, List, [], ◌∷◌, ◌++◌, Option, none, some, Result, ok,
  err, arith, contains, leb, string_eq, option_eq, ◌==◌, ==_iff,
}
use gptsession_bridge.Shared.Table.{get, set, size, get-set, get-delete}
use gptsession_bridge.Routing.Codes.{Code}
use gptsession_bridge.Routing.Decide.{Route, routes_equal, is_some}
use gptsession_bridge.Routing.State.{Router, block_thread, release_pending}
use gptsession_bridge.Routing.Prepare.{Plan, prepare, plan, finish, commit}
use gptsession_bridge.Routing.Settle.{clear_pending, forget_thread, conflicts}
use gptsession_bridge.Routing.Rule.{settle_keeps, discard_pending_keeps}
use gptsession_bridge.Routing.Invariant.{IsConsistent}
use gptsession_bridge.Routing.Run.{
  Call, prepares, settles, discards, clears, forgets, refreshes, step, run, step-IsConsistent,
}

routes_equal-eq : (a b : Route) → routes_equal a b ≡ true → a ≡ b
unfolding routes_equal
routes_equal-eq a b h = ground (
  arith,
  ==_iff a.catalog_revision b.catalog_revision,
  ==_iff a.model b.model,
  ==_iff a.model_provider b.model_provider,
  ==_iff a.provider_model b.provider_model,
  ==_iff a.reasoning_effort b.reasoning_effort,
)

abbrev pub is_forget : String → Call → Bool
is_forget t (forgets u) = u == t
is_forget t _ = false

module _ (t : String) (e : Route) where
  abbrev pub IsPinned : Router → Type 0
  IsPinned r = get r.threads t ≡ some e

  block_thread-IsPinned :
      (u : Option String) (r : Router) → IsPinned r → IsPinned (block_thread u r)
  unfolding block_thread
  block_thread-IsPinned none r h = h
  block_thread-IsPinned (some u) r h = ground arith

  pins-IsPinned :
      (u : String) (d : Route) (r : Router)
      → conflicts (get r.threads u) d ≡ false
      → (not (is_some (get r.threads u)) && leb r.max_threads (size r.threads)) ≡ false
      → IsPinned r
      → IsPinned (record r { threads = set r.threads u d })
  unfolding conflicts
  pins-IsPinned u d r agreed room h =
      ground (arith, get-set r.threads u t d, ==_iff u t, routes_equal-eq e d)

  finish-IsPinned : (r : Router) (o : Result Code Plan) → IsPinned r → IsPinned (finish r o).1
  unfolding finish commit
  finish-IsPinned r (ok p) h = h
  finish-IsPinned r (err c) h = h

  forget_thread-IsPinned :
      (u : String) (r : Router)
      → IsConsistent r
      → (u == t) ≡ false
      → IsPinned r
      → IsPinned (forget_thread u r).1
  unfolding forget_thread
  forget_thread-IsPinned u r v other h =
      ground (arith, get-delete r.threads u t v.threads_distinct, ==_iff u t)

  step-IsPinned :
      (r : Router) (c : Call)
      → IsConsistent r
      → is_forget t c ≡ false
      → IsPinned r
      → IsPinned (step r c)
  unfolding step prepare clear_pending
  step-IsPinned r (prepares q) v n h = finish-IsPinned r (plan r q) h
  step-IsPinned r (settles d w) v n h =
      settle_keeps IsPinned block_thread-IsPinned (λ key p s f k. unfold release_pending in k)
        pins-IsPinned d w r h
  step-IsPinned r (discards d id) v n h =
      discard_pending_keeps IsPinned block_thread-IsPinned
        (λ key p s f k. unfold release_pending in k) pins-IsPinned d id r h
  step-IsPinned r clears v n h = h
  step-IsPinned r (forgets u) v n h = forget_thread-IsPinned u r v n h
  step-IsPinned r (refreshes o) v n h = h

-- No call forgets the thread.
unfoldable pub never_forgets : String → List Call → Bool
never_forgets t [] = true
never_forgets t (c ∷ cs) = not (is_forget t c) && never_forgets t cs

-- In a consistent router a pinned thread keeps its route through any sequence of calls that does
-- not forget it.
pub run-IsPinned :
    (t : String) (e : Route) (r : Router) (cs : List Call)
    → IsConsistent r
    → never_forgets t cs ≡ true
    → get r.threads t ≡ some e
    → get (run r cs).threads t ≡ some e
unfolding run never_forgets
run-IsPinned t e r [] v n h = h
run-IsPinned t e r (c ∷ cs) v n h =
    run-IsPinned t e (step r c) cs (step-IsConsistent r c v) (ground arith)
      (step-IsPinned t e r c v (ground arith) h)

module _ (t : String) where
  abbrev pub IsBlocked : Router → Type 0
  IsBlocked r = contains r.blocked t ≡ true

  contains-append :
      (xs : List String) (u : String) → contains xs t ≡ true → contains (xs ++ u ∷ []) t ≡ true
  unfolding contains
  contains-append [] u h = cc
  contains-append (x ∷ xs) u h = ground (arith, contains-append xs u)

  block_thread-IsBlocked :
      (u : Option String) (r : Router) → IsBlocked r → IsBlocked (block_thread u r)
  unfolding block_thread
  block_thread-IsBlocked none r h = h
  block_thread-IsBlocked (some u) r h = ground (arith, contains-append r.blocked u h)

  finish-IsBlocked : (r : Router) (o : Result Code Plan) → IsBlocked r → IsBlocked (finish r o).1
  unfolding finish commit
  finish-IsBlocked r (ok p) h = h
  finish-IsBlocked r (err c) h = h

  step-IsBlocked : (r : Router) (c : Call) → IsBlocked r → IsBlocked (step r c)
  unfolding step prepare clear_pending forget_thread
  step-IsBlocked r (prepares q) h = finish-IsBlocked r (plan r q) h
  step-IsBlocked r (settles d w) h =
      settle_keeps IsBlocked block_thread-IsBlocked (λ key p s f k. unfold release_pending in k)
        (λ u f s a b k. k) d w r h
  step-IsBlocked r (discards d id) h =
      discard_pending_keeps IsBlocked block_thread-IsBlocked
        (λ key p s f k. unfold release_pending in k) (λ u f s a b k. k) d id r h
  step-IsBlocked r clears h = h
  step-IsBlocked r (forgets u) h = h
  step-IsBlocked r (refreshes o) h = h

-- A blocked thread stays blocked, whatever is called.
pub run-IsBlocked :
    (t : String) (r : Router) (cs : List Call)
    → contains r.blocked t ≡ true
    → contains (run r cs).blocked t ≡ true
unfolding run
run-IsBlocked t r [] h = h
run-IsBlocked t r (c ∷ cs) h = run-IsBlocked t (step r c) cs (step-IsBlocked t r c h)
