-- ===== src/Routing/Settled.antt =====
-- Every response settles its request once, and one that cannot be trusted blocks its thread.
use gptsession_bridge.Shared.{
  ◌≡◌, refl, String, true, Option, none, some, Result, ok, arith, string_eq, contains, ◌⊎◌, inl,
  inr, Bool-cases, ==_refl, List, [], ◌∷◌, ◌++◌,
}
use gptsession_bridge.Shared.Table.{get, Distinct, get-delete, Distinct-delete}
use gptsession_bridge.Values.{Value, Fields, has_own, member, read_record}
use gptsession_bridge.Routing.Codes.{Code}
use gptsession_bridge.Routing.Keys.{Direction, RequestId, read_request_id, serialize}
use gptsession_bridge.Routing.Decide.{Kind, Route}
use gptsession_bridge.Routing.State.{Pending, Router, block_thread, release_pending}
use gptsession_bridge.Routing.Settle.{
  Settlement, invalid_result, unknown, pin_thread, settle_thread, settle_identified,
  settle_verified, settle_pending, settle_found, settle_keyed, settle_id, settle_record, settle,
  response_thread_id, invalid_identity, unverified_thread_id, fork_source_id,
}
use gptsession_bridge.Routing.Rule.{settle_verified_keeps}
use gptsession_bridge.Routing.Invariant.{IsConsistent}

module _ (key : String) where
  IsGone : Router → Type 0
  IsGone r = Distinct r.pending × (get r.pending key ≡ none)

  block_thread-IsGone : (t : Option String) (r : Router) → IsGone r → IsGone (block_thread t r)
  unfolding IsGone block_thread
  block_thread-IsGone none r h = h
  block_thread-IsGone (some t) r h = ground arith

  release_pending-IsGone :
      (j : String) (p : Pending) (r : Router) → IsGone r → IsGone (release_pending j p r)
  unfolding IsGone release_pending
  release_pending-IsGone j p r h =
      (Distinct-delete r.pending j h.0, ground (arith, get-delete r.pending j key h.0))

  released-IsGone :
      (p : Pending) (r : Router) → Distinct r.pending → IsGone (release_pending key p r)
  unfolding IsGone release_pending
  released-IsGone p r d =
      (Distinct-delete r.pending key d, ground (arith, get-delete r.pending key key d, ==_refl key))

  settle_pending-IsGone :
      (p : Pending) (response : Fields) (r : Router)
      → Distinct r.pending
      → IsGone (settle_pending key p response r).1
  unfolding settle_pending
  settle_pending-IsGone p response r d = elim (Bool-cases (has_own response "error")) [
    | inl bad ↦ rw bad (released-IsGone p r d)
    | inr fine ↦ rw fine (
        settle_verified_keeps IsGone block_thread-IsGone
          (λ j q s f k. release_pending-IsGone j q s k) (λ t e s a b k. unfold IsGone in k) p
          response _ _ (released-IsGone p r d))
  ]

  settle_found-IsGone :
      (o : Option Pending) (response : Fields) (r : Router)
      → Distinct r.pending
      → get r.pending key ≡ o
      → IsGone (settle_found key o response r).1
  unfolding settle_found IsGone
  settle_found-IsGone none response r d g = (d, g)
  settle_found-IsGone (some p) response r d g = settle_pending-IsGone p response r d

-- The key that a response has in a direction.
abbrev pub HasKey : Direction → Value → String → Fields → Type 0
HasKey d v key response =
    (read_record v ≡ some response)
    × ((id : RequestId) × (read_request_id (member response "id") ≡ some id)
        × (serialize d id ≡ ok key))

settle-found :
    (d : Direction) (v : Value) (key : String) (response : Fields) (r : Router)
    → HasKey d v key response
    → settle d v r ≡ settle_found key (get r.pending key) response r
unfolding settle settle_record settle_id settle_keyed
settle-found d v key response r (a, (id, b, c)) = rw (a, b, c)

-- In a consistent router a response leaves its key no longer pending, and a second response with
-- that key is unknown and changes nothing.
pub settle-once :
    (d : Direction) (v w : Value) (key : String) (response again : Fields) (r : Router)
    → IsConsistent r
    → HasKey d v key response
    → HasKey d w key again
    → (get (settle d v r).1.pending key ≡ none)
      × (settle d w (settle d v r).1 ≡ (ok unknown, (settle d v r).1))
unfolding settle_found IsGone
settle-once d v w key response again r c h k =
    let gone : get (settle d v r).1.pending key ≡ none =
      rw (settle-found d v key response r h)
        (settle_found-IsGone key _ response r c.pending_distinct refl).1 in
    (gone, rw (settle-found d w key again (settle d v r).1 k, gone))

contains-append_last : (xs : List String) (t : String) → contains (xs ++ t ∷ []) t ≡ true
unfolding contains
contains-append_last [] t = rw (==_refl t)
contains-append_last (x ∷ xs) t = ground (arith, contains-append_last xs t)

-- Either the thread is blocked, or nothing is served any more.
abbrev pub IsShut : String → Router → Type 0
IsShut t r = (contains r.blocked t ≡ true) ⊎ (r.compromised ≡ true)

block_thread-IsShut : (t : String) (r : Router) → IsShut t (block_thread (some t) r)
unfolding block_thread
block_thread-IsShut t r = ground (arith, contains-append_last r.blocked t)

module _ (t : String) (k : Kind) where
  -- A distrusted result has shut the thread.
  abbrev Shuts : Result Code Settlement × Router → Type 0
  Shuts x = x.0 ≡ ok (invalid_result k) → IsShut t x.1

  settle_thread-Shuts :
      (p : Pending) (f : Option String) (s : Router) → Shuts (settle_thread p t f s)
  unfolding settle_thread pin_thread
  settle_thread-Shuts p f s h = ground (arith, block_thread-IsShut t s)

  settle_identified-Shuts :
      (p : Pending) (f : Option String) (s : Router) → Shuts (settle_identified p t f s)
  unfolding settle_identified
  settle_identified-Shuts p f s h = ground (arith, settle_thread-Shuts p f s)

  settle_verified-Shuts :
      (p : Pending) (response : Fields) (o : Option String) (s : Router)
      → unverified_thread_id response ≡ some t
      → ((u : String) → o ≡ some u → u ≡ t)
      → Shuts (settle_verified p response o s)
  unfolding settle_verified
  settle_verified-Shuts p response none s e same = rw e (λ h. block_thread-IsShut t s)
  settle_verified-Shuts p response (some u) s e same =
      rw (same u refl) (elim (Bool-cases (invalid_identity s p t (fork_source_id response))) [
        | inl bad ↦ rw (bad, e) (λ h. block_thread-IsShut t s)
        | inr fine ↦ rw fine (settle_identified-Shuts p (fork_source_id response) s)
      ])

  response_thread_id-eq :
      (response : Fields) (route : Route)
      → unverified_thread_id response ≡ some t
      → (u : String) → response_thread_id response route ≡ some u
      → u ≡ t
  unfolding response_thread_id
  response_thread_id-eq response route e u h = ground arith

  settle_found-Shuts :
      (key : String) (o : Option Pending) (response : Fields) (s : Router)
      → unverified_thread_id response ≡ some t
      → Shuts (settle_found key o response s)
  unfolding settle_found settle_pending
  settle_found-Shuts key none response s e = λ h. absurd (cc)
  settle_found-Shuts key (some p) response s e = elim (Bool-cases (has_own response "error")) [
    | inl bad ↦ rw bad (λ h. absurd (cc))
    | inr fine ↦
        rw fine (settle_verified-Shuts p response _ _ e (response_thread_id-eq response p.route e))
  ]

-- Where a response to a known key is settled as an invalid result, the thread that it names is
-- blocked, or the router is compromised.
pub settle-invalid :
    (d : Direction) (v : Value) (key t : String) (response : Fields) (k : Kind) (r : Router)
    → HasKey d v key response
    → unverified_thread_id response ≡ some t
    → (settle d v r).0 ≡ ok (invalid_result k)
    → IsShut t (settle d v r).1
settle-invalid d v key t response k r h e =
    rw (settle-found d v key response r h) (settle_found-Shuts t k key _ response r e)
