-- ===== src/Routing/Rule.antt =====
-- A rule for `settle` and `discard_pending`: what holds of the router before holds after, if the
-- three writes that they make keep it.
use gptsession_bridge.Shared.{
  ◌≡◌, refl, String, false, not, ◌&&◌, Option, none, some, Result, ok, err, leb, arith, string_eq,
  Bool-cases, inl, inr, if◌then◌else◌,
}
use gptsession_bridge.Shared.Table.{get, set, size}
use gptsession_bridge.Values.{Value, Fields, has_own, read_record}
use gptsession_bridge.Routing.Codes.{Code}
use gptsession_bridge.Routing.Keys.{Direction, RequestId, serialize}
use gptsession_bridge.Routing.Decide.{web, Route, is_web, is_some}
use gptsession_bridge.Routing.State.{Pending, Router, route_of, block_thread, release_pending}
use gptsession_bridge.Routing.Settle.{
  pin_thread, settle_thread, settle_identified, settle_verified, settle_pending, settle_found,
  settle_keyed, settle_id, settle_record, settle, discard_found, discard_pending, conflicts,
  route_is, fork_source_id, unverified_thread_id, invalid_identity,
}

module _ {ℓ} (P : Router → Type ℓ)
    (blocks : (t : Option String) (r : Router) → P r → P (block_thread t r))
    (releases : (key : String) (p : Pending) (r : Router)
      → get r.pending key ≡ some p
      → P r
      → P (release_pending key p r))
    (pins : (t : String) (d : Route) (r : Router)
      → conflicts (get r.threads t) d ≡ false
      → (not (is_some (get r.threads t)) && leb r.max_threads (size r.threads)) ≡ false
      → P r
      → P (record r { threads = set r.threads t d })) where
  pin_thread_keeps :
      (t : String) (d : Route) (r : Router) → P r → P (pin_thread t (get r.threads t) d r).1
  unfolding pin_thread
  pin_thread_keeps t d r h = elim (Bool-cases (conflicts (get r.threads t) d)) [
    | inl clash ↦ rw clash (blocks (some t) r h)
    | inr agreed ↦
        rw agreed
          (elim (Bool-cases
            (not (is_some (get r.threads t)) && leb r.max_threads (size r.threads))) [
              | inl full ↦ rw full (blocks (some t) r h)
              | inr room ↦ rw room (pins t d r agreed room h)
            ])
  ]

  settle_thread_keeps :
      (p : Pending) (t : String) (f : Option String) (r : Router)
      → P r
      → P (settle_thread p t f r).1
  unfolding settle_thread
  settle_thread_keeps p t f r h =
      elim (Bool-cases (
        not (is_web p.route.kind)
        && route_is web (if p.requires_fork_source then route_of r f else none))) [
          | inl clash ↦ rw clash (blocks (some t) r h)
          | inr fine ↦ rw fine (pin_thread_keeps t _ r h)
        ]

  settle_identified_keeps :
      (p : Pending) (t : String) (f : Option String) (r : Router)
      → P r
      → P (settle_identified p t f r).1
  unfolding settle_identified
  settle_identified_keeps p t f r h = ground (arith, settle_thread_keeps p t f r h)

  pub settle_verified_keeps :
      (p : Pending) (response : Fields) (t : Option String) (r : Router)
      → P r
      → P (settle_verified p response t r).1
  unfolding settle_verified
  settle_verified_keeps p response none r h = blocks (unverified_thread_id response) r h
  settle_verified_keeps p response (some t) r h =
      elim (Bool-cases (invalid_identity r p t (fork_source_id response))) [
        | inl bad ↦ rw bad (blocks (unverified_thread_id response) r h)
        | inr fine ↦ rw fine (settle_identified_keeps p t (fork_source_id response) r h)
      ]

  settle_found_keeps :
      (key : String) (o : Option Pending) (response : Fields) (r : Router)
      → get r.pending key ≡ o
      → P r
      → P (settle_found key o response r).1
  unfolding settle_found settle_pending
  settle_found_keeps key none response r e h = h
  settle_found_keeps key (some p) response r e h = elim (Bool-cases (has_own response "error")) [
    | inl bad ↦ rw bad (releases key p r e h)
    | inr fine ↦ rw fine (settle_verified_keeps p response _ _ (releases key p r e h))
  ]

  settle_keyed_keeps :
      (k : Result Code String) (response : Fields) (r : Router)
      → P r
      → P (settle_keyed k response r).1
  unfolding settle_keyed
  settle_keyed_keeps (err e) response r h = h
  settle_keyed_keeps (ok key) response r h = settle_found_keeps key _ response r refl h

  settle_id_keeps :
      (d : Direction) (o : Option RequestId) (response : Fields) (r : Router)
      → P r
      → P (settle_id d o response r).1
  unfolding settle_id
  settle_id_keeps d none response r h = h
  settle_id_keeps d (some id) response r h = settle_keyed_keeps (serialize d id) response r h

  settle_record_keeps :
      (d : Direction) (o : Option Fields) (r : Router) → P r → P (settle_record d o r).1
  unfolding settle_record
  settle_record_keeps d none r h = h
  settle_record_keeps d (some response) r h = settle_id_keeps d _ response r h

  pub settle_keeps : (d : Direction) (v : Value) (r : Router) → P r → P (settle d v r).1
  unfolding settle
  settle_keeps d v r h = settle_record_keeps d (read_record v) r h

  discard_found_keeps :
      (key : String) (o : Option Pending) (r : Router)
      → get r.pending key ≡ o
      → P r
      → P (discard_found key o r).1
  unfolding discard_found
  discard_found_keeps key none r e h = h
  discard_found_keeps key (some p) r e h = releases key p r e h

  discard_keyed :
      (k : Result Code String) (d : Direction) (id : RequestId) (r : Router)
      → serialize d id ≡ k
      → P r
      → P (discard_pending d id r).1
  unfolding discard_pending
  discard_keyed (err e) d id r s h = rw s h
  discard_keyed (ok key) d id r s h = rw s (discard_found_keeps key _ r refl h)

  pub discard_pending_keeps :
      (d : Direction) (id : RequestId) (r : Router) → P r → P (discard_pending d id r).1
  discard_pending_keeps d id r h = discard_keyed (serialize d id) d id r refl h
