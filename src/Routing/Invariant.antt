-- ===== src/Routing/Invariant.antt =====
-- The router's tables agree with one another, whatever is called.
use gptsession_bridge.Shared.{
  ℕ, ◌≤◌, ◌<◌, ◌≡◌, refl, sym, ap, ◌∙◌, String, false, not, ◌&&◌, [], ◌∷◌, Option, none, some,
  Result, ok, err, leb, length, length-append, arith, string_eq, option_eq, ◌==◌, Option-cases, inl,
  inr,
}
use gptsession_bridge.Shared.Table.{
  Table, get, has, set, delete, size, count, Distinct, Distinct-set, Distinct-delete, has_of_get,
  has_of_none, size-set_new, size-set_old, size-delete_le, count-set_new, count-delete,
}
use gptsession_bridge.Values.{Value}
use gptsession_bridge.Routing.Codes.{Code}
use gptsession_bridge.Routing.Keys.{Direction, RequestId}
use gptsession_bridge.Routing.Decide.{Route, is_some}
use gptsession_bridge.Routing.State.{Pending, Router, block_thread, release_pending}
use gptsession_bridge.Routing.Prepare.{Request, Plan, admit, plan, commit, finish, prepare}
use gptsession_bridge.Routing.Planned.{plan-Planned}
use gptsession_bridge.Routing.Settle.{
  settle, discard_pending, clear_pending, forget_thread, conflicts,
}
use gptsession_bridge.Routing.Rule.{settle_keeps, discard_pending_keeps}
use gptsession_bridge.Routing.Quarantine.{
  entry, quarantine-Distinct, release_quarantine-Distinct, get-quarantine, get-release_quarantine,
}

-- The pending requests that quarantine a thread.
abbrev pub quarantining : String → Table String Pending → ℕ
quarantining t m = count (λ p. p.quarantined == some t) m

pub record IsConsistent (r : Router) : Type 0 where
  pub pending_distinct : Distinct r.pending
  pub provisional_distinct : Distinct r.provisional
  pub threads_distinct : Distinct r.threads
  pub reserved : r.reservations ≡ count (λ p. p.reserves_slot) r.pending
  pub quarantined : (t : String) → get r.provisional t ≡ entry (quarantining t r.pending)
  pub pending_bounded : size r.pending ≤ r.max_pending
  pub threads_bounded : size r.threads ≤ r.max_threads
  pub blocked_bounded : length r.blocked ≤ r.max_threads

block_thread-IsConsistent :
    (t : Option String) (r : Router) → IsConsistent r → IsConsistent (block_thread t r)
unfolding block_thread
block_thread-IsConsistent none r v = v
block_thread-IsConsistent (some t) r v = record {
  pending_distinct = ground (arith, v.pending_distinct);
  provisional_distinct = ground (arith, v.provisional_distinct);
  threads_distinct = ground (arith, v.threads_distinct);
  reserved = ground (arith, v.reserved);
  quarantined = λ u. ground (arith, v.quarantined u);
  pending_bounded = ground (arith, v.pending_bounded);
  threads_bounded = ground (arith, v.threads_bounded);
  blocked_bounded = ground (arith, length-append r.blocked (t ∷ []), v.blocked_bounded);
}

commit-IsConsistent :
    (p : Plan) (r : Router)
    → IsConsistent r
    → has r.pending p.key ≡ false
    → size r.pending < r.max_pending
    → IsConsistent (commit p r)
unfolding commit
commit-IsConsistent p r v fresh room = record {
  pending_distinct = Distinct-set r.pending p.key p.decision v.pending_distinct;
  provisional_distinct =
      quarantine-Distinct p.decision.quarantined r.provisional v.provisional_distinct;
  threads_distinct = v.threads_distinct;
  reserved = ground (
    arith,
    v.reserved,
    count-set_new (λ (d : Pending). d.reserves_slot) r.pending p.key p.decision fresh,
  );
  quarantined = λ t.
      get-quarantine p.decision.quarantined r.provisional t (λ u. quarantining u r.pending)
        v.quarantined
      ∙ ap entry (
          sym (
            count-set_new (λ (d : Pending). d.quarantined == some t) r.pending p.key p.decision
              fresh));
  pending_bounded = ground (arith, size-set_new r.pending p.key p.decision fresh);
  threads_bounded = v.threads_bounded;
  blocked_bounded = v.blocked_bounded;
}

release_pending-IsConsistent :
    (key : String) (p : Pending) (r : Router)
    → IsConsistent r
    → get r.pending key ≡ some p
    → IsConsistent (release_pending key p r)
unfolding release_pending
release_pending-IsConsistent key p r v found = record {
  pending_distinct = Distinct-delete r.pending key v.pending_distinct;
  provisional_distinct =
      release_quarantine-Distinct p.quarantined r.provisional v.provisional_distinct;
  threads_distinct = v.threads_distinct;
  reserved =
      ground
        (arith, v.reserved, count-delete (λ (d : Pending). d.reserves_slot) r.pending key p found);
  quarantined = λ t.
      get-release_quarantine p.quarantined r.provisional t
        (λ u. quarantining u (delete r.pending key)) v.provisional_distinct
        (λ u.
          v.quarantined u
          ∙ ap entry
              (count-delete (λ (d : Pending). d.quarantined == some u) r.pending key p found));
  pending_bounded = omega (arith, v.pending_bounded, size-delete_le r.pending key);
  threads_bounded = v.threads_bounded;
  blocked_bounded = v.blocked_bounded;
}

admit-fresh :
    (r : Router) (q : Request) (key : String)
    → admit r q ≡ ok key
    → (has r.pending key ≡ false) × (size r.pending < r.max_pending)
unfolding admit
admit-fresh r q key h = ground arith

finish-IsConsistent :
    (q : Request) (r : Router) (o : Result Code Plan)
    → plan r q ≡ o
    → IsConsistent r
    → IsConsistent (finish r o).1
unfolding finish
finish-IsConsistent q r (err e) h v = v
finish-IsConsistent q r (ok p) h v =
    let (fresh, room) = admit-fresh r q p.key (plan-Planned r q p h).admitted in
    commit-IsConsistent p r v fresh room

pub prepare-IsConsistent :
    (q : Request) (r : Router) → IsConsistent r → IsConsistent (prepare q r).1
unfolding prepare
prepare-IsConsistent q r v = finish-IsConsistent q r (plan r q) refl v

pins-IsConsistent :
    (t : String) (d : Route) (r : Router)
    → conflicts (get r.threads t) d ≡ false
    → (not (is_some (get r.threads t)) && leb r.max_threads (size r.threads)) ≡ false
    → IsConsistent r
    → IsConsistent (record r { threads = set r.threads t d })
pins-IsConsistent t d r agreed room v = record {
  pending_distinct = v.pending_distinct;
  provisional_distinct = v.provisional_distinct;
  threads_distinct = Distinct-set r.threads t d v.threads_distinct;
  reserved = v.reserved;
  quarantined = v.quarantined;
  pending_bounded = v.pending_bounded;
  threads_bounded = elim (Option-cases (get r.threads t)) [
    | inl absent ↦
        ground
          (arith, size-set_new r.threads t d (has_of_none r.threads t absent), v.threads_bounded)
    | inr (e, present) ↦
        rw (size-set_old r.threads t d (has_of_get r.threads t e present)) v.threads_bounded
  ];
  blocked_bounded = v.blocked_bounded;
}

-- Settling a response keeps the tables consistent, on every branch.
pub settle-IsConsistent :
    (d : Direction) (v : Value) (r : Router) → IsConsistent r → IsConsistent (settle d v r).1
settle-IsConsistent =
    settle_keeps IsConsistent block_thread-IsConsistent
      (λ key p r e v. release_pending-IsConsistent key p r v e) pins-IsConsistent

pub discard_pending-IsConsistent :
    (d : Direction) (id : RequestId) (r : Router)
    → IsConsistent r
    → IsConsistent (discard_pending d id r).1
discard_pending-IsConsistent =
    discard_pending_keeps IsConsistent block_thread-IsConsistent
      (λ key p r e v. release_pending-IsConsistent key p r v e) pins-IsConsistent

pub clear_pending-IsConsistent : (r : Router) → IsConsistent r → IsConsistent (clear_pending r).1
unfolding clear_pending count get
clear_pending-IsConsistent r v = record {
  pending_distinct = tt;
  provisional_distinct = tt;
  threads_distinct = v.threads_distinct;
  reserved = refl;
  quarantined = λ t. refl;
  pending_bounded = omega arith;
  threads_bounded = v.threads_bounded;
  blocked_bounded = v.blocked_bounded;
}

pub forget_thread-IsConsistent :
    (t : String) (r : Router) → IsConsistent r → IsConsistent (forget_thread t r).1
unfolding forget_thread
forget_thread-IsConsistent t r v = record {
  pending_distinct = v.pending_distinct;
  provisional_distinct = v.provisional_distinct;
  threads_distinct = Distinct-delete r.threads t v.threads_distinct;
  reserved = v.reserved;
  quarantined = v.quarantined;
  pending_bounded = v.pending_bounded;
  threads_bounded = omega (arith, v.threads_bounded, size-delete_le r.threads t);
  blocked_bounded = v.blocked_bounded;
}
