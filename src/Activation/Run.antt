-- ===== src/Activation/Run.antt =====
-- A lease under any sequence of calls.
use gptsession_bridge.Shared.{
  ℕ, ◌+◌, ◌≤◌, ◌<◌, ◌≡◌, refl, sym, subst, ◌∙◌, String, Bool, true, false, Option, none, some, List,
  [], ◌∷◌, ok, leb, nat_eq, string_eq, ◌==◌, if◌then◌else◌, arith, inl, inr, Bool-cases,
}
use gptsession_bridge.Shared.Exec.{Exec, pure, continue}
use gptsession_bridge.Activation.{
  timeout, disclosure_version, Reason, Binding, Active, Snapshot, inactive, active, Failure, Lease,
  active_ok, revision_of, initial, max, same_active, read_from, read_now, schedule_current_expiry,
  end_lease, expire_from, expire_if_due, read_snapshot, offer, activate_from, activate, end_from,
  deactivate, note_from, note_agent_activity, timer_fires, Call, reads, fires, activates, ends,
  notes, step, run,
}
use gptsession_bridge.Activation.Invariant.{
  SnapshotOk, IsLease, Good, Good-refl, Good-trans, Quiet-Good, continue-Good, read_now-Quiet,
  schedule-Good, replace_then, end_lease-Good, no_timer,
}

read_from-ok :
    (o : Option ℕ) (s : Lease) (now : ℕ)
    → (read_from o s).0 ≡ ok now
    → now ≡ (read_from o s).1.last_observed
unfolding read_from
read_from-ok none s now h = absurd (ground arith)
read_from-ok (some n) s now h = ground arith

max_le : (a b c : ℕ) → a ≤ c → b ≤ c → max a b ≤ c
max_le a b c h k = ground arith

module _ (clock : ℕ → Option ℕ) where
  pub read_now-ok :
      (s : Lease) (now : ℕ)
      → (read_now clock s).0 ≡ ok now
      → now ≡ (read_now clock s).1.last_observed
  unfolding read_now
  read_now-ok s now h = read_from-ok (clock s.ticks) s now h

  due_or_not :
      (a : Active) (now : ℕ) (s : Lease)
      → IsLease s
      → Good s ((if leb a.expires_at now then end_lease clock Reason.expired else pure false) s).1
  due_or_not a now s v = elim (Bool-cases (leb a.expires_at now)) [
    | inl e ↦ rw e (end_lease-Good clock Reason.expired s v)
    | inr e ↦ rw e (Good-refl s v)
  ]

  expire_from-Good :
      (x : Snapshot) (s : Lease) → s.snapshot ≡ x → IsLease s → Good s (expire_from clock x s).1
  unfolding expire_from
  expire_from-Good (inactive r n) s e v = Good-refl s v
  expire_from-Good (active a) s e v =
      let t = (read_now clock s).1 in
      let q = read_now-Quiet clock s v in
      continue-Good s t (read_now clock s).0
        (λ now. if leb a.expires_at now then end_lease clock Reason.expired else pure false)
        (Quiet-Good s t q)
        (λ now h.
          Good-trans s t
            ((if leb a.expires_at now then end_lease clock Reason.expired else pure false) t).1
            (Quiet-Good s t q) (due_or_not a now t q.lease))

  expire-Good : (s : Lease) → IsLease s → Good s (expire_if_due clock s).1
  unfolding expire_if_due
  expire-Good s v = expire_from-Good s.snapshot s refl v

  offer-Good :
      (a : Active) (s : Lease)
      → a.last_activity_at ≤ s.last_observed
      → revision_of s.snapshot < a.revision
      → IsLease s
      → Good s (offer clock a s).1
  unfolding offer
  offer-Good a s l r v = elim (Bool-cases (active_ok a)) [
    | inl e ↦ rw e (replace_then clock (active a) s true (e, l) r)
    | inr e ↦ rw e (Good-refl s v)
  ]

  -- An offer that is made after the clock was read.
  offer_at-Good :
      (x : Snapshot) (s : Lease) (f : ℕ → Active)
      → s.snapshot ≡ x
      → IsLease s
      → ((now : ℕ)
          → now ≡ (read_now clock s).1.last_observed
          → ((f now).last_activity_at ≤ (read_now clock s).1.last_observed)
            × (revision_of x < (f now).revision))
      → Good s (continue (read_now clock s).0 (λ now. offer clock (f now)) (read_now clock s).1).1
  offer_at-Good x s f e v h =
      let t = (read_now clock s).1 in
      let q = read_now-Quiet clock s v in
      continue-Good s t (read_now clock s).0 (λ now. offer clock (f now)) (Quiet-Good s t q)
        (λ now k.
          let (l, r) = h now (read_now-ok s now k) in
          Good-trans s t (offer clock (f now) t).1 (Quiet-Good s t q) (
            offer-Good (f now) t l
              (subst (λ y. revision_of y < (f now).revision) (sym (q.same ∙ e)) r) q.lease))

  activate_from-Good :
      (x : Snapshot) (b : Binding) (version o l : String) (s : Lease)
      → s.snapshot ≡ x
      → IsLease s
      → Good s (activate_from clock x b version o l s).1
  unfolding activate_from
  activate_from-Good (active a) b version o l s e v = Good-refl s v
  activate_from-Good (inactive r n) b version o l s e v =
      elim (Bool-cases (version == disclosure_version)) [
        | inr bad ↦ rw bad (Good-refl s v)
        | inl good ↦ rw good (
            offer_at-Good (inactive r n) s
              (λ now. record {
                binding = b;
                ownership_id = o;
                issued_at = now;
                last_activity_at = now;
                expires_at = now + timeout;
                lease_id = l;
                revision = n + 1;
              })
              e v (λ now k. (omega (arith, k), omega arith)))
      ]

  end_from-Good :
      (reason : Reason) (x : Snapshot) (s : Lease)
      → IsLease s
      → Good s (end_from clock reason x s).1
  unfolding end_from
  end_from-Good reason (inactive r n) s v = Good-refl s v
  end_from-Good reason (active a) s v = end_lease-Good clock reason s v

  note_from-Good :
      (x : Snapshot) (expected : Active) (s : Lease)
      → s.snapshot ≡ x
      → IsLease s
      → Good s (note_from clock expected x s).1
  unfolding note_from
  note_from-Good (inactive r n) expected s e v = Good-refl s v
  note_from-Good (active a) expected s e v = elim (Bool-cases (same_active a expected)) [
    | inr bad ↦ rw bad (Good-refl s v)
    | inl good ↦ rw good (
        let k : SnapshotOk (active a) s.last_observed =
          subst (λ y. SnapshotOk y s.last_observed) e v.snapshot_ok in
        let q = read_now-Quiet clock s v in
        offer_at-Good (active a) s
          (λ now. record a {
            expires_at = max now a.last_activity_at + timeout;
            last_activity_at = max now a.last_activity_at;
            revision = a.revision + 1;
          })
          e v
          (λ now h. (
            max_le now a.last_activity_at (read_now clock s).1.last_observed (omega (arith, h))
                (omega (arith, k.1, q.later)),
            omega arith,
          )))
  ]

  -- A call that expires a lease which is due first.
  after_expiry {ℓ} :
      {A : Type ℓ} (f : Snapshot → Exec Lease Failure A) (s : Lease)
      → IsLease s
      → ((t : Lease) → IsLease t → Good t (f t.snapshot t).1)
      → Good s
          (continue (expire_if_due clock s).0 (λ due t. f t.snapshot t) (expire_if_due clock s).1).1
  after_expiry f s v h =
      let t = (expire_if_due clock s).1 in
      let g = expire-Good s v in
      continue-Good s t (expire_if_due clock s).0 (λ due u. f u.snapshot u) g
        (λ due e. Good-trans s t (f t.snapshot t).1 g (h t g.lease))

  discard {ℓ} :
      {A : Type ℓ} (s : Lease) (m : Exec Lease Failure A)
      → Good s (m s).1
      → Good s (continue (m s).0 (λ a. pure (tt {0})) (m s).1).1
  discard s m g = continue-Good s (m s).1 (m s).0 (λ a. pure (tt {0})) g (λ a e. g)

  quiet_timer : (s : Lease) → IsLease s → Good s (record s { timer = none })
  quiet_timer s v = record {
    lease = record { snapshot_ok = v.snapshot_ok; timer_ok = no_timer clock s.snapshot };
    rises = inl refl;
    later = omega arith;
  }

  rescheduled :
      (due : Bool) (t : Lease)
      → IsLease t
      → Good t ((if due then pure tt else schedule_current_expiry clock) t).1
  rescheduled true t v = Good-refl t v
  rescheduled false t v = schedule-Good clock t v

  fires-Good : (s : Lease) → IsLease s → Good s (timer_fires clock s).1
  unfolding timer_fires
  fires-Good s v =
      let s' : Lease = record s { timer = none } in
      let q = quiet_timer s v in
      let t = (expire_if_due clock s').1 in
      let g = Good-trans s s' t q (expire-Good s' q.lease) in
      continue-Good s t (expire_if_due clock s').0
        (λ due. if due then pure tt else schedule_current_expiry clock) g
        (λ due e.
          Good-trans s t ((if due then pure tt else schedule_current_expiry clock) t).1 g
            (rescheduled due t g.lease))

  pub step-Good : (c : Call) (s : Lease) → IsLease s → Good s (step clock c s).1
  unfolding step read_snapshot activate deactivate note_agent_activity
  step-Good reads s v = discard s (read_snapshot clock) (after_expiry (λ x. pure x) s v Good-refl)
  step-Good fires s v = fires-Good s v
  step-Good (activates b version o l) s v = discard s (activate clock b version o l) (
      after_expiry (λ x. activate_from clock x b version o l) s v
        (λ t w. activate_from-Good t.snapshot b version o l t refl w))
  step-Good (ends reason) s v =
      discard s (deactivate clock reason)
        (after_expiry (end_from clock reason) s v (λ t w. end_from-Good reason t.snapshot t w))
  step-Good (notes expected) s v = discard s (note_agent_activity clock expected) (
      after_expiry (note_from clock expected) s v
        (λ t w. note_from-Good t.snapshot expected t refl w))

  run-Good : (cs : List Call) (s : Lease) → IsLease s → Good s (run clock cs s)
  unfolding run
  run-Good [] s v = Good-refl s v
  run-Good (c ∷ cs) s v =
      let g = step-Good c s v in
      Good-trans s (step clock c s).1 (run clock cs (step clock c s).1) g
        (run-Good cs (step clock c s).1 g.lease)

  pub initial-run-Good :
      (cs ds : List Call) → Good (run clock cs initial) (run clock ds (run clock cs initial))
  initial-run-Good cs ds =
      run-Good ds (run clock cs initial)
        (run-Good cs initial (record { snapshot_ok = omega arith; timer_ok = refl })).lease
