-- ===== src/Activation/Current.antt =====
-- The lease that `snapshot` hands out has not expired.
use gptsession_bridge.Shared.{
  ℕ, ◌+◌, ◌-◌, ◌<◌, ◌≡◌, refl, sym, ap, subst, ◌∙◌, Bool, true, false, Option, none, some, [], ◌∷◌,
  ◌++◌, Result, ok, err, leb, if◌then◌else◌, arith, Bool-cases, inl, inr,
}
use gptsession_bridge.Shared.Exec.{Exec, pure, modify, gets, continue}
use gptsession_bridge.Activation.{
  Reason, Active, Snapshot, inactive, active, Failure, Lease, inactive_snapshot, revision_of,
  read_from, read_now, schedule_for, schedule_current_expiry, replace, end_lease, expire_from,
  expire_if_due, read_snapshot,
}
use gptsession_bridge.Activation.Run.{read_now-ok}

read_from-snapshot : (o : Option ℕ) (s : Lease) → (read_from o s).1.snapshot ≡ s.snapshot
unfolding read_from
read_from-snapshot none s = refl
read_from-snapshot (some n) s = ground arith

continue-snapshot {ℓ κ} :
    {A : Type ℓ} {B : Type κ} (x : Snapshot) (r : Result Failure A) (f : A → Exec Lease Failure B)
    (t : Lease)
    → t.snapshot ≡ x
    → ((a : A) → (f a t).1.snapshot ≡ x)
    → (continue r f t).1.snapshot ≡ x
continue-snapshot x (ok a) f t e h = h a
continue-snapshot x (err c) f t e h = e

same_value : (x y : Snapshot) (o : Result Failure Snapshot) → o ≡ ok x → o ≡ ok y → x ≡ y
same_value x y o h k = ground arith

-- A result that is in time, or no lease.
abbrev Current : Result Failure Bool × Lease → Type 0
Current (err e, s) = Unit {0}
Current (ok due, s) = (a : Active) → s.snapshot ≡ active a → s.last_observed < a.expires_at

module _ (clock : ℕ → Option ℕ) where
  read_now-snapshot : (s : Lease) → (read_now clock s).1.snapshot ≡ s.snapshot
  unfolding read_now
  read_now-snapshot s = read_from-snapshot (clock s.ticks) s

  schedule_for-snapshot :
      (x : Snapshot) (o : Option ℕ) (s : Lease) → (schedule_for clock x o s).1.snapshot ≡ s.snapshot
  unfolding schedule_for
  schedule_for-snapshot (active a) none s =
      continue-snapshot s.snapshot (read_now clock s).0
        (λ now. modify (λ u. record u { timer = some (a.expires_at - now) })) (read_now clock s).1
        (read_now-snapshot s) (λ now. read_now-snapshot s)
  schedule_for-snapshot other o s = refl

  replace-snapshot : (next : Snapshot) (s : Lease) → (replace clock next s).1.snapshot ≡ next
  unfolding replace schedule_current_expiry
  replace-snapshot next s =
      let t : Lease = record s { timer = none; snapshot = next } in
      let e = schedule_for-snapshot next none t in
      continue-snapshot next (schedule_for clock next none t).0
        (λ u. modify (λ v. record v { changes = v.changes ++ next ∷ [] }))
        (schedule_for clock next none t).1 e (λ u. e)

  ended :
      (r : Reason) (n : ℕ) (x : Snapshot) (a : Active)
      → inactive_snapshot r n ≡ ok x
      → x ≡ active a
      → ⊥
  unfolding inactive_snapshot
  ended r n (inactive q m) a h e = cc
  ended r n (active b) a h e = ground arith

  replaced-Current :
      (next : Snapshot) (s : Lease)
      → ((a : Active) → next ≡ active a → ⊥)
      → Current (continue (replace clock next s).0 (λ u. pure true) (replace clock next s).1)
  replaced-Current next s h = go (replace clock next s) (replace-snapshot next s)
    where
      go :
          (r : Result Failure (Unit {0}) × Lease)
          → r.1.snapshot ≡ next
          → Current (continue r.0 (λ u. pure true) r.1)
      go (ok u, t) e = λ a k. absurd (h a (sym e ∙ k))
      go (err c, t) e = tt

  end_lease-Current : (r : Reason) (s : Lease) → Current (end_lease clock r s)
  unfolding end_lease
  end_lease-Current r s = go (inactive_snapshot r (revision_of s.snapshot + 1)) refl
    where
      go :
          (o : Result Failure Snapshot)
          → inactive_snapshot r (revision_of s.snapshot + 1) ≡ o
          → Current (
              continue o
                (λ next t.
                  continue (replace clock next t).0 (λ u. pure true) (replace clock next t).1)
                s)
      go (ok x) e = replaced-Current x s (λ a k. ended r (revision_of s.snapshot + 1) x a e k)
      go (err c) e = tt

  decided :
      (b : Active) (now : ℕ) (t : Lease)
      → t.snapshot ≡ active b
      → now ≡ t.last_observed
      → Current ((if leb b.expires_at now then end_lease clock Reason.expired else pure false) t)
  decided b now t e n = elim (Bool-cases (leb b.expires_at now)) [
    | inl due ↦ rw due (end_lease-Current Reason.expired t)
    | inr early ↦ rw early (λ a k. ground (arith, e, n, k))
  ]

  expire_from-Current :
      (x : Snapshot) (s : Lease) → s.snapshot ≡ x → Current (expire_from clock x s)
  unfolding expire_from
  expire_from-Current (inactive r n) s e = λ a k. absurd (cc (e, k))
  expire_from-Current (active b) s e = go (read_now clock s).0 refl
    where
      go :
          (o : Result Failure ℕ)
          → (read_now clock s).0 ≡ o
          → Current (
              continue o
                (λ now. if leb b.expires_at now then end_lease clock Reason.expired else pure false)
                (read_now clock s).1)
      go (ok now) h =
          decided b now (read_now clock s).1 (read_now-snapshot s ∙ e) (read_now-ok clock s now h)
      go (err c) h = tt

  active_in_time :
      (r : Result Failure Bool × Lease) (a : Active) (s' : Lease)
      → Current r
      → continue r.0 (λ due. gets (λ t. t.snapshot)) r.1 ≡ (ok (active a), s')
      → s'.last_observed < a.expires_at
  active_in_time (ok due, t) a s' h e =
      subst (λ u. u.last_observed < a.expires_at) (ap (λ x. x.1) e)
        (h a (same_value t.snapshot (active a) (ok t.snapshot) refl (ap (λ x. x.0) e)))
  active_in_time (err c, t) a s' h e = absurd (cc e)

  pub read_snapshot-current :
      (s s' : Lease) (a : Active)
      → read_snapshot clock s ≡ (ok (active a), s')
      → s'.last_observed < a.expires_at
  unfolding read_snapshot expire_if_due
  read_snapshot-current s s' a e =
      active_in_time (expire_from clock s.snapshot s) a s' (expire_from-Current s.snapshot s refl) e
