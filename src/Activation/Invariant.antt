-- ===== src/Activation/Invariant.antt =====
-- A lease stays well formed, and its revision rises with every change.
use gptsession_bridge.Shared.{
  ℕ, ◌+◌, ◌-◌, ◌≤◌, ◌<◌, ◌≡◌, refl, sym, subst, ◌∙◌, true, Option, none, some, List, [], ◌∷◌, ◌++◌,
  Result, ok, err, leb, nat_eq, string_eq, arith, ◌⊎◌, inl, inr, Bool-cases,
}
use gptsession_bridge.Shared.Exec.{Exec, pure, modify, continue}
use gptsession_bridge.Protocol.Text.{max_safe_integer}
use gptsession_bridge.Activation.{
  Reason, Active, Snapshot, inactive, active, Failure, Lease, active_ok, inactive_snapshot,
  revision_of, max, read_from, read_now, schedule_for, schedule_current_expiry, replace, end_lease,
}

-- An active snapshot passes its schema and stems from no later than the last reading of the clock.
abbrev pub SnapshotOk : Snapshot → ℕ → Type 0
SnapshotOk (inactive r n) t = n ≤ max_safe_integer
SnapshotOk (active a) t = (active_ok a ≡ true) × (a.last_activity_at ≤ t)

abbrev pub TimerOk : Snapshot → Option ℕ → Type 0
TimerOk (inactive r n) t = t ≡ none
TimerOk (active a) t = Unit {0}

pub record IsLease (s : Lease) : Type 0 where
  pub snapshot_ok : SnapshotOk s.snapshot s.last_observed
  pub timer_ok : TimerOk s.snapshot s.timer

-- The snapshot is the same, or its revision is higher.
abbrev pub Rises : Snapshot → Snapshot → Type 0
Rises x y = (x ≡ y) ⊎ (revision_of x < revision_of y)

pub record Good (s s' : Lease) : Type 0 where
  pub lease : IsLease s'
  pub rises : Rises s.snapshot s'.snapshot
  pub later : s.last_observed ≤ s'.last_observed

-- Only the clock was read, or the timer set.
pub record Quiet (s s' : Lease) : Type 0 where
  pub lease : IsLease s'
  pub same : s'.snapshot ≡ s.snapshot
  pub later : s.last_observed ≤ s'.last_observed
  pub same_timer : s'.timer ≡ s.timer

SnapshotOk-later : (x : Snapshot) (t u : ℕ) → t ≤ u → SnapshotOk x t → SnapshotOk x u
SnapshotOk-later (inactive r n) t u l h = h
SnapshotOk-later (active a) t u l h = (h.0, omega (arith, h.1))

read_from-Quiet : (o : Option ℕ) (s : Lease) → IsLease s → Quiet s (read_from o s).1
unfolding read_from
read_from-Quiet none s v = record {
  lease = record { snapshot_ok = v.snapshot_ok; timer_ok = v.timer_ok };
  same = refl;
  later = omega arith;
  same_timer = refl;
}
read_from-Quiet (some now) s v = elim (Bool-cases (leb now max_safe_integer)) [
  | inl e ↦ rw e (record {
    lease = record {
      snapshot_ok =
          SnapshotOk-later s.snapshot s.last_observed (max s.last_observed now) (ground arith)
            v.snapshot_ok;
      timer_ok = v.timer_ok;
    };
    same = refl;
    later = ground arith;
    same_timer = refl;
  })
  | inr e ↦ rw e (record {
    lease = record { snapshot_ok = v.snapshot_ok; timer_ok = v.timer_ok };
    same = refl;
    later = omega arith;
    same_timer = refl;
  })
]

pub Rises-trans : (x y z : Snapshot) → Rises x y → Rises y z → Rises x z
Rises-trans x y z (inl e) k = subst (λ w. Rises w z) (sym e) k
Rises-trans x y z (inr l) (inl e) = inr (subst (λ w. revision_of x < revision_of w) e l)
Rises-trans x y z (inr l) (inr k) = inr (omega (arith, l, k))

pub Good-refl : (s : Lease) → IsLease s → Good s s
Good-refl s v = record { lease = v; rises = inl refl; later = omega arith }

pub Good-trans : (s t u : Lease) → Good s t → Good t u → Good s u
Good-trans s t u g h = record {
  lease = h.lease;
  rises = Rises-trans s.snapshot t.snapshot u.snapshot g.rises h.rises;
  later = omega (arith, g.later, h.later);
}

pub Quiet-Good : (s t : Lease) → Quiet s t → Good s t
Quiet-Good s t q = record { lease = q.lease; rises = inl (sym q.same); later = q.later }

pub continue-Good {ℓ κ} :
    {A : Type ℓ} {B : Type κ} (s t : Lease) (r : Result Failure A) (f : A → Exec Lease Failure B)
    → Good s t
    → ((a : A) → r ≡ ok a → Good s (f a t).1)
    → Good s (continue r f t).1
continue-Good s t (ok a) f g h = h a refl
continue-Good s t (err e) f g h = g

module _ (clock : ℕ → Option ℕ) where
  pub read_now-Quiet : (s : Lease) → IsLease s → Quiet s (read_now clock s).1
  unfolding read_now
  read_now-Quiet s v = read_from-Quiet (clock s.ticks) s v

  timed :
      (a : Active) (s : Lease) (o : Option ℕ)
      → s.snapshot ≡ active a
      → IsLease s
      → IsLease (record s { timer = o })
  timed a s o e v = record {
    snapshot_ok = v.snapshot_ok;
    timer_ok = subst (λ x. TimerOk x o) (sym e) tt;
  }

  schedule_for-Good :
      (x : Snapshot) (t : Option ℕ) (s : Lease)
      → s.snapshot ≡ x
      → IsLease s
      → Good s (schedule_for clock x t s).1
  unfolding schedule_for
  schedule_for-Good (active a) none s e v =
      let q = read_now-Quiet s v in
      continue-Good s (read_now clock s).1 (read_now clock s).0
        (λ now. modify (λ u. record u { timer = some (a.expires_at - now) }))
        (Quiet-Good s (read_now clock s).1 q)
        (λ now h. record {
          lease = timed a (read_now clock s).1 (some (a.expires_at - now)) (q.same ∙ e) q.lease;
          rises = inl (sym q.same);
          later = q.later;
        })
  schedule_for-Good other t s e v = Good-refl s v

  pub schedule-Good : (s : Lease) → IsLease s → Good s (schedule_current_expiry clock s).1
  unfolding schedule_current_expiry
  schedule-Good s v = schedule_for-Good s.snapshot s.timer s refl v

  told : (s : Lease) (cs : List Snapshot) → IsLease s → IsLease (record s { changes = cs })
  told s cs v = record { snapshot_ok = v.snapshot_ok; timer_ok = v.timer_ok }

  pub no_timer : (x : Snapshot) → TimerOk x none
  no_timer (inactive r n) = refl
  no_timer (active a) = tt

  replace-Good :
      (next : Snapshot) (s : Lease)
      → SnapshotOk next s.last_observed
      → revision_of s.snapshot < revision_of next
      → Good s (replace clock next s).1
  unfolding replace
  replace-Good next s k l =
      let t : Lease = record s { timer = none; snapshot = next } in
      let g : Good s t = record {
        lease = record { snapshot_ok = k; timer_ok = no_timer next };
        rises = inr l;
        later = omega arith;
      } in
      let h = Good-trans s t (schedule_current_expiry clock t).1 g (schedule-Good t g.lease) in
      continue-Good s (schedule_current_expiry clock t).1 (schedule_current_expiry clock t).0
        (λ u. modify (λ v. record v { changes = v.changes ++ next ∷ [] })) h
        (λ u e. record {
          lease =
              told (schedule_current_expiry clock t).1
                ((schedule_current_expiry clock t).1.changes ++ next ∷ []) h.lease;
          rises = h.rises;
          later = h.later;
        })

  inactive_snapshot-ok :
      (r : Reason) (n t : ℕ) (x : Snapshot)
      → inactive_snapshot r n ≡ ok x
      → SnapshotOk x t × (revision_of x ≡ n)
  unfolding inactive_snapshot
  inactive_snapshot-ok r n t (inactive q m) h = ground arith
  inactive_snapshot-ok r n t (active a) h = absurd (ground arith)

  pub replace_then {ℓ} :
      {A : Type ℓ} (next : Snapshot) (s : Lease) (a : A)
      → SnapshotOk next s.last_observed
      → revision_of s.snapshot < revision_of next
      → Good s (continue (replace clock next s).0 (λ u. pure a) (replace clock next s).1).1
  replace_then next s a k l =
      let g = replace-Good next s k l in
      continue-Good s (replace clock next s).1 (replace clock next s).0 (λ u. pure a) g (λ u e. g)

  pub end_lease-Good : (r : Reason) (s : Lease) → IsLease s → Good s (end_lease clock r s).1
  unfolding end_lease
  end_lease-Good r s v =
      continue-Good s s (inactive_snapshot r (revision_of s.snapshot + 1))
        (λ next t. continue (replace clock next t).0 (λ u. pure true) (replace clock next t).1)
        (Good-refl s v)
        (λ next e.
          let (k, n) = inactive_snapshot-ok r (revision_of s.snapshot + 1) s.last_observed next e in
          replace_then next s true k (omega (arith, n)))
