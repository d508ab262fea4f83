-- ===== src/Activation.antt =====
-- apps/browser-extension/src/activation/tool-activation-lease.ts, `ToolActivationLease`, and the
-- snapshots of apps/browser-extension/src/protocol/tool-activation.ts. `clock` gives what the n-th
-- reading of the clock returns: `none` where that is no natural number. Listeners are told in the
-- order of `changes`; the timer is the delay that it was set to.
pub mod Invariant
pub mod Run
pub mod Current
mod Examples
use gptsession_bridge.Shared.{
  ℕ, ◌+◌, ◌-◌, String, Bool, true, false, not, ◌&&◌, Option, none, some, List, [], ◌∷◌, ◌++◌,
  Result, ok, err, leb, nat_eq, string_eq, ◌==◌, if◌then◌else◌,
}
use gptsession_bridge.Shared.Exec.{Exec, pure, lift, gets, modify, ◌>>=◌, ◌>>◌}
use gptsession_bridge.Protocol.Text.{max_safe_integer, opaque_id}

abbrev pub timeout : ℕ
timeout = 900000

abbrev pub disclosure_version : String
disclosure_version = "visible-chat-data-v1"

-- ToolActivationReason without `user_activated`.
pub data Reason : Type 0 where
  deactivated disconnected document_replaced expired extension_restart : Reason

pub record Binding : Type 0 where
  pub document_id : String
  pub generation : ℕ
  pub tab_id : ℕ

-- ActiveToolActivationSnapshot; the members that are constants are left out.
pub record Active : Type 0 where
  pub binding : Binding
  pub ownership_id : String
  pub issued_at : ℕ
  pub last_activity_at : ℕ
  pub expires_at : ℕ
  pub lease_id : String
  pub revision : ℕ

pub data Snapshot : Type 0 where
  inactive : Reason → ℕ → Snapshot
  active : Active → Snapshot

pub data Failure : Type 0 where
  invalid_timestamp invalid_state : Failure

pub record Lease : Type 0 where
  -- How often the clock was read.
  pub ticks : ℕ
  pub last_observed : ℕ
  pub snapshot : Snapshot
  pub timer : Option ℕ
  pub changes : List Snapshot

-- parseBinding
unfoldable pub binding_ok : Binding → Bool
binding_ok b =
    opaque_id 256 b.document_id
    && (leb b.generation max_safe_integer && leb b.tab_id max_safe_integer)

-- parseToolActivationSnapshot, on an active snapshot.
unfoldable pub active_ok : Active → Bool
unfolding binding_ok
active_ok a =
    leb a.revision max_safe_integer
    && (binding_ok a.binding
        && (opaque_id 128 a.ownership_id
            && (leb a.issued_at a.last_activity_at
                && (leb a.last_activity_at (max_safe_integer - timeout)
                    && (a.expires_at == a.last_activity_at + timeout
                        && opaque_id 128 a.lease_id)))))

-- createInactiveSnapshot
unfoldable pub inactive_snapshot : Reason → ℕ → Result Failure Snapshot
inactive_snapshot reason n =
    if leb n max_safe_integer then ok (inactive reason n) else err invalid_state

abbrev pub revision_of : Snapshot → ℕ
revision_of (inactive reason n) = n
revision_of (active a) = a.revision

abbrev pub initial : Lease
initial = record {
  ticks = 0;
  last_observed = 0;
  snapshot = inactive Reason.extension_restart 0;
  timer = none;
  changes = [];
}

abbrev pub max : ℕ → ℕ → ℕ
max a b = if leb a b then b else a

same_binding : Binding → Binding → Bool
same_binding b c =
    b.document_id == c.document_id && (b.generation == c.generation && b.tab_id == c.tab_id)

-- sameActiveSnapshot
unfoldable pub same_active : Active → Active → Bool
unfolding same_binding
same_active a b =
    same_binding a.binding b.binding
    && (a.ownership_id == b.ownership_id
        && (a.expires_at == b.expires_at
            && (a.issued_at == b.issued_at
                && (a.last_activity_at == b.last_activity_at
                    && (a.lease_id == b.lease_id && a.revision == b.revision)))))

read_from : Option ℕ → Exec Lease Failure ℕ
read_from none s = (err invalid_timestamp, record s { ticks = s.ticks + 1 })
read_from (some now) s =
    if leb now max_safe_integer
    then (
      ok (max s.last_observed now),
      record s { ticks = s.ticks + 1; last_observed = max s.last_observed now },
    )
    else (err invalid_timestamp, record s { ticks = s.ticks + 1 })

pub data Call : Type 0 where
  reads fires : Call
  activates : Binding → String → String → String → Call
  ends : Reason → Call
  notes : Active → Call

module _ (clock : ℕ → Option ℕ) where
  -- #readNow
  unfoldable pub read_now : Exec Lease Failure ℕ
  unfolding read_from
  read_now s = read_from (clock s.ticks) s

  schedule_for : Snapshot → Option ℕ → Exec Lease Failure (Unit {0})
  unfolding read_now
  schedule_for (active a) none = do
    now ← read_now
    modify (λ s. record s { timer = some (a.expires_at - now) })
  schedule_for other t = pure tt

  -- #scheduleCurrentExpiry
  unfoldable pub schedule_current_expiry : Exec Lease Failure (Unit {0})
  unfolding schedule_for
  schedule_current_expiry s = schedule_for s.snapshot s.timer s

  -- #replace
  unfoldable pub replace : Snapshot → Exec Lease Failure (Unit {0})
  unfolding schedule_current_expiry
  replace next = do
    modify (λ s. record s { timer = none; snapshot = next })
    schedule_current_expiry
    modify (λ s. record s { changes = s.changes ++ next ∷ [] })

  -- A change to an inactive snapshot under the next revision.
  unfoldable pub end_lease : Reason → Exec Lease Failure Bool
  unfolding inactive_snapshot replace
  end_lease reason = do
    n ← gets (λ s. revision_of s.snapshot)
    next ← lift (inactive_snapshot reason (n + 1))
    replace next
    pure true

  expire_from : Snapshot → Exec Lease Failure Bool
  unfolding read_now end_lease
  expire_from (inactive reason n) = pure false
  expire_from (active a) = do
    now ← read_now
    if leb a.expires_at now then end_lease Reason.expired else pure false

  -- #expireIfDue
  unfoldable pub expire_if_due : Exec Lease Failure Bool
  unfolding expire_from
  expire_if_due s = expire_from s.snapshot s

  -- The getter `snapshot`.
  unfoldable pub read_snapshot : Exec Lease Failure Snapshot
  unfolding expire_if_due
  read_snapshot = do due ← expire_if_due; gets (λ s. s.snapshot)

  offer : Active → Exec Lease Failure Bool
  unfolding active_ok replace
  offer a = if active_ok a then (do replace (active a); pure true) else pure false

  activate_from : Snapshot → Binding → String → String → String → Exec Lease Failure Bool
  unfolding read_now offer
  activate_from (active a) binding version ownership lease = pure false
  activate_from (inactive reason n) binding version ownership lease =
      if version == disclosure_version
      then (do
        now ← read_now
        offer (record {
          binding = binding;
          ownership_id = ownership;
          issued_at = now;
          last_activity_at = now;
          expires_at = now + timeout;
          lease_id = lease;
          revision = n + 1;
        }))
      else pure false

  -- `activate`, with the two ids that are made for it.
  unfoldable pub activate : Binding → String → String → String → Exec Lease Failure Bool
  unfolding expire_if_due activate_from
  activate binding version ownership lease = do
    due ← expire_if_due
    now ← gets (λ s. s.snapshot)
    activate_from now binding version ownership lease

  end_from : Reason → Snapshot → Exec Lease Failure Bool
  unfolding end_lease
  end_from reason (inactive r n) = pure false
  end_from reason (active a) = end_lease reason

  -- deactivate, and invalidate with its reason.
  unfoldable pub deactivate : Reason → Exec Lease Failure Bool
  unfolding expire_if_due end_from
  deactivate reason = do due ← expire_if_due; now ← gets (λ s. s.snapshot); end_from reason now

  note_from : Active → Snapshot → Exec Lease Failure Bool
  unfolding same_active read_now offer
  note_from expected (inactive r n) = pure false
  note_from expected (active a) =
      if same_active a expected
      then (do
        now ← read_now
        let at = max now a.last_activity_at
        offer (record a {
          expires_at = at + timeout;
          last_activity_at = at;
          revision = a.revision + 1;
        }))
      else pure false

  unfoldable pub note_agent_activity : Active → Exec Lease Failure Bool
  unfolding expire_if_due note_from
  note_agent_activity expected = do
    due ← expire_if_due
    now ← gets (λ s. s.snapshot)
    note_from expected now

  -- The callback of the timer.
  unfoldable pub timer_fires : Exec Lease Failure (Unit {0})
  unfolding expire_if_due schedule_current_expiry
  timer_fires = do
    modify (λ s. record s { timer = none })
    due ← expire_if_due
    if due then pure tt else schedule_current_expiry

  unfoldable pub step : Call → Exec Lease Failure (Unit {0})
  unfolding read_snapshot activate deactivate note_agent_activity timer_fires
  step reads = read_snapshot >> pure tt
  step (activates binding version ownership lease) =
      activate binding version ownership lease >> pure tt
  step (ends reason) = deactivate reason >> pure tt
  step (notes expected) = note_agent_activity expected >> pure tt
  step fires = timer_fires

  unfoldable pub run : List Call → Lease → Lease
  unfolding step
  run [] s = s
  run (c ∷ cs) s = run cs (step c s).1
