-- ===== src/Activation/Examples.antt =====
-- A lease at work, and the runs of its theorems on it.
use gptsession_bridge.Shared.{ℕ, ◌+◌, ◌<◌, refl, List, [], ◌∷◌, Option, some}
use gptsession_bridge.Activation.{
  Binding, Active, Lease, Call, reads, fires, activates, ends, disclosure_version, initial, run,
  Reason, read_snapshot, active,
}
use gptsession_bridge.Activation.Invariant.{Good}
use gptsession_bridge.Activation.Run.{initial-run-Good}
use gptsession_bridge.Activation.Current.{read_snapshot-current}

abbrev clock : ℕ → Option ℕ
clock n = some (1000 + n)

abbrev tab : Binding
tab = record { document_id = "doc-1"; generation = 1; tab_id = 7 }

abbrev opening : List Call
opening = activates tab disclosure_version "owner-1" "lease-1" ∷ fires ∷ []

abbrev closing : List Call
closing = reads ∷ ends Reason.deactivated ∷ []

initial-run-Good_example :
    Good (run clock opening initial) (run clock closing (run clock opening initial))
initial-run-Good_example = initial-run-Good clock opening closing

abbrev lease : Active
lease = record {
  binding = tab;
  ownership_id = "owner-1";
  issued_at = 1000;
  last_activity_at = 1000;
  expires_at = 901000;
  lease_id = "lease-1";
  revision = 1;
}

abbrev held : Lease
held = record initial {
  ticks = 2;
  last_observed = 1001;
  snapshot = active lease;
  timer = some 899999;
}

read_snapshot-current_example : 1002 < 901000
unfolding read_snapshot
read_snapshot-current_example =
    read_snapshot-current clock held (record held { ticks = 3; last_observed = 1002 }) lease refl
