-- ===== src/Transport/Outcome.antt =====
-- A stream that is pushed chunk by chunk into one of the decoders, up to the first throw: a push
-- hands its messages out, whatever a later one throws.
use gptsession_bridge.Shared.{List, [], ◌++◌, Option, none, some, Result, ok, err}
use gptsession_bridge.Transport.Codes.{Code}

pub record Outcome {ℓ} (A : Type ℓ) (D : Type 0) : Type ℓ where
  pub handed : List A
  pub thrown : Option Code
  pub left : D

module _ {ℓ} {A : Type ℓ} {D : Type 0} where
  abbrev pub ended : D → Outcome A D
  ended d = record { handed = []; thrown = none; left = d }

  abbrev pub also : List A → Outcome A D → Outcome A D
  also fs o = record o { handed = fs ++ o.handed }

  -- What follows a push, by its result.
  abbrev pub after : (D → Outcome A D) → Result Code (List A) × D → Outcome A D
  after more (ok fs, d) = also fs (more d)
  after more (err c, d) = record { handed = []; thrown = some c; left = d }
