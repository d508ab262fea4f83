-- ===== src/Routing/Quarantine.antt =====
-- The counter of provisional threads agrees with the pending requests that quarantine each.
use gptsession_bridge.Shared.{
  ℕ, ◌+◌, ◌-◌, ◌≡◌, String, Bool, Option, none, some, nat_beq, arith, string_eq, option_eq, ◌==◌,
  ==_iff, if◌then◌else◌,
}
use gptsession_bridge.Shared.Table.{
  Table, get, Distinct, get-set, get-delete, Distinct-set, Distinct-delete,
}
use gptsession_bridge.Routing.State.{quarantine, release_quarantine, count_or_zero}

-- The entry that stands for a count: none for zero.
abbrev pub entry : ℕ → Option ℕ
entry n = if nat_beq n 0 then none else some n

abbrev pub bit : Bool → ℕ
bit b = if b then 1 else 0

pub quarantine-Distinct :
    (q : Option String) (m : Table String ℕ) → Distinct m → Distinct (quarantine q m)
unfolding quarantine
quarantine-Distinct none m d = d
quarantine-Distinct (some u) m d = Distinct-set m u _ d

pub release_quarantine-Distinct :
    (q : Option String) (m : Table String ℕ) → Distinct m → Distinct (release_quarantine q m)
unfolding release_quarantine
release_quarantine-Distinct none m d = d
release_quarantine-Distinct (some u) m d =
    ground (arith, Distinct-delete m u d, Distinct-set m u (count_or_zero (get m u) - 1) d)

pub get-quarantine :
    (q : Option String) (m : Table String ℕ) (t : String) (n : String → ℕ)
    → ((u : String) → get m u ≡ entry (n u))
    → get (quarantine q m) t ≡ entry (n t + bit (q == some t))
unfolding quarantine
get-quarantine none m t n h = ground (arith, h t)
get-quarantine (some u) m t n h =
    ground (arith, h t, h u, ==_iff u t, get-set m u t (count_or_zero (get m u) + 1))

pub get-release_quarantine :
    (q : Option String) (m : Table String ℕ) (t : String) (n : String → ℕ)
    → Distinct m
    → ((u : String) → get m u ≡ entry (n u + bit (q == some u)))
    → get (release_quarantine q m) t ≡ entry (n t)
unfolding release_quarantine
get-release_quarantine none m t n d h = ground (arith, h t)
get-release_quarantine (some u) m t n d h = ground (
  arith,
  h t,
  h u,
  ==_iff u t,
  ==_iff u u,
  get-set m u t (count_or_zero (get m u) - 1),
  get-delete m u t d,
)
