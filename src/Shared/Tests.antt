-- ===== src/Shared/Tests.antt =====
-- Boolean tests on native numbers and texts, the conditional, and equality as an interface.
use Prim.Native.Nat.{ℕ, compare, Ordering}
use Prim.Native.String.{String}
use mathlib.Core.Path.{◌≡◌, refl}
use mathlib.Core.Logic.{◌↔◌, ◌⊎◌, inl, inr}
use mathlib.Core.Bool.{Bool, true, false}
use mathlib.Core.Option.{Option, none, some}
use native.Mathlib.Omega.{arith}
use text.Mathlib.Text.{◌==◌ as str_eq}
use text.Mathlib.TextEquality.{eq_iff}

-- These compute to `compare`, which `ground` and `grind` read with no lemma listed.
abbrev pub ltb : ℕ → ℕ → Bool
ltb a b = elim (compare a b) [ Ordering.lt ↦ true | _ ↦ false ]

abbrev pub leb : ℕ → ℕ → Bool
leb a b = elim (compare a b) [ Ordering.gt ↦ false | _ ↦ true ]

abbrev pub nat_beq : ℕ → ℕ → Bool
nat_beq a b = elim (compare a b) [ Ordering.eq ↦ true | _ ↦ false ]

infix 1 if◌then◌else◌
abbrev pub if◌then◌else◌ {ℓ} : {A : Type ℓ} → Bool → A → A → A
if true then x else y = x
if false then x else y = y

pub nat_beq_iff : (a b : ℕ) → (nat_beq a b ≡ true) ↔ (a ≡ b)
nat_beq_iff a b = ground arith

-- To split on a computed value and keep the equation.
pub Bool-cases : (b : Bool) → (b ≡ true) ⊎ (b ≡ false)
Bool-cases true = inl refl
Bool-cases false = inr refl

pub Option-cases {ℓ} : {A : Type ℓ} (o : Option A) → (o ≡ none) ⊎ ((a : A) × (o ≡ some a))
Option-cases none = inl refl
Option-cases (some a) = inr (a, refl)

-- `===` of the source on a type whose values it compares.
pub record Eq {ℓ} (A : Type ℓ) : Type ℓ where
  pub agrees : A → A → Bool
  pub agrees_iff : (a b : A) → (agrees a b ≡ true) ↔ (a ≡ b)

infix 50 ◌==◌
abbrev pub ◌==◌ {ℓ} : {A : Type ℓ} ⦃e : Eq A⦄ → A → A → Bool
◌==◌ ⦃e⦄ = e.agrees

instance abbrev pub string_eq : Eq String
string_eq = record { agrees_iff = eq_iff; agrees = str_eq }

instance abbrev pub nat_eq : Eq ℕ
nat_eq = record { agrees = nat_beq; agrees_iff = nat_beq_iff }

-- An enumeration's `===` is its decision.
abbrev pub discrete_beq {ℓ} : {A : Type ℓ} → Discrete A → A → A → Bool
discrete_beq d a b = elim (d a b) [ yes _ ↦ true | no _ ↦ false ]

pub discrete_beq_iff {ℓ} :
    {A : Type ℓ} (d : Discrete A) (a b : A) → (discrete_beq d a b ≡ true) ↔ (a ≡ b)
discrete_beq_iff d a b = ground arith

abbrev pub discrete_eq {ℓ} : {A : Type ℓ} → Discrete A → Eq A
discrete_eq d = record { agrees = discrete_beq d; agrees_iff = discrete_beq_iff d }

module _ {ℓ} {A : Type ℓ} ⦃e : Eq A⦄ where
  pub ==_iff : (a b : A) → ((a == b) ≡ true) ↔ (a ≡ b)
  ==_iff = e.agrees_iff

  pub ==_refl : (a : A) → (a == a) ≡ true
  ==_refl a = (e.agrees_iff a a).1 refl

  abbrev pub opt_beq : Option A → Option A → Bool
  opt_beq none none = true
  opt_beq none (some b) = false
  opt_beq (some a) none = false
  opt_beq (some a) (some b) = a == b

  pub opt_beq_iff : (a b : Option A) → (opt_beq a b ≡ true) ↔ (a ≡ b)
  opt_beq_iff none none = ground arith
  opt_beq_iff none (some b) = ground arith
  opt_beq_iff (some a) none = ground arith
  opt_beq_iff (some a) (some b) = ground (arith, ==_iff a b)

instance abbrev pub option_eq {ℓ} : {A : Type ℓ} ⦃e : Eq A⦄ → Eq (Option A)
option_eq = record { agrees = opt_beq; agrees_iff = opt_beq_iff }
