-- ===== src/Routing/Listed.antt =====
-- The registry holds the definitions that it was given, each under its public model.
use gptsession_bridge.Shared.{
  ℕ, ◌≡◌, ◌∙◌, ◌≤◌, String, true, false, List, [], ◌∷◌, some, ok, arith, string_eq, ==_iff, ==_refl,
  length,
}
use gptsession_bridge.Shared.Table.{get, has, set, get-set, has_of_get}
use gptsession_bridge.Routing.Registry.{
  Definition, Models, definition_ok, add_definitions, normalize_definitions,
}

-- Every entry passes the checks and stands under its own public model.
abbrev pub AllListed : Models → Type 0
AllListed m =
    (k : String) (d : Definition)
    → get m k ≡ some d
    → (definition_ok d ≡ true) × (d.public_model ≡ k)

set-AllListed :
    (m : Models) (d : Definition)
    → definition_ok d ≡ true
    → AllListed m
    → AllListed (set m d.public_model d)
set-AllListed m d good h k e found =
    ground (arith, get-set m d.public_model k d, h k e, ==_iff d.public_model k)

add_definitions-cons :
    (d : Definition) (ds : List Definition) (m n : Models)
    → add_definitions (d ∷ ds) m ≡ ok n
    → (definition_ok d ≡ true)
      × (has m d.public_model ≡ false)
      × (add_definitions ds (set m d.public_model d) ≡ ok n)
unfolding add_definitions
add_definitions-cons d ds m n h = ground arith

add_definitions-AllListed :
    (ds : List Definition) (m n : Models) → AllListed m → add_definitions ds m ≡ ok n → AllListed n
add_definitions-AllListed [] m n a h = unfold add_definitions in ground arith
add_definitions-AllListed (d ∷ ds) m n a h =
    let (good, fresh, rest) = add_definitions-cons d ds m n h in
    add_definitions-AllListed ds (set m d.public_model d) n (set-AllListed m d good a) rest

-- What stands under a public model stays there.
add_definitions-keeps :
    (ds : List Definition) (m n : Models) (k : String) (e : Definition)
    → get m k ≡ some e
    → add_definitions ds m ≡ ok n
    → get n k ≡ some e
add_definitions-keeps [] m n k e g h = unfold add_definitions in ground arith
add_definitions-keeps (d ∷ ds) m n k e g h =
    let (good, fresh, rest) = add_definitions-cons d ds m n h in
    add_definitions-keeps ds (set m d.public_model d) n k e
      (ground (arith, get-set m d.public_model k d, ==_iff d.public_model k, has_of_get m k e g))
      rest

-- The definitions of a list, all found under their own public model.
abbrev pub AllFound : List Definition → Models → Type 0
AllFound [] m = Unit {0}
AllFound (d ∷ ds) m = (get m d.public_model ≡ some d) × AllFound ds m

add_definitions-AllFound :
    (ds : List Definition) (m n : Models) → add_definitions ds m ≡ ok n → AllFound ds n
add_definitions-AllFound [] m n h = tt
add_definitions-AllFound (d ∷ ds) m n h =
    let (good, fresh, rest) = add_definitions-cons d ds m n h in
    (
      add_definitions-keeps ds (set m d.public_model d) n d.public_model d
          (get-set m d.public_model d.public_model d ∙ rw (==_refl d.public_model)) rest,
      add_definitions-AllFound ds (set m d.public_model d) n rest,
    )

-- An accepted list of definitions fits the limit, each is found under its public model, and every
-- entry found passes the checks and stands under its own public model.
pub normalize_definitions-AllFound :
    (ds : List Definition) (max_entries : ℕ) (m : Models)
    → normalize_definitions ds max_entries ≡ ok m
    → (length ds ≤ max_entries) × AllFound ds m × AllListed m
unfolding normalize_definitions
normalize_definitions-AllFound ds max_entries m h =
    let (fits, added) : (length ds ≤ max_entries) × (add_definitions ds [] ≡ ok m) = ground arith in
    (
      fits,
      add_definitions-AllFound ds [] m added,
      add_definitions-AllListed ds [] m (λ k d g. unfold get in absurd cc) added,
    )
