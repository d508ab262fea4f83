-- ===== src/Catalog/Setup.antt =====
-- packages/core/src/catalog/model-catalog.ts: the constructor of `VirtualModelCatalog`, and its
-- two queries of the virtual models.
use gptsession_bridge.Shared.{
  ℕ, String, Bool, true, false, Option, none, some, List, [], ◌∷◌, Result, ok, err, ◌>>=◌,
  string_eq, ◌==◌, if◌then◌else◌,
}
use gptsession_bridge.Catalog.Codes.{Code, invalid_configuration}
use gptsession_bridge.Catalog.Cursors.{create_store}
use gptsession_bridge.Catalog.Virtual.{Definition, Entry, create_entries}
use gptsession_bridge.Catalog.Models.{Catalog, normalize_limit, checked, read_virtual_models}

-- SYNTHETIC_WEB_MODEL_DEFINITION
abbrev pub synthetic_definition : Definition
synthetic_definition = record {
  public_key = "gptsessionbridge/web/example-model";
  display_name = "Web · Example Model";
  description = "Synthetic Web route for validating the local bridge.";
  efforts =
      record { reasoning_effort = "low"; description = "Light reasoning" }
      ∷ record { reasoning_effort = "medium"; description = "Balanced reasoning" }
      ∷ record { reasoning_effort = "high"; description = "Deeper reasoning" }
      ∷ [];
  default_effort = "medium";
}

-- VirtualModelCatalogOptions, with what the source returns when the constructor calls it, where
-- there is a source.
pub record CatalogOptions : Type 0 where
  pub max_entries : ℕ
  pub ttl : ℕ
  pub prefix : Option String
  pub default_limit : Option (Option ℕ)
  pub virtual_models : Option (List Definition)
  pub source : Option (Option (List Definition))

default_of : Option (Option ℕ) → Option ℕ
default_of none = some 100
default_of (some n) = n

definitions_of : Option (List Definition) → List Definition
definitions_of none = synthetic_definition ∷ []
definitions_of (some ds) = ds

fixed_models :
    Option (List Definition) → Option (Option (List Definition)) → Result Code (Option (List Entry))
unfolding definitions_of checked read_virtual_models
fixed_models (some ds) (some source) = err invalid_configuration
fixed_models given none = do es ← checked (create_entries (definitions_of given)); ok (some es)
fixed_models none (some source) = do es ← read_virtual_models none source; ok none

unfoldable pub create_catalog : CatalogOptions → Result Code Catalog
unfolding default_of normalize_limit fixed_models create_store
create_catalog o = do
  limit ← normalize_limit (default_of o.default_limit)
  store ← create_store o.max_entries o.ttl o.prefix
  fixed ← fixed_models o.virtual_models o.source
  ok (record { store = store; default_limit = limit; fixed = fixed })

has_id : String → List Entry → Bool
has_id key [] = false
has_id key (e ∷ es) = if e.id == key then true else has_id key es

-- hasPublicKey
unfoldable pub has_public_key : String → Option (List Definition) → Catalog → Result Code Bool
unfolding has_id
has_public_key key source c = do es ← read_virtual_models c.fixed source; ok (has_id key es)

-- listVirtualModels
unfoldable pub list_virtual_models : Option (List Definition) → Catalog → Result Code (List Entry)
list_virtual_models source c = read_virtual_models c.fixed source
