-- ===== src/Routing/Registry.antt =====
-- packages/core/src/routing/model-registry.ts.
use gptsession_bridge.Shared.{
  ℕ, String, Bool, not, ◌&&◌, List, [], ◌∷◌, Option, none, some, Result, ok, err, throw_if, ◌>>=◌,
  ◌>>◌, length, leb, ltb, all, contains, all_distinct, string_eq, if◌then◌else◌,
}
use gptsession_bridge.Shared.Table.{Table, get, has, set}
use gptsession_bridge.Protocol.Text.{utf16_length, length_within, is_model_char, matches_id}
use gptsession_bridge.Namespace.{
  is_canonical_web_model_reference, is_canonical_web_provider_model_reference,
}
use gptsession_bridge.Routing.Codes.{Code, invalid_configuration}

-- VirtualModelRouteDefinition
pub record Definition : Type 0 where
  pub catalog_revision : String
  pub default_reasoning_effort : String
  pub provider_model : String
  pub public_model : String
  pub supported_reasoning_efforts : List String

abbrev pub Models : Type 0
Models = Table String Definition

unfoldable pub is_identifier : String → Bool
unfolding utf16_length
is_identifier = length_within 1 256

-- readProviderModel: PROVIDER_MODEL_PATTERN is the pattern of model ids.
unfoldable pub is_provider_model : String → Bool
unfolding is_identifier is_model_char matches_id
is_provider_model s =
    is_identifier s && (matches_id is_model_char s && is_canonical_web_provider_model_reference s)

-- readReasoningEfforts
unfoldable pub efforts_ok : List String → Bool
unfolding is_identifier
efforts_ok xs =
    leb 1 (length xs) && (leb (length xs) 16 && (all is_identifier xs && all_distinct xs))

-- The checks of one definition that do not depend on the others.
unfoldable pub definition_ok : Definition → Bool
unfolding is_provider_model efforts_ok
definition_ok d =
    is_identifier d.catalog_revision
    && (is_identifier d.default_reasoning_effort
        && (is_provider_model d.provider_model
            && (is_identifier d.public_model
                && (efforts_ok d.supported_reasoning_efforts
                    && (contains d.supported_reasoning_efforts d.default_reasoning_effort
                        && is_canonical_web_model_reference d.public_model)))))

-- The loop of normalizeDefinitions.
unfoldable pub add_definitions : List Definition → Models → Result Code Models
add_definitions [] m = ok m
add_definitions (d ∷ ds) m =
    let rest = add_definitions ds (set m d.public_model d) in
    if definition_ok d && not (has m d.public_model) then rest else err invalid_configuration

unfoldable pub normalize_definitions : List Definition → ℕ → Result Code Models
unfolding add_definitions
normalize_definitions ds max_entries =
    if ltb max_entries (length ds) then err invalid_configuration else add_definitions ds []

-- ExactVirtualModelRegistry: a fixed table, or a source that is read anew at each lookup. `none` is
-- a source that does not return an array.
pub data Registry : Type 0 where
  fixed : Models → Registry
  sourced : ℕ → Option (List Definition) → Registry

-- #readModels
unfoldable pub read_models : Registry → Result Code Models
unfolding normalize_definitions
read_models (fixed m) = ok m
read_models (sourced max_entries none) = err invalid_configuration
read_models (sourced max_entries (some ds)) = normalize_definitions ds max_entries

-- get(publicModel)
unfoldable pub lookup_model : Registry → String → Result Code (Option Definition)
unfolding read_models
lookup_model r model = do models ← read_models r; ok (get models model)

-- `selectedModel === null ? undefined : this.#models.get(selectedModel)`
unfoldable pub lookup_selected : Registry → Option String → Result Code (Option Definition)
unfolding lookup_model
lookup_selected r none = ok none
lookup_selected r (some model) = lookup_model r model

-- The constructor on a fixed list.
unfoldable pub create_fixed : List Definition → ℕ → Result Code Registry
unfolding normalize_definitions
create_fixed ds max_entries = do
  throw_if (ltb max_entries 1) invalid_configuration
  models ← normalize_definitions ds max_entries
  ok (fixed models)
