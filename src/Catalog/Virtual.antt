-- ===== src/Catalog/Virtual.antt =====
-- packages/core/src/catalog/virtual-model.ts: a virtual model's definition and its entry. The
-- members of an entry that are the same for every model are left out.
use Prim.Native.Char.{code}
use gptsession_bridge.Shared.{
  ℕ, String, Bool, true, false, not, ◌&&◌, ◌||◌, List, [], ◌∷◌, map, Result, ok, err, ◌>>=◌, leb,
  nat_beq, contains, length, string_eq, if◌then◌else◌,
}
use gptsession_bridge.Protocol.Text.{utf16_length, all_chars, length_within}
use gptsession_bridge.Namespace.{is_lower_alphanumeric, is_canonical_web_model_reference}
use gptsession_bridge.Values.Strings.{is_trimmed}
use gptsession_bridge.Catalog.Codes.{Code, invalid_model}

pub record Effort : Type 0 where
  pub reasoning_effort : String
  pub description : String

pub record Definition : Type 0 where
  pub public_key : String
  pub display_name : String
  pub description : String
  pub efforts : List Effort
  pub default_effort : String

-- VirtualModelEntry
pub record Entry : Type 0 where
  pub id : String
  pub model : String
  pub display_name : String
  pub description : String
  pub efforts : List Effort
  pub default_effort : String

is_effort_char : ℕ → Bool
unfolding is_lower_alphanumeric
is_effort_char c = is_lower_alphanumeric c || nat_beq c b'_' || nat_beq c b'-'

-- EFFORT_ID_PATTERN
unfoldable pub is_effort_id : String → Bool
unfolding is_effort_char
is_effort_id String.[] = false
is_effort_id (String.◌∷◌ c s) =
    (leb b'a' (code c) && leb (code c) b'z')
    && (all_chars is_effort_char s && leb (utf16_length s) 31)

-- assertText
unfoldable pub is_text : ℕ → ℕ → String → Bool
is_text lo hi s = length_within lo hi s && is_trimmed s

-- The loop over the options, with the ids that it has seen.
unfoldable pub efforts_ok : List String → List Effort → Bool
unfolding is_effort_id is_text
efforts_ok seen [] = true
efforts_ok seen (e ∷ es) =
    is_effort_id e.reasoning_effort
    && (is_text 1 256 e.description
        && (not (contains seen e.reasoning_effort) && efforts_ok (e.reasoning_effort ∷ seen) es))

-- validateDefinition; every refusal is `invalid_model`.
unfoldable pub definition_ok : Definition → Bool
unfolding efforts_ok
definition_ok d =
    is_canonical_web_model_reference d.public_key
    && (is_text 1 128 d.display_name
        && (is_text 1 512 d.description
            && (leb 1 (length d.efforts)
                && (leb (length d.efforts) 16
                    && (efforts_ok [] d.efforts
                        && contains (map (λ e. e.reasoning_effort) d.efforts) d.default_effort)))))

abbrev pub entry_of : Definition → Entry
entry_of d = record {
  id = d.public_key;
  model = d.public_key;
  display_name = d.display_name;
  description = d.description;
  efforts = d.efforts;
  default_effort = d.default_effort;
}

-- createVirtualModelEntry
unfoldable pub create_entry : Definition → Result Code Entry
unfolding definition_ok
create_entry d = if definition_ok d then ok (entry_of d) else err invalid_model

-- `definitions.map(createVirtualModelEntry)`
unfoldable pub create_entries : List Definition → Result Code (List Entry)
unfolding create_entry
create_entries [] = ok []
create_entries (d ∷ ds) = do e ← create_entry d; es ← create_entries ds; ok (e ∷ es)
