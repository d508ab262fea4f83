-- ===== src/Protocol/Models.antt =====
-- The model descriptors and browser capabilities of packages/protocol/src/native-messaging.ts.
use gptsession_bridge.Shared.{
  String, Bool, ◌&&◌, ◌||◌, List, map, length, leb, nat_beq, all, contains, all_distinct, string_eq,
}
use gptsession_bridge.Protocol.Text.{opaque_id, model_id, safe_text}

pub record ReasoningEffortOption : Type 0 where
  pub reasoning_effort : String
  pub description : String

unfoldable pub reasoning_effort_ok : String → Bool
reasoning_effort_ok = opaque_id 64

unfoldable pub reasoning_effort_option_ok : ReasoningEffortOption → Bool
unfolding reasoning_effort_ok
reasoning_effort_option_ok o = reasoning_effort_ok o.reasoning_effort && safe_text 256 o.description

-- `inputModalities` is the one tuple `["text"]`, so it carries nothing.
pub record WebModelDescriptor : Type 0 where
  pub id : String
  pub display_name : String
  pub supported_reasoning_efforts : List ReasoningEffortOption
  pub default_reasoning_effort : String

abbrev pub effort_ids : WebModelDescriptor → List String
effort_ids m = map (λ o. o.reasoning_effort) m.supported_reasoning_efforts

unfoldable pub web_model_descriptor_ok : WebModelDescriptor → Bool
unfolding reasoning_effort_option_ok reasoning_effort_ok
web_model_descriptor_ok m =
    model_id m.id
    && (safe_text 128 m.display_name
        && (leb 1 (length m.supported_reasoning_efforts)
            && (leb (length m.supported_reasoning_efforts) 16
                && (all reasoning_effort_option_ok m.supported_reasoning_efforts
                    && (reasoning_effort_ok m.default_reasoning_effort
                        && (all_distinct (effort_ids m)
                            && contains (effort_ids m) m.default_reasoning_effort))))))

-- `imageInput` and `toolCalls` are the literal `false`.
pub record BrowserCapabilities : Type 0 where
  pub catalog_revision : String
  pub model_discovery : Bool
  pub streaming : Bool
  pub cancellation : Bool
  pub temporary_chat : Bool
  pub models : List WebModelDescriptor

unfoldable pub browser_capabilities_ok : BrowserCapabilities → Bool
unfolding web_model_descriptor_ok
browser_capabilities_ok c =
    opaque_id 128 c.catalog_revision
    && (leb (length c.models) 128
        && (all web_model_descriptor_ok c.models
            && (all_distinct (map (λ m. m.id) c.models)
                && (c.model_discovery || nat_beq (length c.models) 0))))
