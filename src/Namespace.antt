-- ===== src/Namespace.antt =====
-- packages/core/src/model-namespace.ts and the token pattern of security/capability-token.ts.
use Prim.Native.Char.{code}
use gptsession_bridge.Shared.{ℕ, String, Bool, false, not, ◌&&◌, ◌||◌, none, some, leb, nat_beq}
use gptsession_bridge.Protocol.Text.{utf16_length, all_chars}
use gptsession_bridge.Values.Strings.{strip_prefix, trim_start, starts_with_lower, last_is}
use gptsession_bridge.Values.{Value, string}

abbrev pub web_model_public_prefix : String
web_model_public_prefix = "gptsessionbridge/web/"

unfoldable pub is_lower_alphanumeric : ℕ → Bool
is_lower_alphanumeric c = (leb b'a' c && leb c b'z') || (leb b'0' c && leb c b'9')

is_key_char : ℕ → Bool
unfolding is_lower_alphanumeric
is_key_char c = is_lower_alphanumeric c || nat_beq c b'.' || nat_beq c b'_' || nat_beq c b'-'

-- [A-Za-z0-9_-]
unfoldable pub is_base64url : ℕ → Bool
is_base64url c =
    (leb b'A' c && leb c b'Z')
    || (leb b'a' c && leb c b'z')
    || (leb b'0' c && leb c b'9')
    || nat_beq c b'_'
    || nat_beq c b'-'

-- [a-z0-9](?:[a-z0-9._-]{0,62}[a-z0-9])?
is_public_key : String → Bool
unfolding is_key_char
is_public_key String.[] = false
is_public_key (String.◌∷◌ c s) =
    is_lower_alphanumeric (code c)
    && (all_chars is_key_char s
        && (leb (utf16_length s) 63 && last_is is_lower_alphanumeric (String.◌∷◌ c s)))

-- `prefix` and then exactly 43 characters of base64url.
is_token_behind : String → String → Bool
is_token_behind prefix s = elim (strip_prefix prefix s) [
  | none ↦ false
  | some rest ↦ nat_beq (utf16_length rest) 43 && all_chars is_base64url rest
]

-- isCanonicalWebProviderModelReference
unfoldable pub is_canonical_web_provider_model_reference : String → Bool
unfolding is_token_behind
is_canonical_web_provider_model_reference = is_token_behind "gptsessionbridge/web/route-v1-"

-- isCanonicalWebModelReference
unfoldable pub is_canonical_web_model_reference : String → Bool
unfolding is_public_key
is_canonical_web_model_reference s = elim (strip_prefix web_model_public_prefix s) [
  | none ↦ false
  | some rest ↦ is_public_key rest && not (is_canonical_web_provider_model_reference s)
]

unfoldable pub is_reserved_text : String → Bool
is_reserved_text s = starts_with_lower (trim_start s) web_model_public_prefix

-- isReservedWebModelReference
unfoldable pub is_reserved_web_model_reference : Value → Bool
is_reserved_web_model_reference (string s) = is_reserved_text s
is_reserved_web_model_reference _ = false

-- isCapabilityToken
unfoldable pub is_capability_token : String → Bool
unfolding is_token_behind
is_capability_token = is_token_behind "gsb_"
