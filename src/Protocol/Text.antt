-- ===== src/Protocol/Text.antt =====
-- packages/protocol/src/safe-text.ts and the patterns of native-messaging.ts. A text is a list of
-- code points; its `length` counts UTF-16 units, as JavaScript's does.
use Prim.Native.Char.{code}
use gptsession_bridge.Shared.{
  ℕ, ◌+◌, String, Bool, true, false, not, ◌&&◌, ◌||◌, leb, nat_beq, if◌then◌else◌,
}

-- Number.MAX_SAFE_INTEGER
abbrev pub max_safe_integer : ℕ
max_safe_integer = 9007199254740991

unfoldable pub utf16_length : String → ℕ
utf16_length String.[] = 0
utf16_length (String.◌∷◌ c s) = utf16_length s + (if leb 0x10000 (code c) then 2 else 1)

unfoldable pub all_chars : (ℕ → Bool) → String → Bool
all_chars p String.[] = true
all_chars p (String.◌∷◌ c s) = p (code c) && all_chars p s

unfoldable pub is_alphanumeric : ℕ → Bool
is_alphanumeric c =
    (leb b'A' c && leb c b'Z') || (leb b'a' c && leb c b'z') || (leb b'0' c && leb c b'9')

unfoldable pub is_opaque_char : ℕ → Bool
unfolding is_alphanumeric
is_opaque_char c =
    is_alphanumeric c || nat_beq c b'.' || nat_beq c b'_' || nat_beq c b':' || nat_beq c b'-'

unfoldable pub is_model_char : ℕ → Bool
unfolding is_opaque_char
is_model_char c = is_opaque_char c || nat_beq c b'/'

-- A first letter or digit, then characters of the class.
unfoldable pub matches_id : (ℕ → Bool) → String → Bool
unfolding is_alphanumeric all_chars
matches_id p String.[] = false
matches_id p (String.◌∷◌ c s) = is_alphanumeric (code c) && all_chars p s

abbrev pub length_within : ℕ → ℕ → String → Bool
length_within lo hi s = leb lo (utf16_length s) && leb (utf16_length s) hi

-- z.string().min(1).max(hi).regex(opaqueIdPattern)
unfoldable pub opaque_id : ℕ → String → Bool
unfolding utf16_length is_opaque_char matches_id
opaque_id hi s = length_within 1 hi s && matches_id is_opaque_char s

unfoldable pub request_id : String → Bool
unfolding opaque_id
request_id = opaque_id 128

unfoldable pub model_id : String → Bool
unfolding utf16_length is_model_char matches_id
model_id s = length_within 1 256 s && matches_id is_model_char s

unfoldable pub implementation_version : String → Bool
unfolding opaque_id
implementation_version = opaque_id 64

unfoldable pub frame_sequence : ℕ → Bool
frame_sequence n = leb n max_safe_integer

is_control : ℕ → Bool
is_control c = leb c 0x1f || (leb 0x7f c && leb c 0x9f)

is_bidi_override : ℕ → Bool
is_bidi_override c = (leb 0x202A c && leb c 0x202E) || (leb 0x2066 c && leb c 0x2069)

unfoldable pub is_safe_single_line_text : String → Bool
unfolding all_chars is_control is_bidi_override
is_safe_single_line_text s =
    all_chars (λ c. not (is_control c)) s && all_chars (λ c. not (is_bidi_override c)) s

-- z.string().min(1).max(hi).refine(isSafeSingleLineText)
unfoldable pub safe_text : ℕ → String → Bool
unfolding utf16_length is_safe_single_line_text
safe_text hi s = length_within 1 hi s && is_safe_single_line_text s
