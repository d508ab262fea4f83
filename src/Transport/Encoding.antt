-- ===== src/Transport/Encoding.antt =====
-- The encoding of native-message-writer.ts: a payload behind its length in four bytes, the lowest
-- first. `print` stands for `JSON.stringify` and the UTF-8 encoder.
use gptsession_bridge.Shared.{ℕ, ◌/◌, ◌%◌, List, [], ◌∷◌, ◌++◌, length}
use gptsession_bridge.Protocol.Frames.{Frame}

-- Buffer.writeUInt32LE
unfoldable pub write_uint32 : ℕ → List ℕ
write_uint32 n = n % 256 ∷ n / 256 % 256 ∷ n / 65536 % 256 ∷ n / 16777216 % 256 ∷ []

unfoldable pub encode : List ℕ → List ℕ
unfolding write_uint32
encode payload = write_uint32 (length payload) ++ payload

-- What the writer puts on the stream for a list of frames.
unfoldable pub encode_all : (Frame → List ℕ) → List Frame → List ℕ
encode_all print [] = []
encode_all print (f ∷ fs) = encode (print f) ++ encode_all print fs
