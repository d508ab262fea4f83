-- ===== src/Transport/Decoder.antt =====
-- packages/native-messaging/src/transport/native-message-decoder.ts: frames behind a length of four
-- bytes, in chunks of any size. `read` stands for the strict UTF-8 decoder and `JSON.parse`: `none`
-- where one of them throws, or where the value has no frame's shape.
pub mod Laws
pub mod Stream
pub mod Bounds
pub mod RoundTrip
use gptsession_bridge.Shared.{
  ℕ, zero, suc, ◌+◌, ◌-◌, ◌*◌, Bool, true, false, not, ◌&&◌, List, [], ◌∷◌, ◌++◌, Option, none,
  some, Result, ok, err, ◌>>=◌, length, take, drop, leb, ltb, nat_beq, if◌then◌else◌,
}
use gptsession_bridge.Protocol.Frames.{Frame, Untrusted, parse_frame}
use gptsession_bridge.Transport.Codes.{
  Code, buffer_overflow, frame_too_large, invalid_frame, transport_closed, truncated_frame,
  header_bytes, default_max_frame, default_max_bytes,
}
use gptsession_bridge.Transport.Outcome.{Outcome, ended, after}

pub record Limits : Type 0 where
  pub max_buffered : ℕ
  pub max_frame : ℕ

pub record Decoder : Type 0 where
  pub limits : Limits
  pub buffer : List ℕ
  pub closed : Bool

-- The constructor; `none` is its `RangeError`.
unfoldable pub create : Limits → Option Decoder
create l =
    if leb 1 l.max_frame
      && (leb l.max_frame default_max_frame
          && (leb (l.max_frame + header_bytes) l.max_buffered
              && leb l.max_buffered default_max_bytes))
    then some (record { limits = l; buffer = []; closed = false })
    else none

-- Buffer.readUInt32LE, where four bytes are there.
unfoldable pub read_uint32 : List ℕ → Option ℕ
read_uint32 (a ∷ b ∷ c ∷ d ∷ rest) = some (a + 256 * b + 65536 * c + 16777216 * d)
read_uint32 _ = none

-- What stands at the front of the bytes that are not read yet.
pub data Front : Type 0 where
  incomplete : Front
  refused : Code → Front
  whole : List ℕ → List ℕ → Front

unfoldable pub front_of : ℕ → Option ℕ → List ℕ → Front
front_of max_frame none bytes = incomplete
front_of max_frame (some n) bytes =
    if nat_beq n 0
    then refused invalid_frame
    else if ltb max_frame n
    then refused frame_too_large
    else if ltb (length bytes) (header_bytes + n)
    then incomplete
    else whole (take n (drop header_bytes bytes)) (drop n (drop header_bytes bytes))

unfoldable pub front : ℕ → List ℕ → Front
unfolding front_of read_uint32
front max_frame bytes = front_of max_frame (read_uint32 bytes) bytes

-- The frames that are complete, and the bytes that are left.
pub record Scanned : Type 0 where
  pub frames : List Frame
  pub rest : List ℕ

unfoldable pub prepend : Frame → Scanned → Scanned
prepend f s = record s { frames = f ∷ s.frames }

-- One round of the loop; `more` is the loop on the bytes behind the frame.
abbrev pub round :
    (List ℕ → Result Code Frame)
    → (List ℕ → Result Code Scanned)
    → List ℕ
    → Front
    → Result Code Scanned
round frame more bytes incomplete = ok (record { frames = []; rest = bytes })
round frame more bytes (refused c) = err c
round frame more bytes (whole payload rest) = do f ← frame payload; s ← more rest; ok (prepend f s)

-- #fail
unfoldable pub fail : Decoder → Decoder
fail d = record d { buffer = []; closed = true }

-- How `push` ends: the bytes that are left stay in the buffer, and a throw closes the decoder.
unfoldable pub settle : Decoder → Result Code Scanned → Result Code (List Frame) × Decoder
unfolding fail
settle d (ok s) = (ok s.frames, record d { buffer = s.rest })
settle d (err c) = (err c, fail d)

module _ (read : List ℕ → Untrusted) where
  unfoldable pub read_frame : List ℕ → Result Code Frame
  read_frame payload = elim (parse_frame (read payload)) [
    | none ↦ err invalid_frame
    | some f ↦ ok f
  ]

  -- The loop of `push`, on fuel: each round takes more than four bytes.
  unfoldable pub scan : ℕ → ℕ → List ℕ → Result Code Scanned
  unfolding prepend
  scan max_frame zero bytes = ok (record { frames = []; rest = bytes })
  scan max_frame (suc fuel) bytes =
      round read_frame (λ rest. scan max_frame fuel rest) bytes (front max_frame bytes)

  unfoldable pub scan_all : ℕ → List ℕ → Result Code Scanned
  unfolding scan
  scan_all max_frame bytes = scan max_frame (suc (length bytes)) bytes

  unfoldable pub push : List ℕ → Decoder → Result Code (List Frame) × Decoder
  unfolding settle fail scan_all
  push chunk d =
      if d.closed
      then (err transport_closed, d)
      else if ltb (d.limits.max_buffered - length d.buffer) (length chunk)
      then (err buffer_overflow, fail d)
      else settle d (scan_all d.limits.max_frame (d.buffer ++ chunk))

  -- The pushes of a stream that arrives in chunks.
  unfoldable pub push_all : List (List ℕ) → Decoder → Outcome Frame Decoder
  push_all [] d = ended d
  push_all (c ∷ cs) d = after (λ d'. push_all cs d') (push c d)

unfoldable pub finish : Decoder → Result Code (Unit {0}) × Decoder
finish d =
    if d.closed
    then (err transport_closed, d)
    else if ltb 0 (length d.buffer)
    then (err truncated_frame, record d { buffer = []; closed = true })
    else (ok tt, record d { closed = true })
