-- ===== src/Transport/Decoder/RoundTrip.antt =====
-- What the writer encodes, the decoder reads back.
use gptsession_bridge.Shared.{
  ℕ, ◌≤◌, ◌<◌, ◌≡◌, refl, ◌∙◌, true, subst, List, [], none, ◌∷◌, ◌++◌, some, ok, length, arith,
  length-append, take-append, drop-append,
}
use gptsession_bridge.Protocol.Frames.{Frame, Untrusted, frame_ok, parse_frame}
use gptsession_bridge.Transport.Encoding.{encode, encode_all, write_uint32}
use gptsession_bridge.Transport.Decoder.{
  Limits, Decoder, create, whole, front_of, front, read_uint32, prepend, read_frame, scan_all,
  push_all,
}
use gptsession_bridge.Transport.Decoder.Laws.{scan_all-eq}
use gptsession_bridge.Transport.Decoder.Stream.{
  joined, AllFit, Agrees, create-fresh, push_all-joined,
}

read_uint32-write_uint32 :
    (n : ℕ) (ys : List ℕ) → n < 4294967296 → read_uint32 (write_uint32 n ++ ys) ≡ some n
unfolding read_uint32 write_uint32
read_uint32-write_uint32 n ys h = ground arith

front_of-encode :
    (m : ℕ) (p ys : List ℕ)
    → 1 ≤ length p
    → length p ≤ m
    → front_of m (some (length p)) (encode p ++ ys) ≡ whole p ys
unfolding front_of encode
front_of-encode m p ys h k = ground (arith, length-append p ys, take-append p ys, drop-append p ys)

front-encode :
    (m : ℕ) (p ys : List ℕ)
    → 1 ≤ length p
    → length p ≤ m
    → m < 4294967296
    → front m (encode p ++ ys) ≡ whole p ys
unfolding front
front-encode m p ys h k big =
    let n : read_uint32 (encode p ++ ys) ≡ some (length p) =
      unfold encode in read_uint32-write_uint32 (length p) (p ++ ys) (omega arith) in
    rw n (front_of-encode m p ys h k)

-- Frames that pass the schema, fit, and are read back by the text layer.
abbrev pub AllPrinted : (List ℕ → Untrusted) → (Frame → List ℕ) → ℕ → List Frame → Type 0
AllPrinted read print m [] = Unit {0}
AllPrinted read print m (f ∷ fs) =
    (frame_ok f ≡ true)
    × (1 ≤ length (print f))
    × (length (print f) ≤ m)
    × (read (print f) ≡ some f)
    × AllPrinted read print m fs

module _ (read : List ℕ → Untrusted) (print : Frame → List ℕ) (m : ℕ) (big : m < 4294967296) where
  read_frame-print :
      (f : Frame) → frame_ok f ≡ true → read (print f) ≡ some f → read_frame read (print f) ≡ ok f
  unfolding read_frame parse_frame
  read_frame-print f good back = rw (back, read_frame) (rw (good, parse_frame))

  scan_all-encode_all :
      (fs : List Frame)
      → AllPrinted read print m fs
      → scan_all read m (encode_all print fs) ≡ ok (record { frames = fs; rest = [] })
  unfolding encode_all prepend
  scan_all-encode_all [] h = scan_all-eq read m [] ∙ (unfold front read_uint32 front_of in refl)
  scan_all-encode_all (f ∷ fs) (good, some_bytes, fits, back, rest) =
      scan_all-eq read m (encode (print f) ++ encode_all print fs)
      ∙ rw (
        front-encode m (print f) (encode_all print fs) some_bytes fits big,
        read_frame-print f good back,
        scan_all-encode_all fs rest,
      )

create-small : (l : Limits) (d : Decoder) → create l ≡ some d → l.max_frame < 4294967296
unfolding create
create-small l d h = ground arith

-- However the bytes of written frames are cut into chunks that fit beside a partial frame, a new
-- decoder hands out exactly those frames, throws nothing and is as new, where each frame is
-- valid, has a payload of at least one byte within the limit, and is read back by the text layer.
pub push_all-encode_all :
    (read : List ℕ → Untrusted) (print : Frame → List ℕ) (l : Limits) (d : Decoder)
    (fs : List Frame) (cs : List (List ℕ))
    → create l ≡ some d
    → AllPrinted read print l.max_frame fs
    → AllFit l cs
    → joined cs ≡ encode_all print fs
    → push_all read cs d ≡ record { handed = fs; thrown = none; left = d }
push_all-encode_all read print l d fs cs h printed fit same =
    let whole : scan_all read l.max_frame (joined cs) ≡ ok (record { frames = fs; rest = [] }) =
      rw same (scan_all-encode_all read print l.max_frame (create-small l d h) fs printed) in
    let all =
      subst (λ b. Agrees read d cs b (push_all read cs d)) whole
        (push_all-joined read l d cs h fit) in
    all ∙ rw (create-fresh l d h).0 refl
