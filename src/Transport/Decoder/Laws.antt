-- ===== src/Transport/Decoder/Laws.antt =====
-- One scan of NativeMessageDecoder over two parts of a stream, one after the other.
use gptsession_bridge.Shared.{
  ℕ, zero, suc, ◌+◌, ◌≤◌, ◌<◌, ◌≡◌, ◌≢◌, refl, ◌∙◌, List, [], ◌∷◌, ◌++◌, Option, none, some, Result,
  ok, err, ◌>>=◌, length, take, drop, arith, length-append, length-drop, take-append_le,
  drop-append_le,
}
use gptsession_bridge.Protocol.Frames.{Frame, Untrusted}
use gptsession_bridge.Transport.Codes.{Code, header_bytes}
use gptsession_bridge.Transport.Decoder.{
  read_uint32, Front, incomplete, refused, whole, front_of, front, Scanned, prepend, round,
  read_frame, scan, scan_all,
}

-- What follows the bytes stands behind the frame in front of them.
abbrev extend : Front → List ℕ → Front
extend (whole p r) ys = whole p (r ++ ys)
extend x ys = x

read_uint32-append :
    (xs ys : List ℕ) (n : ℕ) → read_uint32 xs ≡ some n → read_uint32 (xs ++ ys) ≡ some n
unfolding read_uint32
read_uint32-append [] ys n h = cc
read_uint32-append (a ∷ []) ys n h = cc
read_uint32-append (a ∷ b ∷ []) ys n h = cc
read_uint32-append (a ∷ b ∷ c ∷ []) ys n h = cc
read_uint32-append (a ∷ b ∷ c ∷ d ∷ xs) ys n h = h

front_of-shorter :
    (m : ℕ) (o : Option ℕ) (xs p r : List ℕ) → front_of m o xs ≡ whole p r → length r < length xs
unfolding front_of
front_of-shorter m none xs p r h = cc
front_of-shorter m (some n) xs p r h =
    ground (arith, length-drop n (drop header_bytes xs), length-drop header_bytes xs)

front-shorter : (m : ℕ) (xs p r : List ℕ) → front m xs ≡ whole p r → length r < length xs
unfolding front
front-shorter m xs p r h = front_of-shorter m (read_uint32 xs) xs p r h

-- The payload and what is behind it, where both are there.
payload-append :
    (n : ℕ) (xs ys : List ℕ)
    → header_bytes + n ≤ length xs
    → (take n (drop header_bytes (xs ++ ys)) ≡ take n (drop header_bytes xs))
      × (drop n (drop header_bytes (xs ++ ys)) ≡ drop n (drop header_bytes xs) ++ ys)
payload-append n xs ys h = rw (drop-append_le header_bytes xs ys (omega arith)) (
  take-append_le n (drop header_bytes xs) ys (omega (arith, length-drop header_bytes xs)),
  drop-append_le n (drop header_bytes xs) ys (omega (arith, length-drop header_bytes xs)),
)

front_of-append :
    (m n : ℕ) (xs ys : List ℕ)
    → front_of m (some n) xs ≢ incomplete
    → front_of m (some n) (xs ++ ys) ≡ extend (front_of m (some n) xs) ys
unfolding front_of
front_of-append m n xs ys k = ground (arith, length-append xs ys, payload-append n xs ys)

front-append_some :
    (m : ℕ) (o : Option ℕ) (xs ys : List ℕ)
    → read_uint32 xs ≡ o
    → front_of m o xs ≢ incomplete
    → front m (xs ++ ys) ≡ extend (front_of m o xs) ys
unfolding front
front-append_some m none xs ys e k = absurd (k (unfold front_of in refl))
front-append_some m (some n) xs ys e k =
    rw (read_uint32-append xs ys n e) (front_of-append m n xs ys k)

front-append :
    (m : ℕ) (xs ys : List ℕ) → front m xs ≢ incomplete → front m (xs ++ ys) ≡ extend (front m xs) ys
unfolding front
front-append m xs ys k = front-append_some m (read_uint32 xs) xs ys refl k

abbrev pub glue : Scanned → Scanned → Scanned
glue s t = record { frames = s.frames ++ t.frames; rest = t.rest }

module _ (read : List ℕ → Untrusted) (m : ℕ) where
  -- Only the bytes behind a whole frame are looked at.
  round-eq :
      (F G : List ℕ → Result Code Scanned) (xs : List ℕ) (x : Front)
      → ((p r : List ℕ) → x ≡ whole p r → F r ≡ G r)
      → round (read_frame read) F xs x ≡ round (read_frame read) G xs x
  round-eq F G xs incomplete h = refl
  round-eq F G xs (refused c) h = refl
  round-eq F G xs (whole p r) h = rw (h p r refl)

  -- More fuel than there are bytes changes nothing.
  scan-fuel :
      (f g : ℕ) (xs : List ℕ) → length xs < f → length xs < g → scan read m f xs ≡ scan read m g xs
  unfolding scan
  scan-fuel zero g xs h k = absurd (omega arith)
  scan-fuel (suc f) zero xs h k = absurd (omega arith)
  scan-fuel (suc f) (suc g) xs h k =
      round-eq (λ rest. scan read m f rest) (λ rest. scan read m g rest) xs (front m xs)
        (λ p r e.
          let less = front-shorter m xs p r e in
          scan-fuel f g r (omega (arith, less)) (omega (arith, less)))

  pub scan_all-eq :
      (xs : List ℕ) → scan_all read m xs ≡ round (read_frame read) (scan_all read m) xs (front m xs)
  unfolding scan_all scan
  scan_all-eq xs =
      round-eq (λ rest. scan read m (length xs) rest) (scan_all read m) xs (front m xs)
        (λ p r e. scan-fuel (length xs) (suc (length r)) r (front-shorter m xs p r e) (omega arith))

  pull :
      (f : Frame) (s : Scanned) (d : Result Code Scanned)
      → ((d >>= λ t. ok (glue s t)) >>= λ u. ok (prepend f u))
        ≡ (d >>= λ t. ok (glue (prepend f s) t))
  unfolding prepend
  pull f s (ok t) = refl
  pull f s (err c) = refl

  regroup :
      (a : Result Code Frame) (b : Result Code Scanned) (c : List ℕ → Result Code Scanned)
      → (a >>= λ f. (b >>= λ s. c s.rest >>= λ t. ok (glue s t)) >>= λ u. ok (prepend f u))
        ≡ ((a >>= λ f. b >>= λ s. ok (prepend f s)) >>= λ s. c s.rest >>= λ t. ok (glue s t))
  unfolding prepend
  regroup (err e) b c = refl
  regroup (ok f) (err e) c = refl
  regroup (ok f) (ok s) c = pull f s (c s.rest)

  bind-glue :
      (b : Result Code Scanned) (xs : List ℕ)
      → b ≡ (b >>= λ t. ok (glue (record { frames = []; rest = xs }) t))
  bind-glue (ok t) xs = refl
  bind-glue (err c) xs = refl

  -- The second part read after the first.
  Continues : List ℕ → List ℕ → Result Code Scanned → Type 0
  Continues xs ys b =
      scan_all read m (xs ++ ys)
      ≡ (b >>= λ s. scan_all read m (s.rest ++ ys) >>= λ t. ok (glue s t))

  round-Continues :
      (F : List ℕ → Result Code Scanned) (xs ys : List ℕ) (x : Front)
      → front m xs ≡ x
      → ((p r : List ℕ) → x ≡ whole p r → Continues r ys (F r))
      → Continues xs ys (round (read_frame read) F xs x)
  unfolding Continues
  round-Continues F xs ys incomplete e ih = bind-glue (scan_all read m (xs ++ ys)) xs
  round-Continues F xs ys (refused c) e ih =
      scan_all-eq (xs ++ ys) ∙ rw (front-append m xs ys (λ k. cc), e)
  round-Continues F xs ys (whole p r) e ih =
      scan_all-eq (xs ++ ys)
      ∙ rw (front-append m xs ys (λ k. cc), e, ih p r refl)
          (regroup (read_frame read p) (F r) (λ rest. scan_all read m (rest ++ ys)))

  -- Reading a stream in two parts.
  scan-append : (f : ℕ) (xs ys : List ℕ) → length xs < f → Continues xs ys (scan read m f xs)
  unfolding scan
  scan-append zero xs ys h = absurd (omega arith)
  scan-append (suc f) xs ys h =
      round-Continues (λ rest. scan read m f rest) xs ys (front m xs) refl
        (λ p r e. scan-append f r ys (omega (arith, front-shorter m xs p r e)))

  pub scan_all-append :
      (xs ys : List ℕ)
      → scan_all read m (xs ++ ys)
        ≡ (scan_all read m xs >>= λ s. scan_all read m (s.rest ++ ys) >>= λ t. ok (glue s t))
  unfolding scan_all Continues
  scan_all-append xs ys = scan-append (suc (length xs)) xs ys (omega arith)

  -- What is left has no whole frame in front.
  abbrev pub LeavesPart : Result Code Scanned → Type 0
  LeavesPart (ok s) = front m s.rest ≡ incomplete
  LeavesPart (err c) = Unit {0}

  bound-LeavesPart :
      (a : Result Code Frame) (b : Result Code Scanned)
      → LeavesPart b
      → LeavesPart (a >>= λ f. b >>= λ s. ok (prepend f s))
  unfolding prepend
  bound-LeavesPart (err c) b h = tt
  bound-LeavesPart (ok f) (err c) h = tt
  bound-LeavesPart (ok f) (ok s) h = h

  round-LeavesPart :
      (F : List ℕ → Result Code Scanned) (xs : List ℕ) (x : Front)
      → front m xs ≡ x
      → ((p r : List ℕ) → x ≡ whole p r → LeavesPart (F r))
      → LeavesPart (round (read_frame read) F xs x)
  round-LeavesPart F xs incomplete e ih = e
  round-LeavesPart F xs (refused c) e ih = tt
  round-LeavesPart F xs (whole p r) e ih = bound-LeavesPart (read_frame read p) (F r) (ih p r refl)

  scan-LeavesPart : (f : ℕ) (xs : List ℕ) → length xs < f → LeavesPart (scan read m f xs)
  unfolding scan
  scan-LeavesPart zero xs h = absurd (omega arith)
  scan-LeavesPart (suc f) xs h =
      round-LeavesPart (λ rest. scan read m f rest) xs (front m xs) refl
        (λ p r e. scan-LeavesPart f r (omega (arith, front-shorter m xs p r e)))

  pub scan_all-LeavesPart : (xs : List ℕ) → LeavesPart (scan_all read m xs)
  unfolding scan_all
  scan_all-LeavesPart xs = scan-LeavesPart (suc (length xs)) xs (omega arith)
