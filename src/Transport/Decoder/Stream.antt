-- ===== src/Transport/Decoder/Stream.antt =====
-- Chunks pushed into a NativeMessageDecoder one after another, against one scan of all their bytes.
use gptsession_bridge.Shared.{
  ℕ, ◌+◌, ◌≤◌, ◌<◌, ◌≡◌, refl, sym, ap, ◌∙◌, false, List, [], ◌∷◌, ◌++◌, Option, none, some, Result,
  ok, err, ◌>>=◌, length, arith,
}
use gptsession_bridge.Protocol.Frames.{Frame, Untrusted}
use gptsession_bridge.Transport.Outcome.{Outcome, also, after}
use gptsession_bridge.Transport.Codes.{Code}
use gptsession_bridge.Transport.Decoder.{
  Limits, Decoder, create, read_uint32, incomplete, front_of, front, Scanned, scan_all, settle,
  fail, push, push_all,
}
use gptsession_bridge.Transport.Decoder.Laws.{
  scan_all-eq, glue, LeavesPart, scan_all-append, scan_all-LeavesPart,
}
use mathlib.Core.List.{append_assoc, append-nil}

abbrev pub joined : List (List ℕ) → List ℕ
joined [] = []
joined (c ∷ cs) = c ++ joined cs

-- No chunk is longer than the room that is always left.
abbrev pub AllFit : Limits → List (List ℕ) → Type 0
AllFit l [] = Unit {0}
AllFit l (c ∷ cs) = (length c + l.max_frame + 3 ≤ l.max_buffered) × AllFit l cs

-- Open, with no whole frame in the buffer.
pub record IsWaiting (d : Decoder) : Type 0 where
  pub still_open : d.closed ≡ false
  pub part : front d.limits.max_frame d.buffer ≡ incomplete

read_uint32-none : (xs : List ℕ) → read_uint32 xs ≡ none → length xs < 4
unfolding read_uint32
read_uint32-none [] h = omega arith
read_uint32-none (a ∷ []) h = omega arith
read_uint32-none (a ∷ b ∷ []) h = omega arith
read_uint32-none (a ∷ b ∷ c ∷ []) h = omega arith
read_uint32-none (a ∷ b ∷ c ∷ d ∷ xs) h = absurd (cc)

incomplete-length :
    (m : ℕ) (o : Option ℕ) (xs : List ℕ)
    → read_uint32 xs ≡ o
    → front_of m o xs ≡ incomplete
    → length xs ≤ m + 3
unfolding front_of
incomplete-length m none xs e h = omega (arith, read_uint32-none xs e)
incomplete-length m (some n) xs e h = ground arith

pub front-length : (m : ℕ) (xs : List ℕ) → front m xs ≡ incomplete → length xs ≤ m + 3
unfolding front
front-length m xs h = incomplete-length m (read_uint32 xs) xs refl h

module _ (read : List ℕ → Untrusted) where
  push-fits :
      (c : List ℕ) (d : Decoder)
      → d.closed ≡ false
      → length d.buffer + length c ≤ d.limits.max_buffered
      → push read c d ≡ settle d (scan_all read d.limits.max_frame (d.buffer ++ c))
  unfolding push
  push-fits c d e fits = ground arith

  -- The chunk that makes the decoder throw: what was handed out before is what one scan of the
  -- chunks before it finds, and a scan that takes it in throws.
  pub record StopsAt (m : ℕ) (start : List ℕ) (cs : List (List ℕ)) (c : Code) (fs : List Frame)
      : Type 0 where
    pub before : List (List ℕ)
    pub chunk : List ℕ
    pub later : List (List ℕ)
    pub rest : List ℕ
    pub cut : cs ≡ before ++ (chunk ∷ later)
    pub found : scan_all read m (start ++ joined before) ≡ ok (record { frames = fs; rest = rest })
    pub fails : scan_all read m (start ++ (joined before ++ chunk)) ≡ err c

  -- What comes of the chunks, by one scan of the whole stream.
  abbrev pub Agrees : Decoder → List (List ℕ) → Result Code Scanned → Outcome Frame Decoder → Type 0
  Agrees d cs (ok s) o =
      o ≡ record { handed = s.frames; thrown = none; left = record d { buffer = s.rest } }
  Agrees d cs (err c) o =
      (o.thrown ≡ some c) × (o.left ≡ fail d) × StopsAt d.limits.max_frame d.buffer cs c o.handed

  abbrev Decodes : List (List ℕ) → Decoder → Type 0
  Decodes cs d =
      Agrees d cs (scan_all read d.limits.max_frame (d.buffer ++ joined cs)) (push_all read cs d)

  scan_all-waiting :
      (d : Decoder)
      → IsWaiting d
      → scan_all read d.limits.max_frame (d.buffer ++ [])
        ≡ ok (record { frames = []; rest = d.buffer })
  scan_all-waiting d w = rw (append-nil d.buffer, scan_all-eq, w.part)

  -- A scan of two parts, of which the first is known.
  scan_all-behind :
      (m : ℕ) (buffer c ys : List ℕ) (s : Scanned)
      → scan_all read m (buffer ++ c) ≡ ok s
      → scan_all read m (buffer ++ (c ++ ys))
        ≡ (scan_all read m (s.rest ++ ys) >>= λ t. ok (glue s t))
  scan_all-behind m buffer c ys s e =
      ap (scan_all read m) (sym (append_assoc buffer c ys))
      ∙ scan_all-append read m (buffer ++ c) ys
      ∙ rw e refl

  later-StopsAt :
      (m : ℕ) (buffer c : List ℕ) (cs : List (List ℕ)) (s : Scanned) (e : Code) (fs : List Frame)
      → scan_all read m (buffer ++ c) ≡ ok s
      → StopsAt m s.rest cs e fs
      → StopsAt m buffer (c ∷ cs) e (s.frames ++ fs)
  later-StopsAt m buffer c cs s e fs h z = record {
    before = c ∷ z.before;
    chunk = z.chunk;
    later = z.later;
    rest = z.rest;
    cut = ap (◌∷◌ c) z.cut;
    found = scan_all-behind m buffer c (joined z.before) s h ∙ rw (z.found) refl;
    fails =
        ap (λ ys. scan_all read m (buffer ++ ys)) (append_assoc c (joined z.before) z.chunk)
        ∙ scan_all-behind m buffer c (joined z.before ++ z.chunk) s h
        ∙ rw (z.fails) refl;
  }

  rest-Agrees :
      (d : Decoder) (c : List ℕ) (cs : List (List ℕ)) (s : Scanned) (b : Result Code Scanned)
      (o : Outcome Frame Decoder)
      → scan_all read d.limits.max_frame (d.buffer ++ c) ≡ ok s
      → Agrees (record d { buffer = s.rest }) cs b o
      → Agrees d (c ∷ cs) (b >>= λ t. ok (glue s t)) (also s.frames o)
  unfolding fail
  rest-Agrees d c cs s (ok t) o e h = ap (also s.frames) h
  rest-Agrees d c cs s (err x) o e (thrown, left, stops) =
      (thrown, left, later-StopsAt d.limits.max_frame d.buffer c cs s x o.handed e stops)

  chunk-Agrees :
      (d : Decoder) (c : List ℕ) (cs : List (List ℕ)) (b : Result Code Scanned)
      → IsWaiting d
      → scan_all read d.limits.max_frame (d.buffer ++ c) ≡ b
      → LeavesPart read d.limits.max_frame b
      → ((s : Scanned)
          → front d.limits.max_frame s.rest ≡ incomplete
          → Decodes cs (record d { buffer = s.rest }))
      → Agrees d
          (c ∷ cs)
          (b >>= λ s. scan_all read d.limits.max_frame (s.rest ++ joined cs) >>= λ t. ok (glue s t))
          (after (λ d'. push_all read cs d') (settle d b))
  unfolding settle fail
  chunk-Agrees d c cs (ok s) w e part ih =
      rest-Agrees d c cs s (scan_all read d.limits.max_frame (s.rest ++ joined cs))
        (push_all read cs (record d { buffer = s.rest })) e (ih s part)
  chunk-Agrees d c cs (err x) w e part ih = (
    refl,
    refl,
    record {
      before = [];
      chunk = c;
      later = cs;
      rest = d.buffer;
      cut = refl;
      found = scan_all-waiting d w;
      fails = e;
    },
  )

  decodes : (cs : List (List ℕ)) (d : Decoder) → IsWaiting d → AllFit d.limits cs → Decodes cs d
  unfolding push_all
  decodes [] d w fit = rw (scan_all-waiting d w) refl
  decodes (c ∷ cs) d w fit =
      let m = d.limits.max_frame in
      let room : length d.buffer + length c ≤ d.limits.max_buffered =
        omega (arith, front-length m d.buffer w.part, fit.0) in
      let whole =
        ap (scan_all read m) (sym (append_assoc d.buffer c (joined cs)))
        ∙ scan_all-append read m (d.buffer ++ c) (joined cs) in
      rw (push-fits c d w.still_open room, whole)
        (chunk-Agrees d c cs (scan_all read m (d.buffer ++ c)) w refl
          (scan_all-LeavesPart read m (d.buffer ++ c))
          (λ s part.
            decodes cs (record d { buffer = s.rest })
              (record { still_open = w.still_open; part = part }) fit.1))

-- What the constructor makes.
abbrev pub fresh : Limits → Decoder
fresh l = record { limits = l; buffer = []; closed = false }

pub create-fresh :
    (l : Limits) (d : Decoder)
    → create l ≡ some d
    → (d ≡ fresh l) × (l.max_frame + 4 ≤ l.max_buffered)
unfolding create
create-fresh l d h = ground arith

fresh-IsWaiting : (l : Limits) → IsWaiting (fresh l)
unfolding front front_of read_uint32
fresh-IsWaiting l = record { still_open = refl; part = refl }

-- However a stream is cut into chunks that fit beside a partial frame, a new decoder does what
-- one scan of the whole stream tells: where the scan finds no error, it hands out the same frames
-- and keeps the same bytes; where it throws, the decoder throws the same error and is closed and
-- empty, and what it handed out before is what one scan of the chunks before the one that throws
-- finds.
pub push_all-joined :
    (read : List ℕ → Untrusted) (l : Limits) (d : Decoder) (cs : List (List ℕ))
    → create l ≡ some d
    → AllFit l cs
    → Agrees read d cs (scan_all read l.max_frame (joined cs)) (push_all read cs d)
push_all-joined read l d cs h fit =
    rw (create-fresh l d h).0 (decodes read cs (fresh l) (fresh-IsWaiting l) fit)
