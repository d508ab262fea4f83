-- ===== src/Transport/Lines/Chunks.antt =====
-- Chunks pushed into an AppServerJsonLineDecoder one after another, against one scan of all their
-- bytes.
use gptsession_bridge.Shared.{
  ℕ, ◌≤◌, ◌≡◌, refl, ap, ◌∙◌, true, false, List, [], ◌∷◌, ◌++◌, Option, none, some, Result, ok, err,
  ◌>>=◌, arith,
}
use mathlib.Core.List.{append_assoc}
use gptsession_bridge.Transport.Codes.{Code}
use gptsession_bridge.Transport.Outcome.{Outcome, also, after}
use gptsession_bridge.Transport.Decoder.Stream.{joined}
use gptsession_bridge.Transport.Lines.{
  Limits, Decoder, create, append, scan, settle, push, push_all,
}
use gptsession_bridge.Transport.Lines.Laws.{scan-append}

module _ {ℓ} {A : Type ℓ} (read : List ℕ → Option A) where
  push-open :
      (c : List ℕ) (d : Decoder)
      → d.failed ≡ false
      → push read c d ≡ settle read d (scan read d.limits d.pending [] c)
  unfolding push
  push-open c d e = ground arith

  -- The chunk that makes the decoder throw: what was handed out before is what one scan of the
  -- chunks before it finds, and a scan that takes it in throws.
  pub record StopsAt (l : Limits) (start : List ℕ) (cs : List (List ℕ)) (c : Code) (ms : List A)
      : Type ℓ where
    pub before : List (List ℕ)
    pub chunk : List ℕ
    pub later : List (List ℕ)
    pub rest : List ℕ
    pub cut : cs ≡ before ++ (chunk ∷ later)
    pub found : scan read l start [] (joined before) ≡ ok (ms, rest)
    pub fails : scan read l start [] (joined before ++ chunk) ≡ err c

  -- What comes of the chunks, by one scan of the whole stream.
  abbrev pub Agrees :
      Decoder → List (List ℕ) → Result Code (List A × List ℕ) → Outcome A Decoder → Type ℓ
  Agrees d cs (ok s) o =
      o ≡ record { handed = s.0; thrown = none; left = record d { pending = s.1 } }
  Agrees d cs (err c) o =
      (o.thrown ≡ some c)
      × (o.left ≡ record d { failed = true; pending = [] })
      × StopsAt d.limits d.pending cs c o.handed

  abbrev Decodes : List (List ℕ) → Decoder → Type ℓ
  Decodes cs d = Agrees d cs (scan read d.limits d.pending [] (joined cs)) (push_all read cs d)

  -- A scan behind a first part that is known.
  scan-behind :
      (l : Limits) (pending c ys : List ℕ) (s : List A × List ℕ)
      → l.max_frame ≤ l.max_buffered
      → scan read l pending [] c ≡ ok s
      → scan read l pending [] (c ++ ys) ≡ (scan read l (s.1) [] ys >>= λ t. ok (s.0 ++ t.0, t.1))
  scan-behind l pending c ys s fits e = scan-append read l fits pending [] c ys ∙ rw e refl

  later-StopsAt :
      (l : Limits) (pending c : List ℕ) (cs : List (List ℕ)) (s : List A × List ℕ) (e : Code)
      (ms : List A)
      → l.max_frame ≤ l.max_buffered
      → scan read l pending [] c ≡ ok s
      → StopsAt l (s.1) cs e ms
      → StopsAt l pending (c ∷ cs) e (s.0 ++ ms)
  later-StopsAt l pending c cs s e ms fits h z = record {
    before = c ∷ z.before;
    chunk = z.chunk;
    later = z.later;
    rest = z.rest;
    cut = ap (◌∷◌ c) z.cut;
    found = scan-behind l pending c (joined z.before) s fits h ∙ rw (z.found) refl;
    fails =
        ap (scan read l pending []) (append_assoc c (joined z.before) z.chunk)
        ∙ scan-behind l pending c (joined z.before ++ z.chunk) s fits h
        ∙ rw (z.fails) refl;
  }

  rest-Agrees :
      (d : Decoder) (c : List ℕ) (cs : List (List ℕ)) (s : List A × List ℕ)
      (b : Result Code (List A × List ℕ)) (o : Outcome A Decoder)
      → d.limits.max_frame ≤ d.limits.max_buffered
      → scan read d.limits d.pending [] c ≡ ok s
      → Agrees (record d { pending = s.1 }) cs b o
      → Agrees d (c ∷ cs) (b >>= λ t. ok (s.0 ++ t.0, t.1)) (also (s.0) o)
  rest-Agrees d c cs s (ok t) o fits e h = ap (also (s.0)) h
  rest-Agrees d c cs s (err x) o fits e (thrown, left, stops) =
      (thrown, left, later-StopsAt d.limits d.pending c cs s x o.handed fits e stops)

  chunk-Agrees :
      (d : Decoder) (c : List ℕ) (cs : List (List ℕ)) (b : Result Code (List A × List ℕ))
      → d.limits.max_frame ≤ d.limits.max_buffered
      → scan read d.limits d.pending [] [] ≡ ok ([], d.pending)
      → scan read d.limits d.pending [] c ≡ b
      → ((s : List A × List ℕ) → Decodes cs (record d { pending = s.1 }))
      → Agrees d
          (c ∷ cs)
          (b >>= λ s. scan read d.limits (s.1) [] (joined cs) >>= λ t. ok (s.0 ++ t.0, t.1))
          (after (λ d'. push_all read cs d') (settle read d b))
  unfolding settle
  chunk-Agrees d c cs (ok s) fits none_yet e ih =
      rest-Agrees d c cs s (scan read d.limits (s.1) [] (joined cs))
        (push_all read cs (record d { pending = s.1 })) fits e (ih s)
  chunk-Agrees d c cs (err x) fits none_yet e ih = (
    refl,
    refl,
    record {
      before = [];
      chunk = c;
      later = cs;
      rest = d.pending;
      cut = refl;
      found = none_yet;
      fails = e;
    },
  )

  decodes :
      (cs : List (List ℕ)) (d : Decoder)
      → d.failed ≡ false
      → d.limits.max_frame ≤ d.limits.max_buffered
      → Decodes cs d
  unfolding push_all
  decodes [] d e fits = unfold scan append in refl
  decodes (c ∷ cs) d e fits =
      rw (push-open c d e, scan-append read d.limits fits d.pending [] c (joined cs))
        (chunk-Agrees d c cs (scan read d.limits d.pending [] c) fits (unfold scan append in refl)
          refl (λ s. decodes cs (record d { pending = s.1 }) e fits))

pub create-fits :
    (l : Limits) (d : Decoder)
    → create l ≡ some d
    → (d ≡ record { limits = l; failed = false; pending = [] }) × (l.max_frame ≤ l.max_buffered)
unfolding create
create-fits l d h = ground arith

pub line_chunks-joined {ℓ} :
    {A : Type ℓ} (read : List ℕ → Option A) (l : Limits) (d : Decoder) (cs : List (List ℕ))
    → create l ≡ some d
    → Agrees read d cs (scan read l [] [] (joined cs)) (push_all read cs d)
line_chunks-joined read l d cs h =
    let (made, fits) = create-fits l d h in
    rw made (decodes read cs (record { limits = l; failed = false; pending = [] }) refl fits)
