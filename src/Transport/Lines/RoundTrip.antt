-- ===== src/Transport/Lines/RoundTrip.antt =====
-- Messages that are written a line each are read back.
use gptsession_bridge.Shared.{
  ℕ, ◌≤◌, ◌≡◌, refl, ap, ◌∙◌, true, false, subst, none, List, [], ◌∷◌, ◌++◌, Option, some, ok,
  length, nat_beq, arith,
}
use mathlib.Core.List.{append_assoc, append-nil}
use gptsession_bridge.Transport.Decoder.Stream.{joined}
use gptsession_bridge.Transport.Lines.{
  Limits, Decoder, create, line_feed, append, strip_return, read_line, consume_line, feed, scan,
  push_all,
}
use gptsession_bridge.Transport.Lines.Chunks.{Agrees, line_chunks-joined, create-fits}

-- No line feed and no carriage return, which JSON texts write as escapes.
abbrev pub IsPlain : List ℕ → Type 0
IsPlain [] = Unit {0}
IsPlain (b ∷ bs) = (nat_beq b 10 ≡ false) × (nat_beq b 13 ≡ false) × IsPlain bs

-- The lines that a writer puts on the stream.
unfoldable pub lines {ℓ} : {A : Type ℓ} → (A → List ℕ) → List A → List ℕ
lines print [] = []
lines print (m ∷ ms) = print m ++ line_feed ∷ lines print ms

-- Messages whose text is a plain line that fits, and is read back by the text layer.
abbrev pub AllPrinted {ℓ} : {A : Type ℓ} → (List ℕ → Option A) → (A → List ℕ) → ℕ → List A → Type ℓ
AllPrinted read print n [] = Unit
AllPrinted read print n (m ∷ ms) =
    IsPlain (print m)
    × (1 ≤ length (print m))
    × (length (print m) ≤ n)
    × (read (print m) ≡ some m)
    × AllPrinted read print n ms

strip_return-plain : (line : List ℕ) → IsPlain line → strip_return line ≡ line
unfolding strip_return
strip_return-plain [] h = refl
strip_return-plain (b ∷ []) h = rw (h.1)
strip_return-plain (b ∷ c ∷ line) h = ap (◌∷◌ b) (strip_return-plain (c ∷ line) h.2)

module _ {ℓ} {A : Type ℓ} (read : List ℕ → Option A) (print : A → List ℕ) (l : Limits)
    (fits : l.max_frame ≤ l.max_buffered) where
  scan-plain :
      (pending seg line rest : List ℕ)
      → IsPlain line
      → scan read l pending seg (line ++ line_feed ∷ rest)
        ≡ feed read l pending (seg ++ line) line_feed true (λ p s. scan read l p s rest)
  unfolding scan
  scan-plain pending seg [] rest h = rw (append-nil seg)
  scan-plain pending seg (b ∷ line) rest h =
      rw (h.0)
        (scan-plain pending (seg ++ b ∷ []) line rest h.2 ∙ rw (append_assoc seg (b ∷ []) line))

  read_line-print :
      (m : A) (line : List ℕ)
      → 1 ≤ length line
      → read line ≡ some m
      → read_line read line ≡ ok (some m)
  unfolding read_line
  read_line-print m [] h e = absurd (omega arith)
  read_line-print m (b ∷ line) h e = rw (e, read_line)

  append-fits : (line : List ℕ) → length line ≤ l.max_frame → append l [] line ≡ ok line
  unfolding append
  append-fits [] h = refl
  append-fits (b ∷ line) h = ground arith

  scan-lines :
      (ms : List A)
      → AllPrinted read print l.max_frame ms
      → scan read l [] [] (lines print ms) ≡ ok (ms, [])
  unfolding lines consume_line
  scan-lines [] h = unfold scan append in refl
  scan-lines (m ∷ ms) (plain, some_bytes, short, back, rest) =
      scan-plain [] [] (print m) (lines print ms) plain
      ∙ rw (
        append-fits (print m) short,
        strip_return-plain (print m) plain,
        read_line-print m (print m) some_bytes back,
        scan-lines ms rest,
      )

-- However the bytes of written lines are cut into chunks, a new decoder returns their messages and
-- is as new.
pub line_chunks-lines {ℓ} :
    {A : Type ℓ} (read : List ℕ → Option A) (print : A → List ℕ) (l : Limits) (d : Decoder)
    (ms : List A) (cs : List (List ℕ))
    → create l ≡ some d
    → AllPrinted read print l.max_frame ms
    → joined cs ≡ lines print ms
    → push_all read cs d ≡ record { handed = ms; thrown = none; left = d }
line_chunks-lines read print l d ms cs h printed same =
    let (made, fits) = create-fits l d h in
    let whole : scan read l [] [] (joined cs) ≡ ok (ms, []) =
      rw same (scan-lines read print l fits ms printed) in
    let all =
      subst (λ b. Agrees read d cs b (push_all read cs d)) whole
        (line_chunks-joined read l d cs h) in
    all ∙ rw made refl
