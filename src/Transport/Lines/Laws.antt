-- ===== src/Transport/Lines/Laws.antt =====
-- One scan of AppServerJsonLineDecoder over two parts of a stream, one after the other.
use gptsession_bridge.Shared.{
  ℕ, ◌≤◌, ◌≡◌, refl, sym, ap, ◌∙◌, List, [], ◌∷◌, ◌++◌, Option, none, some, Result, ok, err, ◌>>=◌,
  length-append, nat_beq, arith, Bool-cases, inl, inr,
}
use mathlib.Core.List.{append_assoc, append-nil}
use gptsession_bridge.Transport.Codes.{Code}
use gptsession_bridge.Transport.Lines.{Limits, line_feed, append, added, consume_line, scan}

-- Two segments are appended as one.
append-append :
    (l : Limits) (pending seg t : List ℕ)
    → l.max_frame ≤ l.max_buffered
    → append l pending (seg ++ t) ≡ (append l pending seg >>= λ p. append l p t)
unfolding append
append-append l pending [] t h = refl
append-append l pending (b ∷ seg) [] h = ground (arith, append-nil seg)
append-append l pending (b ∷ seg) (c ∷ t) h = ground (
  arith,
  length-append seg (c ∷ t),
  length-append pending (b ∷ seg),
  append_assoc pending (b ∷ seg) (c ∷ t),
)

bind_assoc {ℓ κ μ} :
    {A : Type ℓ} {B : Type κ} {C : Type μ} (a : Result Code A) (f : A → Result Code B)
    (g : B → Result Code C)
    → ((a >>= f) >>= g) ≡ (a >>= λ x. f x >>= g)
bind_assoc (ok x) f g = refl
bind_assoc (err c) f g = refl

module _ {ℓ} {A : Type ℓ} (read : List ℕ → Option A) (l : Limits)
    (fits : l.max_frame ≤ l.max_buffered) where
  -- A segment that was passed over is appended now or later.
  scan-segment :
      (pending seg t ys : List ℕ)
      → scan read l pending (seg ++ t) ys ≡ (append l pending seg >>= λ p. scan read l p t ys)
  unfolding scan
  scan-segment pending seg t [] =
      rw (append-append l pending seg t fits) (bind_assoc (append l pending seg) _ _)
  scan-segment pending seg t (b ∷ ys) = elim (Bool-cases (nat_beq b line_feed)) [
    | inl feed ↦
        rw (feed, append-append l pending seg t fits) (bind_assoc (append l pending seg) _ _)
    | inr other ↦
        rw (other, append_assoc seg t (b ∷ [])) (scan-segment pending seg (t ++ b ∷ []) ys)
  ]

  abbrev pub glue : List A × List ℕ → List A × List ℕ → List A × List ℕ
  glue s t = (s.0 ++ t.0, t.1)

  -- The bytes `ys` read after what is left of a first part.
  abbrev pub then_scan : Result Code (List A × List ℕ) → List ℕ → Result Code (List A × List ℕ)
  then_scan b ys = b >>= λ s. scan read l (s.1) [] ys >>= λ t. ok (glue s t)

  glue_nil : (b : Result Code (List A × List ℕ)) → b ≡ (b >>= λ t. ok ([] ++ t.0, t.1))
  glue_nil (ok t) = refl
  glue_nil (err c) = refl

  regroup_end :
      (a : Result Code (List ℕ)) (ys : List ℕ)
      → (a >>= λ p. scan read l p [] ys) ≡ then_scan (a >>= λ p. ok ([], p)) ys
  regroup_end (err c) ys = refl
  regroup_end (ok p) ys = glue_nil (scan read l p [] ys)

  pull :
      (m : Option A) (s : List A × List ℕ) (d : Result Code (List A × List ℕ))
      → ((d >>= λ t. ok (glue s t)) >>= λ u. ok (added m (u.0), u.1))
        ≡ (d >>= λ t. ok (glue (added m (s.0), s.1) t))
  pull none s (ok t) = refl
  pull (some x) s (ok t) = refl
  pull m s (err c) = refl

  regroup_line :
      (f : Result Code (Option A)) (b : Result Code (List A × List ℕ)) (ys : List ℕ)
      → (f >>= λ m. then_scan b ys >>= λ s. ok (added m (s.0), s.1))
        ≡ then_scan (f >>= λ m. b >>= λ s. ok (added m (s.0), s.1)) ys
  regroup_line (err c) b ys = refl
  regroup_line (ok m) (err c) ys = refl
  regroup_line (ok m) (ok s) ys = pull m s (scan read l (s.1) [] ys)

  regroup :
      (a : Result Code (List ℕ)) (f : List ℕ → Result Code (Option A))
      (b : Result Code (List A × List ℕ)) (ys : List ℕ)
      → (a >>= λ p. f p >>= λ m. then_scan b ys >>= λ s. ok (added m (s.0), s.1))
        ≡ then_scan (a >>= λ p. f p >>= λ m. b >>= λ s. ok (added m (s.0), s.1)) ys
  regroup (err c) f b ys = refl
  regroup (ok p) f b ys = regroup_line (f p) b ys

  pub scan-append :
      (pending seg xs ys : List ℕ)
      → scan read l pending seg (xs ++ ys) ≡ then_scan (scan read l pending seg xs) ys
  unfolding scan
  scan-append pending seg [] ys =
      ap (λ s. scan read l pending s ys) (sym (append-nil seg))
      ∙ scan-segment pending seg [] ys
      ∙ regroup_end (append l pending seg) ys
  scan-append pending seg (x ∷ xs) ys = elim (Bool-cases (nat_beq x line_feed)) [
    | inl ends ↦
        rw (ends, scan-append [] [] xs ys)
          (regroup (append l pending seg) (consume_line read) (scan read l [] [] xs) ys)
    | inr other ↦ rw other (scan-append pending (seg ++ x ∷ []) xs ys)
  ]
