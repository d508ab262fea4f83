-- ===== src/Transport/Decoder/Bounds.antt =====
-- What a decoder holds between its calls, `push` and `finish`, in any order.
use gptsession_bridge.Shared.{
  ℕ, ◌+◌, ◌≤◌, ◌≡◌, refl, Bool, true, false, List, [], ◌∷◌, ◌++◌, some, Result, ok, err, length,
  ltb, arith, if◌then◌else◌,
}
use gptsession_bridge.Protocol.Frames.{Untrusted}
use gptsession_bridge.Transport.Codes.{Code, transport_closed, buffer_overflow, truncated_frame}
use gptsession_bridge.Transport.Decoder.{
  Limits, Decoder, create, Scanned, settle, fail, push, finish,
}
use gptsession_bridge.Transport.Decoder.Laws.{LeavesPart, scan_all-LeavesPart}
use gptsession_bridge.Transport.Decoder.Stream.{front-length, create-fresh}

empty-length : (xs : List ℕ) → ltb 0 (length xs) ≡ false → xs ≡ []
empty-length [] h = refl
empty-length (x ∷ xs) h = absurd (ground arith)

-- Between calls: closed and empty, or open with less than a frame and its header.
pub record IsBounded (d : Decoder) : Type 0 where
  pub shut : d.closed ≡ true → d.buffer ≡ []
  pub short : length d.buffer ≤ d.limits.max_frame + 3

settle-IsBounded :
    (read : List ℕ → Untrusted) (d : Decoder) (b : Result Code Scanned)
    → d.closed ≡ false
    → LeavesPart read d.limits.max_frame b
    → IsBounded (settle d b).1
unfolding settle fail
settle-IsBounded read d (ok s) e part = record {
  shut = λ k. absurd (cc);
  short = front-length d.limits.max_frame s.rest part;
}
settle-IsBounded read d (err c) e part = record { shut = λ k. refl; short = omega arith }

branches-IsBounded :
    (read : List ℕ → Untrusted) (d : Decoder) (b : Result Code Scanned) (shut over : Bool)
    → d.closed ≡ shut
    → LeavesPart read d.limits.max_frame b
    → IsBounded d
    → IsBounded
        (if shut
          then (err transport_closed, d)
          else if over
          then (err buffer_overflow, fail d)
          else settle d b).1
unfolding fail
branches-IsBounded read d b true over e part v = v
branches-IsBounded read d b false true e part v = record { shut = λ k. refl; short = omega arith }
branches-IsBounded read d b false false e part v = settle-IsBounded read d b e part

push-IsBounded :
    (read : List ℕ → Untrusted) (c : List ℕ) (d : Decoder)
    → IsBounded d
    → IsBounded (push read c d).1
unfolding push
push-IsBounded read c d v =
    branches-IsBounded read d _ d.closed _ refl
      (scan_all-LeavesPart read d.limits.max_frame (d.buffer ++ c)) v

-- `finish`, by its two tests.
abbrev finished : Bool → Bool → Decoder → Result Code (Unit {0}) × Decoder
finished shut some_bytes d =
    if shut
    then (err transport_closed, d)
    else if some_bytes
    then (err truncated_frame, record d { buffer = []; closed = true })
    else (ok tt, record d { closed = true })

finish_branches-IsBounded :
    (d : Decoder) (shut some_bytes : Bool)
    → ltb 0 (length d.buffer) ≡ some_bytes
    → IsBounded d
    → IsBounded (finished shut some_bytes d).1
finish_branches-IsBounded d true some_bytes e v = v
finish_branches-IsBounded d false true e v = record { shut = λ k. refl; short = omega arith }
finish_branches-IsBounded d false false e v = record {
  shut = λ k. empty-length d.buffer e;
  short = v.short;
}

finish-IsBounded : (d : Decoder) → IsBounded d → IsBounded (finish d).1
unfolding finish
finish-IsBounded d v = finish_branches-IsBounded d d.closed (ltb 0 (length d.buffer)) refl v

finish-closed : (d : Decoder) → (finish d).1.closed ≡ true
unfolding finish
finish-closed d = ground arith

-- The calls of a decoder.
pub data Call : Type 0 where
  pushes : List ℕ → Call
  finishes : Call

unfoldable pub step : (List ℕ → Untrusted) → Decoder → Call → Decoder
step read d (pushes c) = (push read c d).1
step read d finishes = (finish d).1

-- A decoder after any calls, whatever they threw.
unfoldable pub run : (List ℕ → Untrusted) → Decoder → List Call → Decoder
run read d [] = d
run read d (c ∷ cs) = run read (step read d c) cs

step-IsBounded :
    (read : List ℕ → Untrusted) (d : Decoder) (c : Call) → IsBounded d → IsBounded (step read d c)
unfolding step
step-IsBounded read d (pushes c) v = push-IsBounded read c d v
step-IsBounded read d finishes v = finish-IsBounded d v

run-IsBounded :
    (read : List ℕ → Untrusted) (d : Decoder) (cs : List Call)
    → IsBounded d
    → IsBounded (run read d cs)
unfolding run
run-IsBounded read d [] v = v
run-IsBounded read d (c ∷ cs) v = run-IsBounded read (step read d c) cs (step-IsBounded read d c v)

-- After any calls of push and finish since its creation, in any order and whatever they throw, a
-- decoder that is closed keeps no bytes, one that is open keeps fewer than a header and the
-- largest payload, and finish closes it and leaves no bytes.
pub run-create-IsBounded :
    (read : List ℕ → Untrusted) (l : Limits) (d : Decoder) (cs : List Call)
    → create l ≡ some d
    → IsBounded (run read d cs)
      × ((finish (run read d cs)).1.closed ≡ true)
      × ((finish (run read d cs)).1.buffer ≡ [])
run-create-IsBounded read l d cs h =
    let v =
      run-IsBounded read d cs
        (rw (create-fresh l d h).0 (record { shut = λ k. refl; short = omega arith })) in
    let e = finish-closed (run read d cs) in (v, e, (finish-IsBounded (run read d cs) v).shut e)
