-- ===== src/Transport/Lines.antt =====
-- apps/bridge/src/transport/jsonl-decoder.ts: one JSON message to a line, in chunks of any size.
-- `read` stands for the strict UTF-8 decoder, `JSON.parse` and the envelope's schema: `none` where
-- one of them throws.
pub mod Laws
pub mod Chunks
pub mod RoundTrip
use gptsession_bridge.Shared.{
  ℕ, ◌+◌, Bool, true, false, ◌&&◌, List, [], ◌∷◌, ◌++◌, Option, none, some, Result, ok, err, ◌>>=◌,
  length, leb, ltb, nat_beq, if◌then◌else◌,
}
use gptsession_bridge.Transport.Codes.{
  Code, buffer_overflow, frame_too_large, invalid_frame, transport_closed,
}
use gptsession_bridge.Transport.Outcome.{Outcome, ended, after}

pub record Limits : Type 0 where
  pub max_buffered : ℕ
  pub max_frame : ℕ

-- `#pending` as one list, whose length is `#pendingBytes`.
pub record Decoder : Type 0 where
  pub limits : Limits
  pub failed : Bool
  pub pending : List ℕ

-- The constructor; `none` is its `RangeError`.
unfoldable pub create : Limits → Option Decoder
create l =
    if leb 1 l.max_frame && leb l.max_frame l.max_buffered
    then some (record { limits = l; failed = false; pending = [] })
    else none

abbrev pub line_feed : ℕ
line_feed = 10

abbrev pub is_empty {ℓ} : {A : Type ℓ} → List A → Bool
is_empty [] = true
is_empty (x ∷ xs) = false

-- #append
unfoldable pub append : Limits → List ℕ → List ℕ → Result Code (List ℕ)
append l pending segment =
    if is_empty segment
    then ok pending
    else if ltb l.max_frame (length pending + length segment)
    then err frame_too_large
    else if ltb l.max_buffered (length pending + length segment)
    then err buffer_overflow
    else ok (pending ++ segment)

-- A line without a carriage return at its end.
unfoldable pub strip_return : List ℕ → List ℕ
strip_return [] = []
strip_return (b ∷ []) = if nat_beq b 13 then [] else b ∷ []
strip_return (b ∷ c ∷ line) = b ∷ strip_return (c ∷ line)

abbrev pub added {ℓ} : {A : Type ℓ} → Option A → List A → List A
added none ms = ms
added (some m) ms = m ∷ ms

module _ {ℓ} {A : Type ℓ} (read : List ℕ → Option A) where
  unfoldable pub read_line : List ℕ → Result Code (Option A)
  read_line [] = ok none
  read_line (b ∷ line) = elim (read (b ∷ line)) [ none ↦ err invalid_frame | some m ↦ ok (some m) ]

  -- #consumeLine
  unfoldable pub consume_line : List ℕ → Result Code (Option A)
  unfolding read_line strip_return
  consume_line line = read_line (strip_return line)

  -- A line feed ends the line; any other byte is passed over. `more` is the loop on what is ahead.
  abbrev pub feed :
      Limits
      → List ℕ
      → List ℕ
      → ℕ
      → Bool
      → (List ℕ → List ℕ → Result Code (List A × List ℕ))
      → Result Code (List A × List ℕ)
  feed l pending segment b false more = more pending (segment ++ b ∷ [])
  feed l pending segment b true more = do
    line ← append l pending segment
    m ← consume_line line
    s ← more [] []
    ok (added m (s.0), s.1)

  -- The loop of `push`: the segment that has been passed over, and the bytes ahead.
  unfoldable pub scan : Limits → List ℕ → List ℕ → List ℕ → Result Code (List A × List ℕ)
  scan l pending segment [] = do line ← append l pending segment; ok ([], line)
  scan l pending segment (b ∷ bs) =
      feed l pending segment b (nat_beq b line_feed) (λ p s. scan l p s bs)

  -- What `push` and `finish` leave behind: a throw empties the decoder and fails it.
  unfoldable pub settle : Decoder → Result Code (List A × List ℕ) → Result Code (List A) × Decoder
  settle d (ok s) = (ok (s.0), record d { pending = s.1 })
  settle d (err c) = (err c, record d { failed = true; pending = [] })

  unfoldable pub push : List ℕ → Decoder → Result Code (List A) × Decoder
  unfolding settle scan
  push chunk d =
      if d.failed then (err transport_closed, d) else settle d (scan d.limits d.pending [] chunk)

  unfoldable pub finish : Decoder → Result Code (List A) × Decoder
  unfolding settle consume_line
  finish d =
      if d.failed
      then (err transport_closed, d)
      else if is_empty d.pending
      then (ok [], d)
      else settle d (do m ← consume_line d.pending; ok (added m [], []))

  -- The pushes of a stream that arrives in chunks.
  unfoldable pub push_all : List (List ℕ) → Decoder → Outcome A Decoder
  push_all [] d = ended d
  push_all (c ∷ cs) d = after (λ d'. push_all cs d') (push c d)
