-- ===== src/Transport/Writer/Answers.antt =====
-- What AppServerJsonLineWriter.write answers, and what it leaves of the promises given before.
use gptsession_bridge.Shared.{
  ℕ, ◌+◌, ◌-◌, ◌≡◌, refl, Bool, true, false, List, [], ◌∷◌, Option, none, some, Result, ok, err,
  length, ltb, Bool-cases, inl, inr,
}
use gptsession_bridge.Transport.Codes.{Code}
use gptsession_bridge.Transport.Pump.{
  Pending, Await, idle, Pump, queued, enqueue, start_pump, next_frame,
}
use gptsession_bridge.Transport.Writer.{Writer, overflows, accept, write_line_in, write_line_text}

-- What a write of a line answers: a refusal that leaves the writer as it is, or the next ticket,
-- given while nothing has failed and with no promise settled.
abbrev pub Answers : Writer → Result Code ℕ × Writer → Type 0
Answers w (err c, w') = w' ≡ w
Answers w (ok n, w') =
    (n ≡ w.pump.next_ticket)
    × (w'.pump.next_ticket ≡ n + 1)
    × (w'.pump.settled ≡ w.pump.settled)
    × (w.pump.failed ≡ none)

next_frame-kept :
    (a : Bool) (q : List Pending) (s : Pump)
    → ((next_frame a q s).next_ticket ≡ s.next_ticket) × ((next_frame a q s).settled ≡ s.settled)
unfolding next_frame
next_frame-kept a [] s = (refl, refl)
next_frame-kept a (p ∷ ps) s = (refl, refl)

start_pump-kept :
    (a : Bool) (o : Option Code) (t : Await) (s : Pump)
    → ((start_pump a o t s).next_ticket ≡ s.next_ticket)
      × ((start_pump a o t s).settled ≡ s.settled)
unfolding start_pump next_frame
start_pump-kept a (some c) t s = (refl, refl)
start_pump-kept a none idle s = next_frame-kept a s.queue s
start_pump-kept a none other s = (refl, refl)

accept-Answers :
    (a : Bool) (line : List ℕ) (w : Writer) → w.pump.failed ≡ none → Answers w (accept a line w)
unfolding accept enqueue queued
accept-Answers a line w f =
    let kept = start_pump-kept a w.pump.failed w.pump.await (queued line w.pump) in
    (refl, unfold queued in kept.0, unfold queued in kept.1, f)

write_line_text-Answers :
    (a : Bool) (line : Option (List ℕ)) (w : Writer)
    → w.pump.failed ≡ none
    → Answers w (write_line_text a line w)
unfolding write_line_text
write_line_text-Answers a none w f = refl
write_line_text-Answers a (some line) w f =
    elim (Bool-cases (ltb w.limits.max_frame (length line - 1))) [
      | inl big ↦ rw big refl
      | inr small ↦ elim (Bool-cases (overflows (length line) w)) [
        | inl full ↦ rw (small, full) refl
        | inr room ↦ rw (small, room) (accept-Answers a line w f)
      ]
    ]

pub write_line_in-Answers :
    (o : Option Code) (destroyed a : Bool) (line : Option (List ℕ)) (w : Writer)
    → w.pump.failed ≡ o
    → Answers w (write_line_in o destroyed a line w)
unfolding write_line_in
write_line_in-Answers (some c) destroyed a line w e = refl
write_line_in-Answers none true a line w e = refl
write_line_in-Answers none false a line w e = write_line_text-Answers a line w e
