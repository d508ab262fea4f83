-- ===== src/Transport/Writer/Run.antt =====
-- A writer under any sequence of writes, events of its stream, and its end.
use gptsession_bridge.Shared.{
  ℕ, ◌≡◌, refl, ap, Bool, true, false, List, [], ◌∷◌, Option, none, some, length, ◌-◌, ltb,
  Bool-cases, inl, inr, arith, subst, length-append,
}
use gptsession_bridge.Shared.Table.{size}
use gptsession_bridge.Protocol.Frames.{Frame, parse_frame}
use gptsession_bridge.Transport.Codes.{
  Code, frame_too_large, invalid_frame, queue_overflow, transport_closed,
}
use gptsession_bridge.Transport.Encoding.{encode}
use gptsession_bridge.Transport.Pump.{empty, poison, queued, enqueue}
use gptsession_bridge.Transport.Pump.Fifo.{
  SettledFrom, Shape, total-snoc, empty-IsFifo, poison-IsFifo,
}
use gptsession_bridge.Transport.Pump.Run.{apply-IsFifo, poison_from-failed}
use gptsession_bridge.Transport.Writer.{
  Limits, Writer, create_native, create_lines, overflows, accept, refuse, write, write_in,
  write_parsed, write_payload, write_line, write_line_in, write_line_text, close, Call, writes,
  writes_line, happens, closes, step, run,
}
use gptsession_bridge.Transport.Writer.Answers.{Answers, write_line_in-Answers}
use gptsession_bridge.Transport.Writer.Bounds.{
  IsSound, ticketed, enqueue-IsFifo, apply-Shrinks, poison_from-Shrinks, start_pump-queue,
}

accept-IsSound :
    (a : Bool) (frame : List ℕ) (w : Writer)
    → w.pump.failed ≡ none
    → overflows (length frame) w ≡ false
    → IsSound w
    → IsSound (accept a frame w).1
unfolding accept overflows enqueue queued
accept-IsSound a frame w f room v = record {
  fifo = unfold enqueue queued in enqueue-IsFifo a frame w.pump f v.fifo;
  few =
      rw (start_pump-queue a w.pump.failed w.pump.await (queued frame w.pump))
        (ground (arith, length-append w.pump.queue (ticketed frame w.pump ∷ []), v.few));
  small =
      rw (start_pump-queue a w.pump.failed w.pump.await (queued frame w.pump))
        (ground (arith, total-snoc w.pump.queue (ticketed frame w.pump), v.fifo.accounted));
}

poisoned-IsSound :
    (c : Code) (w : Writer) → IsSound w → IsSound (record w { pump = poison c w.pump })
unfolding poison
poisoned-IsSound c w v =
    let less = poison_from-Shrinks w.pump.failed c w.pump in
    record {
      fifo = unfold poison in poison-IsFifo c w.pump v.fifo;
      few = omega (arith, v.few, less);
      small = omega (arith, v.small, less);
    }

refuse-IsSound : (c : Code) (w : Writer) → IsSound w → IsSound (refuse c w).1
unfolding refuse
refuse-IsSound c w v = poisoned-IsSound c w v

write_payload-IsSound :
    (print : Frame → List ℕ) (a : Bool) (payload : List ℕ) (w : Writer)
    → w.pump.failed ≡ none
    → IsSound w
    → IsSound (write_payload print a payload w).1
unfolding write_payload
write_payload-IsSound print a payload w f v =
    elim (Bool-cases (ltb w.limits.max_frame (length payload))) [
      | inl big ↦ rw big (refuse-IsSound frame_too_large w v)
      | inr small ↦ elim (Bool-cases (overflows (length (encode payload)) w)) [
        | inl full ↦ rw (small, full) (refuse-IsSound queue_overflow w v)
        | inr room ↦ rw (small, room) (accept-IsSound a (encode payload) w f room v)
      ]
    ]

write_in-IsSound :
    (print : Frame → List ℕ) (o : Option Code) (destroyed a : Bool) (f : Frame) (p : Option Frame)
    (w : Writer)
    → w.pump.failed ≡ o
    → parse_frame (some f) ≡ p
    → IsSound w
    → IsSound (write_in print o destroyed a f w).1
unfolding write_in write_parsed
write_in-IsSound print (some c) destroyed a f p w e g v = v
write_in-IsSound print none true a f p w e g v = v
write_in-IsSound print none false a f none w e g v = rw g (refuse-IsSound invalid_frame w v)
write_in-IsSound print none false a f (some h) w e g v =
    rw g (write_payload-IsSound print a (print h) w e v)

write-IsSound :
    (print : Frame → List ℕ) (destroyed a : Bool) (f : Frame) (w : Writer)
    → IsSound w
    → IsSound (write print destroyed a f w).1
unfolding write
write-IsSound print destroyed a f w v =
    write_in-IsSound print w.pump.failed destroyed a f (parse_frame (some f)) w refl refl v

write_line_text-IsSound :
    (a : Bool) (line : List ℕ) (w : Writer)
    → w.pump.failed ≡ none
    → IsSound w
    → IsSound (write_line_text a (some line) w).1
unfolding write_line_text
write_line_text-IsSound a line w f v =
    elim (Bool-cases (ltb w.limits.max_frame (length line - 1))) [
      | inl big ↦ rw big v
      | inr small ↦ elim (Bool-cases (overflows (length line) w)) [
        | inl full ↦ rw (small, full) v
        | inr room ↦ rw (small, room) (accept-IsSound a line w f room v)
      ]
    ]

write_line_in-IsSound :
    (o : Option Code) (destroyed a : Bool) (line : Option (List ℕ)) (w : Writer)
    → w.pump.failed ≡ o
    → IsSound w
    → IsSound (write_line_in o destroyed a line w).1
unfolding write_line_in write_line_text
write_line_in-IsSound (some c) destroyed a line w e v = v
write_line_in-IsSound none true a line w e v = v
write_line_in-IsSound none false a none w e v = v
write_line_in-IsSound none false a (some line) w e v = write_line_text-IsSound a line w e v

step-IsSound :
    (print : Frame → List ℕ) (w : Writer) (c : Call) → IsSound w → IsSound (step print w c)
unfolding step write_line close
step-IsSound print w (writes destroyed a f) v = write-IsSound print destroyed a f w v
step-IsSound print w (writes_line destroyed a line) v =
    write_line_in-IsSound w.pump.failed destroyed a line w refl v
step-IsSound print w (happens e) v =
    let less = apply-Shrinks e w.pump in
    record {
      fifo = apply-IsFifo e w.pump v.fifo;
      few = omega (arith, v.few, less);
      small = omega (arith, v.small, less);
    }
step-IsSound print w closes v = poisoned-IsSound transport_closed w v

run-IsSound :
    (print : Frame → List ℕ) (w : Writer) (cs : List Call) → IsSound w → IsSound (run print w cs)
unfolding run
run-IsSound print w [] v = v
run-IsSound print w (c ∷ cs) v = run-IsSound print (step print w c) cs (step-IsSound print w c v)

empty-IsSound : (l : Limits) → IsSound (record { limits = l; pump = empty })
unfolding empty
empty-IsSound l = record {
  fifo = unfold empty in empty-IsFifo;
  few = omega arith;
  small = omega arith;
}

create_native-made :
    (l : Limits) (w : Writer) → create_native l ≡ some w → w ≡ record { limits = l; pump = empty }
unfolding create_native
create_native-made l w h = ground arith

create_lines-made :
    (l : Limits) (w : Writer) → create_lines l ≡ some w → w ≡ record { limits = l; pump = empty }
unfolding create_lines
create_lines-made l w h = ground arith

-- From the creation of a frame writer on, whatever is written and whatever its stream does, the
-- queue keeps its two limits, its byte count is that of its frames, and queued writes have their
-- promises settled and their frames written in the order in which they were queued.
pub run-create_native-IsSound :
    (print : Frame → List ℕ) (l : Limits) (w : Writer) (cs : List Call)
    → create_native l ≡ some w
    → IsSound (run print w cs)
run-create_native-IsSound print l w cs h =
    run-IsSound print w cs (rw (create_native-made l w h) (empty-IsSound l))

-- From the creation of a line writer on, whatever is written and whatever its stream does, the
-- queue keeps its two limits, its byte count is that of its frames, and queued lines have their
-- promises settled and their frames written in the order in which they were queued. A further
-- line is either refused at once and the writer stays as it is, earlier promises included, or,
-- where nothing has failed, it gets the next ticket and no promise is settled.
pub run-create_lines-IsSound :
    (print : Frame → List ℕ) (l : Limits) (w : Writer) (cs : List Call) (destroyed a : Bool)
    (line : Option (List ℕ))
    → create_lines l ≡ some w
    → IsSound (run print w cs)
      × Answers (run print w cs) (write_line destroyed a line (run print w cs))
unfolding write_line
run-create_lines-IsSound print l w cs destroyed a line h = (
  run-IsSound print w cs (rw (create_lines-made l w h) (empty-IsSound l)),
  write_line_in-Answers (run print w cs).pump.failed destroyed a line (run print w cs) refl,
)

failed-settled :
    (c : Code) (w : Writer)
    → w.pump.failed ≡ some c
    → IsSound w
    → size w.pump.settled ≡ w.pump.next_ticket
failed-settled c w f v =
    let shape : Shape w.pump (some c) = subst (Shape w.pump) f v.fifo.shape in
    omega (arith, v.fifo.all_tickets, ap length shape.0)

-- Once a frame writer is closed, after any calls, the promise of every write that it queued has
-- been settled, once and in order.
pub close-settled :
    (print : Frame → List ℕ) (l : Limits) (w : Writer) (cs : List Call)
    → create_native l ≡ some w
    → SettledFrom 0 (close (run print w cs)).pump.settled
      × (size (close (run print w cs)).pump.settled ≡ (close (run print w cs)).pump.next_ticket)
unfolding close poison
close-settled print l w cs h =
    let v = run-create_native-IsSound print l w cs h in
    let closed_v = poisoned-IsSound transport_closed (run print w cs) v in
    let (c, f) =
      poison_from-failed (run print w cs).pump.failed transport_closed (run print w cs).pump refl
        v.fifo in
    (closed_v.fifo.settled_first, failed-settled c (close (run print w cs)) f closed_v)
