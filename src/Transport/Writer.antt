-- ===== src/Transport/Writer.antt =====
-- The two writers over the queue: packages/native-messaging/src/transport/native-message-writer.ts
-- and apps/bridge/src/transport/jsonl-writer.ts. What the stream returns for a write comes with the
-- call that may start one, as do the stream's `destroyed` flag and the texts of `JSON.stringify`.
pub mod Bounds
pub mod Answers
pub mod Run
use gptsession_bridge.Shared.{
  ℕ, ◌+◌, ◌-◌, Bool, true, false, not, ◌&&◌, ◌||◌, List, [], ◌∷◌, Option, none, some, Result, ok,
  err, length, leb, ltb, if◌then◌else◌,
}
use gptsession_bridge.Protocol.Frames.{Frame, parse_frame}
use gptsession_bridge.Transport.Codes.{
  Code, frame_too_large, invalid_frame, queue_overflow, transport_closed, header_bytes,
  default_max_frame, default_max_bytes,
}
use gptsession_bridge.Transport.Encoding.{encode}
use gptsession_bridge.Transport.Pump.{Pump, Event, empty, poison, enqueue, apply}

pub record Limits : Type 0 where
  pub max_frame : ℕ
  pub max_queued_bytes : ℕ
  pub max_queued_messages : ℕ

pub record Writer : Type 0 where
  pub limits : Limits
  pub pump : Pump

-- The constructor of NativeMessageWriter; `none` is its `RangeError`.
unfoldable pub create_native : Limits → Option Writer
create_native l =
    if leb 1 l.max_frame
      && (leb l.max_frame default_max_frame
          && (ltb (l.max_frame + header_bytes) l.max_queued_bytes
              && (leb l.max_queued_bytes default_max_bytes
                  && (leb 1 l.max_queued_messages && leb l.max_queued_messages 32))))
    then some (record { limits = l; pump = empty })
    else none

-- The constructor of AppServerJsonLineWriter.
unfoldable pub create_lines : Limits → Option Writer
create_lines l =
    if leb 1 l.max_frame && (ltb l.max_frame l.max_queued_bytes && leb 1 l.max_queued_messages)
    then some (record { limits = l; pump = empty })
    else none

-- The queue has no room for so many bytes more.
unfoldable pub overflows : ℕ → Writer → Bool
overflows n w =
    leb w.limits.max_queued_messages (length w.pump.queue)
    || ltb w.limits.max_queued_bytes (w.pump.queued_bytes + n)

-- A frame that has room is queued, and the promise is its ticket.
unfoldable pub accept : Bool → List ℕ → Writer → Result Code ℕ × Writer
accept accepted frame w = (ok w.pump.next_ticket, record w { pump = enqueue accepted frame w.pump })

-- A promise that is rejected at once, after the writer was poisoned.
unfoldable pub refuse : Code → Writer → Result Code ℕ × Writer
refuse code w = (err code, record w { pump = poison code w.pump })

module _ (print : Frame → List ℕ) where
  unfoldable pub write_payload : Bool → List ℕ → Writer → Result Code ℕ × Writer
  unfolding overflows accept refuse
  write_payload accepted payload w =
      if ltb w.limits.max_frame (length payload)
      then refuse frame_too_large w
      else if overflows (length (encode payload)) w
      then refuse queue_overflow w
      else accept accepted (encode payload) w

  unfoldable pub write_parsed : Bool → Option Frame → Writer → Result Code ℕ × Writer
  unfolding write_payload refuse
  write_parsed accepted none w = refuse invalid_frame w
  write_parsed accepted (some f) w = write_payload accepted (print f) w

  unfoldable pub write_in : Option Code → Bool → Bool → Frame → Writer → Result Code ℕ × Writer
  unfolding write_parsed
  write_in (some code) destroyed accepted f w = (err code, w)
  write_in none destroyed accepted f w =
      if destroyed
      then (err transport_closed, w)
      else write_parsed accepted (parse_frame (some f)) w

  -- NativeMessageWriter.write
  unfoldable pub write : Bool → Bool → Frame → Writer → Result Code ℕ × Writer
  unfolding write_in
  write destroyed accepted f w = write_in w.pump.failed destroyed accepted f w

-- A line, with its line feed; `none` where the schema or `JSON.stringify` throws.
unfoldable pub write_line_text : Bool → Option (List ℕ) → Writer → Result Code ℕ × Writer
unfolding overflows accept
write_line_text accepted none w = (err invalid_frame, w)
write_line_text accepted (some line) w =
    if ltb w.limits.max_frame (length line - 1)
    then (err frame_too_large, w)
    else if overflows (length line) w
    then (err queue_overflow, w)
    else accept accepted line w

unfoldable pub write_line_in :
    Option Code → Bool → Bool → Option (List ℕ) → Writer → Result Code ℕ × Writer
unfolding write_line_text
write_line_in (some code) destroyed accepted line w = (err code, w)
write_line_in none destroyed accepted line w =
    if destroyed then (err transport_closed, w) else write_line_text accepted line w

-- AppServerJsonLineWriter.write
unfoldable pub write_line : Bool → Bool → Option (List ℕ) → Writer → Result Code ℕ × Writer
unfolding write_line_in
write_line destroyed accepted line w = write_line_in w.pump.failed destroyed accepted line w

-- close, of either
unfoldable pub close : Writer → Writer
close w = record w { pump = poison transport_closed w.pump }

-- What happens to a writer: a write of a frame or of a line, an event of the stream, or its end.
pub data Call : Type 0 where
  writes : Bool → Bool → Frame → Call
  writes_line : Bool → Bool → Option (List ℕ) → Call
  happens : Event → Call
  closes : Call

unfoldable pub step : (Frame → List ℕ) → Writer → Call → Writer
step print w (writes destroyed accepted f) = (write print destroyed accepted f w).1
step print w (writes_line destroyed accepted line) = (write_line destroyed accepted line w).1
step print w (happens e) = record w { pump = apply e w.pump }
step print w closes = close w

unfoldable pub run : (Frame → List ℕ) → Writer → List Call → Writer
run print w [] = w
run print w (c ∷ cs) = run print (step print w c) cs
