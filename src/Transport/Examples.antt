-- ===== src/Transport/Examples.antt =====
-- Decoders and writers at work, and the runs of their theorems on them.
use gptsession_bridge.Protocol.Text.{frame_sequence, request_id}
use gptsession_bridge.Shared.{ℕ, ◌≡◌, refl, arith, true, false, List, [], ◌∷◌, none, some, err}
use gptsession_bridge.Shared.Table.{size}
use gptsession_bridge.Protocol.Frames.{Payload, Frame, Untrusted, frame_ok, payload_ok, parse_frame}
use gptsession_bridge.Transport.Codes.{invalid_frame, frame_too_large}
use gptsession_bridge.Transport.Encoding.{encode_all, encode}
use gptsession_bridge.Transport.Decoder.{
  Limits as DecoderLimits, Decoder, create, finish, push, push_all, scan_all, front, read_frame,
}
use gptsession_bridge.Transport.Decoder.Stream.{joined, Agrees, push_all-joined}
use gptsession_bridge.Transport.Decoder.Bounds.{
  IsBounded, Call as DecoderCall, pushes, finishes, run as run_decoder, run-create-IsBounded,
}
use gptsession_bridge.Transport.Decoder.RoundTrip.{push_all-encode_all}
use gptsession_bridge.Transport.Lines.{
  Limits as LineLimits, Decoder as LineDecoder, create as create_line_decoder,
  push_all as push_all_lines, scan as scan_lines, append, consume_line, push as push_lines,
}
use gptsession_bridge.Transport.Lines.Chunks.{Agrees as LinesAgree}
use gptsession_bridge.Transport.Lines.RoundTrip.{lines, line_chunks-lines}
use gptsession_bridge.Transport.Pump.{callback, stream_error, resume, empty}
use gptsession_bridge.Transport.Pump.Fifo.{SettledFrom}
use gptsession_bridge.Transport.Writer.{
  Limits, Writer, create_native, create_lines, close, Call, writes, writes_line, happens,
  write_line, run,
}
use gptsession_bridge.Transport.Writer.Answers.{Answers}
use gptsession_bridge.Transport.Writer.Bounds.{IsSound}
use gptsession_bridge.Transport.Writer.Run.{
  run-create_native-IsSound, run-create_lines-IsSound, close-settled,
}

abbrev beat : Frame
beat = record { request_id = "beat-1"; sequence = 3; payload = Payload.heartbeat }

-- A text layer that writes that frame in one byte.
abbrev read : List ℕ → Untrusted
read bytes = some beat

abbrev print : Frame → List ℕ
print f = 7 ∷ []

abbrev limits : DecoderLimits
limits = record { max_buffered = 64; max_frame = 16 }

abbrev decoder : Decoder
decoder = record { limits = limits; buffer = []; closed = false }

-- Two frames, cut in the middle of a header.
abbrev chunks : List (List ℕ)
chunks = (1 ∷ 0 ∷ 0 ∷ 0 ∷ 7 ∷ 1 ∷ []) ∷ (0 ∷ 0 ∷ 0 ∷ 7 ∷ []) ∷ []

decoder_created : create limits ≡ some decoder
unfolding create
decoder_created = refl

-- A whole frame with the front of a second one, whose length is 0, and what comes behind.
abbrev failing : List (List ℕ)
failing = (1 ∷ 0 ∷ 0 ∷ 0 ∷ 7 ∷ 0 ∷ []) ∷ (0 ∷ 0 ∷ 0 ∷ []) ∷ (7 ∷ []) ∷ []

failing_handed : push_all read failing decoder ≡ record {
  handed = beat ∷ [];
  thrown = some invalid_frame;
  left = record decoder { closed = true };
}
unfolding push_all push front read_frame parse_frame frame_ok request_id frame_sequence payload_ok
failing_handed = refl

failing_found : scan_all read 16 (joined failing) ≡ err invalid_frame
unfolding scan_all front read_frame parse_frame frame_ok request_id frame_sequence payload_ok
failing_found = refl

push_all-joined_example :
    Agrees read decoder failing (scan_all read 16 (joined failing)) (push_all read failing decoder)
push_all-joined_example =
    push_all-joined read limits decoder failing decoder_created
      (omega arith, (omega arith, (omega arith, tt)))

-- A frame with the front of a second one, the end of the stream, and a chunk that comes too late.
abbrev decoder_calls : List DecoderCall
decoder_calls = pushes (1 ∷ 0 ∷ 0 ∷ 0 ∷ 7 ∷ 1 ∷ []) ∷ finishes ∷ pushes (0 ∷ []) ∷ []

run-create-IsBounded_example :
    IsBounded (run_decoder read decoder decoder_calls)
    × ((finish (run_decoder read decoder decoder_calls)).1.closed ≡ true)
    × ((finish (run_decoder read decoder decoder_calls)).1.buffer ≡ [])
run-create-IsBounded_example =
    run-create-IsBounded read limits decoder decoder_calls decoder_created

push_all-encode_all_example :
    push_all read chunks decoder
    ≡ record { handed = beat ∷ beat ∷ []; thrown = none; left = decoder }
unfolding frame_ok request_id frame_sequence payload_ok encode_all encode
push_all-encode_all_example =
    push_all-encode_all read print limits decoder (beat ∷ beat ∷ []) chunks decoder_created
      (refl, omega arith, omega arith, refl, (refl, omega arith, omega arith, refl, tt))
      (omega arith, (omega arith, tt)) refl

abbrev line_limits : LineLimits
line_limits = record { max_buffered = 32; max_frame = 16 }

abbrev line_decoder : LineDecoder
line_decoder = record { limits = line_limits; failed = false; pending = [] }

line_decoder_created : create_line_decoder line_limits ≡ some line_decoder
unfolding create_line_decoder
line_decoder_created = refl

abbrev line_chunks : List (List ℕ)
line_chunks = (7 ∷ 10 ∷ 7 ∷ []) ∷ (10 ∷ []) ∷ []

-- A line, and one that is longer than a frame may be.
abbrev failing_lines : List (List ℕ)
failing_lines =
    (7 ∷ 10 ∷ 7 ∷ 7 ∷ 7 ∷ 7 ∷ 7 ∷ 7 ∷ 7 ∷ 7 ∷ []) ∷ (7 ∷ 7 ∷ 7 ∷ 7 ∷ 7 ∷ 7 ∷ 7 ∷ 7 ∷ 7 ∷ []) ∷ []

failing_lines_handed : push_all_lines read failing_lines line_decoder ≡ record {
  handed = beat ∷ [];
  thrown = some frame_too_large;
  left = record line_decoder { failed = true };
}
unfolding push_all_lines push_lines append consume_line
failing_lines_handed = refl

line_chunks-lines_example :
    push_all_lines read line_chunks line_decoder
    ≡ record { handed = beat ∷ beat ∷ []; thrown = none; left = line_decoder }
unfolding lines
line_chunks-lines_example =
    line_chunks-lines read print line_limits line_decoder (beat ∷ beat ∷ []) line_chunks
      line_decoder_created
      (
        (refl, refl, tt),
        omega arith,
        omega arith,
        refl,
        ((refl, refl, tt), omega arith, omega arith, refl, tt),
      )
      refl

abbrev writer_limits : Limits
writer_limits = record { max_frame = 16; max_queued_bytes = 64; max_queued_messages = 2 }

abbrev writer : Writer
writer = record { limits = writer_limits; pump = empty }

-- Two frames, of which the first is written, and a stream that fails under the second.
abbrev frame_calls : List Call
frame_calls =
    writes false true beat
    ∷ writes false false beat
    ∷ happens callback
    ∷ happens (resume false)
    ∷ happens stream_error
    ∷ []

run-create_native-IsSound_example : IsSound (run print writer frame_calls)
unfolding create_native
run-create_native-IsSound_example =
    run-create_native-IsSound print writer_limits writer frame_calls refl

-- A line that is longer than a frame may be, while earlier ones wait.
abbrev long_line : List ℕ
long_line = 7 ∷ 7 ∷ 7 ∷ 7 ∷ 7 ∷ 7 ∷ 7 ∷ 7 ∷ 7 ∷ 7 ∷ 7 ∷ 7 ∷ 7 ∷ 7 ∷ 7 ∷ 7 ∷ 7 ∷ 10 ∷ []

abbrev waiting_calls : List Call
waiting_calls =
    writes_line false true (some (7 ∷ 10 ∷ [])) ∷ writes_line false true (some (8 ∷ 10 ∷ [])) ∷ []

run-create_lines-IsSound_example :
    IsSound (run print writer waiting_calls)
    × Answers
        (run print writer waiting_calls)
        (write_line false true (some long_line) (run print writer waiting_calls))
unfolding create_lines
run-create_lines-IsSound_example =
    run-create_lines-IsSound print writer_limits writer waiting_calls false true (some long_line)
      refl

close-settled_example :
    SettledFrom 0 (close (run print writer frame_calls)).pump.settled
    × (size (close (run print writer frame_calls)).pump.settled
        ≡ (close (run print writer frame_calls)).pump.next_ticket)
unfolding create_native
close-settled_example = close-settled print writer_limits writer frame_calls refl
