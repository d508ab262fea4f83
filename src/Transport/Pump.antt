-- ===== src/Transport/Pump.antt =====
-- The queue of native-message-writer.ts and of apps/bridge/src/transport/jsonl-writer.ts, which they
-- share line for line: `#pump`, `#writeFrame`, `#poison` (`#fail`), `#settleSuccess` and
-- `#settleFailure`. A promise is the number of its `write`; an `await` is a state of its own, which
-- ends when the event loop resumes it.
pub mod Numbering
pub mod Fifo
pub mod Run
use gptsession_bridge.Shared.{
  ℕ, zero, suc, ◌+◌, ◌-◌, Bool, true, false, List, [], ◌∷◌, ◌++◌, Option, none, some, length,
  nat_eq, ◌==◌, if◌then◌else◌,
}
use gptsession_bridge.Shared.Table.{Table, has, set}
use gptsession_bridge.Transport.Codes.{Code, transport_closed, write_failed}

-- PendingWrite, with the number of its promise.
pub record Pending : Type 0 where
  pub ticket : ℕ
  pub frame : List ℕ

abbrev pub bytes : Pending → ℕ
bytes p = length p.frame

-- What `#pump` waits for. `writing` has the two flags of `#writeFrame`; a promise that is settled
-- is `resolved` or `rejected` until `#pump` goes on.
pub data Await : Type 0 where
  idle : Await
  writing : Bool → Bool → Await
  resolved rejected : Await

pub record Pump : Type 0 where
  pub failed : Option Code
  pub queue : List Pending
  pub queued_bytes : ℕ
  pub await : Await
  pub current : Option Pending
  -- The promises of queued writes that are settled, with what they were rejected with, in that
  -- order; a write that is refused at once has no ticket and is not among them.
  pub settled : Table ℕ (Option Code)
  -- The tickets whose frames were handed to the stream, in that order.
  pub wire : List ℕ
  pub next_ticket : ℕ

unfoldable pub empty : Pump
empty = record {
  failed = none;
  queue = [];
  queued_bytes = 0;
  await = idle;
  current = none;
  settled = [];
  wire = [];
  next_ticket = 0;
}

-- #settleSuccess and #settleFailure
unfoldable pub settle : Option Code → Pending → Pump → Pump
settle outcome p s = if has s.settled p.ticket then s else record s {
  settled = s.settled ++ (p.ticket, outcome) ∷ [];
  queued_bytes = s.queued_bytes - bytes p;
}

unfoldable pub settle_all : Option Code → List Pending → Pump → Pump
unfolding settle
settle_all outcome [] s = s
settle_all outcome (p ∷ ps) s = settle_all outcome ps (settle outcome p s)

-- #activeReject, where a write is under way.
abbrev pub reject_active : Await → Await
reject_active (writing callback drained) = rejected
reject_active other = other

unfoldable pub poison_from : Option Code → Code → Pump → Pump
unfolding settle_all
poison_from (some earlier) code s = s
poison_from none code s =
    let s' =
      settle_all (some code) s.queue
        (record s { failed = some code; await = reject_active s.await }) in
    record s' { queue = [] }

-- #poison
unfoldable pub poison : Code → Pump → Pump
unfolding poison_from
poison code s = poison_from s.failed code s

-- One round of the loop in `#pump`: `accepted` is what `stream.write` returns.
unfoldable pub next_frame : Bool → List Pending → Pump → Pump
next_frame accepted [] s = record s { await = idle; current = none }
next_frame accepted (p ∷ ps) s = record s {
  await = writing false accepted;
  current = some p;
  wire = s.wire ++ p.ticket ∷ [];
}

-- #pump, as `write` calls it.
unfoldable pub start_pump : Bool → Option Code → Await → Pump → Pump
unfolding next_frame
start_pump accepted none idle s = next_frame accepted s.queue s
start_pump accepted failed other s = s

unfoldable pub queued : List ℕ → Pump → Pump
queued frame s = record s {
  queue = s.queue ++ (record { ticket = s.next_ticket; frame = frame }) ∷ [];
  queued_bytes = s.queued_bytes + length frame;
  next_ticket = s.next_ticket + 1;
}

-- The end of `write`: a frame that is let in is queued, and the pump is started.
unfoldable pub enqueue : Bool → List ℕ → Pump → Pump
unfolding start_pump queued
enqueue accepted frame s = start_pump accepted s.failed s.await (queued frame s)

-- `complete` of #writeFrame.
abbrev pub complete : Bool → Bool → Await
complete true true = resolved
complete callback drained = writing callback drained

-- The callback of `stream.write`, without and with an error, and the event `drain`.
abbrev pub called_back : Await → Await
called_back (writing callback drained) = complete true drained
called_back other = other

abbrev pub drained_now : Await → Await
drained_now (writing callback drained) = complete callback true
drained_now other = other

abbrev pub shift : List Pending → List Pending
shift [] = []
shift (p ∷ ps) = ps

unfoldable pub settle_current : Option Pending → Pump → Pump
unfolding settle
settle_current none s = s
settle_current (some p) s = settle none p s

-- `#pump` goes on after its `await`.
unfoldable pub resume_from : Bool → Await → Pump → Pump
unfolding settle_current next_frame poison
resume_from accepted resolved s =
    let s' = settle_current s.current s in
    next_frame accepted (shift s'.queue) (record s' { queue = shift s'.queue })
resume_from accepted rejected s = record (poison write_failed s) { await = idle; current = none }
resume_from accepted other s = s

-- What the stream and the event loop do.
pub data Event : Type 0 where
  callback callback_error drain stream_error stream_close : Event
  resume : Bool → Event

abbrev pub with_await : (Await → Await) → Pump → Pump
with_await f s = record s { await = f s.await }

unfoldable pub apply : Event → Pump → Pump
unfolding resume_from poison
apply callback s = with_await called_back s
apply callback_error s = with_await reject_active s
apply drain s = with_await drained_now s
apply stream_error s = poison write_failed s
apply stream_close s = poison transport_closed s
apply (resume accepted) s = resume_from accepted s.await s
