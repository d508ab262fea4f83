-- ===== src/Transport/Pump/Fifo.antt =====
-- The queue is first in, first out: promises settle once each, in the order of their tickets.
use gptsession_bridge.Shared.{
  ◌+◌, ◌-◌, ◌≤◌, ◌<◌, ◌≡◌, refl, Bool, true, false, List, [], ◌∷◌, ◌++◌, Option, none, some, length,
  nat_eq, arith, length-append,
}
use gptsession_bridge.Shared.Table.{size}
use gptsession_bridge.Transport.Codes.{Code}
use gptsession_bridge.Transport.Pump.{
  Pending, Await, idle, writing, resolved, rejected, Pump, empty, poison, poison_from,
  reject_active, called_back, drained_now, with_await, next_frame,
}
pub use gptsession_bridge.Transport.Pump.Numbering.{
  SettledFrom, QueuedFrom, total, size-append, has-SettledFrom_lt, SettledFrom-all_with,
  QueuedFrom-snoc, total-snoc, settle_lem,
}
use gptsession_bridge.Transport.Pump.Numbering.{
  NumberedFrom, all_with, size-all_with, NumberedFrom-snoc, settle_all-eq,
}

-- What the fields hold, by what the pump waits for.
abbrev pub Working : Pump → Await → List Pending → Type 0
Working s idle [] = (s.current ≡ none) × (length s.wire ≡ size s.settled)
Working s idle (p ∷ ps) = ⊥
Working s other [] = ⊥
Working s other (p ∷ ps) = (s.current ≡ some p) × (length s.wire ≡ size s.settled + 1)

abbrev pub Ended : Pump → Await → Type 0
Ended s (writing c d) = ⊥
Ended s resolved = (p : Pending) × (s.current ≡ some p) × (p.ticket < size s.settled)
Ended s other = Unit {0}

abbrev pub Shape : Pump → Option Code → Type 0
Shape s none = Working s s.await s.queue
Shape s (some code) = (s.queue ≡ []) × (length s.wire ≤ size s.settled) × Ended s s.await

pub record IsFifo (s : Pump) : Type 0 where
  pub settled_first : SettledFrom 0 s.settled
  pub queued_next : QueuedFrom (size s.settled) s.queue
  pub all_tickets : s.next_ticket ≡ size s.settled + length s.queue
  pub accounted : s.queued_bytes ≡ total s.queue
  pub wired : NumberedFrom 0 s.wire
  pub shape : Shape s s.failed

pub empty-IsFifo : IsFifo empty
unfolding empty
empty-IsFifo = record {
  settled_first = tt;
  queued_next = tt;
  all_tickets = refl;
  accounted = refl;
  wired = tt;
  shape = (refl, refl);
}

pub next_frame-IsFifo :
    (a : Bool) (q : List Pending) (s : Pump)
    → s.failed ≡ none
    → s.queue ≡ q
    → SettledFrom 0 s.settled
    → QueuedFrom (size s.settled) q
    → s.next_ticket ≡ size s.settled + length q
    → s.queued_bytes ≡ total q
    → NumberedFrom 0 s.wire
    → length s.wire ≡ size s.settled
    → IsFifo (next_frame a q s)
unfolding next_frame
next_frame-IsFifo a [] s f e h k n b w l = record {
  settled_first = h;
  queued_next = rw e tt;
  all_tickets = rw e n;
  accounted = rw e b;
  wired = w;
  shape = rw (f, e) (refl, l);
}
next_frame-IsFifo a (p ∷ ps) s f e h k n b w l = record {
  settled_first = h;
  queued_next = rw e k;
  all_tickets = rw e n;
  accounted = rw e b;
  wired = NumberedFrom-snoc 0 s.wire p.ticket w (omega (arith, l, k.0));
  shape = rw (f, e) (refl, omega (arith, l, length-append s.wire (p.ticket ∷ [])));
}

pub Working-wire :
    (s : Pump) (a : Await) (q : List Pending)
    → Working s a q
    → length s.wire ≤ size s.settled + length q
Working-wire s idle [] w = omega arith
Working-wire s idle (p ∷ ps) w = absurd w
Working-wire s (writing c d) [] w = absurd w
Working-wire s (writing c d) (p ∷ ps) w = omega arith
Working-wire s resolved [] w = absurd w
Working-wire s resolved (p ∷ ps) w = omega arith
Working-wire s rejected [] w = absurd w
Working-wire s rejected (p ∷ ps) w = omega arith

-- Only what the pump waits for changes.
with_await-Shape :
    (g : Await → Await) (s : Pump) (o : Option Code)
    → ((a : Await) (q : List Pending) → Working s a q → Working s (g a) q)
    → ((a : Await) → Ended s a → Ended s (g a))
    → Shape s o
    → Shape (with_await g s) o
with_await-Shape g s none w e h = w s.await s.queue h
with_await-Shape g s (some c) w e h = (h.0, h.1, e s.await h.2)

pub with_await-IsFifo :
    (g : Await → Await) (s : Pump)
    → ((a : Await) (q : List Pending) → Working s a q → Working s (g a) q)
    → ((a : Await) → Ended s a → Ended s (g a))
    → IsFifo s
    → IsFifo (with_await g s)
with_await-IsFifo g s w e v = record {
  settled_first = v.settled_first;
  queued_next = v.queued_next;
  all_tickets = v.all_tickets;
  accounted = v.accounted;
  wired = v.wired;
  shape = with_await-Shape g s s.failed w e v.shape;
}

pub called_back-Working :
    (s : Pump) (a : Await) (q : List Pending) → Working s a q → Working s (called_back a) q
called_back-Working s (writing c true) [] w = w
called_back-Working s (writing c true) (p ∷ ps) w = w
called_back-Working s (writing c false) [] w = w
called_back-Working s (writing c false) (p ∷ ps) w = w
called_back-Working s idle q w = w
called_back-Working s resolved q w = w
called_back-Working s rejected q w = w

pub drained_now-Working :
    (s : Pump) (a : Await) (q : List Pending) → Working s a q → Working s (drained_now a) q
drained_now-Working s (writing true d) [] w = w
drained_now-Working s (writing true d) (p ∷ ps) w = w
drained_now-Working s (writing false d) [] w = w
drained_now-Working s (writing false d) (p ∷ ps) w = w
drained_now-Working s idle q w = w
drained_now-Working s resolved q w = w
drained_now-Working s rejected q w = w

pub reject_active-Working :
    (s : Pump) (a : Await) (q : List Pending) → Working s a q → Working s (reject_active a) q
reject_active-Working s (writing c d) [] w = w
reject_active-Working s (writing c d) (p ∷ ps) w = w
reject_active-Working s idle q w = w
reject_active-Working s resolved q w = w
reject_active-Working s rejected q w = w

pub called_back-Ended : (s : Pump) (a : Await) → Ended s a → Ended s (called_back a)
called_back-Ended s (writing c d) w = absurd w
called_back-Ended s idle w = w
called_back-Ended s resolved w = w
called_back-Ended s rejected w = w

pub drained_now-Ended : (s : Pump) (a : Await) → Ended s a → Ended s (drained_now a)
drained_now-Ended s (writing c d) w = absurd w
drained_now-Ended s idle w = w
drained_now-Ended s resolved w = w
drained_now-Ended s rejected w = w

pub reject_active-Ended : (s : Pump) (a : Await) → Ended s a → Ended s (reject_active a)
reject_active-Ended s (writing c d) w = absurd w
reject_active-Ended s idle w = w
reject_active-Ended s resolved w = w
reject_active-Ended s rejected w = w

abbrev pub poisoned : Code → Pump → Pump
poisoned code s = record s {
  failed = some code;
  await = reject_active s.await;
  queue = [];
  settled = s.settled ++ all_with (some code) s.queue;
  queued_bytes = s.queued_bytes - total s.queue;
}

pub poison_from-eq : (code : Code) (s : Pump) → IsFifo s → poison_from none code s ≡ poisoned code s
unfolding poison_from
poison_from-eq code s v = rw (
    settle_all-eq (some code) s.queue
      (record s { failed = some code; await = reject_active s.await }) v.settled_first
      v.queued_next)

poisoned-Ended :
    (code : Code) (s : Pump) (a : Await) (q : List Pending)
    → Working s a q
    → QueuedFrom (size s.settled) q
    → s.queue ≡ q
    → Ended (poisoned code s) (reject_active a)
poisoned-Ended code s (writing c d) q w k e = tt
poisoned-Ended code s idle q w k e = tt
poisoned-Ended code s rejected q w k e = tt
poisoned-Ended code s resolved [] w k e = absurd w
poisoned-Ended code s resolved (p ∷ ps) w k e = (
  p,
  w.0,
  rw e (
      omega (
        arith,
        k.0,
        size-append s.settled (all_with (some code) (p ∷ ps)),
        size-all_with (some code) ps,
      )),
)

poison_from-IsFifo :
    (o : Option Code) (code : Code) (s : Pump)
    → s.failed ≡ o
    → IsFifo s
    → IsFifo (poison_from o code s)
poison_from-IsFifo (some c) code s f v = unfold poison_from in v
poison_from-IsFifo none code s f v =
    let w = rw f at v.shape in
    let more = size-append s.settled (all_with (some code) s.queue) in
    let all = size-all_with (some code) s.queue in
    rw (poison_from-eq code s v) (record {
      settled_first =
          SettledFrom-all_with (some code) 0 (size s.settled) s.settled s.queue v.settled_first
            (omega arith) v.queued_next;
      queued_next = tt;
      all_tickets = omega (arith, v.all_tickets, more, all);
      accounted = omega (arith, v.accounted);
      wired = v.wired;
      shape = (
        refl,
        omega (arith, more, all, Working-wire s s.await s.queue w),
        poisoned-Ended code s s.await s.queue w v.queued_next refl,
      );
    })

pub poison-IsFifo : (code : Code) (s : Pump) → IsFifo s → IsFifo (poison code s)
unfolding poison
poison-IsFifo code s v = poison_from-IsFifo s.failed code s refl v
