-- ===== src/Transport/Writer/Bounds.antt =====
-- The queue of a writer stays within its limits, and is first in, first out.
use gptsession_bridge.Shared.{
  ℕ, ◌≤◌, ◌≡◌, refl, sym, Bool, List, [], ◌∷◌, ◌++◌, Option, none, some, length, arith, subst,
  length-append,
}
use gptsession_bridge.Shared.Table.{size}
use gptsession_bridge.Transport.Codes.{Code, transport_closed, write_failed}
use gptsession_bridge.Transport.Pump.{
  Pending, Await, idle, writing, resolved, rejected, Pump, Event, settle, poison, poison_from,
  queued, enqueue, start_pump, next_frame, settle_current, resume_from, shift, apply, callback,
  callback_error, drain, stream_error, stream_close, resume,
}
use gptsession_bridge.Transport.Pump.Fifo.{
  IsFifo, QueuedFrom-snoc, Working, Shape, total, total-snoc, next_frame-IsFifo,
}
use gptsession_bridge.Transport.Writer.{Writer}

abbrev pub ticketed : List ℕ → Pump → Pending
ticketed frame s = record { ticket = s.next_ticket; frame = frame }

queued_behind-IsFifo :
    (frame : List ℕ) (p : Pending) (ps : List Pending) (s : Pump)
    → s.failed ≡ none
    → s.queue ≡ p ∷ ps
    → Working s s.await (p ∷ ps ++ ticketed frame s ∷ [])
    → IsFifo s
    → IsFifo (queued frame s)
unfolding queued
queued_behind-IsFifo frame p ps s f e w v = record {
  settled_first = v.settled_first;
  queued_next =
      QueuedFrom-snoc (size s.settled) s.queue (ticketed frame s) v.queued_next
        (omega (arith, v.all_tickets));
  all_tickets = omega (arith, v.all_tickets, length-append s.queue (ticketed frame s ∷ []));
  accounted = omega (arith, v.accounted, total-snoc s.queue (ticketed frame s));
  wired = v.wired;
  shape = rw (f, e) w;
}

started-IsFifo :
    (a : Bool) (frame : List ℕ) (t : Await) (q : List Pending) (s : Pump)
    → s.failed ≡ none
    → s.await ≡ t
    → s.queue ≡ q
    → Working s t q
    → IsFifo s
    → IsFifo (start_pump a none t (queued frame s))
unfolding start_pump queued
started-IsFifo a frame idle (p ∷ ps) s f t e w v = absurd w
started-IsFifo a frame idle [] s f t e w v =
    next_frame-IsFifo a _ (queued frame s) f refl v.settled_first
      (QueuedFrom-snoc (size s.settled) s.queue (ticketed frame s) v.queued_next
        (omega (arith, v.all_tickets)))
      (omega (arith, v.all_tickets, length-append s.queue (ticketed frame s ∷ [])))
      (omega (arith, v.accounted, total-snoc s.queue (ticketed frame s))) v.wired w.1
started-IsFifo a frame (writing c d) [] s f t e w v = absurd w
started-IsFifo a frame (writing c d) (p ∷ ps) s f t e w v =
    queued_behind-IsFifo frame p ps s f e (rw t w) v
started-IsFifo a frame resolved [] s f t e w v = absurd w
started-IsFifo a frame resolved (p ∷ ps) s f t e w v =
    queued_behind-IsFifo frame p ps s f e (rw t w) v
started-IsFifo a frame rejected [] s f t e w v = absurd w
started-IsFifo a frame rejected (p ∷ ps) s f t e w v =
    queued_behind-IsFifo frame p ps s f e (rw t w) v

pub enqueue-IsFifo :
    (a : Bool) (frame : List ℕ) (s : Pump) → s.failed ≡ none → IsFifo s → IsFifo (enqueue a frame s)
unfolding enqueue
enqueue-IsFifo a frame s f v =
    subst (λ o. IsFifo (start_pump a o s.await (queued frame s))) (sym f)
      (started-IsFifo a frame s.await s.queue s f refl refl (subst (Shape s) f v.shape) v)

-- The queue fits, and is first in, first out.
pub record IsSound (w : Writer) : Type 0 where
  pub fifo : IsFifo w.pump
  pub few : length w.pump.queue ≤ w.limits.max_queued_messages
  pub small : total w.pump.queue ≤ w.limits.max_queued_bytes

-- No event makes the queue longer.
abbrev pub Shrinks : Pump → Pump → Type 0
Shrinks s s' = (length s'.queue ≤ length s.queue) × (total s'.queue ≤ total s.queue)

shift-le : (q : List Pending) → (length (shift q) ≤ length q) × (total (shift q) ≤ total q)
shift-le [] = omega arith
shift-le (p ∷ ps) = omega arith

settle_current-queue : (o : Option Pending) (s : Pump) → (settle_current o s).queue ≡ s.queue
unfolding settle_current settle
settle_current-queue none s = refl
settle_current-queue (some p) s = ground arith

next_frame-queue : (a : Bool) (q : List Pending) (s : Pump) → (next_frame a q s).queue ≡ s.queue
unfolding next_frame
next_frame-queue a [] s = refl
next_frame-queue a (p ∷ ps) s = refl

pub start_pump-queue :
    (a : Bool) (o : Option Code) (t : Await) (s : Pump) → (start_pump a o t s).queue ≡ s.queue
unfolding start_pump next_frame
start_pump-queue a (some c) t s = refl
start_pump-queue a none idle s = next_frame-queue a s.queue s
start_pump-queue a none other s = refl

pub poison_from-Shrinks : (o : Option Code) (c : Code) (s : Pump) → Shrinks s (poison_from o c s)
unfolding poison_from
poison_from-Shrinks (some e) c s = omega arith
poison_from-Shrinks none c s = omega arith

resume_from-Shrinks : (a : Bool) (t : Await) (s : Pump) → Shrinks s (resume_from a t s)
unfolding resume_from poison
resume_from-Shrinks a idle s = omega arith
resume_from-Shrinks a (writing c d) s = omega arith
resume_from-Shrinks a rejected s = poison_from-Shrinks s.failed write_failed s
resume_from-Shrinks a resolved s =
    rw (next_frame-queue, settle_current-queue s.current s) (shift-le s.queue)

pub apply-Shrinks : (e : Event) (s : Pump) → Shrinks s (apply e s)
unfolding apply poison
apply-Shrinks callback s = omega arith
apply-Shrinks callback_error s = omega arith
apply-Shrinks drain s = omega arith
apply-Shrinks stream_error s = poison_from-Shrinks s.failed write_failed s
apply-Shrinks stream_close s = poison_from-Shrinks s.failed transport_closed s
apply-Shrinks (resume a) s = resume_from-Shrinks a s.await s
