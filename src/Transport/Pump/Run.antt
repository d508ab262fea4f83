-- ===== src/Transport/Pump/Run.antt =====
-- Every event keeps the queue first in, first out.
use gptsession_bridge.Shared.{
  ◌+◌, ◌-◌, ◌<◌, ◌≡◌, refl, sym, ap, ◌∙◌, Bool, List, [], ◌∷◌, ◌++◌, Option, none, some, length,
  nat_eq, arith, subst,
}
use gptsession_bridge.Shared.Table.{size}
use gptsession_bridge.Transport.Codes.{Code, transport_closed, write_failed}
use gptsession_bridge.Transport.Pump.{
  Pending, bytes, Await, idle, writing, resolved, rejected, Pump, settle, poison, poison_from,
  reject_active, called_back, drained_now, next_frame, shift, settle_current, resume_from, Event,
  callback, callback_error, drain, stream_error, stream_close, resume, apply,
}
use gptsession_bridge.Transport.Pump.Fifo.{
  QueuedFrom, total, Working, Ended, Shape, IsFifo, size-append, has-SettledFrom_lt,
  SettledFrom-all_with, settle_lem, next_frame-IsFifo, with_await-IsFifo, called_back-Working,
  drained_now-Working, reject_active-Working, called_back-Ended, drained_now-Ended,
  reject_active-Ended, poison-IsFifo, poison_from-eq,
}

-- The rest of a round, after its promise was settled.
continued :
    (a : Bool) {x y : Pump} {q : List Pending}
    → x ≡ y
    → shift y.queue ≡ q
    → IsFifo (next_frame a q (record y { queue = q }))
    → IsFifo (next_frame a (shift x.queue) (record x { queue = shift x.queue }))
continued a {y} e k v =
    subst (λ x. IsFifo (next_frame a (shift x.queue) (record x { queue = shift x.queue }))) (sym e)
      (subst (λ q. IsFifo (next_frame a q (record y { queue = q }))) (sym k) v)

settled_one-IsFifo :
    (a : Bool) (p : Pending) (ps : List Pending) (s : Pump)
    → s.failed ≡ none
    → s.queue ≡ p ∷ ps
    → s.current ≡ some p
    → length s.wire ≡ size s.settled + 1
    → IsFifo s
    → IsFifo (resume_from a resolved s)
unfolding resume_from settle_current
settled_one-IsFifo a p ps s f e c l v =
    let q : QueuedFrom (size s.settled) (p ∷ ps) = rw e at v.queued_next in
    let n : s.next_ticket ≡ size s.settled + length (p ∷ ps) = rw e at v.all_tickets in
    let b : s.queued_bytes ≡ total (p ∷ ps) = rw e at v.accounted in
    let one : size (s.settled ++ (p.ticket, none) ∷ []) ≡ size s.settled + 1 =
      size-append s.settled ((p.ticket, none) ∷ []) in
    continued a (ap (λ o. settle_current o s) c ∙ settle_lem none p s v.settled_first q.0)
      (ap shift e)
      (next_frame-IsFifo a ps
        (record s {
          queue = ps;
          settled = s.settled ++ (p.ticket, none) ∷ [];
          queued_bytes = s.queued_bytes - bytes p;
        })
        f refl
        (SettledFrom-all_with none 0 (size s.settled) s.settled (p ∷ []) v.settled_first
          (omega arith) (q.0, tt))
        (subst (λ k. QueuedFrom k ps) (sym one) q.1) (omega (arith, n, one)) (omega (arith, b))
        v.wired (omega (arith, l, one)))

ended_idle-IsFifo :
    (c : Code) (s : Pump)
    → s.failed ≡ some c
    → IsFifo s
    → IsFifo (record s { await = idle; current = none })
ended_idle-IsFifo c s f v = record {
  settled_first = v.settled_first;
  queued_next = v.queued_next;
  all_tickets = v.all_tickets;
  accounted = v.accounted;
  wired = v.wired;
  shape = let w : Shape s (some c) = rw f at v.shape in rw f (w.0, w.1, tt);
}

pub poison_from-failed :
    (o : Option Code) (code : Code) (s : Pump)
    → s.failed ≡ o
    → IsFifo s
    → (c : Code) × ((poison_from o code s).failed ≡ some c)
poison_from-failed (some c) code s f v = (c, unfold poison_from in f)
poison_from-failed none code s f v = (code, rw (poison_from-eq code s v))

rejected-IsFifo : (a : Bool) (s : Pump) → IsFifo s → IsFifo (resume_from a rejected s)
unfolding resume_from poison
rejected-IsFifo a s v =
    let (c, f) = poison_from-failed s.failed write_failed s refl v in
    ended_idle-IsFifo c (poison write_failed s) f (poison-IsFifo write_failed s v)

already_settled :
    (p : Pending) (s : Pump) → IsFifo s → p.ticket < size s.settled → settle none p s ≡ s
unfolding settle
already_settled p s v l =
    rw (has-SettledFrom_lt 0 p.ticket s.settled v.settled_first (omega arith) (omega (arith, l)))

resolved_late-IsFifo :
    (a : Bool) (c : Code) (s : Pump)
    → s.await ≡ resolved
    → s.failed ≡ some c
    → IsFifo s
    → IsFifo (resume_from a resolved s)
unfolding resume_from settle_current next_frame
resolved_late-IsFifo a c s t f v =
    let w : Shape s (some c) = rw f at v.shape in
    let (p, cur, l) : Ended s resolved = rw t at w.2 in
    continued a (ap (λ o. settle_current o s) cur ∙ already_settled p s v l) (ap shift w.0)
      (rw (sym w.0) (ended_idle-IsFifo c s f v))

resolved-IsFifo :
    (a : Bool) (o : Option Code) (q : List Pending) (s : Pump)
    → s.await ≡ resolved
    → s.failed ≡ o
    → s.queue ≡ q
    → IsFifo s
    → IsFifo (resume_from a resolved s)
resolved-IsFifo a (some c) q s t f e v = resolved_late-IsFifo a c s t f v
resolved-IsFifo a none [] s t f e v = absurd (rw (f, t, e) at v.shape)
resolved-IsFifo a none (p ∷ ps) s t f e v =
    let w : Working s resolved (p ∷ ps) = rw (f, t, e) at v.shape in
    settled_one-IsFifo a p ps s f e w.0 w.1 v

resume_from-IsFifo :
    (a : Bool) (t : Await) (s : Pump) → s.await ≡ t → IsFifo s → IsFifo (resume_from a t s)
resume_from-IsFifo a idle s t v = unfold resume_from in v
resume_from-IsFifo a (writing c d) s t v = unfold resume_from in v
resume_from-IsFifo a rejected s t v = rejected-IsFifo a s v
resume_from-IsFifo a resolved s t v = resolved-IsFifo a s.failed s.queue s t refl refl v

pub apply-IsFifo : (e : Event) (s : Pump) → IsFifo s → IsFifo (apply e s)
unfolding apply
apply-IsFifo callback s v =
    with_await-IsFifo called_back s (called_back-Working s) (called_back-Ended s) v
apply-IsFifo callback_error s v =
    with_await-IsFifo reject_active s (reject_active-Working s) (reject_active-Ended s) v
apply-IsFifo drain s v =
    with_await-IsFifo drained_now s (drained_now-Working s) (drained_now-Ended s) v
apply-IsFifo stream_error s v = poison-IsFifo write_failed s v
apply-IsFifo stream_close s v = poison-IsFifo transport_closed s v
apply-IsFifo (resume a) s v = resume_from-IsFifo a s.await s refl v
