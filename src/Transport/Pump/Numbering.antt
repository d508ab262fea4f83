-- ===== src/Transport/Pump/Numbering.antt =====
-- Tickets in a row: the promises that are settled, the frames that wait, and what settling all of
-- them gives.
use gptsession_bridge.Shared.{
  ℕ, ◌+◌, ◌-◌, ◌≤◌, ◌<◌, ◌≡◌, refl, sym, ◌∙◌, true, false, List, [], ◌∷◌, ◌++◌, Option, length,
  nat_eq, arith, subst,
}
use mathlib.Core.List.{append-nil, append_assoc}
use gptsession_bridge.Shared.Table.{Table, has, size}
use gptsession_bridge.Transport.Codes.{Code}
use gptsession_bridge.Transport.Pump.{Pending, bytes, Pump, settle, settle_all}

-- The tickets of a table or of a queue are n, n + 1, ...
abbrev pub SettledFrom : ℕ → Table ℕ (Option Code) → Type 0
SettledFrom n [] = Unit {0}
SettledFrom n ((t, o) ∷ m) = (t ≡ n) × SettledFrom (n + 1) m

abbrev pub QueuedFrom : ℕ → List Pending → Type 0
QueuedFrom n [] = Unit {0}
QueuedFrom n (p ∷ ps) = (p.ticket ≡ n) × QueuedFrom (n + 1) ps

abbrev pub NumberedFrom : ℕ → List ℕ → Type 0
NumberedFrom n [] = Unit {0}
NumberedFrom n (t ∷ ts) = (t ≡ n) × NumberedFrom (n + 1) ts

abbrev pub total : List Pending → ℕ
total [] = 0
total (p ∷ ps) = bytes p + total ps

abbrev pub all_with : Option Code → List Pending → Table ℕ (Option Code)
all_with o [] = []
all_with o (p ∷ ps) = (p.ticket, o) ∷ all_with o ps

pub size-append : (m w : Table ℕ (Option Code)) → size (m ++ w) ≡ size m + size w
size-append [] w = omega arith
size-append ((t, o) ∷ m) w = omega (arith, size-append m w)

pub size-all_with : (o : Option Code) (ps : List Pending) → size (all_with o ps) ≡ length ps
size-all_with o [] = refl
size-all_with o (p ∷ ps) = omega (arith, size-all_with o ps)

has-SettledFrom :
    (n t : ℕ) (m : Table ℕ (Option Code)) → SettledFrom n m → n + size m ≤ t → has m t ≡ false
unfolding has
has-SettledFrom n t [] h k = refl
has-SettledFrom n t ((u, o) ∷ m) h k = ground (arith, has-SettledFrom (n + 1) t m)

pub has-SettledFrom_lt :
    (n t : ℕ) (m : Table ℕ (Option Code))
    → SettledFrom n m
    → n ≤ t
    → t < n + size m
    → has m t ≡ true
unfolding has
has-SettledFrom_lt n t [] h k l = absurd (omega arith)
has-SettledFrom_lt n t ((u, o) ∷ m) h k l = ground (arith, has-SettledFrom_lt (n + 1) t m)

pub SettledFrom-all_with :
    (o : Option Code) (n k : ℕ) (m : Table ℕ (Option Code)) (ps : List Pending)
    → SettledFrom n m
    → n + size m ≡ k
    → QueuedFrom k ps
    → SettledFrom n (m ++ all_with o ps)
SettledFrom-all_with o n k [] [] h e q = tt
SettledFrom-all_with o n k [] (p ∷ ps) h e q =
    (omega arith, SettledFrom-all_with o (n + 1) (k + 1) [] ps tt (omega arith) q.1)
SettledFrom-all_with o n k ((t, w) ∷ m) ps h e q =
    (h.0, SettledFrom-all_with o (n + 1) k m ps h.1 (omega arith) q)

pub NumberedFrom-snoc :
    (n : ℕ) (ts : List ℕ) (t : ℕ)
    → NumberedFrom n ts
    → n + length ts ≡ t
    → NumberedFrom n (ts ++ t ∷ [])
NumberedFrom-snoc n [] t h e = (omega arith, tt)
NumberedFrom-snoc n (x ∷ ts) t h e = (h.0, NumberedFrom-snoc (n + 1) ts t h.1 (omega arith))

pub QueuedFrom-snoc :
    (n : ℕ) (ps : List Pending) (p : Pending)
    → QueuedFrom n ps
    → n + length ps ≡ p.ticket
    → QueuedFrom n (ps ++ p ∷ [])
QueuedFrom-snoc n [] p h e = (omega arith, tt)
QueuedFrom-snoc n (x ∷ ps) p h e = (h.0, QueuedFrom-snoc (n + 1) ps p h.1 (omega arith))

pub total-snoc : (ps : List Pending) (p : Pending) → total (ps ++ p ∷ []) ≡ total ps + bytes p
total-snoc [] p = omega arith
total-snoc (x ∷ ps) p = omega (arith, total-snoc ps p)

pub settle_lem :
    (o : Option Code) (p : Pending) (s : Pump)
    → SettledFrom 0 s.settled
    → p.ticket ≡ size s.settled
    → settle o p s ≡ record s {
      settled = s.settled ++ (p.ticket, o) ∷ [];
      queued_bytes = s.queued_bytes - bytes p;
    }
unfolding settle
settle_lem o p s h e = rw (has-SettledFrom 0 p.ticket s.settled h (omega arith))

sub_zero : (n : ℕ) → n - 0 ≡ n
sub_zero n = omega arith

sub_sub : (n a b : ℕ) → n - a - b ≡ n - (a + b)
sub_sub n a b = omega arith

-- Settling the whole queue settles every ticket of it.
pub settle_all-eq :
    (o : Option Code) (ps : List Pending) (s : Pump)
    → SettledFrom 0 s.settled
    → QueuedFrom (size s.settled) ps
    → settle_all o ps s
      ≡ record s { settled = s.settled ++ all_with o ps; queued_bytes = s.queued_bytes - total ps }
unfolding settle_all
settle_all-eq o [] s h q = rw (append-nil s.settled, sub_zero s.queued_bytes)
settle_all-eq o (p ∷ ps) s h q = rw (settle_lem o p s h q.0) (
    settle_all-eq o ps _
      (SettledFrom-all_with o 0 (size s.settled) s.settled (p ∷ []) h (omega arith) (q.0, tt))
      (subst (λ n. QueuedFrom n ps) (sym (size-append s.settled ((p.ticket, o) ∷ []))) q.1)
    ∙ rw (append_assoc, sub_sub))
