-- ===== src/Worker/Protocol/Safety.antt =====
-- Logs that the protocol accepts: counts of calls, and acknowledgements with what stands before them.
use qtip_challenge.Base.{
  ℕ, ◌+◌, ◌≤◌, ◌<◌, Bool, true, false, ◌||◌, none, some, List, [], ◌∷◌, ◌≡◌, ◌⊎◌, inl, inr, refl,
  arith, if◌then◌else◌, Option-cases,
}
use mathlib.Core.Path.{subst}
use qtip_challenge.Worker.Ports.{
  returns, panics, Event, lock_taken, completion_read, stale_reclaimed, lock_cleared,
  completion_marked, sent, dead_lettered, retry_scheduled, acknowledged, nacked,
}
use qtip_challenge.Worker.Protocol.{
  Phase, idle, refused, incomplete, busy, held, duplicate, delivered, accepted, stored, closed,
  left_pending, panicking, poisoned, crashed, next, phase_of,
}

abbrev pub is_sent : Event → Bool
is_sent (sent t a) = true
is_sent _ = false

-- An acknowledgement or a nack that returned.
abbrev pub is_acked : Event → Bool
is_acked (acknowledged t (returns _)) = true
is_acked _ = false

abbrev pub is_nacked : Event → Bool
is_nacked (nacked t e (returns _)) = true
is_nacked _ = false

abbrev pub count : (Event → Bool) → List Event → ℕ
count p [] = 0
count p (e ∷ log) = (if p e then 1 else 0) + count p log

-- A call after which the task cannot be lost: known as delivered, delivered, in the DLQ, or in the
-- retry set.
abbrev pub secures : Event → Bool
secures (completion_read k (returns (true, _))) = true
secures (sent t (returns none)) = true
secures (dead_lettered entry (returns none)) = true
secures (retry_scheduled t d (returns none)) = true
secures _ = false

abbrev pub secured : List Event → Bool
secured [] = false
secured (e ∷ log) = secures e || secured log

-- Every acknowledgement stands after a call that secures the task.
abbrev pub AcksSecured : List Event → Type 0
AcksSecured [] = Unit
AcksSecured (acknowledged t a ∷ log) = (secured log ≡ true) × AcksSecured log
AcksSecured (_ ∷ log) = AcksSecured log

abbrev sends_bound : Phase → ℕ
sends_bound idle = 0
sends_bound refused = 0
sends_bound incomplete = 0
sends_bound busy = 0
sends_bound held = 0
sends_bound duplicate = 0
sends_bound _ = 1

sends-next :
    (p q : Phase) (e : Event)
    → next p e ≡ some q
    → (if is_sent e then 1 else 0) + sends_bound p ≤ sends_bound q
unfolding next
sends-next p q e h = ground arith

-- What holds of the empty log, and is kept by each allowed call, holds of every accepted log.
phase_induction {ℓ} :
    (I : List Event → Phase → Type ℓ)
    → I [] idle
    → ((e : Event) (log : List Event) (p q : Phase) → I log p → next p e ≡ some q → I (e ∷ log) q)
    → (log : List Event) (q : Phase) → phase_of log ≡ some q
    → I log q
unfolding phase_of
phase_induction I base step [] q h = subst (I []) (let e : idle ≡ q = cc in e) base
phase_induction I base step (e ∷ log) q h = elim (Option-cases (phase_of log)) [
  | inl stuck ↦ absurd (ground arith)
  | inr (p, before) ↦ step e log p q (phase_induction I base step log p before) (ground arith)
]

sends-bounded :
    (log : List Event) (q : Phase) → phase_of log ≡ some q → count is_sent log ≤ sends_bound q
sends-bounded =
    phase_induction (λ log q. count is_sent log ≤ sends_bound q) (omega arith)
      (λ e log p q ih h. omega (arith, sends-next p q e h))

sends_bound-le-one : (p : Phase) → sends_bound p ≤ 1
sends_bound-le-one idle = omega arith
sends_bound-le-one _ = omega arith

pub sends-le-one : (log : List Event) (q : Phase) → phase_of log ≡ some q → count is_sent log ≤ 1
sends-le-one log q h = omega (arith, sends-bounded log q h, sends_bound-le-one q)

-- Phases that are reached only after a securing call.
abbrev is_secured_phase : Phase → Bool
is_secured_phase duplicate = true
is_secured_phase delivered = true
is_secured_phase accepted = true
is_secured_phase stored = true
is_secured_phase closed = true
is_secured_phase _ = false

secured-next :
    (p q : Phase) (e : Event)
    → next p e ≡ some q
    → is_secured_phase q ≡ true
    → (is_secured_phase p ≡ true) ⊎ (secures e ≡ true)
unfolding next
secured-next p q e h s = ground arith

abbrev is_ack_call : Event → Bool
is_ack_call (acknowledged t a) = true
is_ack_call _ = false

ack-next :
    (p q : Phase) (e : Event) → next p e ≡ some q → is_ack_call e ≡ true → is_secured_phase p ≡ true
unfolding next
ack-next p q e h s = ground arith

AcksSecured-cons :
    (e : Event) (log : List Event)
    → (is_ack_call e ≡ true → secured log ≡ true)
    → AcksSecured log
    → AcksSecured (e ∷ log)
AcksSecured-cons (acknowledged t a) log h rest = (h refl, rest)
AcksSecured-cons (lock_taken k a) log h rest = rest
AcksSecured-cons _ log h rest = rest

pub phase-AcksSecured :
    (log : List Event) (q : Phase)
    → phase_of log ≡ some q
    → (is_secured_phase q ≡ true → secured log ≡ true) × AcksSecured log
phase-AcksSecured =
    phase_induction (λ log q. (is_secured_phase q ≡ true → secured log ≡ true) × AcksSecured log)
      ((λ h. cc), tt)
      (λ e log p q ih h. (
        (λ s. ground (arith, secured-next p q e h s, ih.0)),
        AcksSecured-cons e log (λ a. ih.0 (ack-next p q e h a)) ih.1,
      ))

-- Acknowledgements and nacks that a phase has seen, where no call panicked.
abbrev Settled : Phase → ℕ → ℕ → Type 0
Settled panicking acks nacks = Unit
Settled poisoned acks nacks = Unit
Settled crashed acks nacks = Unit
Settled accepted acks nacks = (acks ≡ 1) × (nacks ≡ 0)
Settled closed acks nacks = (acks ≡ 1) × (nacks ≡ 0)
Settled left_pending acks nacks = (acks ≡ 0) × (nacks ≡ 1)
Settled _ acks nacks = (acks ≡ 0) × (nacks ≡ 0)

Settled-next :
    (p q : Phase) (e : Event) (acks nacks : ℕ)
    → next p e ≡ some q
    → Settled p acks nacks
    → Settled q ((if is_acked e then 1 else 0) + acks) ((if is_nacked e then 1 else 0) + nacks)
unfolding next
Settled-next p q e acks nacks h s = ground arith

pub phase-Settled :
    (log : List Event) (q : Phase)
    → phase_of log ≡ some q
    → Settled q (count is_acked log) (count is_nacked log)
phase-Settled =
    phase_induction (λ log q. Settled q (count is_acked log) (count is_nacked log)) (refl, refl)
      (λ e log p q ih h. Settled-next p q e (count is_acked log) (count is_nacked log) h ih)

-- Some call panicked.
abbrev pub panicked : Event → Bool
panicked (lock_taken k (panics v)) = true
panicked (completion_read k (panics v)) = true
panicked (stale_reclaimed k (panics v)) = true
panicked (lock_cleared k (panics v)) = true
panicked (completion_marked k (panics v)) = true
panicked (sent t (panics v)) = true
panicked (dead_lettered entry (panics v)) = true
panicked (retry_scheduled t d (panics v)) = true
panicked (acknowledged t (panics v)) = true
panicked (nacked t e (panics v)) = true
panicked _ = false

abbrev is_panic_phase : Phase → Bool
is_panic_phase panicking = true
is_panic_phase poisoned = true
is_panic_phase crashed = true
is_panic_phase _ = false

panicked-next :
    (p q : Phase) (e : Event)
    → next p e ≡ some q
    → is_panic_phase q ≡ true
    → (is_panic_phase p ≡ true) ⊎ (panicked e ≡ true)
unfolding next
panicked-next p q e h s = ground arith

pub phase-panicked :
    (log : List Event) (q : Phase)
    → phase_of log ≡ some q
    → is_panic_phase q ≡ true
    → 0 < count panicked log
phase-panicked =
    phase_induction (λ log q. is_panic_phase q ≡ true → 0 < count panicked log) (λ h. cc)
      (λ e log p q ih h s. ground (arith, panicked-next p q e h s, ih))
