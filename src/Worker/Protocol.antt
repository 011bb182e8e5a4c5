-- ===== src/Worker/Protocol.antt =====
-- The protocol that a worker goroutine keeps with its ports, as an automaton over its calls. It is
-- the specification of internal/worker/supervisor.go in the words of docs/adr/ADR-004 to ADR-006:
-- a message leaves the pending list only when its task is delivered, dead-lettered, scheduled
-- again, or known as a duplicate.
pub mod Safety
use qtip_challenge.Base.{
  ℕ, ◌+◌, Bool, true, false, not, ◌||◌, Option, none, some, List, [], ◌∷◌, ◌≡◌, ◌⊎◌,
}
use qtip_challenge.Domain.Errors.{GoError}
use qtip_challenge.Domain.Task.{EmailTask, is_retryable}
use qtip_challenge.Worker.Ports.{
  Reply, returns, panics, Failable, Answer, Event, lock_taken, completion_read, stale_reclaimed,
  lock_cleared, completion_marked, sent, dead_lettered, retry_scheduled, acknowledged, nacked,
  recorded, stats_recorded,
}
use qtip_challenge.Worker.Supervisor.{is_permanent}

pub data Phase : Type 0 where
  -- before the lock; refused the lock; refused and not completed; refused and not stale
  idle refused incomplete busy : Phase
  -- owns the lock
  held : Phase
  -- the send failed; the flag says that the task is not to be sent again
  undelivered : Bool → Phase
  -- known to be delivered before; sent; sent and acknowledged; in the DLQ or the retry set
  duplicate delivered accepted stored : Phase
  -- not stored; not stored and the lock released
  unstored unlocked : Phase
  -- ends: acknowledged, and left in the pending list
  closed left_pending : Phase
  -- a call panicked; the panic was recovered by a nack; that nack panicked too
  panicking poisoned crashed : Phase

-- A yes-or-no call with the phases after yes and after no.
unfoldable pub branch : Answer → Phase → Phase → Phase
branch (returns (true, _)) p q = p
branch (returns (false, _)) p q = q
branch (panics v) p q = panicking

-- A call whose error is ignored.
ignoring : Failable → Phase → Phase
ignoring (returns _) p = p
ignoring (panics v) p = panicking

-- A write that stores the task or does not.
store : Failable → Phase
store (returns none) = stored
store (returns (some e)) = unstored
store (panics v) = panicking

-- The one send.
unfoldable pub attempt : EmailTask → Failable → Phase
attempt t (returns none) = delivered
attempt t (returns (some e)) = undelivered (is_permanent e || not (is_retryable t))
attempt t (panics v) = panicking

-- The nack of a recovered panic.
last_nack : Failable → Phase
last_nack (returns _) = poisoned
last_nack (panics v) = crashed

-- The calls allowed in a phase, with the phases that they lead to.
unfoldable pub next : Phase → Event → Option Phase
unfolding branch ignoring store attempt last_nack
next idle (lock_taken k a) = some (branch a held refused)
next refused (completion_read k a) = some (branch a duplicate incomplete)
next incomplete (stale_reclaimed k a) = some (branch a held busy)
next busy (nacked t e a) = some (ignoring a left_pending)
next held (sent t a) = some (attempt t a)
next (undelivered true) (dead_lettered entry a) = some (store a)
next (undelivered false) (retry_scheduled t d a) = some (store a)
next duplicate (acknowledged t a) = some (ignoring a closed)
next stored (acknowledged t a) = some (ignoring a closed)
next delivered (acknowledged t a) = some (ignoring a accepted)
next accepted (completion_marked k a) = some (ignoring a closed)
next unstored (lock_cleared k a) = some (ignoring a unlocked)
next unlocked (nacked t e a) = some (ignoring a left_pending)
next panicking (nacked t e a) = some (last_nack a)
next closed (recorded s) = some closed
next closed (stats_recorded n) = some closed
next left_pending (stats_recorded n) = some left_pending
next poisoned (stats_recorded n) = some poisoned
next crashed (stats_recorded n) = some crashed
next _ _ = none

abbrev advance : Option Phase → Event → Option Phase
advance none e = none
advance (some p) e = next p e

-- The phase after the calls of a log, the latest first; `none` once a call was not allowed.
unfoldable pub phase_of : List Event → Option Phase
unfolding next
phase_of [] = some idle
phase_of (e ∷ log) = advance (phase_of log) e

-- The log of a goroutine that returned, and of one whose panic went on past its defers.
abbrev pub Ends : Reply (Unit {0}) → List Event → Type 0
Ends (returns _) log =
    (phase_of log ≡ some closed)
    ⊎ (phase_of log ≡ some left_pending)
    ⊎ (phase_of log ≡ some poisoned)
Ends (panics v) log = phase_of log ≡ some crashed
