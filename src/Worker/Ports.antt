-- ===== src/Worker/Ports.antt =====
-- The interfaces of internal/ports that a worker goroutine calls, over an unknown outside world `W`,
-- and the state that one goroutine reads and writes. Any port may fail or panic.
use qtip_challenge.Base.{ℕ, String, Bool, Option, List, ◌∷◌}
use qtip_challenge.Base.Int.{ℤ}
use qtip_challenge.Domain.Errors.{GoError}
use qtip_challenge.Domain.Task.{EmailTask, DlqEntry}

-- A call returns, or it panics with a value that `%v` prints as this text.
pub data Reply {ℓ} (A : Type ℓ) : Type ℓ where
  returns : A → Reply A
  panics : String → Reply A

-- `error`, and `(bool, error)`.
abbrev pub Failable : Type 0
Failable = Reply (Option GoError)

abbrev pub Answer : Type 0
Answer = Reply (Bool × Option GoError)

-- The calls of a goroutine with their replies.
pub data Event : Type 0 where
  lock_taken : String → Answer → Event
  completion_read : String → Answer → Event
  stale_reclaimed : String → Answer → Event
  lock_cleared : String → Failable → Event
  completion_marked : String → Failable → Event
  sent : EmailTask → Failable → Event
  dead_lettered : DlqEntry → Failable → Event
  retry_scheduled : EmailTask → ℤ → Failable → Event
  acknowledged : EmailTask → Failable → Event
  nacked : EmailTask → GoError → Failable → Event
  -- RecordProcessed with its status label
  recorded : String → Event
  -- RecordWorkerStats with the number of active workers
  stats_recorded : ℕ → Event

-- `Draw` is the type of the numbers that `rand.Float64` returns.
pub record Ports (Draw : Type 0) (W : Type 0) : Type 0 where
  -- TaskConsumer
  pub acknowledge : EmailTask → W → Failable × W
  pub nack : EmailTask → GoError → W → Failable × W
  -- IdempotencyStore
  pub set_processing : String → String → W → Answer × W
  pub set_completed : String → W → Failable × W
  pub is_completed : String → W → Answer × W
  pub clear_processing : String → W → Failable × W
  pub try_reclaim_stale : String → String → ℤ → W → Answer × W
  -- EmailSender, DLQWriter, RetryScheduler
  pub send : EmailTask → W → Failable × W
  pub send_to_dlq : DlqEntry → W → Failable × W
  pub schedule_retry : EmailTask → ℤ → W → Failable × W
  -- time.Now and rand.Float64
  pub now : W → ℤ × W
  pub draw : W → Draw × W

-- What a goroutine works on: the world behind the ports, the task that it shares by pointer with
-- the calls, the semaphore tokens and the atomic counters of the supervisor, and its calls so far,
-- the latest first. The counters are taken to stay below 2 ^ 63.
pub record Run (W : Type 0) : Type 0 where
  pub world : W
  pub task : EmailTask
  pub tokens : ℕ
  pub active : ℕ
  pub total_processed : ℕ
  pub total_failed : ℕ
  pub total_retried : ℕ
  pub log : List Event

-- A step may panic; a panic ends the steps that follow.
abbrev pub M : Type 0 → Type 0 → Type 0
M W A = Run W → Reply A × Run W

infixl 5 ◌>>=◌ ◌>>◌
abbrev pub ◌>>=◌ : {W A B : Type 0} → M W A → (A → M W B) → M W B
◌>>=◌ m f r = let (a, r') = m r in elim a [ returns x ↦ f x r' | panics v ↦ (panics v, r') ]

abbrev pub ◌>>◌ : {W A B : Type 0} → M W A → M W B → M W B
m >> k = m >>= λ _. k

abbrev pub pure : {W A : Type 0} → A → M W A
pure a r = (returns a, r)

abbrev pub modify : {W : Type 0} → (Run W → Run W) → M W (Unit {0})
modify f r = (returns tt, f r)

abbrev pub read_task : {W : Type 0} → M W EmailTask
read_task r = (returns r.task, r)

abbrev pub write_task : {W : Type 0} → EmailTask → M W (Unit {0})
write_task t = modify (λ r. record r { task = t })

-- A call of a port: its reply, and its entry in the log.
abbrev pub call : {W A : Type 0} → (Reply A → Event) → (W → Reply A × W) → M W A
call entry f r = let (a, w) = f r.world in (a, record r { world = w; log = entry a ∷ r.log })

-- A read that can neither fail nor panic.
abbrev pub observe : {W A : Type 0} → (W → A × W) → M W A
observe f r = let (a, w) = f r.world in (returns a, record r { world = w })

abbrev pub note : {W : Type 0} → Event → M W (Unit {0})
note e = modify (λ r. record r { log = e ∷ r.log })
