-- ===== src/Worker/Supervisor/Settles.antt =====
-- The sends, acknowledgements and nacks of processTask, internal/worker/supervisor.go.
use qtip_challenge.Base.{◌≤◌, List, [], ◌≡◌, ◌⊎◌, inl, inr, refl, arith, some}
use qtip_challenge.Domain.Retry.{Float64}
use qtip_challenge.Config.Types.{WorkerConfig}
use qtip_challenge.Worker.Ports.{Reply, returns, panics, Event, Ports, Run}
use qtip_challenge.Worker.Protocol.{Phase, closed, left_pending, poisoned, crashed, phase_of, Ends}
use qtip_challenge.Worker.Protocol.Safety.{
  count, is_sent, is_acked, is_nacked, panicked, AcksSecured, sends-le-one, phase-AcksSecured,
  phase-Settled, phase-panicked,
}
use qtip_challenge.Worker.Supervisor.{process_task}
use qtip_challenge.Worker.Supervisor.Follows.{process_task-Ends}

-- A log that ends has a phase.
Ends-phase :
    (a : Reply (Unit {0})) (log : List Event) → Ends a log → (q : Phase) × (phase_of log ≡ some q)
Ends-phase (returns _) log (inl h) = (closed, h)
Ends-phase (returns _) log (inr (inl h)) = (left_pending, h)
Ends-phase (returns _) log (inr (inr h)) = (poisoned, h)
Ends-phase (panics v) log h = (crashed, h)

Ends-settled :
    (a : Reply (Unit {0})) (log : List Event)
    → Ends a log
    → count panicked log ≡ 0
    → (a ≡ returns tt)
      × (((count is_acked log ≡ 1) × (count is_nacked log ≡ 0))
          ⊎ ((count is_acked log ≡ 0) × (count is_nacked log ≡ 1)))
Ends-settled (returns tt) log (inl h) calm = (refl, inl (phase-Settled log closed h))
Ends-settled (returns tt) log (inr (inl h)) calm = (refl, inr (phase-Settled log left_pending h))
Ends-settled (returns tt) log (inr (inr h)) calm =
    absurd (omega (arith, phase-panicked log poisoned h refl))
Ends-settled (panics v) log h calm = absurd (omega (arith, phase-panicked log crashed h refl))

module _ (F : Float64) {W : Type 0} (cfg : WorkerConfig) (P : Ports F.Carrier W) (r : Run W)
    (fresh : r.log ≡ []) where
  -- One run of processTask, from an empty log on, calls the sender at most once, whatever the ports
  -- answer.
  pub process_task_sends_once : count is_sent (process_task F cfg P r).1.log ≤ 1
  process_task_sends_once =
      let (q, h) = Ends-phase _ _ (process_task-Ends F cfg P r fresh) in sends-le-one _ q h

  -- In every run of processTask from an empty log on, panicking ones too, a message is acknowledged only after a call
  -- that secures its task: a completed duplicate was seen, the send succeeded, the DLQ took the
  -- entry, or the retry set took the task.
  pub process_task-AcksSecured : AcksSecured (process_task F cfg P r).1.log
  process_task-AcksSecured =
      let (q, h) = Ends-phase _ _ (process_task-Ends F cfg P r fresh) in (phase-AcksSecured _ q h).1

  -- A run of processTask, from an empty log on, in which no call panics returns, and settles its message exactly once: by
  -- one acknowledgement and no nack, or by one nack and no acknowledgement.
  pub process_task_settles_once :
      count panicked (process_task F cfg P r).1.log ≡ 0
      → let (a, r') = process_task F cfg P r in
        (a ≡ returns tt)
        × (((count is_acked r'.log ≡ 1) × (count is_nacked r'.log ≡ 0))
            ⊎ ((count is_acked r'.log ≡ 0) × (count is_nacked r'.log ≡ 1)))
  process_task_settles_once = Ends-settled _ _ (process_task-Ends F cfg P r fresh)
