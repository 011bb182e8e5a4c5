-- ===== src/Stubs/Deliveries.antt =====
-- What the stubs of internal/adapters/stubs/stubs.go make of the supervisor.
use qtip_challenge.Base.{◌+◌, ◌-◌, true, none, ◌∷◌, ◌≡◌, refl}
use qtip_challenge.Base.Int.{ℤ}
use qtip_challenge.Domain.Retry.{Float64}
use qtip_challenge.Config.Types.{WorkerConfig}
use qtip_challenge.Worker.Ports.{
  returns, lock_taken, sent, acknowledged, completion_marked, recorded, stats_recorded, Run,
}
use qtip_challenge.Worker.Supervisor.{
  attempt_key, process_task, process_body, after_set_processing, deliver, after_send, delivered,
  recover, release,
}
use qtip_challenge.Stubs.{stub_ports}

-- Over the stubs, processTask takes the lock, sends the task once, acknowledges it, marks it
-- completed and counts it as processed, and gives its slot back.
pub stubs_deliver :
    (F : Float64) {W : Type 0} (cfg : WorkerConfig) (now : W → ℤ × W) (draw : W → F.Carrier × W)
    (r : Run W)
    → let key = attempt_key r.task.id r.task.attempt in
      process_task F cfg (stub_ports now draw) r ≡ (
        returns tt,
        record r {
          tokens = r.tokens - 1;
          active = r.active + 1 - 1;
          total_processed = r.total_processed + 1;
          log =
              stats_recorded (r.active + 1 - 1)
              ∷ recorded "success"
              ∷ completion_marked key (returns none)
              ∷ acknowledged r.task (returns none)
              ∷ sent r.task (returns none)
              ∷ lock_taken key (returns (true, none))
              ∷ r.log;
        },
      )
unfolding process_task process_body after_set_processing deliver after_send delivered recover
    release stub_ports
stubs_deliver F cfg now draw r = refl
