-- ===== src/Worker/DelayedScheduler/Start.antt =====
-- The interval of internal/worker/delayed_scheduler.go, as Validate of internal/config/config.go leaves
-- it.
use qtip_challenge.Base.{String, Option, List, [], ◌≡◌, arith}
use qtip_challenge.Base.Int.{ℤ, pos, ◌≤ℤ◌}
use qtip_challenge.Domain.Errors.{GoError}
use qtip_challenge.Domain.Task.{EmailTask}
use qtip_challenge.Domain.Retry.{Float64}
use qtip_challenge.Config.Types.{Config}
use qtip_challenge.Config.Validate.{validate, checks}
use qtip_challenge.Worker.Ticker.{Wake, panicked, new_ticker}
use qtip_challenge.Worker.DelayedScheduler.{run}

module _ (F : Float64) (two_decimals : F.Carrier → String) (quoted : String → String) where
  abbrev with_scheduler_interval : ℤ → Config F → Config F
  with_scheduler_interval interval c = record c {
    retry = record c.retry { scheduler_interval = interval };
  }

  -- Validate reads no scheduler interval: with one that is not positive it accepts what it accepted,
  -- and Run panics at its start, without a flush.
  accepted_interval_panics :
      {S : Type 0} (flush_ready : ℤ → S → (Option GoError × List EmailTask) × S) (interval : ℤ)
      (c : Config F) (wakes : List Wake) (s : S)
      → validate F two_decimals quoted c ≡ []
      → interval ≤ℤ pos 0
      → let c' = with_scheduler_interval interval c in
        (validate F two_decimals quoted c' ≡ [])
        × (run flush_ready c'.retry.scheduler_interval wakes s
            ≡ ((panicked "non-positive interval for NewTicker", []), s))
  unfolding run new_ticker validate checks
  accepted_interval_panics flush_ready interval c wakes s valid low = (valid, ground (arith, low))
