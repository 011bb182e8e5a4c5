-- ===== src/Worker/Ticker.antt =====
-- What the select loops of internal/worker/delayed_scheduler.go and dlq_monitor.go wake up for, and how
-- their Run methods stand.
use qtip_challenge.Base.{String, Option, none, some, if◌then◌else◌}
use qtip_challenge.Base.Int.{ℤ, pos, leb_ℤ}

-- A tick with the instant that the clock shows at it, or the end of the context.
pub data Wake : Type 0 where
  tick : ℤ → Wake
  cancelled : Wake

pub data Standing : Type 0 where
  waiting : Standing
  returned : Standing
  panicked : String → Standing

-- `time.NewTicker` panics for an interval that is not positive.
unfoldable pub new_ticker : ℤ → Option String
new_ticker interval =
    if leb_ℤ interval (pos 0) then some "non-positive interval for NewTicker" else none
