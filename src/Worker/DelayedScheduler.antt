-- ===== src/Worker/DelayedScheduler.antt =====
-- internal/worker/delayed_scheduler.go. Lines of the log on a flush are kept, others are left out.
pub mod Moves
pub mod Start
use qtip_challenge.Base.{ℕ, ◌⊎◌, Option, none, some, List, [], ◌∷◌, ◌++◌, length}
use qtip_challenge.Base.Int.{ℤ}
use qtip_challenge.Domain.Errors.{GoError}
use qtip_challenge.Domain.Task.{EmailTask}
use qtip_challenge.Worker.Ticker.{
  Wake, tick, cancelled, Standing, waiting, returned, panicked, new_ticker,
}

pub data Line : Type 0 where
  flush_failed : GoError → Line
  flushed : ℕ → Line

-- What one tick logs.
unfoldable pub flush_lines : Option GoError × List EmailTask → List Line
flush_lines (some e, tasks) = flush_failed e ∷ []
flush_lines (none, []) = []
flush_lines (none, t ∷ tasks) = flushed (length (t ∷ tasks)) ∷ []

-- `flush_ready` takes the instant that its `time.Now` returns.
module _ {S : Type 0} (flush_ready : ℤ → S → (Option GoError × List EmailTask) × S) where
  -- The select loop, on the wakes so far.
  unfoldable pub flush_loop : List Wake → S → (Standing × List Line) × S
  unfolding flush_lines
  flush_loop [] s = ((waiting, []), s)
  flush_loop (cancelled ∷ wakes) s = ((returned, []), s)
  flush_loop (tick now ∷ wakes) s =
      let (answer, s') = flush_ready now s in
      let ((standing, lines), t) = flush_loop wakes s' in
      ((standing, flush_lines answer ++ lines), t)

  unfoldable pub run : ℤ → List Wake → S → (Standing × List Line) × S
  unfolding flush_loop new_ticker
  run interval wakes s = elim (new_ticker interval) [
    | some v ↦ ((panicked v, []), s)
    | none ↦ flush_loop wakes s
  ]
