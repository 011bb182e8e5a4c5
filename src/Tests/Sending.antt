-- ===== src/Tests/Sending.antt =====
-- The breaker and the SendGrid sender.
use qtip_challenge.Base.{◌*◌, Option, none, some, true, ◌≡◌, ◌↔◌, refl}
use qtip_challenge.Base.Int.{pos, ◌+ℤ◌, ◌≤ℤ◌, ◌<ℤ◌}
use qtip_challenge.Domain.Errors.{GoError, sentinel, circuit_open}
use qtip_challenge.Domain.Task.{EmailTask}
use qtip_challenge.Domain.Retry.{second}
use qtip_challenge.Worker.Supervisor.{is_permanent}
use qtip_challenge.Email.Breaker.{CircuitBreaker, allow}
use qtip_challenge.Email.SendGrid.{response, Surroundings, on_status, send}
use qtip_challenge.Email.SendGrid.Outcomes.{
  fails_permanently, breaker_after, on_status_lem, send_open,
}

abbrev closed : CircuitBreaker
closed = record {
  max_failures = pos 3;
  open_duration = pos (30 * second);
  consecutive = pos 0;
  open_until = none;
}

abbrev opened : CircuitBreaker
opened = record closed { open_until = some (pos 100 +ℤ pos (30 * second)) }

on_status_lem_example :
    let (e, b') = on_status closed (pos 5) (pos 429) "slow down" in
    ((e ≡ none) ↔ ((pos 200 ≤ℤ pos 429) × (pos 429 <ℤ pos 300)))
    × ((fails_permanently e ≡ true) ↔ ((pos 400 ≤ℤ pos 429) × (pos 429 <ℤ pos 500)))
    × (b' ≡ breaker_after closed (pos 5) e)
on_status_lem_example = on_status_lem closed (pos 5) (pos 429) "slow down"

abbrev healthy : Surroundings
healthy = record {
  allowed_at = pos 200;
  failed_at = pos 300;
  context_error = none;
  body_error = none;
  request_error = none;
  reply = response (pos 202) "";
}

send_open_example :
    (send opened healthy ≡ (some (sentinel circuit_open), opened))
    × (is_permanent (sentinel circuit_open) ≡ true)
unfolding allow ◌+ℤ◌
send_open_example = send_open opened healthy refl

-- One Send with a status 503.
abbrev send_503 : EmailTask → CircuitBreaker → Option GoError × CircuitBreaker
send_503 t b = send b (record healthy { reply = response (pos 503) "" })
