-- ===== src/Email/Breaker.antt =====
-- internal/adapters/email/circuit_breaker.go. The mutex makes each method one step. Instants are
-- nanoseconds; `none` is the zero `time.Time`.
pub mod Laws
use qtip_challenge.Base.{Option, none, some, if◌then◌else◌}
use qtip_challenge.Base.Int.{ℤ, pos, ◌+ℤ◌, ltb_ℤ}
use qtip_challenge.Domain.Errors.{GoError, sentinel, circuit_open}

pub record CircuitBreaker : Type 0 where
  pub max_failures : ℤ
  pub open_duration : ℤ
  pub consecutive : ℤ
  pub open_until : Option ℤ

unfoldable pub new_circuit_breaker : ℤ → ℤ → CircuitBreaker
new_circuit_breaker max_failures open_duration = record {
  max_failures = max_failures;
  open_duration = open_duration;
  consecutive = pos 0;
  open_until = none;
}

-- `now` is what time.Now returns; `time.Time.After` is the strict order.
unfoldable pub allow : CircuitBreaker → ℤ → Option GoError
allow b now = elim b.open_until [
  | none ↦ none
  | some t ↦ if ltb_ℤ t now then none else some (sentinel circuit_open)
]

unfoldable pub record_success : CircuitBreaker → CircuitBreaker
record_success b = record b { consecutive = pos 0; open_until = none }

-- `consecutive` is compared with `max_failures` after each step, so it does not overflow.
unfoldable pub record_failure : CircuitBreaker → ℤ → CircuitBreaker
record_failure b now =
    let counted = b.consecutive +ℤ pos 1 in
    if ltb_ℤ counted b.max_failures
    then record b { consecutive = counted }
    else record b { consecutive = pos 0; open_until = some (now +ℤ b.open_duration) }
