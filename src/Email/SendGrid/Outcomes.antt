-- ===== src/Email/SendGrid/Outcomes.antt =====
-- The status codes of Send and the errors of SendBatch, internal/adapters/email/sendgrid_sender.go.
use qtip_challenge.Base.{
  ℕ, String, is_some, ◌+◌, Bool, true, false, Option, none, some, List, [], ◌∷◌, ◌≡◌, refl, arith,
  ◌↔◌, if◌then◌else◌,
}
use qtip_challenge.Base.Int.{ℤ, pos, ◌≤ℤ◌, ◌<ℤ◌}
use qtip_challenge.Domain.Errors.{GoError, sentinel, multi, circuit_open, is_error, count_errors}
use qtip_challenge.Domain.Task.{EmailTask}
use qtip_challenge.Worker.Supervisor.{is_permanent}
use qtip_challenge.Email.Breaker.{CircuitBreaker, allow, record_success, record_failure}
use qtip_challenge.Email.SendGrid.{Surroundings, on_status, send, batch_errors, send_batch}

abbrev pub fails_permanently : Option GoError → Bool
fails_permanently none = false
fails_permanently (some e) = is_permanent e

-- The breaker after a request that was made, by its outcome.
abbrev pub breaker_after : CircuitBreaker → ℤ → Option GoError → CircuitBreaker
breaker_after b failed_at none = record_success b
breaker_after b failed_at (some e) = if is_permanent e then b else record_failure b failed_at

-- An answered request succeeds exactly on a status 2xx, and fails permanently, so that the task is
-- dead-lettered, exactly on 4xx. A success resets the breaker, a permanent error leaves it, and any
-- other status counts as a failure of the provider.
pub on_status_lem :
    (b : CircuitBreaker) (failed_at status : ℤ) (body : String)
    → let (e, b') = on_status b failed_at status body in
      ((e ≡ none) ↔ ((pos 200 ≤ℤ status) × (status <ℤ pos 300)))
      × ((fails_permanently e ≡ true) ↔ ((pos 400 ≤ℤ status) × (status <ℤ pos 500)))
      × (b' ≡ breaker_after b failed_at e)
unfolding on_status is_permanent is_error
on_status_lem b failed_at status body = ground arith

-- While the breaker is open Send fails with an error that dead-letters the task, makes no request
-- and leaves the breaker as it is.
pub send_open :
    (b : CircuitBreaker) (o : Surroundings)
    → allow b o.allowed_at ≡ some (sentinel circuit_open)
    → (send b o ≡ (some (sentinel circuit_open), b)) × (is_permanent (sentinel circuit_open) ≡ true)
unfolding send is_permanent is_error
send_open b o h = ground arith

-- The number of sends that fail when every task is sent in turn.
abbrev pub failed_sends {ℓ} :
    {S : Type ℓ} → (EmailTask → S → Option GoError × S) → List EmailTask → S → ℕ
failed_sends one [] s = 0
failed_sends one (t ∷ ts) s =
    let (e, s') = one t s in (if is_some e then 1 else 0) + failed_sends one ts s'

-- The entries of a reported MultiError.
abbrev pub reported : Option GoError → ℕ
reported (some (multi es)) = count_errors es
reported _ = 0

batch_errors-count {ℓ} :
    {S : Type ℓ} (one : EmailTask → S → Option GoError × S) (ts : List EmailTask) (s : S)
    → count_errors (batch_errors one ts s).0 ≡ failed_sends one ts s
unfolding batch_errors count_errors
batch_errors-count one [] s = refl
batch_errors-count one (t ∷ ts) s = ground (arith, batch_errors-count one ts (one t s).1)

-- SendBatch sends every task in turn, whatever fails before it: it reports as many errors as sends
-- failed, and none exactly if all succeeded.
send_batch_lem :
    (one : EmailTask → CircuitBreaker → Option GoError × CircuitBreaker) (ts : List EmailTask)
    (s : CircuitBreaker)
    → (reported (send_batch one ts s).0 ≡ failed_sends one ts s)
      × (((send_batch one ts s).0 ≡ none) ↔ (failed_sends one ts s ≡ 0))
unfolding send_batch count_errors
send_batch_lem one ts s = ground (arith, batch_errors-count one ts s)
