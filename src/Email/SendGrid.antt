-- ===== src/Email/SendGrid.antt =====
-- `Send` and `SendBatch` of internal/adapters/email/sendgrid_sender.go. The HTTP client, the request
-- encoding and the clock enter by what they answer; spans and logs are left out.
pub mod Outcomes
pub mod Request
pub mod Posts
use qtip_challenge.Base.{
  ℕ, String, ◌<>◌, ◌&&◌, Bool, Option, none, some, List, [], ◌∷◌, if◌then◌else◌,
}
use qtip_challenge.Base.Int.{ℤ, pos, ltb_ℤ, leb_ℤ}
use qtip_challenge.Base.Decimal.{itoa}
use qtip_challenge.Domain.Errors.{
  GoError, GoErrors, nil, cons, plain, wrap, sentinel, multi, non_retryable, multi_error,
}
use qtip_challenge.Domain.Task.{EmailTask}
use qtip_challenge.Email.Breaker.{CircuitBreaker, allow, record_success, record_failure}

-- The answer of httpClient.Do: an error, or a status with (the first 4096 bytes of) a body.
pub data HttpReply : Type 0 where
  no_response : GoError → HttpReply
  response : ℤ → String → HttpReply

-- What one Send meets outside the sender.
pub record Surroundings : Type 0 where
  -- time.Now in Allow and in RecordFailure
  pub allowed_at : ℤ
  pub failed_at : ℤ
  -- ctx.Err(), and the errors of json.Marshal and http.NewRequestWithContext
  pub context_error : Option GoError
  pub body_error : Option GoError
  pub request_error : Option GoError
  pub reply : HttpReply

-- The switch on the status.
unfoldable pub on_status : CircuitBreaker → ℤ → ℤ → String → Option GoError × CircuitBreaker
on_status b failed_at status body =
    if leb_ℤ (pos 200) status && ltb_ℤ status (pos 300)
    then (none, record_success b)
    else if leb_ℤ (pos 400) status && ltb_ℤ status (pos 500)
    then (
      some (
          wrap ("sendgrid: client error " <> (itoa status <> (": " <> (body <> ": "))))
            (sentinel non_retryable)),
      b,
    )
    else (
      some (plain ("sendgrid: server error " <> (itoa status <> (": " <> body)))),
      record_failure b failed_at,
    )

unfoldable pub on_reply : CircuitBreaker → ℤ → HttpReply → Option GoError × CircuitBreaker
on_reply b failed_at (no_response e) =
    (some (wrap "sendgrid: request failed: " e), record_failure b failed_at)
on_reply b failed_at (response status body) = on_status b failed_at status body

-- The first error of a chain of checks ends the call with the breaker as it is.
abbrev pub check :
    CircuitBreaker
    → Option GoError
    → Option GoError × CircuitBreaker
    → Option GoError × CircuitBreaker
check b none rest = rest
check b (some e) rest = (some e, b)

abbrev pub wrapped : String → Option GoError → Option GoError
wrapped prefix none = none
wrapped prefix (some e) = some (wrap prefix e)

unfoldable pub send : CircuitBreaker → Surroundings → Option GoError × CircuitBreaker
send b o = check b (allow b o.allowed_at) (
    check b o.context_error (
      check b (wrapped "sendgrid: build request: " o.body_error) (
        check b (wrapped "sendgrid: create request: " o.request_error)
          (on_reply b o.failed_at o.reply))))

-- The loop of SendBatch over any Send, which reads and writes a state; the errors in order.
unfoldable pub batch_errors {ℓ} :
    {S : Type ℓ} → (EmailTask → S → Option GoError × S) → List EmailTask → S → GoErrors × S
batch_errors one [] s = (nil, s)
batch_errors one (t ∷ ts) s =
    let (e, s') = one t s in
    let (es, s'') = batch_errors one ts s' in
    elim e [ none ↦ (es, s'') | some x ↦ (cons (wrap ("task " <> (t.id <> ": ")) x) es, s'') ]

unfoldable pub send_batch {ℓ} :
    {S : Type ℓ} → (EmailTask → S → Option GoError × S) → List EmailTask → S → Option GoError × S
unfolding batch_errors
send_batch one ts s = let (es, s') = batch_errors one ts s in (multi_error es, s')
