-- ===== src/Email/SendGrid/Posts.antt =====
-- The requests that a Send of internal/adapters/email/sendgrid_sender.go makes.

use qtip_challenge.Base.{
  String, ◌<>◌, ◌⊎◌, inl, inr, Option, none, some, List, [], ◌∷◌, ◌++◌, ◌≡◌, ◌↔◌, true, refl,
  Option-cases,
}
use qtip_challenge.Domain.Errors.{GoError, wrap}
use qtip_challenge.Domain.Task.{EmailTask}
use qtip_challenge.Email.Breaker.{CircuitBreaker, allow, record_failure}
use qtip_challenge.Email.SendGrid.Outcomes.{fails_permanently, breaker_after}
use qtip_challenge.Base.Int.{ℤ, pos, ◌≤ℤ◌, ◌<ℤ◌}
use qtip_challenge.Email.SendGrid.{Surroundings, HttpReply, no_response, response, on_reply, send}
use qtip_challenge.Email.SendGrid.Request.{
  send_grid_mail_path, HttpRequest, SendGridSender, mail_request, mail_post, Caller,
  build_request_body, post_mail, send_mail,
}

Built-cases : (x : String ⊎ GoError) → ((s : String) × (x ≡ inl s)) ⊎ ((e : GoError) × (x ≡ inr e))
Built-cases (inl s) = inl (s, refl)
Built-cases (inr e) = inr (e, refl)

-- What a reply means: no response, an error and a failure of the provider; a response, a success
-- exactly on 2xx, a permanent error exactly on 4xx, and the breaker by the outcome.
abbrev pub IsOutcome : CircuitBreaker → ℤ → HttpReply → Option GoError × CircuitBreaker → Type 0
IsOutcome b at (no_response cause) (e, b') =
    (e ≡ some (wrap "sendgrid: request failed: " cause)) × (b' ≡ record_failure b at)
IsOutcome b at (response status body) (e, b') =
    ((e ≡ none) ↔ ((pos 200 ≤ℤ status) × (status <ℤ pos 300)))
    × ((fails_permanently e ≡ true) ↔ ((pos 400 ≤ℤ status) × (status <ℤ pos 500)))
    × (b' ≡ breaker_after b at e)

-- `made` is the history of the requests that the client made.
pub record IsCaller {W : Type 0} (C : Caller W) : Type 0 where
  pub made : W → List HttpRequest
  pub do_request_lem : (r : HttpRequest) (w : W) → made (C.do_request r w).1 ≡ made w ++ r ∷ []

module _ {W : Type 0} (C : Caller W) (L : IsCaller C) where
  -- Why a Send makes no request, and its error: the breaker, the context, the encoding or the request.
  abbrev pub Stopped : SendGridSender → EmailTask → W → GoError → Type 0
  Stopped sender t w e =
      (allow sender.breaker (C.clock w) ≡ some e)
      ⊎ ((C.context_error w ≡ some e)
          ⊎ (((cause : GoError) × (C.marshal (mail_request sender t) ≡ inr cause)
                × (e ≡ wrap "sendgrid: build request: " cause))
              ⊎ ((cause : GoError) × (C.new_request "POST" (sender.base_url <> send_grid_mail_path)
                    ≡ some cause)
                  × (e ≡ wrap "sendgrid: create request: " cause))))

  -- A Send that made no request, or one POST of the task.
  abbrev pub Posts : SendGridSender → EmailTask → W → (Option GoError × CircuitBreaker) × W → Type 0
  Posts sender t w ((e, b), w') =
      ((cause : GoError) × Stopped sender t w cause
        × (L.made w' ≡ L.made w)
        × (e ≡ some cause)
        × (b ≡ sender.breaker))
      ⊎ ((body : String) × (C.marshal (mail_request sender t) ≡ inl body)
          × (allow sender.breaker (C.clock w) ≡ none)
          × (C.context_error w ≡ none)
          × (L.made w' ≡ L.made w ++ mail_post sender body ∷ [])
          × (w' ≡ (C.do_request (mail_post sender body) w).1)
          × ((e, b)
              ≡ on_reply sender.breaker (C.clock w') (C.do_request (mail_post sender body) w).0)
          × IsOutcome sender.breaker (C.clock w') (C.do_request (mail_post sender body) w).0 (e, b))

module _ {W : Type 0} (C : Caller W) where
  abbrev body_of : String ⊎ GoError → String
  body_of (inl s) = s
  body_of (inr e) = ""

  abbrev error_of : String ⊎ GoError → Option GoError
  error_of (inl s) = none
  error_of (inr e) = some e

  -- What a Send meets, from what it calls.
  abbrev met : SendGridSender → EmailTask → W → Surroundings
  met sender t w =
      let built = C.marshal (mail_request sender t) in
      let (reply, w') = C.do_request (mail_post sender (body_of built)) w in
      record {
        allowed_at = C.clock w;
        failed_at = C.clock w';
        context_error = C.context_error w;
        body_error = error_of built;
        request_error = C.new_request "POST" (sender.base_url <> send_grid_mail_path);
        reply = reply;
      }

  -- The two models of Send agree on the outcome and the breaker.
  send_mail-send :
      (sender : SendGridSender) (t : EmailTask) (w : W)
      → (send_mail C sender t w).0 ≡ send sender.breaker (met sender t w)
  unfolding send_mail build_request_body post_mail send
  send_mail-send sender t w = elim (Option-cases (allow sender.breaker (C.clock w))) [
    | inr (e, tripped) ↦ rw (send_mail, send, tripped) refl
    | inl closed ↦ elim (Option-cases (C.context_error w)) [
      | inr (e, over) ↦ rw (send_mail, send, closed, over) refl
      | inl going ↦ elim (Built-cases (C.marshal (mail_request sender t))) [
        | inr (e, bad) ↦ rw (send_mail, send, closed, going, build_request_body, bad) refl
        | inl (body, built) ↦
            elim (Option-cases (C.new_request "POST" (sender.base_url <> send_grid_mail_path))) [
              | inr (e, bad) ↦
                  rw (send_mail, send, closed, going, build_request_body, built, post_mail, bad)
                    refl
              | inl fine ↦
                  rw (send_mail, send, closed, going, build_request_body, built, post_mail, fine)
                    refl
            ]
      ]
    ]
  ]
