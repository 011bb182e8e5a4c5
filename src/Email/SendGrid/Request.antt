-- ===== src/Email/SendGrid/Request.antt =====
-- The requests of internal/adapters/email/sendgrid_sender.go: their bodies, addresses and headers.
use qtip_challenge.Base.{
  String, ◌*◌, ◌<>◌, ◌&&◌, ◌⊎◌, inl, inr, Option, none, some, List, [], ◌∷◌, if◌then◌else◌,
}
use qtip_challenge.Base.Int.{ℤ, pos, ltb_ℤ, leb_ℤ}
use qtip_challenge.Base.Assoc.{GoMap}
use qtip_challenge.Base.Decimal.{itoa}
use qtip_challenge.Domain.Errors.{GoError, plain, wrap}
use qtip_challenge.Domain.Retry.{second}
use qtip_challenge.Domain.Task.{EmailTask}
use qtip_challenge.Email.Breaker.{CircuitBreaker, new_circuit_breaker, allow}
use qtip_challenge.Email.SendGrid.{HttpReply, no_response, response, on_reply}

abbrev pub send_grid_mail_path : String
send_grid_mail_path = "/v3/mail/send"

abbrev pub send_grid_profile_path : String
send_grid_profile_path = "/v3/user/profile"

pub record SendGridEmailAddress : Type 0 where
  pub email : String
  pub name : String

pub record SendGridPersonalization : Type 0 where
  pub to : List SendGridEmailAddress
  pub dynamic_template_data : Option (GoMap String)

pub record SendGridMailRequest : Type 0 where
  pub personalizations : List SendGridPersonalization
  pub from : SendGridEmailAddress
  pub template_id : String

-- A request with its Authorization and Content-Type headers.
pub record HttpRequest : Type 0 where
  pub method : String
  pub url : String
  pub authorization : String
  pub content_type : Option String
  pub body : String

pub record SendGridSender : Type 0 where
  pub api_key : String
  pub from_email : String
  pub from_name : String
  pub breaker : CircuitBreaker
  pub base_url : String

unfoldable pub new_send_grid_sender : String → String → String → SendGridSender
new_send_grid_sender api_key from_email from_name = record {
  api_key = api_key;
  from_email = from_email;
  from_name = from_name;
  breaker = new_circuit_breaker (pos 5) (pos (30 * second));
  base_url = "https://api.sendgrid.com";
}

-- The payload of buildRequestBody.
unfoldable pub mail_request : SendGridSender → EmailTask → SendGridMailRequest
mail_request sender t = record {
  personalizations =
      record {
        to = record { email = t.recipient; name = "" } ∷ [];
        dynamic_template_data = t.template_data;
      }
      ∷ [];
  from = record { email = sender.from_email; name = sender.from_name };
  template_id = t.template_id;
}

-- The request of Send with this body.
unfoldable pub mail_post : SendGridSender → String → HttpRequest
mail_post sender body = record {
  method = "POST";
  url = sender.base_url <> send_grid_mail_path;
  authorization = "Bearer " <> sender.api_key;
  content_type = some "application/json";
  body = body;
}

unfoldable pub profile_get : SendGridSender → HttpRequest
profile_get sender = record {
  method = "GET";
  url = sender.base_url <> send_grid_profile_path;
  authorization = "Bearer " <> sender.api_key;
  content_type = none;
  body = "";
}

-- What the sender calls: the clock, the context, encoding/json, http.NewRequestWithContext with a
-- method and an address, and Do of the HTTP client.
pub record Caller (W : Type 0) : Type 0 where
  pub clock : W → ℤ
  pub context_error : W → Option GoError
  pub marshal : SendGridMailRequest → String ⊎ GoError
  pub new_request : String → String → Option GoError
  pub do_request : HttpRequest → W → HttpReply × W

module _ {W : Type 0} (C : Caller W) where
  unfoldable pub build_request_body : SendGridSender → EmailTask → String ⊎ GoError
  unfolding mail_request
  build_request_body sender t = C.marshal (mail_request sender t)

  abbrev answered : CircuitBreaker → HttpReply × W → (Option GoError × CircuitBreaker) × W
  answered b (reply, w) = (on_reply b (C.clock w) reply, w)

  -- Send from the creation of the request on.
  unfoldable pub post_mail : SendGridSender → String → W → (Option GoError × CircuitBreaker) × W
  unfolding mail_post
  post_mail sender body w = elim (C.new_request "POST" (sender.base_url <> send_grid_mail_path)) [
    | some e ↦ ((some (wrap "sendgrid: create request: " e), sender.breaker), w)
    | none ↦ answered sender.breaker (C.do_request (mail_post sender body) w)
  ]

  -- Send with the request that it makes.
  unfoldable pub send_mail : SendGridSender → EmailTask → W → (Option GoError × CircuitBreaker) × W
  unfolding build_request_body post_mail
  send_mail sender t w = elim (allow sender.breaker (C.clock w)) [
    | some e ↦ ((some e, sender.breaker), w)
    | none ↦ elim (C.context_error w) [
      | some e ↦ ((some e, sender.breaker), w)
      | none ↦ elim (build_request_body sender t) [
        | inr e ↦ ((some (wrap "sendgrid: build request: " e), sender.breaker), w)
        | inl body ↦ post_mail sender body w
      ]
    ]
  ]

  abbrev checked : HttpReply → Option GoError
  checked (no_response e) = some (wrap "sendgrid: health check failed: " e)
  checked (response status body) =
      if leb_ℤ (pos 200) status && ltb_ℤ status (pos 300)
      then none
      else some (plain ("sendgrid: health check status " <> (itoa status <> (": " <> body))))

  unfoldable pub health_check : SendGridSender → W → Option GoError × W
  unfolding profile_get
  health_check sender w = elim (C.new_request "GET" (sender.base_url <> send_grid_profile_path)) [
    | some e ↦ (some (wrap "sendgrid: health check request: " e), w)
    | none ↦ let (reply, w') = C.do_request (profile_get sender) w in (checked reply, w')
  ]
