-- ===== src/Tests/Booting.antt =====
-- The start of the process, the address of a Redis server, and the request of a Send.

use qtip_challenge.Base.{
  ℕ, ◌+◌, String, ◌⊎◌, inl, inr, none, List, [], ◌∷◌, ◌++◌, ◌≡◌, ◌≢◌, arith, eq_iff,
}
use qtip_challenge.Base.Int.{pos}
use qtip_challenge.Base.Decimal.Laws.{Avoids}
use qtip_challenge.Domain.Errors.{GoError}
use qtip_challenge.Config.Types.{Config}
use qtip_challenge.Config.Validate.{validate}
use qtip_challenge.Redis.Connection.{ClientLibrary, addr_from_url}
use qtip_challenge.Redis.Connection.Address.{addr_from_url_lem}
use qtip_challenge.Process.Boot.{boot, Sound, boot-Sound}
use qtip_challenge.Email.SendGrid.{response}
use qtip_challenge.Email.SendGrid.Request.{
  HttpRequest, SendGridSender, new_send_grid_sender, Caller,
}
use qtip_challenge.Email.SendGrid.Posts.{Posts}
use qtip_challenge.Tests.Sample.{thousandths, settings}

-- A server that answers, with the number of calls so far; a client is its address.
abbrev answering : ClientLibrary String ℕ
answering = record {
  new_client = λ o. o.addr;
  ping = λ k s. (none, s + 1);
  close = λ k s. (none, s + 1);
  register_pool = λ k s. s;
  pool_stats = λ k s. record { total_conns = 10; idle_conns = 10; stale_conns = 0 };
  script_load = λ k script s. (inl script, s + 1);
}

abbrev loaded : GoError ⊎ Config thousandths
loaded = inr settings

boot-Sound_example :
    let (b, s') =
      boot thousandths (λ x. "") (λ s. s) answering (λ c s. (none, s)) "lock" "reclaim" loaded 0 in
    Sound thousandths (λ x. "") (λ s. s) answering (λ c s. (none, s)) "lock" "reclaim" loaded b
    × ((cfg : Config thousandths)
        → loaded ≡ inr cfg
        → validate thousandths (λ x. "") (λ s. s) cfg ≢ []
        → s' ≡ 0)
    × ((e : GoError) → loaded ≡ inl e → s' ≡ 0)
boot-Sound_example =
    boot-Sound thousandths (λ x. "") (λ s. s) answering (λ c s. (none, s)) "lock" "reclaim" loaded 0

addr_from_url_lem_example :
    (addr_from_url "redis://localhost:6379" ≡ "localhost:6379")
    × (addr_from_url "rediss://localhost:6379" ≡ "localhost:6379")
    × (Avoids b'/' "localhost:6379" → addr_from_url "localhost:6379" ≡ "localhost:6379")
addr_from_url_lem_example =
    addr_from_url_lem "localhost:6379" (λ e. ground (arith, eq_iff "localhost:6379" "", e))

-- A provider that accepts, with the requests so far.
abbrev accepting : Caller (List HttpRequest)
accepting = record {
  clock = λ w. pos 0;
  context_error = λ w. none;
  marshal = λ m. inl m.template_id;
  new_request = λ method url. none;
  do_request = λ r w. (response (pos 202) "", w ++ r ∷ []);
}

abbrev mailer : SendGridSender
mailer = new_send_grid_sender "SG.key" "noreply@example.com" "Email Queue"
