-- ===== src/Wiring.antt =====
-- cmd/server/main.go, steps 5 and 6: the ports of the supervisor are the Redis adapters and the email
-- sender. All live in one world `S`: the server, the provider and the clock.
pub mod Sound
pub mod Once
use qtip_challenge.Base.{String, Option, Bool, str_eq, if◌then◌else◌}
use qtip_challenge.Base.Int.{ℤ}
use qtip_challenge.Domain.Errors.{GoError}
use qtip_challenge.Domain.Task.{EmailTask}
use qtip_challenge.Domain.Retry.{Float64}
use qtip_challenge.Config.Types.{Config}
use qtip_challenge.Worker.Ports.{Reply, returns, Failable, Ports}
use qtip_challenge.Redis.Client.{KeyCommands}
use qtip_challenge.Redis.Idempotency
use qtip_challenge.Redis.Idempotency.{Formats}
use qtip_challenge.Redis.Consumer
use qtip_challenge.Redis.Consumer.{GroupCommands}
use qtip_challenge.Redis.Dlq
use qtip_challenge.Redis.Dlq.{ListCommands, EntryCodec}
use qtip_challenge.Redis.Retry
use qtip_challenge.Redis.Retry.{SortedSetCommands, TaskCodec}

-- What the adapters are made of.
pub record Outside (Draw S : Type 0) : Type 0 where
  pub keys : KeyCommands S
  pub groups : GroupCommands S
  pub lists : ListCommands S
  pub sorted_sets : SortedSetCommands S
  pub formats : Formats
  pub tasks : TaskCodec
  pub entries : EntryCodec
  -- the verb `%q`
  pub quoted : String → String
  -- Send of the SendGrid sender and of the stub sender; both may panic
  pub sendgrid : EmailTask → S → Failable × S
  pub stub : EmailTask → S → Failable × S
  -- time.Now and rand.Float64
  pub clock : S → ℤ × S
  pub draw : S → Draw × S

-- An adapter's call as a call of its port: none of them panics.
abbrev pub returned {ℓ} : {A : Type ℓ} {S : Type 0} → A × S → Reply A × S
returned (x, s) = (returns x, s)

-- A result without the gauge update.
abbrev pub ungauged {ℓ κ} : {A : Type ℓ} {G : Type κ} {S : Type 0} → (A × G) × S → A × S
ungauged ((x, g), s) = (x, s)

-- A call that reads the clock first.
abbrev pub at_now {ℓ} : {A : Type ℓ} {S : Type 0} → ℤ × S → (ℤ → S → A × S) → A × S
at_now (now, s) f = f now s

module _ (F : Float64) {S : Type 0} (cfg : Config F) (D : Outside F.Carrier S) where
  -- The sender that main.go chooses.
  unfoldable pub email_sender : EmailTask → S → Failable × S
  email_sender = if str_eq cfg.email.sendgrid_api_key "" then D.stub else D.sendgrid

  unfoldable pub wired : Ports F.Carrier S
  unfolding email_sender
  wired =
      let ttl = cfg.retry.dlq_ttl_seconds in
      record {
        acknowledge = λ t s.
            returned (Consumer.acknowledge D.groups D.tasks D.quoted cfg.worker.consumer_group t s);
        nack = λ t e s.
            returned (Consumer.nack D.groups D.tasks D.quoted cfg.worker.consumer_group t e s);
        set_processing = λ k n s. returned (
            at_now (D.clock s)
              (λ now s'. Idempotency.set_processing D.keys D.formats ttl now k n s'));
        set_completed = λ k s. returned (
            at_now (D.clock s) (λ now s'. Idempotency.set_completed D.keys D.formats ttl now k s'));
        is_completed = λ k s. returned (Idempotency.is_completed D.keys D.formats k s);
        clear_processing = λ k s. returned (Idempotency.clear_processing D.keys D.formats k s);
        try_reclaim_stale = λ k n d s. returned (
            at_now (D.clock s)
              (λ now s'. Idempotency.try_reclaim_stale D.keys D.formats ttl now k n d s'));
        send = λ t s. email_sender t s;
        send_to_dlq =
            λ entry s. returned (ungauged (Dlq.send_to_dlq D.lists D.entries ttl entry s));
        schedule_retry = λ t d s.
            returned (
              at_now (D.clock s) (λ now s'. Retry.schedule_retry D.sorted_sets D.tasks now t d s'));
        now = D.clock;
        draw = D.draw;
      }
