-- ===== src/Tests/Claims.antt =====
-- Claims of stale messages, and the monitors, on concrete inputs.
use qtip_challenge.Base.{
  ℕ, Option, ◌+◌, String, none, List, [], ◌∷◌, ◌++◌, ◌≡◌, refl, str_eq, if◌then◌else◌,
}
use qtip_challenge.Base.Int.{ℤ, pos}
use qtip_challenge.Domain.Errors.{GoError}
use qtip_challenge.Redis.Client.{Cmd, value, nil_reply}
use qtip_challenge.Redis.Retry.{xadd_values_builder}
use qtip_challenge.Redis.Consumer.{GroupCommands, Message, priority_streams, claim_stale}
use qtip_challenge.Redis.Consumer.Claims.{Asked, IsClaiming, Claims, claim_stale-Claims}
use qtip_challenge.Worker.Ticker.{tick, cancelled}
use qtip_challenge.Worker.DlqMonitor
use qtip_challenge.Worker.DlqMonitor.{alert_threshold}
use qtip_challenge.Worker.DlqMonitor.Alerts.{FitsRun, run_alerts}
use qtip_challenge.Tests.Sample.{welcome}
use qtip_challenge.Tests.Streams.{codec, quote}

-- One stream holds a readable message and an unreadable one, one answers with nil.
abbrev stale_in : String → Cmd (List Message)
stale_in k =
    if str_eq k "{queue}:email:high"
    then value (
        record { id = "1-0"; values = xadd_values_builder welcome "t-1" }
        ∷ record { id = "1-1"; values = [] }
        ∷ [])
    else if str_eq k "{queue}:email:low"
    then nil_reply
    else value []

abbrev stale : GroupCommands (List Asked)
stale = record {
  create_group = λ k s. (none, s);
  xack = λ k id s. (none, s);
  xautoclaim = λ k idle s.
      (stale_in k, s ++ record { stream_key = k; idle = idle; reply = stale_in k } ∷ []);
}

stale-IsClaiming : IsClaiming stale
stale-IsClaiming = record { asked = λ s. s; xautoclaim_lem = λ k idle s. refl }

claim_stale-Claims_example :
    let (result, s') = claim_stale stale codec quote "email-workers" (pos 60) [] in
    (log : List Asked) × (stale-IsClaiming.asked s' ≡ stale-IsClaiming.asked [] ++ log)
    × Claims stale codec quote "email-workers" stale-IsClaiming (pos 60) priority_streams result log
claim_stale-Claims_example =
    claim_stale-Claims stale codec quote "email-workers" stale-IsClaiming (pos 60) []

abbrev depths : String → String → ℕ → (ℤ × Option GoError) × ℕ
depths tenant type n = ((pos n, none), n + 60)

abbrev dlq_keys : List String
dlq_keys = "queue:dlq:acme:registration" ∷ "queue:dlq:" ∷ []

-- The depth of the one well-formed key is above the threshold at the second tick.
run_alerts_example :
    let wakes = tick (pos 1) ∷ tick (pos 2) ∷ cancelled ∷ [] in
    let ((standing, ticks), n) = DlqMonitor.run depths (pos 0) (pos 100) dlq_keys wakes 50 in
    FitsRun depths (pos 100) dlq_keys wakes 50 standing ticks n
run_alerts_example =
    run_alerts depths (pos 0) (pos 100) dlq_keys (tick (pos 1) ∷ tick (pos 2) ∷ cancelled ∷ []) 50
