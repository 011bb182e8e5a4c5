-- ===== src/Config/Load.antt =====
-- `Load` of internal/config/config.go and its helpers over an environment, with `strconv.Atoi`,
-- `strings.Split` at a comma and `strings.TrimSpace`.
pub mod Keys
pub mod Defaults
use Prim.Native.Char.{Char, code}
use Prim.Native.String.{[] as end, ◌∷◌ as ◌then◌}
use qtip_challenge.Base.{
  ℕ, ◌+◌, ◌-◌, ◌*◌, ◌^◌, String, ◌<>◌, Bool, true, false, ◌&&◌, ◌||◌, Option, none, some, List, [],
  ◌∷◌, ◌⊎◌, inl, inr, ◌≡◌, refl, str_eq, leb, ltb, ◌==◌, if◌then◌else◌,
}
use qtip_challenge.Base.Int.{ℤ, pos, negsuc, sub_ℕ}
use qtip_challenge.Base.Decimal.{itoa}
use qtip_challenge.Domain.Errors.{GoError, wrap}
use qtip_challenge.Domain.Retry.{Float64, second}
use qtip_challenge.Config.Types.{Config}

-- `unicode.IsSpace`
unfoldable pub is_space : ℕ → Bool
is_space n =
    (leb 9 n && leb n 13)
    || (n == 32)
    || (n == 133)
    || (n == 160)
    || (n == 5760)
    || (leb 8192 n && leb n 8202)
    || (n == 8232)
    || (n == 8233)
    || (n == 8239)
    || (n == 8287)
    || (n == 12288)

unfoldable pub trim_left : String → String
unfolding is_space
trim_left end = ""
trim_left (◌then◌ c s) = let rest = trim_left s in if is_space (code c) then rest else (◌then◌ c s)

unfoldable pub trim_right : String → String
unfolding is_space
trim_right end = ""
trim_right (◌then◌ c s) =
    let rest = trim_right s in if is_space (code c) && str_eq rest "" then "" else (◌then◌ c rest)

-- `strings.TrimSpace`
unfoldable pub trim_space : String → String
unfolding trim_left trim_right
trim_space s = trim_right (trim_left s)

-- A character in front of the first part.
abbrev pub extend : Char → List String → List String
extend c [] = (◌then◌ c "") ∷ []
extend c (part ∷ parts) = (◌then◌ c part) ∷ parts

-- `strings.Split(s, ",")`
unfoldable pub split_commas : String → List String
split_commas end = "" ∷ []
split_commas (◌then◌ c s) =
    let parts = split_commas s in if code c == b',' then "" ∷ parts else extend c parts

-- The loop of parseAPIKeys.
unfoldable pub non_empty_keys : List String → List String
unfolding trim_space
non_empty_keys [] = []
non_empty_keys (p ∷ ps) =
    let rest = non_empty_keys ps in let k = trim_space p in if str_eq k "" then rest else k ∷ rest

unfoldable pub parse_api_keys : String → List String
unfolding split_commas non_empty_keys
parse_api_keys raw = if str_eq raw "" then [] else non_empty_keys (split_commas raw)

-- The digits of a text after those that make up `a`.
unfoldable pub digits_from : ℕ → String → Option ℕ
digits_from a end = some a
digits_from a (◌then◌ c s) =
    let rest = digits_from (a * 10 + (code c - 48)) s in
    if leb 48 (code c) && leb (code c) 57 then rest else none

unfoldable pub digits : String → Option ℕ
unfolding digits_from
digits end = none
digits (◌then◌ c s) = digits_from 0 (◌then◌ c s)

-- `strconv.Atoi` with an `int` of 64 bits.
unfoldable pub atoi : String → Option ℤ
unfolding digits
atoi end = none
atoi (◌then◌ c s) =
    if code c == b'-'
    then elim (digits s) [
      | none ↦ none
      | some n ↦ if leb n (2 ^ 63) then some (sub_ℕ 0 n) else none
    ]
    else elim (if code c == b'+' then digits s else digits (◌then◌ c s)) [
      | none ↦ none
      | some n ↦ if ltb n (2 ^ 63) then some (pos n) else none
    ]

atoi_examples :
    (atoi "+42" ≡ some (pos 42))
    × (atoi "-7" ≡ some (negsuc 6))
    × (atoi "4 2" ≡ none)
    × (atoi "-" ≡ none)
unfolding atoi
atoi_examples = (refl, refl, refl, refl)

-- The process: os.Getenv, os.Hostname and os.Getpid, with strconv.ParseFloat and time.ParseDuration,
-- `none` for their errors.
pub record Environment (F : Float64) : Type 0 where
  pub getenv : String → String
  pub hostname : GoError ⊎ String
  pub pid : ℤ
  pub parse_float : String → Option F.Carrier
  pub parse_duration_text : String → Option ℤ

module _ (F : Float64) (env : Environment F) where
  unfoldable pub get_env : String → String → String
  get_env key default_val = let v = env.getenv key in if str_eq v "" then default_val else v

  abbrev pub value_or {ℓ} : {A : Type ℓ} → A → Option A → A
  value_or d none = d
  value_or d (some v) = v

  unfoldable pub get_env_int : String → ℤ → ℤ
  unfolding atoi
  get_env_int key default_val =
      let s = env.getenv key in if str_eq s "" then default_val else value_or default_val (atoi s)

  unfoldable pub get_env_float : String → F.Carrier → F.Carrier
  get_env_float key default_val =
      let s = env.getenv key in
      if str_eq s "" then default_val else value_or default_val (env.parse_float s)

  unfoldable pub parse_duration : String → ℤ → ℤ
  parse_duration env_key default_val =
      let s = env.getenv env_key in
      if str_eq s "" then default_val else value_or default_val (env.parse_duration_text s)

  unfoldable pub default_consumer_name : GoError ⊎ String
  default_consumer_name = elim env.hostname [
    | inl e ↦ inl e
    | inr hostname ↦ inr (hostname <> (":" <> itoa env.pid))
  ]

  unfoldable pub config_for : String → Config F
  unfolding get_env get_env_int get_env_float parse_duration parse_api_keys
  config_for consumer_name = record {
    redis = record {
      url = get_env "REDIS_URL" "";
      password = get_env "REDIS_PASSWORD" "";
      db = get_env_int "REDIS_DB" (pos 0);
      pool_size = get_env_int "REDIS_POOL_SIZE" (pos 75);
      min_idle_conns = get_env_int "REDIS_MIN_IDLE_CONNS" (pos 10);
      dial_timeout = parse_duration "REDIS_DIAL_TIMEOUT" (pos (5 * second));
      read_timeout = parse_duration "REDIS_READ_TIMEOUT" (pos (3 * second));
      write_timeout = parse_duration "REDIS_WRITE_TIMEOUT" (pos (3 * second));
    };
    worker = record {
      pool_size = get_env_int "WORKER_POOL_SIZE" (pos 50);
      consumer_group = get_env "WORKER_CONSUMER_GROUP" "email-workers";
      consumer_name = get_env "WORKER_CONSUMER_NAME" consumer_name;
      block_timeout = parse_duration "WORKER_BLOCK_TIMEOUT" (pos (5 * second));
      claim_idle_threshold = parse_duration "WORKER_CLAIM_IDLE_THRESHOLD" (pos (30 * second));
      drain_timeout = parse_duration "DRAIN_TIMEOUT" (pos (30 * second));
    };
    retry = record {
      base_delay = parse_duration "RETRY_BASE_DELAY" (pos second);
      max_delay = parse_duration "RETRY_MAX_DELAY" (pos (15 * 60 * second));
      jitter_factor = get_env_float "RETRY_JITTER_FACTOR" (F.ratio 2 10);
      scheduler_interval = parse_duration "RETRY_SCHEDULER_INTERVAL" (pos second);
      dlq_ttl_seconds = get_env_int "DLQ_TTL_SECONDS" (pos 604800);
      dlq_monitor_interval = parse_duration "DLQ_MONITOR_INTERVAL" (pos (30 * second));
      dlq_alert_threshold = get_env_int "DLQ_ALERT_THRESHOLD" (pos 100);
    };
    email = record {
      sendgrid_api_key = get_env "SENDGRID_API_KEY" "";
      from_email = get_env "EMAIL_FROM" "noreply@example.com";
      from_name = get_env "EMAIL_FROM_NAME" "Email Queue";
      stub_fail_rate = get_env_float "STUB_EMAIL_FAIL_RATE" (F.of_int (pos 0));
      stub_latency = parse_duration "STUB_EMAIL_LATENCY" (pos 0);
    };
    observability = record {
      log_level = get_env "LOG_LEVEL" "info";
      log_format = get_env "LOG_FORMAT" "json";
      otel_endpoint = get_env "OTEL_EXPORTER_OTLP_ENDPOINT" "";
      service_name = get_env "OTEL_SERVICE_NAME" "email-queue";
      metrics_port = get_env_int "METRICS_PORT" (pos 9090);
    };
    server = record {
      http_port = get_env_int "HTTP_PORT" (pos 8080);
      api_keys = parse_api_keys (get_env "API_KEYS" "");
      read_timeout = parse_duration "HTTP_READ_TIMEOUT" (pos (10 * second));
      write_timeout = parse_duration "HTTP_WRITE_TIMEOUT" (pos (30 * second));
    };
  }

  unfoldable pub load : GoError ⊎ Config F
  unfolding default_consumer_name config_for
  load = elim default_consumer_name [
    | inl e ↦ inl (wrap "config: resolve consumer name: " e)
    | inr consumer_name ↦ inr (config_for consumer_name)
  ]
