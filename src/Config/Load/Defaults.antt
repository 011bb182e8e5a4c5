-- ===== src/Config/Load/Defaults.antt =====
-- The defaults of `Load` under `Validate`, of internal/config/config.go.
use qtip_challenge.Base.{
  String, ◌<>◌, false, [], ◌≡◌, ◌≢◌, ◌↔◌, inl, inr, refl, ap, sym, ◌∙◌, ◌*◌, arith, is_empty,
  str_eq, eq_iff,
}
use qtip_challenge.Base.Int.{ℤ, pos}
use qtip_challenge.Base.Decimal.{itoa}
use qtip_challenge.Domain.Retry.{Float64, second}
use qtip_challenge.Config.Types.{Config}
use qtip_challenge.Config.Validate.{validate, is_log_level}
use qtip_challenge.Config.Validate.Laws.{IsUsable, validate_iff}
use qtip_challenge.Config.Load.{
  Environment, get_env, get_env_int, get_env_float, parse_duration, parse_api_keys,
  default_consumer_name, config_for, load,
}

-- The doubles 0 and 0.2 lie in [0, 1].
pub record HasUnit (F : Float64) : Type 0 where
  pub zero_low : F.less (F.of_int (pos 0)) (F.of_int (pos 0)) ≡ false
  pub zero_high : F.less (F.of_int (pos 1)) (F.of_int (pos 0)) ≡ false
  pub fifth_low : F.less (F.ratio 2 10) (F.of_int (pos 0)) ≡ false
  pub fifth_high : F.less (F.of_int (pos 1)) (F.ratio 2 10) ≡ false

module _ (F : Float64) (env : Environment F) where
  -- At most these two variables are set.
  abbrev pub IsBare : Type 0
  IsBare =
      (key : String)
      → str_eq key "REDIS_URL" ≡ false
      → str_eq key "API_KEYS" ≡ false
      → env.getenv key ≡ ""

  env_default : (key d : String) → env.getenv key ≡ "" → get_env F env key d ≡ d
  unfolding get_env
  env_default key d h = rw (h)

  env_raw : (key : String) → get_env F env key "" ≡ env.getenv key
  unfolding get_env
  env_raw key = ground (arith, eq_iff (env.getenv key) "")

  int_default : (key : String) (d : ℤ) → env.getenv key ≡ "" → get_env_int F env key d ≡ d
  unfolding get_env_int
  int_default key d h = rw (h)

  float_default :
      (key : String) (d : F.Carrier) → env.getenv key ≡ "" → get_env_float F env key d ≡ d
  unfolding get_env_float
  float_default key d h = rw (h)

  duration_default : (key : String) (d : ℤ) → env.getenv key ≡ "" → parse_duration F env key d ≡ d
  unfolding parse_duration
  duration_default key d h = rw (h)

  bare-IsUsable :
      HasUnit F
      → IsBare
      → (name : String) → env.getenv "REDIS_URL" ≢ ""
      → is_empty (parse_api_keys (env.getenv "API_KEYS")) ≡ false
      → (two_decimals : F.Carrier → String) (quoted : String → String)
      → IsUsable F two_decimals quoted (config_for F env name)
  unfolding config_for is_log_level
  bare-IsUsable unit bare name url keys two_decimals quoted = record {
    url = rw (env_raw "REDIS_URL") url;
    api_keys = rw (env_raw "API_KEYS") keys;
    pool_size = rw (int_default "WORKER_POOL_SIZE" (pos 50) (bare _ refl refl)) (omega arith);
    redis_pool_size = rw (int_default "REDIS_POOL_SIZE" (pos 75) (bare _ refl refl)) (omega arith);
    jitter_low =
        rw (float_default "RETRY_JITTER_FACTOR" (F.ratio 2 10) (bare _ refl refl)) unit.fifth_low;
    jitter_high =
        rw (float_default "RETRY_JITTER_FACTOR" (F.ratio 2 10) (bare _ refl refl)) unit.fifth_high;
    base_delay =
        rw (duration_default "RETRY_BASE_DELAY" (pos second) (bare _ refl refl)) (omega arith);
    max_delay =
        rw
          (
            duration_default "RETRY_BASE_DELAY" (pos second) (bare _ refl refl),
            duration_default "RETRY_MAX_DELAY" (pos (15 * 60 * second)) (bare _ refl refl),
          )
          (omega arith);
    ttl = rw (int_default "DLQ_TTL_SECONDS" (pos 604800) (bare _ refl refl)) (omega arith);
    drain_timeout =
        rw (duration_default "DRAIN_TIMEOUT" (pos (30 * second)) (bare _ refl refl)) (omega arith);
    metrics_port =
        rw (int_default "METRICS_PORT" (pos 9090) (bare _ refl refl)) (omega arith, omega arith);
    http_port =
        rw (int_default "HTTP_PORT" (pos 8080) (bare _ refl refl)) (omega arith, omega arith);
    from_email = inl (env_default "SENDGRID_API_KEY" "" (bare _ refl refl));
    fail_rate_low =
        rw (float_default "STUB_EMAIL_FAIL_RATE" (F.of_int (pos 0)) (bare _ refl refl))
          unit.zero_low;
    fail_rate_high =
        rw (float_default "STUB_EMAIL_FAIL_RATE" (F.of_int (pos 0)) (bare _ refl refl))
          unit.zero_high;
    log_level = rw (env_default "LOG_LEVEL" "info" (bare _ refl refl));
  }

  -- Where the host name is known and at most REDIS_URL and API_KEYS are set, Load gives a
  -- configuration, and Validate accepts it exactly if REDIS_URL is not empty and API_KEYS holds a
  -- key. The doubles 0 and 0.2 are taken to lie in [0, 1].
  pub load_defaults_valid :
      HasUnit F
      → IsBare
      → (host : String) → env.hostname ≡ inr host
      → (two_decimals : F.Carrier → String) (quoted : String → String)
      → (cfg : Config F) × (load F env ≡ inr cfg)
        × ((validate F two_decimals quoted cfg ≡ []) ↔ (
            (env.getenv "REDIS_URL" ≢ "")
            × (is_empty (parse_api_keys (env.getenv "API_KEYS")) ≡ false)))
  unfolding load default_consumer_name config_for
  load_defaults_valid unit bare host h two_decimals quoted = (
    config_for F env (host <> (":" <> itoa env.pid)),
    rw (h),
    (
      λ ok.
          let u =
            (validate_iff F two_decimals quoted
                (config_for F env (host <> (":" <> itoa env.pid)))).0
              ok in
          (
            λ e. u.url (env_raw "REDIS_URL" ∙ e),
            ap (λ raw. is_empty (parse_api_keys raw)) (sym (env_raw "API_KEYS")) ∙ u.api_keys,
          ),
      λ given.
          (validate_iff F two_decimals quoted _).1
            (bare-IsUsable unit bare _ given.0 given.1 two_decimals quoted),
    ),
  )
