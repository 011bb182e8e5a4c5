-- ===== src/Config/Validate.antt =====
-- `Validate` of internal/config/config.go: every violated constraint is reported, in order.
pub mod Laws
use Prim.Native.Char.{code}
use Prim.Native.String.{[] as end, ◌∷◌ as ◌then◌}
use qtip_challenge.Base.{
  ℕ, ◌+◌, String, ◌<>◌, Bool, true, false, not, ◌&&◌, ◌||◌, Option, none, some, List, [], ◌∷◌,
  is_empty, str_eq, leb, ◌==◌, if◌then◌else◌,
}
use qtip_challenge.Base.Int.{ℤ, pos, ltb_ℤ, leb_ℤ}
use qtip_challenge.Base.Decimal.{itoa}
use qtip_challenge.Domain.Retry.{Float64}
use qtip_challenge.Config.Types.{Config}

-- The code point of a letter in lower case, exact where the result is a letter of ASCII: A to Z,
-- the dotted I (U+0130) and the Kelvin sign (U+212A). Others are kept: both are beyond ASCII.
abbrev pub lower_code : ℕ → ℕ
lower_code n =
    if leb b'A' n && leb n b'Z'
    then n + 32
    else (if n == 304 then 105 else (if n == 8490 then 107 else n))

-- The code points of `strings.ToLower`, up to letters beyond ASCII.
unfoldable pub lower_codes : String → List ℕ
lower_codes end = []
lower_codes (◌then◌ c s) = lower_code (code c) ∷ lower_codes s

unfoldable pub codes_eq : List ℕ → List ℕ → Bool
codes_eq [] [] = true
codes_eq (a ∷ as') (b ∷ bs) = a == b && codes_eq as' bs
codes_eq _ _ = false

unfoldable pub is_log_level : String → Bool
unfolding lower_codes codes_eq
is_log_level s =
    let level = lower_codes s in
    codes_eq level (lower_codes "debug")
    || codes_eq level (lower_codes "info")
    || codes_eq level (lower_codes "warn")
    || codes_eq level (lower_codes "error")

abbrev outside : ℤ → Bool
outside port = leb_ℤ port (pos 0) || ltb_ℤ (pos 65535) port

-- The errors of the constraints that are violated, in their order.
unfoldable pub messages : List (Bool × String) → List String
messages [] = []
messages ((true, m) ∷ rest) = m ∷ messages rest
messages ((false, m) ∷ rest) = messages rest

-- `two_decimals` is the verb `%.2f`, `quoted` the verb `%q`.
module _ (F : Float64) (two_decimals : F.Carrier → String) (quoted : String → String) where
  open F use {Carrier, less, of_int}

  abbrev outside_unit : Carrier → Bool
  outside_unit x = less x (of_int (pos 0)) || less (of_int (pos 1)) x

  -- One row for each `if`, with its condition and its message; the last is the `switch`.
  unfoldable pub checks : Config F → List (Bool × String)
  checks c =
      (str_eq c.redis.url "", "REDIS_URL is required")
      ∷ (
        is_empty c.server.api_keys,
        "API_KEYS is required (comma-separated list of valid API keys)",
      )
      ∷ (
        leb_ℤ c.worker.pool_size (pos 0),
        "WORKER_POOL_SIZE must be > 0, got " <> itoa c.worker.pool_size,
      )
      ∷ (
        leb_ℤ c.redis.pool_size (pos 0),
        "REDIS_POOL_SIZE must be > 0, got " <> itoa c.redis.pool_size,
      )
      ∷ (
        outside_unit c.retry.jitter_factor,
        "RETRY_JITTER_FACTOR must be in [0, 1], got " <> two_decimals c.retry.jitter_factor,
      )
      ∷ (leb_ℤ c.retry.base_delay (pos 0), "RETRY_BASE_DELAY must be > 0")
      ∷ (ltb_ℤ c.retry.max_delay c.retry.base_delay, "RETRY_MAX_DELAY must be >= RETRY_BASE_DELAY")
      ∷ (leb_ℤ c.retry.dlq_ttl_seconds (pos 0), "DLQ_TTL_SECONDS must be > 0")
      ∷ (leb_ℤ c.worker.drain_timeout (pos 0), "DRAIN_TIMEOUT must be > 0")
      ∷ (
        outside c.observability.metrics_port,
        "METRICS_PORT must be 1–65535, got " <> itoa c.observability.metrics_port,
      )
      ∷ (outside c.server.http_port, "HTTP_PORT must be 1–65535, got " <> itoa c.server.http_port)
      ∷ (
        not (str_eq c.email.sendgrid_api_key "") && str_eq c.email.from_email "",
        "EMAIL_FROM is required when SENDGRID_API_KEY is set",
      )
      ∷ (
        outside_unit c.email.stub_fail_rate,
        "STUB_EMAIL_FAIL_RATE must be in [0, 1], got " <> two_decimals c.email.stub_fail_rate,
      )
      ∷ (
        not (is_log_level c.observability.log_level),
        "LOG_LEVEL must be one of debug|info|warn|error, got " <> quoted c.observability.log_level,
      )
      ∷ []

  -- The errors of *ValidationErrors; the empty list is the nil error.
  unfoldable pub validate : Config F → List String
  validate c = messages (checks c)
