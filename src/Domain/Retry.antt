-- ===== src/Domain/Retry.antt =====
-- internal/domain/retry_policy.go and `NextRetryDelay` of email_task.go. Durations are nanoseconds.
pub mod Bounds
use qtip_challenge.Base.{ℕ, ◌*◌, Bool, if◌then◌else◌}
use qtip_challenge.Base.Int.{ℤ, pos, ltb_ℤ}
use qtip_challenge.Domain.TaskType
use qtip_challenge.Domain.TaskType.{TaskType}
use qtip_challenge.Domain.Task.{EmailTask}

-- What the code uses of `float64`, `math` and the conversions from and to `int64`.
pub record Float64 : Type 1 where
  pub Carrier : Type 0
  pub of_int : ℤ → Carrier
  pub to_int : Carrier → ℤ
  pub mul : Carrier → Carrier → Carrier
  pub add : Carrier → Carrier → Carrier
  pub pow : Carrier → Carrier → Carrier
  pub less : Carrier → Carrier → Bool
  -- the double nearest to a decimal fraction, by numerator and denominator
  pub ratio : ℕ → ℕ → Carrier

abbrev pub second : ℕ
second = 1_000_000_000

abbrev pub default_base_delay : ℤ
default_base_delay = pos (1 * second)

abbrev pub default_max_delay : ℤ
default_max_delay = pos (15 * (60 * second))

module _ (F : Float64) where
  open F use {Carrier, of_int, to_int, mul, add, pow, less, ratio}

  pub record RetryPolicy : Type 0 where
    pub max_attempts : ℤ
    pub base_delay : ℤ
    pub max_delay : ℤ
    pub jitter_factor : Carrier

  unfoldable pub default_retry_policy : RetryPolicy
  default_retry_policy = record {
    max_attempts = pos 5;
    base_delay = default_base_delay;
    max_delay = default_max_delay;
    jitter_factor = ratio 2 10;
  }

  unfoldable pub retry_policy_for_type : TaskType → RetryPolicy
  unfolding default_retry_policy TaskType.default_max_attempts
  retry_policy_for_type t = record default_retry_policy {
    max_attempts = TaskType.default_max_attempts t;
  }

  -- The exponential growth, capped.
  unfoldable pub capped_base : RetryPolicy → ℤ → Carrier
  capped_base p attempt =
      let grown = mul (of_int p.base_delay) (pow (of_int (pos 2)) (of_int attempt)) in
      let cap = of_int p.max_delay in if less cap grown then cap else grown

  unfoldable pub non_negative : ℤ → ℤ
  non_negative a = if ltb_ℤ a (pos 0) then pos 0 else a

  unfoldable pub cap_delay : ℤ → ℤ → ℤ
  cap_delay limit delay = if ltb_ℤ limit delay then limit else delay

  -- `draw` is what `rand.Float64()` returns.
  unfoldable pub compute_delay : RetryPolicy → Carrier → ℤ → ℤ
  compute_delay p draw attempt =
      let base = capped_base p (non_negative attempt) in
      let jitter = mul (mul draw base) p.jitter_factor in
      cap_delay p.max_delay (to_int (add base jitter))

  unfoldable pub next_retry_delay : EmailTask → Carrier → ℤ
  unfolding retry_policy_for_type compute_delay
  next_retry_delay t draw = compute_delay (retry_policy_for_type t.type) draw t.attempt
