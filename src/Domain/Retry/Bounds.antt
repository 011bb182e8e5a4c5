-- ===== src/Domain/Retry/Bounds.antt =====
-- Bounds of the retry delays.
use qtip_challenge.Base.{arith}
use qtip_challenge.Base.Int.{ℤ, ◌≤ℤ◌}
use qtip_challenge.Domain.Task.{EmailTask}
use qtip_challenge.Domain.Retry.{
  Float64, RetryPolicy, default_max_delay, retry_policy_for_type, cap_delay, compute_delay,
  next_retry_delay, default_retry_policy,
}

cap_delay-le : (F : Float64) (limit delay : ℤ) → cap_delay F limit delay ≤ℤ limit
unfolding cap_delay
cap_delay-le F limit delay = ground arith

module _ (F : Float64) where
  -- No delay passes the policy's maximum, whatever the floating-point operations give.
  pub compute_delay-le :
      (p : RetryPolicy F) (draw : F.Carrier) (attempt : ℤ)
      → compute_delay F p draw attempt ≤ℤ p.max_delay
  unfolding compute_delay
  compute_delay-le p draw attempt = cap_delay-le F p.max_delay _

  pub next_retry_delay-le :
      (t : EmailTask) (draw : F.Carrier) → next_retry_delay F t draw ≤ℤ default_max_delay
  unfolding next_retry_delay retry_policy_for_type default_retry_policy
  next_retry_delay-le t draw = compute_delay-le (retry_policy_for_type F t.type) draw t.attempt
