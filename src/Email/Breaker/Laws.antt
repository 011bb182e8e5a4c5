-- ===== src/Email/Breaker/Laws.antt =====
-- Runs of failures and the open phase of internal/adapters/email/circuit_breaker.go.
use qtip_challenge.Base.{ℕ, suc, ◌+◌, List, [], ◌∷◌, ◌≡◌, refl, arith, length, ap, ◌∙◌}
use qtip_challenge.Base.Int.{+ℤ_parts, ℤ, pos, ◌+ℤ◌, ◌≤ℤ◌, ◌<ℤ◌}
use qtip_challenge.Email.Breaker.{CircuitBreaker, record_success, record_failure}

-- Fewer failures are counted than the limit.
record IsCounting (b : CircuitBreaker) : Type 0 where
  low : pos 0 ≤ℤ b.consecutive
  high : b.consecutive <ℤ b.max_failures

-- A success, and a failure at any time, keep the count of failures at 0 or more and below the
-- limit.
breaker-IsCounting :
    (b : CircuitBreaker) (now : ℤ)
    → IsCounting b
    → IsCounting (record_success b) × IsCounting (record_failure b now)
unfolding record_success record_failure
breaker-IsCounting b now h = grind (arith, +ℤ_parts)

-- The failures at these instants, the first one first.
pub failures : CircuitBreaker → List ℤ → CircuitBreaker
failures b [] = b
failures b (t ∷ ts) = failures (record_failure b t) ts

record_failure_counts :
    (b : CircuitBreaker) (t : ℤ) (c k : ℕ)
    → b.consecutive ≡ pos c
    → b.max_failures ≡ pos (c + suc (suc k))
    → record_failure b t ≡ record b { consecutive = pos (c + 1) }
unfolding record_failure ◌+ℤ◌
record_failure_counts b t c k e m = ground arith

-- Failures in a row from a count of `c`, fewer than are missing to `max_failures`, leave
-- `open_until` as it is, and are counted.
pub failures_below :
    (b : CircuitBreaker) (ts : List ℤ) (c k : ℕ)
    → b.consecutive ≡ pos c
    → b.max_failures ≡ pos (c + length ts + suc k)
    → failures b ts ≡ record b { consecutive = pos (c + length ts) }
unfolding failures
failures_below b [] c k e m = ground arith
failures_below b (t ∷ ts) c k e m =
    rw (record_failure_counts b t c (length ts + k) e (m ∙ ap pos (omega arith)), failures)
      (failures_below (record b { consecutive = pos (c + 1) }) ts (c + 1) k refl
          (m ∙ ap pos (omega arith))
        ∙ ap (λ (n : ℕ). record b { consecutive = pos n }) (omega arith))
