-- ===== src/Config/Validate/Laws.antt =====
-- `Validate` of internal/config/config.go against a table of constraints.
use qtip_challenge.Base.{
  String, Bool, true, false, List, [], ◌∷◌, ◌≡◌, ◌≢◌, ◌⊎◌, ◌↔◌, refl, arith, All, eq_iff, is_empty,
}
use qtip_challenge.Base.Int.{pos, ◌≤ℤ◌, ◌<ℤ◌}
use qtip_challenge.Domain.Retry.{Float64}
use qtip_challenge.Config.Types.{Config}
use qtip_challenge.Config.Validate.{messages, checks, validate, is_log_level}

abbrev Passes : List (Bool × String) → Type 0
Passes rows = All (λ row. row.0 ≡ false) rows

messages-nil : (rows : List (Bool × String)) → (messages rows ≡ []) ↔ Passes rows
unfolding messages
messages-nil [] = ((λ h. tt), (λ h. refl))
messages-nil ((true, m) ∷ rest) = ground arith
messages-nil ((false, m) ∷ rest) = ground (arith, messages-nil rest)

-- The constraints as a table of properties.
module _ (F : Float64) (two_decimals : F.Carrier → String) (quoted : String → String) where
  open F use {less, of_int}

  pub record IsUsable (c : Config F) : Type 0 where
    pub url : c.redis.url ≢ ""
    pub api_keys : is_empty c.server.api_keys ≡ false
    pub pool_size : pos 0 <ℤ c.worker.pool_size
    pub redis_pool_size : pos 0 <ℤ c.redis.pool_size
    pub jitter_low : less c.retry.jitter_factor (of_int (pos 0)) ≡ false
    pub jitter_high : less (of_int (pos 1)) c.retry.jitter_factor ≡ false
    pub base_delay : pos 0 <ℤ c.retry.base_delay
    pub max_delay : c.retry.base_delay ≤ℤ c.retry.max_delay
    pub ttl : pos 0 <ℤ c.retry.dlq_ttl_seconds
    pub drain_timeout : pos 0 <ℤ c.worker.drain_timeout
    pub metrics_port :
        (pos 1 ≤ℤ c.observability.metrics_port) × (c.observability.metrics_port ≤ℤ pos 65535)
    pub http_port : (pos 1 ≤ℤ c.server.http_port) × (c.server.http_port ≤ℤ pos 65535)
    pub from_email : (c.email.sendgrid_api_key ≡ "") ⊎ (c.email.from_email ≢ "")
    pub fail_rate_low : less c.email.stub_fail_rate (of_int (pos 0)) ≡ false
    pub fail_rate_high : less (of_int (pos 1)) c.email.stub_fail_rate ≡ false
    pub log_level : is_log_level c.observability.log_level ≡ true

  Passes-IsUsable : (c : Config F) → Passes (checks F two_decimals quoted c) → IsUsable c
  unfolding checks
  Passes-IsUsable c h = ground (
    arith,
    eq_iff c.redis.url "",
    eq_iff c.email.sendgrid_api_key "",
    eq_iff c.email.from_email "",
  )

  IsUsable-Passes : (c : Config F) → IsUsable c → Passes (checks F two_decimals quoted c)
  unfolding checks
  IsUsable-Passes c h = ground (
    arith,
    eq_iff c.redis.url "",
    eq_iff c.email.sendgrid_api_key "",
    eq_iff c.email.from_email "",
  )

  pub validate_iff : (c : Config F) → (validate F two_decimals quoted c ≡ []) ↔ IsUsable c
  unfolding validate
  validate_iff c =
      let h = messages-nil (checks F two_decimals quoted c) in
      ((λ e. Passes-IsUsable c (h.0 e)), (λ u. h.1 (IsUsable-Passes c u)))
