-- ===== src/Process/Boot.antt =====
-- Steps 1 to 4 of cmd/server/main.go: configuration, tracer, Redis and scripts. Each failure ends the
-- process with status 1.
use mathlib.Core.Path.{subst}
use qtip_challenge.Base.{
  String, ◌⊎◌, inl, inr, Option, none, some, List, [], ◌∷◌, ◌≡◌, ◌≢◌, refl, sym, ◌∙◌, ap,
  Option-cases,
}
use qtip_challenge.Domain.Errors.{GoError}
use qtip_challenge.Domain.Retry.{Float64}
use qtip_challenge.Config.Types.{Config}
use qtip_challenge.Config.Validate.{validate}
use qtip_challenge.Config.Validate.Laws.{IsUsable, validate_iff}
use qtip_challenge.Redis.Connection.{
  ClientLibrary, ScriptRegistry, options, new_redis_client, load_scripts,
}

-- How main stands behind step 4, with the message of a fatal exit.
pub data Boot (C K : Type 0) : Type 0 where
  exited : String → Boot C K
  started : C → K → ScriptRegistry → Boot C K

module _ (F : Float64) (two_decimals : F.Carrier → String) (quoted : String → String) {K S : Type 0}
    (Lib : ClientLibrary K S) (init_tracer : Config F → S → Option GoError × S)
    (idempotency_lua_script reclaim_stale_lua_script : String) where
  unfoldable pub load_step : Config F → K → S → Boot (Config F) K × S
  unfolding load_scripts
  load_step cfg client s =
      let (scripts, s') =
        load_scripts Lib idempotency_lua_script reclaim_stale_lua_script client s in
      elim scripts [
        | inr e ↦ (exited "failed to load Redis Lua scripts", s')
        | inl registry ↦ (started cfg client registry, s')
      ]

  unfoldable pub redis_step : Config F → S → Boot (Config F) K × S
  unfolding new_redis_client load_step
  redis_step cfg s =
      let (connected, s') = new_redis_client Lib cfg.redis s in
      elim connected [
        | inr e ↦ (exited "failed to connect to Redis", s')
        | inl client ↦ load_step cfg client s'
      ]

  unfoldable pub tracer_step : Config F → S → Boot (Config F) K × S
  unfolding redis_step
  tracer_step cfg s =
      let (e, s') = init_tracer cfg s in
      elim e [
        | some x ↦ (exited "failed to initialise OpenTelemetry tracer", s')
        | none ↦ redis_step cfg s'
      ]

  unfoldable pub boot : GoError ⊎ Config F → S → Boot (Config F) K × S
  unfolding tracer_step
  boot (inl e) s = (exited "config load failed", s)
  boot (inr cfg) s = elim (validate F two_decimals quoted cfg) [
    | [] ↦ tracer_step cfg s
    | m ∷ ms ↦ (exited "config validation failed", s)
  ]

  -- A client that answered its PING.
  abbrev pub IsConnected : Config F → K → Type 0
  IsConnected cfg client =
      (client ≡ Lib.new_client (options cfg.redis)) × ((s : S) × ((Lib.ping client s).0 ≡ none))

  -- What holds where main goes on with a configuration and a client.
  abbrev pub Sound : GoError ⊎ Config F → Boot (Config F) K → Type 0
  Sound loaded (exited m) = Unit
  Sound loaded (started cfg client registry) =
      (loaded ≡ inr cfg) × IsUsable F two_decimals quoted cfg × IsConnected cfg client

  Scripts-cases :
      (x : ScriptRegistry ⊎ GoError)
      → ((r : ScriptRegistry) × (x ≡ inl r)) ⊎ ((e : GoError) × (x ≡ inr e))
  Scripts-cases (inl r) = inl (r, refl)
  Scripts-cases (inr e) = inr (e, refl)

  load_step-Sound :
      (cfg : Config F) (client : K) (s : S)
      → IsUsable F two_decimals quoted cfg
      → IsConnected cfg client
      → Sound (inr cfg) (load_step cfg client s).0
  unfolding load_step
  load_step-Sound cfg client s usable connected =
      elim (Scripts-cases
        (load_scripts Lib idempotency_lua_script reclaim_stale_lua_script client s).0) [
          | inl (r, fine) ↦ rw (load_step, fine) (refl, usable, connected)
          | inr (e, failed) ↦ rw (load_step, failed) tt
        ]

  redis_step-Sound :
      (cfg : Config F) (s : S)
      → IsUsable F two_decimals quoted cfg
      → Sound (inr cfg) (redis_step cfg s).0
  unfolding redis_step new_redis_client
  redis_step-Sound cfg s usable =
      let client = Lib.new_client (options cfg.redis) in
      elim (Option-cases (Lib.ping client s).0) [
        | inl fine ↦
            rw (redis_step, new_redis_client, fine)
              (load_step-Sound cfg client _ usable (refl, (s, fine)))
        | inr (e, failed) ↦ rw (redis_step, new_redis_client, failed) tt
      ]

  tracer_step-Sound :
      (cfg : Config F) (s : S)
      → IsUsable F two_decimals quoted cfg
      → Sound (inr cfg) (tracer_step cfg s).0
  unfolding tracer_step
  tracer_step-Sound cfg s usable = elim (Option-cases (init_tracer cfg s).0) [
    | inl fine ↦ rw (tracer_step, fine) (redis_step-Sound cfg _ usable)
    | inr (e, failed) ↦ rw (tracer_step, failed) tt
  ]

  abbrev config_or : Config F → GoError ⊎ Config F → Config F
  config_or c (inl e) = c
  config_or c (inr d) = d

  same_config : (c d : Config F) (x y : GoError ⊎ Config F) → x ≡ y → x ≡ inr c → y ≡ inr d → c ≡ d
  same_config c d x y h p q = sym (ap (config_or c) p) ∙ ap (config_or c) h ∙ ap (config_or c) q

  Errors-cases : (x : List String) → (x ≡ []) ⊎ ((m : String) × (ms : List String) × (x ≡ m ∷ ms))
  Errors-cases [] = inl refl
  Errors-cases (m ∷ ms) = inr (m, ms, refl)

  -- Where main gets behind step 4, it has the configuration that Load gave, which meets every
  -- constraint, and a client made from it that answered its PING. A configuration that could not be
  -- loaded or that Validate refuses ends the process before anything outside was called.
  pub boot-Sound :
      (loaded : GoError ⊎ Config F) (s : S)
      → let (b, s') = boot loaded s in
        Sound loaded b
        × ((cfg : Config F) → loaded ≡ inr cfg → validate F two_decimals quoted cfg ≢ [] → s' ≡ s)
        × ((e : GoError) → loaded ≡ inl e → s' ≡ s)
  unfolding boot
  boot-Sound (inl e) s = (tt, (λ cfg h bad. refl), (λ x h. refl))
  boot-Sound (inr c) s = elim (Errors-cases (validate F two_decimals quoted c)) [
    | inl valid ↦
        rw (boot, valid)
          (
            tracer_step-Sound c s ((validate_iff F two_decimals quoted c).0 valid),
            (λ cfg h bad. absurd (
                bad (
                  subst (λ x. validate F two_decimals quoted x ≡ [])
                    (same_config c cfg (inr c) (inr cfg) h refl refl) valid))),
            (λ e h. cc),
          )
    | inr (m, ms, invalid) ↦ rw (boot, invalid) (tt, (λ cfg h bad. refl), (λ e h. refl))
  ]
