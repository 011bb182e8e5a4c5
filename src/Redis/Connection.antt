-- ===== src/Redis/Connection.antt =====
-- internal/adapters/redis/client.go, with LoadScripts of scripts.go: the client's options, its first
-- PING, its health check and its end, over a client library as a parameter.
pub mod Address
use Prim.Native.String.{[] as end, ◌∷◌ as ◌before◌}
use qtip_challenge.Base.{ℕ, ◌*◌, String, ◌<>◌, ◌⊎◌, inl, inr, Option, none, some, List, [], ◌∷◌}
use qtip_challenge.Base.Int.{ℤ}
use qtip_challenge.Base.Texts.{strip_prefix}
use qtip_challenge.Domain.Errors.{GoError, wrap}
use qtip_challenge.Config.Types.{RedisConfig}

-- The text behind a prefix that it is longer than.
unfoldable pub behind : String → String → Option String
unfolding strip_prefix
behind prefix url = elim (strip_prefix prefix url) [
  | none ↦ none
  | some end ↦ none
  | some (◌before◌ c rest) ↦ some (◌before◌ c rest)
]

-- The loop over the two prefixes.
unfoldable pub addr_from_url : String → String
unfolding behind
addr_from_url url = elim (behind "redis://" url) [
  | some addr ↦ addr
  | none ↦ elim (behind "rediss://" url) [ some addr ↦ addr | none ↦ url ]
]

-- `redis.Options` without its callback.
pub record Options : Type 0 where
  pub addr : String
  pub password : String
  pub db : ℤ
  pub pool_size : ℤ
  pub min_idle_conns : ℤ
  pub dial_timeout : ℤ
  pub read_timeout : ℤ
  pub write_timeout : ℤ

unfoldable pub options : RedisConfig → Options
unfolding addr_from_url
options cfg = record {
  addr = addr_from_url cfg.url;
  password = cfg.password;
  db = cfg.db;
  pool_size = cfg.pool_size;
  min_idle_conns = cfg.min_idle_conns;
  dial_timeout = cfg.dial_timeout;
  read_timeout = cfg.read_timeout;
  write_timeout = cfg.write_timeout;
}

-- PoolStats, as far as the collector reads it.
pub record PoolStats : Type 0 where
  pub total_conns : ℕ
  pub idle_conns : ℕ
  pub stale_conns : ℕ

-- A client `K` of the library, and what the code calls on it.
pub record ClientLibrary (K S : Type 0) : Type 0 where
  pub new_client : Options → K
  pub ping : K → S → Option GoError × S
  pub close : K → S → Option GoError × S
  -- Register of the Prometheus registry, whose error is dropped
  pub register_pool : K → S → S
  pub pool_stats : K → S → PoolStats
  -- SCRIPT LOAD: the SHA of a script
  pub script_load : K → String → S → (String ⊎ GoError) × S

pub record ScriptRegistry : Type 0 where
  pub idempotency_sha : String
  pub reclaim_stale_sha : String

module _ {K S : Type 0} (Lib : ClientLibrary K S) where
  unfoldable pub new_redis_client : RedisConfig → S → (K ⊎ GoError) × S
  unfolding options
  new_redis_client cfg s =
      let opts = options cfg in
      let client = Lib.new_client opts in
      let (e, s') = Lib.ping client s in
      elim e [
        | some x ↦ (
          inr (wrap ("redis: ping failed (addr=" <> (opts.addr <> "): ")) x),
          (Lib.close client s').1,
        )
        | none ↦ (inl client, Lib.register_pool client s')
      ]

  unfoldable pub health_check : K → S → Option GoError × S
  health_check client s =
      let (e, s') = Lib.ping client s in
      elim e [ none ↦ (none, s') | some x ↦ (some (wrap "redis: health check failed: " x), s') ]

  unfoldable pub close : K → S → Option GoError × S
  close client s =
      let (e, s') = Lib.close client s in
      elim e [ none ↦ (none, s') | some x ↦ (some (wrap "redis: close: " x), s') ]

  -- The gauges of the collector with their values.
  unfoldable pub collect : K → S → List (String × ℕ)
  collect client s =
      let stats = Lib.pool_stats client s in
      ("redis_pool_total_conns", stats.total_conns)
      ∷ ("redis_pool_idle_conns", stats.idle_conns)
      ∷ ("redis_pool_stale_conns", stats.stale_conns)
      ∷ []

  -- The two scripts are texts here; Idempotency models what they do.
  unfoldable pub load_scripts : String → String → K → S → (ScriptRegistry ⊎ GoError) × S
  load_scripts idempotency_lua_script reclaim_stale_lua_script client s =
      let (first, s') = Lib.script_load client idempotency_lua_script s in
      let (second, s'') = Lib.script_load client reclaim_stale_lua_script s' in
      elim first [
        | inr e ↦ (inr (wrap "redis: load idempotency script: " e), s')
        | inl sha ↦ elim second [
          | inr e ↦ (inr (wrap "redis: load reclaim-stale script: " e), s'')
          | inl sha' ↦ (inl (record { idempotency_sha = sha; reclaim_stale_sha = sha' }), s'')
        ]
      ]
