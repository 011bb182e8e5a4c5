-- ===== src/Redis/Client.antt =====
-- What the adapters use of the Redis client: the replies, and the commands on plain keys.
use qtip_challenge.Base.{String, ◌≡◌, ◌⊎◌, Option, none, some, str_eq, if◌then◌else◌}
use qtip_challenge.Base.Int.{ℤ}
use qtip_challenge.Domain.Errors.{GoError}

-- A reply, `redis.Nil`, or another error.
pub data Cmd {ℓ} (A : Type ℓ) : Type ℓ where
  value : A → Cmd A
  nil_reply : Cmd A
  error : GoError → Cmd A

-- A Lua script: its integer reply, or `none` where it raises an error, and the state it leaves.
abbrev pub Script : Type 0 → Type 0
Script S = S → Option ℤ × S

-- `S` is the state of the server. The first two fields are what a script reaches by `redis.call`,
-- the others are commands of the client, which may fail.
pub record KeyCommands (S : Type 0) : Type 0 where
  pub read : String → S → Option String
  -- SET key value EX ttl
  pub write : String → String → ℤ → S → S
  pub delete : String → S → S
  pub eval_sha : Script S → S → Cmd ℤ × S
  pub get : String → S → Cmd String × S
  -- SET key value XX EX ttl
  pub set_xx : String → String → ℤ → S → Cmd (Unit {0}) × S
  pub del : String → S → Cmd (Unit {0}) × S

-- Documented behaviour of Redis, for a time in which no key expires: scripts are atomic, a write is
-- read back, and a command that failed has run or has not.
pub record IsRedis {S : Type 0} (R : KeyCommands S) : Type 0 where
  pub read-write :
      (k j v : String) (ttl : ℤ) (s : S)
      → R.read j (R.write k v ttl s) ≡ (if str_eq k j then some v else R.read j s)
  pub read-delete :
      (k j : String) (s : S) → R.read j (R.delete k s) ≡ (if str_eq k j then none else R.read j s)
  -- A script that ran and replied, or a failure with or without its effect.
  pub eval_sha_lem :
      (f : Script S) (s : S)
      → ((n : ℤ) × ((f s).0 ≡ some n) × (R.eval_sha f s ≡ (value n, (f s).1)))
        ⊎ ((e : GoError) × (s' : S) × ((s' ≡ s) ⊎ (s' ≡ (f s).1))
            × (R.eval_sha f s ≡ (error e, s')))
  pub get_lem :
      (k : String) (s : S)
      → ((R.read k s ≡ none) × (R.get k s ≡ (nil_reply, s)))
        ⊎ (((v : String) × (R.read k s ≡ some v) × (R.get k s ≡ (value v, s)))
            ⊎ ((e : GoError) × (R.get k s ≡ (error e, s))))
  pub set_xx_lem :
      (k v : String) (ttl : ℤ) (s : S)
      → ((R.read k s ≡ none) × (R.set_xx k v ttl s ≡ (nil_reply, s)))
        ⊎ (((old : String) × (R.read k s ≡ some old)
              × (R.set_xx k v ttl s ≡ (value tt, R.write k v ttl s)))
            ⊎ ((e : GoError) × (s' : S) × (R.set_xx k v ttl s ≡ (error e, s'))))
  pub del_lem :
      (k : String) (s : S)
      → (R.del k s ≡ (value tt, R.delete k s))
        ⊎ ((e : GoError) × (s' : S) × (R.del k s ≡ (error e, s')))
