-- ===== src/Worker/Pool.antt =====
-- The bounded pool of internal/worker/supervisor.go: the semaphore, the goroutines and the atomic
-- count of active workers, as a step relation over all interleavings.
pub mod Bounds
use qtip_challenge.Base.{ℕ, suc, ◌+◌, ◌≤◌, ◌<◌, ◌≡◌, Bool, ◌==◌}

-- `spawned` goroutines were launched by dispatch and have not run yet, `running` ones are between
-- the increment of the count and the release of the semaphore, `leaving` ones are between that
-- release and the decrement of the count.
pub record Pool : Type 0 where
  pub pool_size : ℕ
  pub tokens : ℕ
  pub active_workers : ℕ
  pub spawned : ℕ
  pub running : ℕ
  pub leaving : ℕ

unfoldable pub new_pool : ℕ → Pool
new_pool n = record {
  pool_size = n;
  tokens = 0;
  active_workers = 0;
  spawned = 0;
  running = 0;
  leaving = 0;
}

-- The four atomic actions: `s.sem <- struct{}{}; go s.processTask(…)` of dispatch, which waits for
-- room in the channel, and of processTask the first statement and the two of its first defer.
unfoldable pub launch : Pool → Pool
launch p = record p { tokens = p.tokens + 1; spawned = p.spawned + 1 }

-- What goroutines do on their own.
pub data WorkerStep : Pool → Pool → Type 0 where
  begin :
      (p : Pool) (n : ℕ)
      → p.spawned ≡ suc n
      → WorkerStep p
          (record p { spawned = n; running = p.running + 1; active_workers = p.active_workers + 1 })
  give_back :
      (p : Pool) (n k : ℕ)
      → p.running ≡ suc n
      → p.tokens ≡ suc k
      → WorkerStep p (record p { running = n; leaving = p.leaving + 1; tokens = k })
  leave :
      (p : Pool) (n k : ℕ)
      → p.leaving ≡ suc n
      → p.active_workers ≡ suc k
      → WorkerStep p (record p { leaving = n; active_workers = k })

pub data Step : Pool → Pool → Type 0 where
  dispatch : (p : Pool) → p.tokens < p.pool_size → Step p (launch p)
  work : {p q : Pool} → WorkerStep p q → Step p q

pub data Reach (p : Pool) : Pool → Type 0 where
  here : Reach p p
  next : {q r : Pool} → Reach p q → Step q r → Reach p r

-- The test of waitForWorkers and Drain.
unfoldable pub is_drained : Pool → Bool
is_drained p = p.active_workers == 0
