-- ===== src/Worker/Pool/Bounds.antt =====
-- Reachable states of the pool of internal/worker/supervisor.go, and the drained test.
use qtip_challenge.Base.{ℕ, zero, suc, ◌+◌, ◌≤◌, ◌<◌, ◌≡◌, true, arith, refl}
use qtip_challenge.Worker.Pool.{
  Pool, WorkerStep, begin, give_back, leave, Step, dispatch, work, Reach, here, next, new_pool,
  launch, is_drained,
}

pub record IsBounded (p : Pool) : Type 0 where
  pub held : p.tokens ≡ p.spawned + p.running
  pub counted : p.active_workers ≡ p.running + p.leaving
  pub room : p.tokens ≤ p.pool_size

pub WorkerStep-IsBounded :
    {p q : Pool} → WorkerStep p q → IsBounded p → IsBounded q × (q.pool_size ≡ p.pool_size)
WorkerStep-IsBounded (begin p n e) b = ground arith
WorkerStep-IsBounded (give_back p n k e f) b = ground arith
WorkerStep-IsBounded (leave p n k e f) b = ground arith

pub launch-IsBounded :
    (p : Pool)
    → p.tokens < p.pool_size
    → IsBounded p
    → IsBounded (launch p) × ((launch p).pool_size ≡ p.pool_size)
unfolding launch
launch-IsBounded p h b = ground arith

Step-IsBounded : {p q : Pool} → Step p q → IsBounded p → IsBounded q × (q.pool_size ≡ p.pool_size)
Step-IsBounded (dispatch p h) b = launch-IsBounded p h b
Step-IsBounded (work s) b = WorkerStep-IsBounded s b

Reach-IsBounded : {n : ℕ} {p : Pool} → Reach (new_pool n) p → IsBounded p × (p.pool_size ≡ n)
unfolding new_pool
Reach-IsBounded here = ground arith
Reach-IsBounded (next r s) =
    ground (arith, Step-IsBounded s (Reach-IsBounded r).0, (Reach-IsBounded r).1)

-- In every interleaving of dispatches and worker goroutines at most `pool_size` tasks are dispatched
-- or in processing at once, and each of them holds one token of the semaphore.
Reach-bounded :
    (n : ℕ) (p : Pool)
    → Reach (new_pool n) p
    → (p.spawned + p.running ≤ n) × (p.tokens ≡ p.spawned + p.running)
Reach-bounded n p r = ground (arith, Reach-IsBounded r)

pred_of : (n : ℕ) → 0 < n → (k : ℕ) × (n ≡ suc k)
pred_of zero h = absurd (omega arith)
pred_of (suc k) h = (k, refl)

-- The step that some goroutine can take, by the numbers of goroutines in each state.
pub next-WorkerStep :
    (p : Pool) (a b c : ℕ)
    → IsBounded p
    → p.running ≡ a
    → p.leaving ≡ b
    → p.spawned ≡ c
    → 0 < a + b + c
    → (q : Pool) × WorkerStep p q
next-WorkerStep p (suc a) b c v ea eb ec h =
    let (k, e) = pred_of p.tokens (omega (arith, v)) in (_, give_back p a k ea e)
next-WorkerStep p zero (suc b) c v ea eb ec h =
    let (k, e) = pred_of p.active_workers (omega (arith, v)) in (_, leave p b k eb e)
next-WorkerStep p zero zero (suc c) v ea eb ec h = (_, begin p c ec)
next-WorkerStep p zero zero zero v ea eb ec h = absurd (omega arith)

-- No interleaving is stuck: while a goroutine is left, in any reachable state, one of them has a
-- step to take.
Reach-live :
    (n : ℕ) (p : Pool)
    → Reach (new_pool n) p
    → 0 < p.running + p.leaving + p.spawned
    → (q : Pool) × WorkerStep p q
Reach-live n p r busy =
    next-WorkerStep p p.running p.leaving p.spawned (Reach-IsBounded r).0 refl refl refl busy

-- When the drained test passes, no goroutine is in processing; those that were dispatched and have
-- not begun are still there, one for each token that is held.
drained-tokens :
    (n : ℕ) (p : Pool)
    → Reach (new_pool n) p
    → is_drained p ≡ true
    → (p.running ≡ 0) × (p.leaving ≡ 0) × (p.tokens ≡ p.spawned)
unfolding is_drained
drained-tokens n p r h = ground (arith, Reach-IsBounded r)

-- A dispatch does not show in the drained test: from a drained state with room, the state after a
-- dispatch is reachable, passes the test too, and holds a token for a task that is yet to be
-- processed.
drained_misses_dispatch :
    (n : ℕ) (p : Pool)
    → Reach (new_pool n) p
    → is_drained p ≡ true
    → p.tokens < n
    → Reach (new_pool n) (launch p) × (is_drained (launch p) ≡ true) × (0 < (launch p).tokens)
unfolding is_drained launch
drained_misses_dispatch n p r h room =
    (next r (dispatch p (ground (arith, Reach-IsBounded r))), h, omega arith)
