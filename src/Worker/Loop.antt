-- ===== src/Worker/Loop.antt =====
-- `Run` and `dispatch` of internal/worker/supervisor.go: the event loop beside the goroutines of its
-- pool, as a step relation. The select statements choose among the steps that are possible.
pub mod Accounts
use qtip_challenge.Base.{ℕ, ◌<◌, Bool, true, false, List, [], ◌∷◌, ◌++◌, ◌≡◌, ◌⊎◌}
use qtip_challenge.Domain.Errors.{GoError}
use qtip_challenge.Domain.Task.{EmailTask}
use qtip_challenge.Worker.Pool.{Pool, new_pool, launch, WorkerStep, is_drained}

-- At the select; in dispatch, once for each pending task; in waitForWorkers; returned.
pub data Place : Type 0 where
  selecting dispatching draining returned : Place

-- `pending` tasks are to be dispatched still. `taken` is the history of the tasks that came from the
-- channel and from ClaimStale, and `handled` that of dispatch: true for a goroutine that it started,
-- false for a nack with the error of the context.
pub record Loop : Type 0 where
  pub pool : Pool
  pub place : Place
  pub cancelled : Bool
  pub closed : Bool
  pub pending : List EmailTask
  pub taken : List EmailTask
  pub handled : List (EmailTask × Bool)

unfoldable pub new_loop : ℕ → Loop
new_loop n = record {
  pool = new_pool n;
  place = selecting;
  cancelled = false;
  closed = false;
  pending = [];
  taken = [];
  handled = [];
}

pub data LoopStep : Loop → Loop → Type 0 where
  -- `task, ok := <-taskCh`
  receive :
      (l : Loop) (t : EmailTask)
      → l.place ≡ selecting
      → LoopStep l (record l { place = dispatching; pending = t ∷ []; taken = l.taken ++ t ∷ [] })
  -- the ticker: ClaimStale without error, and with one
  claim :
      (l : Loop) (ts : List EmailTask)
      → l.place ≡ selecting
      → LoopStep l (record l { place = dispatching; pending = ts; taken = l.taken ++ ts })
  claim_failed : (l : Loop) (e : GoError) → l.place ≡ selecting → LoopStep l l
  -- the two cases of the select in dispatch
  admit :
      (l : Loop) (t : EmailTask) (ts : List EmailTask)
      → l.place ≡ dispatching
      → l.pending ≡ t ∷ ts
      → l.pool.tokens < l.pool.pool_size
      → LoopStep l
          (record l { pool = launch l.pool; pending = ts; handled = l.handled ++ (t, true) ∷ [] })
  turn_away :
      (l : Loop) (t : EmailTask) (ts : List EmailTask)
      → l.place ≡ dispatching
      → l.pending ≡ t ∷ ts
      → l.cancelled ≡ true
      → LoopStep l (record l { pending = ts; handled = l.handled ++ (t, false) ∷ [] })
  resume :
      (l : Loop)
      → l.place ≡ dispatching
      → l.pending ≡ []
      → LoopStep l (record l { place = selecting })
  -- the closed channel, or ctx.Done()
  stop :
      (l : Loop)
      → l.place ≡ selecting
      → (l.closed ≡ true) ⊎ (l.cancelled ≡ true)
      → LoopStep l (record l { place = draining })
  -- the two ends of waitForWorkers
  drained :
      (l : Loop)
      → l.place ≡ draining
      → is_drained l.pool ≡ true
      → LoopStep l (record l { place = returned })
  timed_out : (l : Loop) → l.place ≡ draining → LoopStep l (record l { place = returned })
  -- what happens beside the loop
  cancel : (l : Loop) → LoopStep l (record l { cancelled = true })
  close : (l : Loop) → LoopStep l (record l { closed = true })
  worker : (l : Loop) {q : Pool} → WorkerStep l.pool q → LoopStep l (record l { pool = q })

pub data Runs (l : Loop) : Loop → Type 0 where
  here : Runs l l
  next : {m n : Loop} → Runs l m → LoopStep m n → Runs l n
