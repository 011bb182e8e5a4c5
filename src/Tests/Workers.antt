-- ===== src/Tests/Workers.antt =====
-- The pool, idempotency keys, delays and the configuration.
use qtip_challenge.Base.{◌++◌, ◌⊎◌, ◌+◌, ◌≤◌, String, true, [], ◌∷◌, ◌≡◌, refl, arith}
use qtip_challenge.Base.Int.{pos}
use qtip_challenge.Worker.Supervisor.Keys.{attempt_key_injective}
use qtip_challenge.Worker.Pool.{Pool, WorkerStep, dispatch, Reach, here, next, new_pool, launch}
use qtip_challenge.Worker.Loop.{Loop, dispatching, new_loop, LoopStep, receive, Runs}
use qtip_challenge.Worker.Loop.Accounts.{any_nacked, tasks_of, Runs-accounts, Runs-live}
use qtip_challenge.Tests.Sample.{welcome}

abbrev one_dispatched : Pool
one_dispatched = launch (new_pool 2)

one_dispatched-Reach : Reach (new_pool 2) one_dispatched
unfolding new_pool
one_dispatched-Reach = next here (dispatch (new_pool 2) (omega arith))

abbrev id_of : String
id_of = "t#1"

attempt_key_injective_example : (id_of ≡ id_of) × (pos 2 ≡ pos 2)
attempt_key_injective_example = attempt_key_injective id_of id_of (pos 2) (pos 2) refl

-- One task is taken and dispatched.
abbrev loop_taken : Loop
loop_taken = record (new_loop 1) {
  place = dispatching;
  pending = welcome ∷ [];
  taken = welcome ∷ [];
}

loop_taken-Runs : Runs (new_loop 1) loop_taken
unfolding new_loop
loop_taken-Runs = Runs.next Runs.here (receive (new_loop 1) welcome refl)

Runs-accounts_example :
    (loop_taken.taken ≡ tasks_of loop_taken.handled ++ loop_taken.pending)
    × ((loop_taken.place ≡ dispatching) ⊎ (loop_taken.pending ≡ []))
    × (any_nacked loop_taken.handled ≡ true → loop_taken.cancelled ≡ true)
    × (loop_taken.pool.spawned + loop_taken.pool.running ≤ 1)
Runs-accounts_example = Runs-accounts 1 loop_taken loop_taken-Runs

Runs-live_example :
    ((m : Loop) × LoopStep loop_taken m × (m.pending ≡ []))
    ⊎ ((q : Pool) × WorkerStep loop_taken.pool q)
Runs-live_example = Runs-live 1 loop_taken welcome [] (omega arith) loop_taken-Runs refl
