-- ===== src/Worker/Loop/Accounts.antt =====
-- What becomes of the tasks that the loop of internal/worker/supervisor.go takes.
use mathlib.Core.List.{append-nil, append_assoc, map-append}
use qtip_challenge.Base.{
  ℕ, ◌+◌, ◌≤◌, ◌<◌, Bool, true, false, ◌||◌, not, List, [], ◌∷◌, ◌++◌, map, ◌≡◌, ◌⊎◌, inl, inr,
  refl, sym, ap, ◌∙◌, arith, Bool-cases, ltb, ltb→lt,
}
use qtip_challenge.Domain.Task.{EmailTask}
use qtip_challenge.Worker.Pool.{Pool, WorkerStep, new_pool}
use qtip_challenge.Worker.Pool.Bounds.{
  IsBounded, WorkerStep-IsBounded, launch-IsBounded, next-WorkerStep,
}
use qtip_challenge.Worker.Loop.{
  selecting, dispatching, Loop, new_loop, LoopStep, receive, claim, claim_failed, admit, turn_away,
  resume, stop, drained, timed_out, cancel, close, worker, Runs, here, next,
}

-- Some task was nacked by dispatch.
abbrev pub any_nacked : List (EmailTask × Bool) → Bool
any_nacked [] = false
any_nacked ((t, started) ∷ rest) = not started || any_nacked rest

abbrev pub tasks_of : List (EmailTask × Bool) → List EmailTask
tasks_of xs = map (λ x. x.0) xs

pub record IsAccounted (n : ℕ) (l : Loop) : Type 0 where
  pub bounded : IsBounded l.pool
  pub size : l.pool.pool_size ≡ n
  pub accounts : l.taken ≡ tasks_of l.handled ++ l.pending
  pub idle : (l.place ≡ dispatching) ⊎ (l.pending ≡ [])
  pub nacks : any_nacked l.handled ≡ true → l.cancelled ≡ true

tasks_of-concat :
    (h : List (EmailTask × Bool)) (t : EmailTask) (b : Bool) (ts : List EmailTask)
    → tasks_of (h ++ (t, b) ∷ []) ++ ts ≡ tasks_of h ++ t ∷ ts
tasks_of-concat h t b ts = simp (map-append, append_assoc)

any_nacked-concat :
    (h : List (EmailTask × Bool)) (t : EmailTask) (b : Bool)
    → any_nacked (h ++ (t, b) ∷ []) ≡ true
    → (any_nacked h ≡ true) ⊎ (b ≡ false)
any_nacked-concat [] t true e = cc
any_nacked-concat [] t false e = inr refl
any_nacked-concat ((u, true) ∷ h) t b e = any_nacked-concat h t b e
any_nacked-concat ((u, false) ∷ h) t b e = inl refl

module _ (n : ℕ) (l : Loop) (a : IsAccounted n l) where
  taken_idle : l.place ≡ selecting → l.taken ≡ tasks_of l.handled
  taken_idle e = elim a.idle [
    | inl busy ↦ cc
    | inr none_left ↦ a.accounts ∙ ap (λ ts. tasks_of l.handled ++ ts) none_left ∙ append-nil _
  ]

  took :
      (ts : List EmailTask)
      → l.place ≡ selecting
      → IsAccounted n (record l { place = dispatching; pending = ts; taken = l.taken ++ ts })
  took ts e = record {
    bounded = a.bounded;
    size = a.size;
    accounts = ap (λ xs. xs ++ ts) (taken_idle e);
    idle = inl refl;
    nacks = a.nacks;
  }

  handled_next :
      (t : EmailTask) (b : Bool) (ts : List EmailTask)
      → l.pending ≡ t ∷ ts
      → l.taken ≡ tasks_of (l.handled ++ (t, b) ∷ []) ++ ts
  handled_next t b ts p =
      a.accounts ∙ ap (λ xs. tasks_of l.handled ++ xs) p ∙ sym (tasks_of-concat l.handled t b ts)

LoopStep-IsAccounted : (n : ℕ) {l m : Loop} → LoopStep l m → IsAccounted n l → IsAccounted n m
LoopStep-IsAccounted n (receive l t e) a = took n l a (t ∷ []) e
LoopStep-IsAccounted n (claim l ts e) a = took n l a ts e
LoopStep-IsAccounted n (claim_failed l err e) a = a
LoopStep-IsAccounted n (admit l t ts e p room) a =
    let (bounded, size) = launch-IsBounded l.pool room a.bounded in
    record {
      bounded = bounded;
      size = size ∙ a.size;
      accounts = handled_next n l a t true ts p;
      idle = inl e;
      nacks = λ h. elim (any_nacked-concat l.handled t true h) [
        | inl old ↦ a.nacks old
        | inr wrong ↦ cc
      ];
    }
LoopStep-IsAccounted n (turn_away l t ts e p c) a = record {
  bounded = a.bounded;
  size = a.size;
  accounts = handled_next n l a t false ts p;
  idle = inl e;
  nacks = λ h. c;
}
LoopStep-IsAccounted n (resume l e p) a = ground (arith, a.bounded)
LoopStep-IsAccounted n (stop l e h) a = record {
  bounded = a.bounded;
  size = a.size;
  accounts = a.accounts;
  idle = elim a.idle [ inl busy ↦ cc | inr none_left ↦ inr none_left ];
  nacks = a.nacks;
}
LoopStep-IsAccounted n (drained l e h) a = ground (arith, a.bounded)
LoopStep-IsAccounted n (timed_out l e) a = ground (arith, a.bounded)
LoopStep-IsAccounted n (cancel l) a = ground (arith, a.bounded)
LoopStep-IsAccounted n (close l) a = ground (arith, a.bounded)
LoopStep-IsAccounted n (worker l s) a =
    let (bounded, size) = WorkerStep-IsBounded s a.bounded in
    record {
      bounded = bounded;
      size = size ∙ a.size;
      accounts = a.accounts;
      idle = a.idle;
      nacks = a.nacks;
    }

new_loop-IsAccounted : (n : ℕ) → IsAccounted n (new_loop n)
unfolding new_loop new_pool
new_loop-IsAccounted n = ground arith

pub Runs-IsAccounted : {n : ℕ} {l : Loop} → Runs (new_loop n) l → IsAccounted n l
Runs-IsAccounted {n} here = new_loop-IsAccounted n
Runs-IsAccounted {n} (next r s) = LoopStep-IsAccounted n s (Runs-IsAccounted r)

-- In every interleaving of the event loop, the goroutines, the cancellation and the closing of the
-- channel: the tasks that were taken are, in their order, those that dispatch started or nacked and
-- those that are still to be dispatched, so that none is lost or handled twice; away from dispatch
-- none is left; a task is nacked only after the cancellation; and never more than `pool_size` tasks
-- are dispatched or in processing.
pub Runs-accounts :
    (n : ℕ) (l : Loop)
    → Runs (new_loop n) l
    → (l.taken ≡ tasks_of l.handled ++ l.pending)
      × ((l.place ≡ dispatching) ⊎ (l.pending ≡ []))
      × (any_nacked l.handled ≡ true → l.cancelled ≡ true)
      × (l.pool.spawned + l.pool.running ≤ n)
Runs-accounts n l r =
    let a = Runs-IsAccounted r in
    (a.accounts, a.idle, a.nacks, omega (arith, a.bounded.held, a.bounded.room, a.size))

at_dispatch :
    (n : ℕ) (l : Loop) (t : EmailTask) (ts : List EmailTask)
    → IsAccounted n l
    → l.pending ≡ t ∷ ts
    → l.place ≡ dispatching
at_dispatch n l t ts a p = elim a.idle [ inl busy ↦ busy | inr none_left ↦ cc ]

-- Dispatch is never stuck: with a pool of at least one slot, while a task is to be dispatched, it is
-- dispatched now, or a goroutine of the pool has a step to take.
pub Runs-live :
    (n : ℕ) (l : Loop) (t : EmailTask) (ts : List EmailTask)
    → 0 < n
    → Runs (new_loop n) l
    → l.pending ≡ t ∷ ts
    → ((m : Loop) × LoopStep l m × (m.pending ≡ ts)) ⊎ ((q : Pool) × WorkerStep l.pool q)
Runs-live n l t ts some_slot r p =
    let a = Runs-IsAccounted r in
    let pool = l.pool in
    elim (Bool-cases (ltb pool.tokens pool.pool_size)) [
      | inl room ↦ inl (_, admit l t ts (at_dispatch n l t ts a p) p (ltb→lt _ _ room), refl)
      | inr full ↦ inr (
          next-WorkerStep pool pool.running pool.leaving pool.spawned a.bounded refl refl refl
            (ground (arith, full, a.size, a.bounded.held)))
    ]
