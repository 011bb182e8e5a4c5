-- ===== src/Redis/Poll/Live.antt =====
-- How the poll loop of internal/adapters/redis/consumer.go returns after a cancellation.
use qtip_challenge.Base.{
  ℕ, zero, suc, ◌+◌, ◌≤◌, String, true, List, [], ◌∷◌, ◌≡◌, ◌≢◌, ◌⊎◌, inl, inr, refl, length, arith,
}
use qtip_challenge.Domain.Task.{EmailTask}
use qtip_challenge.Redis.Client.{Cmd}
use qtip_challenge.Redis.Retry.{TaskCodec}
use qtip_challenge.Redis.Consumer.{GroupCommands, Message, task_from_message}
use qtip_challenge.Redis.Poll.{
  Place, checking, reading, forwarding, closed, Poll, LoopStep, stop, go_on, read, forward, abandon,
  skip, again,
}
use qtip_challenge.Redis.Poll.Tasks.{Parsed-cases}

List-cases : {A : Type 0} (xs : List A) → (xs ≡ []) ⊎ ((x : A) × (rest : List A) × (xs ≡ x ∷ rest))
List-cases [] = inl refl
List-cases (x ∷ rest) = inr (x, rest, refl)

-- The steps that are left at most, by the place and the number of messages to be handled.
left_at : Place → ℕ → ℕ
left_at closed n = 0
left_at checking n = 1
left_at reading n = 0
left_at forwarding n = n + 2

left_at-bound : (place : Place) (n : ℕ) → left_at place n ≤ n + 2
unfolding left_at
left_at-bound closed n = omega arith
left_at-bound checking n = omega arith
left_at-bound reading n = omega arith
left_at-bound forwarding n = omega arith

module _ {S : Type 0} (R : GroupCommands S) (J : TaskCodec) (quoted : String → String)
    (group : String) (xreadgroup : S → Cmd (List (String × List Message)) × S) (pool_size : ℕ) where
  -- A run with this many steps of the loop. Between them the receiver of the channel and the other
  -- clients of the server may do anything.
  pub data Counted (p : Poll S) : ℕ → Poll S → Type 0 where
    rests : Counted p 0 p
    own :
        {k : ℕ} {q r : Poll S}
        → Counted p k q
        → LoopStep R J quoted group xreadgroup pool_size q r
        → Counted p (suc k) r
    beside :
        {k : ℕ} {q : Poll S} (channel taken : List EmailTask) (world : S)
        → Counted p k q
        → Counted p k (record q { channel = channel; taken = taken; world = world })

  -- A cancelled loop outside of XREADGROUP, with at most `n` steps left.
  record IsStopping (n : ℕ) (p : Poll S) : Type 0 where
    cancelled : p.cancelled ≡ true
    outside : p.place ≢ reading
    few : left_at p.place (length p.waiting) ≤ n

  closed_outside : closed ≢ reading
  closed_outside e = cc

  checking_outside : checking ≢ reading
  checking_outside e = cc

  pred_of : (k n : ℕ) → suc k ≤ n → (m : ℕ) × (n ≡ suc m) × (k ≤ m)
  pred_of k zero h = absurd (omega (arith, h))
  pred_of k (suc m) h = (m, refl, omega (arith, h))

  -- Fewer steps are left behind a step.
  fewer :
      (k n : ℕ) (q : Poll S)
      → suc k ≤ n
      → q.cancelled ≡ true
      → q.place ≢ reading
      → left_at q.place (length q.waiting) ≤ k
      → (m : ℕ) × (n ≡ suc m) × IsStopping m q
  fewer k n q h c out le =
      let (m, e, low) = pred_of k n h in
      (m, e, record { cancelled = c; outside = out; few = omega (arith, low, le) })

  LoopStep-IsStopping :
      (n : ℕ) {p q : Poll S}
      → LoopStep R J quoted group xreadgroup pool_size p q
      → IsStopping n p
      → (m : ℕ) × (n ≡ suc m) × IsStopping m q
  unfolding left_at
  LoopStep-IsStopping n (stop p at c) s =
      fewer 0 n _ (ground (arith, s.few, at)) c closed_outside (omega arith)
  LoopStep-IsStopping n (go_on p at c) s = absurd (ground (arith, s.cancelled, c))
  LoopStep-IsStopping n (read p reply w at x) s = absurd (s.outside at)
  LoopStep-IsStopping n (forward p key msg rest t at w h room) s =
      fewer (length rest + 2) n _ (ground (arith, s.few, at, w)) s.cancelled s.outside
        (ground (arith, at))
  LoopStep-IsStopping n (abandon p key msg rest t at w h c) s =
      fewer 0 n _ (ground (arith, s.few, at, w)) c closed_outside (omega arith)
  LoopStep-IsStopping n (skip p key msg rest err at w h) s =
      fewer (length rest + 2) n _ (ground (arith, s.few, at, w)) s.cancelled s.outside
        (ground (arith, at))
  LoopStep-IsStopping n (again p at w) s =
      fewer 1 n _ (ground (arith, s.few, at, w)) s.cancelled checking_outside (omega arith)

  Counted-IsStopping :
      (n : ℕ) {p : Poll S} (k : ℕ) {q : Poll S}
      → Counted p k q
      → IsStopping n p
      → (m : ℕ) × (n ≡ k + m) × IsStopping m q
  Counted-IsStopping n k rests s = (n, omega arith, s)
  Counted-IsStopping n _ (own {k} c step) s =
      let (m, e, s') = Counted-IsStopping n k c s in
      let (m', e', s'') = LoopStep-IsStopping m step s' in (m', omega (arith, e, e'), s'')
  Counted-IsStopping n k (beside channel taken world c) s =
      let (m, e, s') = Counted-IsStopping n k c s in
      (m, e, record { cancelled = s'.cancelled; outside = s'.outside; few = s'.few })

  -- A cancelled loop outside of XREADGROUP has returned or has a step to take.
  next_step :
      (p : Poll S) (place : Place)
      → p.place ≡ place
      → place ≢ reading
      → p.cancelled ≡ true
      → (p.place ≡ closed) ⊎ ((q : Poll S) × LoopStep R J quoted group xreadgroup pool_size p q)
  next_step p closed at out c = inl at
  next_step p checking at out c = inr (_, stop p at c)
  next_step p reading at out c = absurd (out refl)
  next_step p forwarding at out c = elim (List-cases p.waiting) [
    | inl done ↦ inr (_, again p at done)
    | inr ((key, msg), rest, w) ↦ elim (Parsed-cases (task_from_message J key msg)) [
      | inr (e, h) ↦ inr (_, skip p key msg rest e at w h)
      | inl (t, h) ↦ inr (_, abandon p key msg rest t at w h c)
    ]
  ]

  -- After a cancellation, from any state in which the loop is not in a call of XREADGROUP, such as
  -- that behind the call that was cut short: whichever cases the selects choose, however full the
  -- channel is, and whatever others do meanwhile, the loop makes no further XREADGROUP and at most two
  -- steps more than it has messages to handle, and until it has returned it has a step to take.
  pub poll_loop_stops :
      (p q : Poll S) (k : ℕ)
      → p.cancelled ≡ true
      → p.place ≢ reading
      → Counted p k q
      → (k ≤ length p.waiting + 2)
        × (q.place ≢ reading)
        × ((q.place ≡ closed) ⊎ ((r : Poll S) × LoopStep R J quoted group xreadgroup pool_size q r))
  unfolding left_at
  poll_loop_stops p q k c out run =
      let bound = left_at-bound p.place (length p.waiting) in
      let (m, e, s) =
        Counted-IsStopping (length p.waiting + 2) k run
          (record { cancelled = c; outside = out; few = bound }) in
      (omega (arith, e), s.outside, next_step q q.place refl s.outside s.cancelled)
