-- ===== src/Redis/Retry/Due.antt =====
-- What a flush of internal/adapters/redis/retry_scheduler.go moves to the streams.

use qtip_challenge.Base.{
  String, ◌⊎◌, inl, inr, true, Option, none, some, List, [], ◌∷◌, ◌≡◌, refl, arith, All, eq_iff,
  Option-cases,
}
use qtip_challenge.Base.Int.{ℤ, ◌≤ℤ◌}
use qtip_challenge.Domain.Errors.{GoError}
use qtip_challenge.Domain.Task.{EmailTask}
use qtip_challenge.Redis.Idempotency.{unix}
use qtip_challenge.Redis.Retry.{
  retry_delayed_key, Command, TaskCodec, parsed, SortedSetCommands, marshal_task_payload,
  parse_members, flush_commands, flushed_tasks, flush_tasks, flush_ready,
}
use qtip_challenge.Redis.Retry.Laws.{contains, IsServer}
use qtip_challenge.Redis.Retry.Delay.{IsSortedSet, Parsed-cases}

Payload-cases :
    (x : String ⊎ GoError) → ((s : String) × (x ≡ inl s)) ⊎ ((e : GoError) × (x ≡ inr e))
Payload-cases (inl s) = inl (s, refl)
Payload-cases (inr e) = inr (e, refl)

module _ {S : Type 0} (R : SortedSetCommands S) (J : TaskCodec) (L : IsServer R)
    (D : IsSortedSet R L) where
  -- The task of a member of the retry set that is due.
  pub record IsDue (now : ℤ) (s : S) (t : EmailTask) : Type 0 where
    pub member : String
    pub at : ℤ
    pub scored : D.due member s ≡ some at
    pub reached : at ≤ℤ unix now
    pub read_as : J.unmarshal member ≡ parsed t

  -- Every parsed task comes from a member.
  parse_members_sound :
      (P : EmailTask → Type 0) (ms : List String)
      → ((m : String) (t : EmailTask) → contains ms m ≡ true → J.unmarshal m ≡ parsed t → P t)
      → All (λ x. P x.0) (parse_members R J ms).0
  unfolding parse_members
  parse_members_sound P [] h = tt
  parse_members_sound P (x ∷ ms) h =
      let rest = parse_members_sound P ms (λ m t c p. h m t (ground (arith, c)) p) in
      elim (Parsed-cases R J L D (J.unmarshal x)) [
        | inl (t, p) ↦ rw (parse_members, p) (h x t (ground (arith, eq_iff x x)) p, rest)
        | inr (e, p) ↦ rw (parse_members, p) rest
      ]

  flush_commands-All :
      (P : EmailTask → Type 0) (good : List (EmailTask × String))
      → All (λ x. P x.0) good
      → All (λ x. P x.0) (flush_commands R J good)
  unfolding flush_commands
  flush_commands-All P [] h = tt
  flush_commands-All P ((t, m) ∷ good) (h, hs) = elim (Payload-cases (marshal_task_payload J t)) [
    | inl (payload, e) ↦ rw (flush_commands, e) (h, flush_commands-All P good hs)
    | inr (x, e) ↦ rw (flush_commands, e) (flush_commands-All P good hs)
  ]

  flushed_tasks-All :
      (P : EmailTask → Type 0) (cs : List (EmailTask × Command)) (errors : List (Option GoError))
      → All (λ x. P x.0) cs
      → All P (flushed_tasks R J cs errors)
  unfolding flushed_tasks
  flushed_tasks-All P [] errors h = tt
  flushed_tasks-All P (c ∷ cs) [] h = tt
  flushed_tasks-All P (c ∷ cs) (none ∷ errors) (h, hs) = (h, flushed_tasks-All P cs errors hs)
  flushed_tasks-All P (c ∷ cs) (some e ∷ errors) (h, hs) = flushed_tasks-All P cs errors hs

  flush_tasks-All :
      (P : EmailTask → Type 0) (good : List (EmailTask × String)) (s : S)
      → All (λ x. P x.0) good
      → All P (flush_tasks R J good s).0
  unfolding flush_tasks
  flush_tasks-All P [] s h = tt
  flush_tasks-All P (x ∷ good) s h = flushed_tasks-All P _ _ (flush_commands-All P (x ∷ good) h)

  -- Each task that FlushReady reports as flushed was parsed from a member of the retry set whose
  -- score is at most the second of the clock: no retry leaves before its time.
  pub flush_ready-IsDue : (ttl now : ℤ) (s : S) → All (IsDue now s) (flush_ready R J ttl now s).0.1
  unfolding flush_ready
  flush_ready-IsDue ttl now s =
      let reply = R.zrange_by_score retry_delayed_key (unix now) 100 s in
      elim (Option-cases reply.0.0) [
        | inr (e, failed) ↦ rw (flush_ready, failed) tt
        | inl fine ↦
            rw (flush_ready, fine)
              (flush_tasks-All (IsDue now s) (parse_members R J reply.0.1).0 _ (
                parse_members_sound (IsDue now s) reply.0.1 (λ m t present p.
                  let (d, scored, reached) = D.zrange_due (unix now) 100 s m present in
                  record { member = m; at = d; scored = scored; reached = reached; read_as = p })))
      ]
