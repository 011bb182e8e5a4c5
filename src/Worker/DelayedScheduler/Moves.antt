-- ===== src/Worker/DelayedScheduler/Moves.antt =====
-- A retry from RedisRetryScheduler.ScheduleRetry, internal/adapters/redis/retry_scheduler.go, to its
-- stream through the ticks of internal/worker/delayed_scheduler.go.
use mathlib.Core.List.{Memᴰ}
use mathlib.Core.Path.{subst}
use qtip_challenge.Base.{
  ◌<◌, String, inl, inr, Option, none, some, List, [], ◌∷◌, ◌++◌, map, ◌≡◌, refl, sym, ◌∙◌, ap,
  arith, All, length, Option-cases,
}
use qtip_challenge.Base.Int.{ℤ, pos, ◌+ℤ◌, ◌≤ℤ◌, ◌<ℤ◌}
use qtip_challenge.Domain.Errors.{GoError}
use qtip_challenge.Domain.Task.{EmailTask}
use qtip_challenge.Redis.Idempotency.{unix}
use qtip_challenge.Redis.Retry.{
  retry_delayed_key, Field, xadd, TaskCodec, parsed, SortedSetCommands, schedule_retry, flush_ready,
}
use qtip_challenge.Redis.Retry.Laws.{IsServer, entry_of}
use qtip_challenge.Redis.Retry.Delay.{IsSortedSet, flush_ready_waits}
use qtip_challenge.Redis.Retry.Settled.{
  IsStreamLog, IsSettled, flush_ready-IsSettled, flush_ready_settles,
}
use qtip_challenge.Worker.Ticker.{Wake, tick, cancelled, new_ticker}
use qtip_challenge.Worker.DelayedScheduler.{flush_loop, run}

module _ {S : Type 0} (R : SortedSetCommands S) (J : TaskCodec) (L : IsServer R)
    (D : IsSortedSet R L) where
  -- A wake before the second `at`.
  abbrev pub IsEarly : ℤ → Wake → Type 0
  IsEarly at (tick now) = unix now <ℤ at
  IsEarly at cancelled = Unit

  flush_loop_waits :
      (ttl at : ℤ) (m : String) (wakes : List Wake) (s : S)
      → D.due m s ≡ some at
      → All (IsEarly at) wakes
      → D.due m (flush_loop (flush_ready R J ttl) wakes s).1 ≡ some at
  unfolding flush_loop
  flush_loop_waits ttl at m [] s scored early = scored
  flush_loop_waits ttl at m (cancelled ∷ wakes) s scored early = scored
  flush_loop_waits ttl at m (tick now ∷ wakes) s scored (e, early) =
      flush_loop_waits ttl at m wakes (flush_ready R J ttl now s).1
        (flush_ready_waits R J L D ttl now at m s scored e) early

  -- A loop that was not cancelled goes on with the next tick.
  flush_loop-append :
      (ttl late : ℤ) (ticks : List ℤ) (s : S)
      → (flush_loop (flush_ready R J ttl) (map tick (ticks ++ late ∷ [])) s).1
        ≡ (flush_ready R J ttl late (flush_loop (flush_ready R J ttl) (map tick ticks) s).1).1
  unfolding flush_loop
  flush_loop-append ttl late [] s = refl
  flush_loop-append ttl late (now ∷ ticks) s =
      flush_loop-append ttl late ticks (flush_ready R J ttl now s).1

  -- ScheduleRetry without an error has put the task into the retry set, to be due after the delay.
  schedule_retry-due :
      (now delay : ℤ) (t : EmailTask) (m : String) (s : S)
      → J.marshal t ≡ inl m
      → (schedule_retry R J now t delay s).0 ≡ none
      → D.due m s ≡ none
      → D.due m (schedule_retry R J now t delay s).1 ≡ some (unix (now +ℤ delay))
  unfolding schedule_retry
  schedule_retry-due now delay t m s written fine absent =
      let added = R.zadd_nx retry_delayed_key (unix (now +ℤ delay)) m s in
      elim (Option-cases added.0) [
        | inl ok ↦ rw (schedule_retry, written, ok) (D.zadd_lem _ m s ok ∙ rw (absent) refl)
        | inr (e, failed) ↦ absurd (ground (arith, fine, written, failed))
      ]

  new_ticker_positive : (interval : ℤ) → pos 0 <ℤ interval → new_ticker interval ≡ none
  unfolding new_ticker
  new_ticker_positive interval h = ground (arith, h)

  tick-IsEarly :
      (at : ℤ) (ticks : List ℤ)
      → All (λ now. unix now <ℤ at) ticks
      → All (IsEarly at) (map tick ticks)
  tick-IsEarly at [] h = tt
  tick-IsEarly at (now ∷ ticks) (h, hs) = (h, tick-IsEarly at ticks hs)

  -- The store after a ScheduleRetry, and after the ticks of a scheduler.
  abbrev pub scheduled : ℤ → EmailTask → ℤ → S → S
  scheduled now t delay s = (schedule_retry R J now t delay s).1

  unfoldable pub ticked : ℤ → ℤ → List ℤ → S → S
  unfolding run
  ticked interval ttl ticks s = (run (flush_ready R J ttl) interval (map tick ticks) s).1

  abbrev pub read_at : ℤ → S → Option GoError × List String
  read_at late s = (R.zrange_by_score retry_delayed_key (unix late) 100 s).0

  ticked-flush_loop :
      (interval ttl : ℤ) (ticks : List ℤ) (s : S)
      → pos 0 <ℤ interval
      → ticked interval ttl ticks s ≡ (flush_loop (flush_ready R J ttl) (map tick ticks) s).1
  unfolding run ticked
  ticked-flush_loop interval ttl ticks s positive =
      rw (ticked, run, new_ticker_positive interval positive) refl

  ticked_waits :
      (interval ttl at : ℤ) (m : String) (ticks : List ℤ) (s : S)
      → pos 0 <ℤ interval
      → D.due m s ≡ some at
      → All (λ c. unix c <ℤ at) ticks
      → D.due m (ticked interval ttl ticks s) ≡ some at
  ticked_waits interval ttl at m ticks s positive scored early =
      ap (D.due m) (ticked-flush_loop interval ttl ticks s positive)
      ∙ flush_loop_waits ttl at m (map tick ticks) s scored (tick-IsEarly at ticks early)

  ticked-append :
      (interval ttl late : ℤ) (ticks : List ℤ) (s : S)
      → pos 0 <ℤ interval
      → ticked interval ttl (ticks ++ late ∷ []) s
        ≡ (flush_ready R J ttl late (ticked interval ttl ticks s)).1
  ticked-append interval ttl late ticks s positive =
      ticked-flush_loop interval ttl (ticks ++ late ∷ []) s positive
      ∙ flush_loop-append ttl late ticks s
      ∙ ap (λ x. (flush_ready R J ttl late x).1)
          (sym (ticked-flush_loop interval ttl ticks s positive))

  module _ (G : IsStreamLog R L) (text_of : EmailTask → String)
      (marshals : (t : EmailTask) → J.marshal t ≡ inl (text_of t))
      (accepts : (k : String) (f : List (String × Field)) (s : S)
        → (L.run (xadd k f) s).0 ≡ none) where
    flush_loop-IsSettled :
        (at ttl : ℤ) (m : String) (t : EmailTask) (ticks : List ℤ) (s : S)
        → J.unmarshal m ≡ parsed t
        → IsSettled R J L D G text_of marshals accepts at m t s
        → IsSettled R J L D G text_of marshals accepts at m t
            (flush_loop (flush_ready R J ttl) (map tick ticks) s).1
    unfolding flush_loop
    flush_loop-IsSettled at ttl m t [] s p h = h
    flush_loop-IsSettled at ttl m t (now ∷ ticks) s p h =
        flush_loop-IsSettled at ttl m t ticks (flush_ready R J ttl now s).1 p
          (flush_ready-IsSettled R J L D G text_of marshals accepts at ttl now m t s p h)

    -- Where every task can be marshalled, this one is read back, no XADD is refused, and the ticker's
    -- interval is positive: a task that ScheduleRetry put into a retry set without it stays there
    -- through every tick before the second of its due time. Then any ticks may follow, with reads that
    -- fail or give as many members as they may. After the next tick at or behind its due time whose
    -- ZRANGEBYSCORE succeeds with fewer than 100 members, it is not in the retry set, and its entry is
    -- in the streams.
    pub retry_moves_when_due :
        (interval ttl now delay late : ℤ) (early more : List ℤ) (t : EmailTask) (s : S)
        → pos 0 <ℤ interval
        → J.unmarshal (text_of t) ≡ parsed t
        → D.due (text_of t) s ≡ none
        → (schedule_retry R J now t delay s).0 ≡ none
        → All (λ c. unix c <ℤ unix (now +ℤ delay)) early
        → unix (now +ℤ delay) ≤ℤ unix late
        → (read_at late (ticked interval ttl (early ++ more) (scheduled now t delay s))).0 ≡ none
        → length (read_at late (ticked interval ttl (early ++ more) (scheduled now t delay s))).1
          < 100
        → let s1 = scheduled now t delay s in
          let s2 = ticked interval ttl ((early ++ more) ++ late ∷ []) s1 in
          (D.due (text_of t) (ticked interval ttl early s1) ≡ some (unix (now +ℤ delay)))
          × (D.due (text_of t) s2 ≡ none)
          × Memᴰ (entry_of R J L text_of marshals t) (L.appended s2)
    retry_moves_when_due interval ttl now delay late early more t s positive read absent
          fine_schedule before reached fine few =
        let m = text_of t in
        let at = unix (now +ℤ delay) in
        let s1 = scheduled now t delay s in
        let ticks = early ++ more in
        let scored = schedule_retry-due now delay t m s (marshals t) fine_schedule absent in
        let settled =
          subst (λ w. IsSettled R J L D G text_of marshals accepts at m t w)
            (sym (ticked-flush_loop interval ttl ticks s1 positive))
            (flush_loop-IsSettled at ttl m t ticks s1 read (inl scored)) in
        let gone =
          flush_ready_settles R J L D G text_of marshals accepts at ttl late m t
            (ticked interval ttl ticks s1) read settled reached fine few in
        let step = ticked-append interval ttl late ticks s1 positive in
        (
          ticked_waits interval ttl at m early s1 positive scored before,
          ap (D.due m) step ∙ gone.absent,
          subst (λ x. Memᴰ (entry_of R J L text_of marshals t) (L.appended x)) (sym step)
              gone.present,
        )
