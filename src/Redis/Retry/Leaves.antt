-- ===== src/Redis/Retry/Leaves.antt =====
-- A retry whose time has come: FlushReady of internal/adapters/redis/retry_scheduler.go moves it from
-- the retry set to its stream.
use mathlib.Core.List.{Memᴰ}
use qtip_challenge.Base.{
  ◌<◌, String, inl, inr, true, none, some, List, [], ◌∷◌, ◌++◌, map, ◌≡◌, refl, sym, ◌∙◌, ap, arith,
  length, is_empty, str_eq, eq_iff, Bool-cases, if◌then◌else◌,
}
use qtip_challenge.Base.Int.{ℤ, ◌≤ℤ◌}
use qtip_challenge.Domain.Task.{EmailTask}
use qtip_challenge.Redis.Idempotency.{unix}
use qtip_challenge.Redis.Retry.{
  retry_delayed_key, Field, Command, xadd, zrem, TaskCodec, parsed, SortedSetCommands,
  parse_members, quarantine_corrupt_members, flush_commands, flush_pipeline, flushed_tasks,
  flush_tasks, flush_ready,
}
use qtip_challenge.Redis.Retry.Laws.{
  contains, run_all, IsServer, entry_of, flush_commands-cons, flush_tasks-appends,
}
use qtip_challenge.Redis.Retry.Delay.{IsSortedSet, Parsed-cases}

Memᴰ-append : {A : Type 0} (a : A) (xs ys : List A) → Memᴰ a ys → Memᴰ a (xs ++ ys)
Memᴰ-append a [] ys h = h
Memᴰ-append a (x ∷ xs) ys h = Memᴰ.tail (Memᴰ-append a xs ys h)

Memᴰ-map : {A B : Type 0} (f : A → B) (a : A) (xs : List A) → Memᴰ a xs → Memᴰ (f a) (map f xs)
Memᴰ-map f a [] h = elim h [ ]
Memᴰ-map f a (x ∷ xs) (Memᴰ.head p) = Memᴰ.head (ap f p)
Memᴰ-map f a (x ∷ xs) (Memᴰ.tail h) = Memᴰ.tail (Memᴰ-map f a xs h)

module _ {S : Type 0} (R : SortedSetCommands S) (J : TaskCodec) (L : IsServer R)
    (D : IsSortedSet R L) where
  -- A member that was read and can be parsed is among the parsed ones.
  parse_members-finds :
      (ms : List String) (m : String) (t : EmailTask)
      → contains ms m ≡ true
      → J.unmarshal m ≡ parsed t
      → Memᴰ (t, m) (parse_members R J ms).0
        × (contains (map (λ x. x.1) (parse_members R J ms).0) m ≡ true)
  unfolding parse_members
  parse_members-finds [] m t h p = cc
  parse_members-finds (x ∷ ms) m t h p = elim (Bool-cases (str_eq x m)) [
    | inl same ↦
        let here : x ≡ m = (eq_iff x m).0 same in
        let read : J.unmarshal x ≡ parsed t = ap J.unmarshal here ∙ p in
        rw (parse_members, read) (Memᴰ.head (ap (λ y. (t, y)) (sym here)), ground (arith, same))
    | inr other ↦
        let (there, listed) = parse_members-finds ms m t (ground (arith, h, other)) p in
        elim (Parsed-cases R J L D (J.unmarshal x)) [
          | inl (t', e) ↦ rw (parse_members, e) (Memᴰ.tail there, ground (arith, listed, other))
          | inr (e', e) ↦ rw (parse_members, e) (there, listed)
        ]
  ]

  -- A ZREM at the end of a pipeline takes its members out of the retry set.
  last_removes :
      (cs : List Command) (m : String) (ms : List String) (s : S)
      → contains ms m ≡ true
      → D.due m (run_all L.run (cs ++ zrem retry_delayed_key ms ∷ []) s).1 ≡ none
  unfolding run_all
  last_removes [] m ms s h = D.run_due (zrem retry_delayed_key ms) m s ∙ rw (h)
  last_removes (c ∷ cs) m ms s h = last_removes cs m ms (L.run c s).1 h

  flush_leaves :
      (good : List (EmailTask × String)) (m : String) (s : S)
      → contains (map (λ x. x.1) good) m ≡ true
      → D.due m (flush_tasks R J good s).1 ≡ none
  unfolding flush_tasks
  flush_leaves [] m s h = cc
  flush_leaves (x ∷ good) m s h =
      ap (D.due m) (L.exec_lem _ s).1 ∙ last_removes _ m (map (λ y. y.1) (x ∷ good)) s h

  module _ (text_of : EmailTask → String)
      (marshals : (t : EmailTask) → J.marshal t ≡ inl (text_of t))
      (accepts : (k : String) (f : List (String × Field)) (s : S)
        → (L.run (xadd k f) s).0 ≡ none) where
    -- Where no XADD is refused, every parsed task is flushed.
    flushed_tasks-all :
        (good : List (EmailTask × String)) (ms : List String) (s : S)
        → flushed_tasks R J
            (flush_commands R J good)
            (run_all L.run
              (map (λ x. x.1) (flush_commands R J good) ++ zrem retry_delayed_key ms ∷ [])
              s).0
          ≡ map (λ x. x.0) good
    unfolding run_all flushed_tasks
    flushed_tasks-all [] ms s =
        let nothing : flush_commands R J [] ≡ [] = unfold flush_commands in refl in rw nothing refl
    flushed_tasks-all ((t, m) ∷ good) ms s =
        let (k, f) = entry_of R J L text_of marshals t in
        rw (flush_commands-cons R J L text_of marshals t m good)
          (ground (arith, accepts k f s, flushed_tasks-all good ms (L.run (xadd k f) s).1))

    flush_tasks-all :
        (good : List (EmailTask × String)) (s : S)
        → (flush_tasks R J good s).0 ≡ map (λ x. x.0) good
    unfolding flush_tasks
    flush_tasks-all [] s = refl
    flush_tasks-all (x ∷ good) s =
        ap (flushed_tasks R J (flush_commands R J (x ∷ good)))
          (L.exec_lem (flush_pipeline R J (x ∷ good)) s).0
        ∙ flushed_tasks-all (x ∷ good) (map (λ y. y.1) (x ∷ good)) s

    pub moved :
        (ttl now : ℤ) (ms : List String) (m : String) (t : EmailTask) (s : S)
        → contains ms m ≡ true
        → J.unmarshal m ≡ parsed t
        → let (good, bad) = parse_members R J ms in
          let (flushed, s') =
            flush_tasks R J good
              (if is_empty bad then s else quarantine_corrupt_members R J ttl now bad s) in
          (D.due m s' ≡ none)
          × Memᴰ t flushed
          × Memᴰ (entry_of R J L text_of marshals t) (L.appended s')
    moved ttl now ms m t s present p =
        let (good, bad) = parse_members R J ms in
        let s0 = if is_empty bad then s else quarantine_corrupt_members R J ttl now bad s in
        let (there, listed) = parse_members-finds ms m t present p in
        let flushed : Memᴰ t (flush_tasks R J good s0).0 =
          rw (flush_tasks-all good s0) (Memᴰ-map (λ x. x.0) (t, m) good there) in
        (
          flush_leaves good m s0 listed,
          flushed,
          rw (flush_tasks-appends R J L text_of marshals good s0)
              (Memᴰ-append _ (L.appended s0) _ (Memᴰ-map _ t _ flushed)),
        )

    -- Where every task can be marshalled and no XADD is refused: a FlushReady whose ZRANGEBYSCORE
    -- succeeds and gives fewer than its limit of 100 members takes a readable member whose score the
    -- clock has reached out of the retry set, reports its task as flushed, and the entry of the task
    -- is in the streams.
    pub flush_ready_moves :
        (ttl now d : ℤ) (m : String) (t : EmailTask) (s : S)
        → D.due m s ≡ some d
        → d ≤ℤ unix now
        → J.unmarshal m ≡ parsed t
        → (R.zrange_by_score retry_delayed_key (unix now) 100 s).0.0 ≡ none
        → length (R.zrange_by_score retry_delayed_key (unix now) 100 s).0.1 < 100
        → let ((_, flushed), s') = flush_ready R J ttl now s in
          (D.due m s' ≡ none)
          × Memᴰ t flushed
          × Memᴰ (entry_of R J L text_of marshals t) (L.appended s')
    unfolding flush_ready
    flush_ready_moves ttl now d m t s waiting reached p fine few =
        elim (D.zrange_all (unix now) 100 s m d fine waiting reached) [
          | inl present ↦ rw (flush_ready, fine) (moved ttl now _ m t _ present p)
          | inr full ↦ absurd (omega (arith, few, full))
        ]
