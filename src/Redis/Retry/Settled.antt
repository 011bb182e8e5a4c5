-- ===== src/Redis/Retry/Settled.antt =====
-- A retry over several flushes of internal/adapters/redis/retry_scheduler.go: it is in the retry set as
-- scheduled, or in its stream.
use mathlib.Core.List.{Memᴰ}
use mathlib.Core.Path.{subst}
use qtip_challenge.Base.{
  ◌<◌, String, ◌⊎◌, inl, inr, Bool, true, false, Option, none, some, List, [], ◌∷◌, ◌++◌, ◌≡◌, refl,
  sym, ◌∙◌, ap, length, is_empty, Bool-cases, Option-cases, if◌then◌else◌,
}
use qtip_challenge.Base.Int.{ℤ, ◌≤ℤ◌}
use qtip_challenge.Domain.Errors.{GoError}
use qtip_challenge.Domain.Task.{EmailTask}
use qtip_challenge.Redis.Idempotency.{unix}
use qtip_challenge.Redis.Retry.{
  retry_delayed_key, Field, Command, xadd, zrem, rpush, expire, TaskCodec, parsed,
  SortedSetCommands, parse_members, quarantine_corrupt_members, poison_commands, flush_pipeline,
  flush_tasks, flush_ready,
}
use qtip_challenge.Redis.Retry.Laws.{contains, run_all, IsServer, entry_of}
use qtip_challenge.Redis.Retry.Delay.{IsSortedSet, removes, handled_keeps}
use qtip_challenge.Redis.Retry.Leaves.{moved, flush_ready_moves}

Memᴰ-left : {A : Type 0} (a : A) (xs ys : List A) → Memᴰ a xs → Memᴰ a (xs ++ ys)
Memᴰ-left a [] ys h = elim h [ ]
Memᴰ-left a (x ∷ xs) ys (Memᴰ.head p) = Memᴰ.head p
Memᴰ-left a (x ∷ xs) ys (Memᴰ.tail h) = Memᴰ.tail (Memᴰ-left a xs ys h)

-- Documented behaviour of RPUSH and EXPIRE: they add nothing to a stream.
pub record IsStreamLog {S : Type 0} (R : SortedSetCommands S) (L : IsServer R) : Type 0 where
  pub rpush_appended : (k v : String) (s : S) → L.appended (L.run (rpush k v) s).1 ≡ L.appended s
  pub expire_appended :
      (k : String) (ttl : ℤ) (s : S) → L.appended (L.run (expire k ttl) s).1 ≡ L.appended s

module _ {S : Type 0} (R : SortedSetCommands S) (J : TaskCodec) (L : IsServer R)
    (D : IsSortedSet R L) (G : IsStreamLog R L) where
  -- The member is not in the retry set, and the entry is in the streams.
  pub record IsGone (m : String) (x : String × List (String × Field)) (s : S) : Type 0 where
    pub absent : D.due m s ≡ none
    pub present : Memᴰ x (L.appended s)

  run_grows :
      (x : String × List (String × Field)) (c : Command) (s : S)
      → Memᴰ x (L.appended s)
      → Memᴰ x (L.appended (L.run c s).1)
  run_grows x (xadd k f) s h = elim (L.xadd_lem k f s) [
    | inl (fine, longer) ↦ subst (λ ys. Memᴰ x ys) (sym longer) (Memᴰ-left x (L.appended s) _ h)
    | inr (failed, same) ↦ subst (λ ys. Memᴰ x ys) (sym same) h
  ]
  run_grows x (zrem k ms) s h = subst (λ ys. Memᴰ x ys) (sym (L.zrem_appended k ms s)) h
  run_grows x (rpush k v) s h = subst (λ ys. Memᴰ x ys) (sym (G.rpush_appended k v s)) h
  run_grows x (expire k ttl) s h = subst (λ ys. Memᴰ x ys) (sym (G.expire_appended k ttl s)) h

  no_score : (b : Bool) (d : Option ℤ) → d ≡ none → (if b then none else d) ≡ none
  no_score true d h = refl
  no_score false d h = h

  run_all-IsGone :
      (m : String) (x : String × List (String × Field)) (cs : List Command) (s : S)
      → IsGone m x s
      → IsGone m x (run_all L.run cs s).1
  unfolding run_all
  run_all-IsGone m x [] s g = g
  run_all-IsGone m x (c ∷ cs) s g = run_all-IsGone m x cs (L.run c s).1 (record {
    absent = D.run_due c m s ∙ no_score (removes c m) (D.due m s) g.absent;
    present = run_grows x c s g.present;
  })

  exec-IsGone :
      (m : String) (x : String × List (String × Field)) (cs : List Command) (s : S)
      → IsGone m x s
      → IsGone m x (R.exec cs s).1
  exec-IsGone m x cs s g =
      subst (λ w. IsGone m x w) (sym (L.exec_lem cs s).1) (run_all-IsGone m x cs s g)

  quarantine-IsGone :
      (m : String) (x : String × List (String × Field)) (ttl now : ℤ)
      (bad : List (String × GoError)) (s : S)
      → IsGone m x s
      → IsGone m x (quarantine_corrupt_members R J ttl now bad s)
  unfolding quarantine_corrupt_members
  quarantine-IsGone m x ttl now bad s g =
      elim (Bool-cases (is_empty (poison_commands R J now bad).1)) [
        | inl nothing ↦ rw (nothing) g
        | inr something ↦ rw (something) (exec-IsGone m x _ s g)
      ]

  flush_tasks-IsGone :
      (m : String) (x : String × List (String × Field)) (good : List (EmailTask × String)) (s : S)
      → IsGone m x s
      → IsGone m x (flush_tasks R J good s).1
  unfolding flush_tasks
  flush_tasks-IsGone m x [] s g = g
  flush_tasks-IsGone m x (y ∷ good) s g = exec-IsGone m x (flush_pipeline R J (y ∷ good)) s g

  unread :
      (m : String) (x : String × List (String × Field)) (now : ℤ) (s : S)
      → IsGone m x s
      → IsGone m x (R.zrange_by_score retry_delayed_key (unix now) 100 s).1
  unread m x now s g = subst (λ w. IsGone m x w) (sym (D.zrange_state (unix now) 100 s)) g

  -- No flush takes a task back.
  flush_ready-IsGone :
      (m : String) (x : String × List (String × Field)) (ttl now : ℤ) (s : S)
      → IsGone m x s
      → IsGone m x (flush_ready R J ttl now s).1
  unfolding flush_ready
  flush_ready-IsGone m x ttl now s g =
      let reply = R.zrange_by_score retry_delayed_key (unix now) 100 s in
      let g' = unread m x now s g in
      let (good, bad) = parse_members R J reply.0.1 in
      elim (Option-cases reply.0.0) [
        | inr (e, failed) ↦ rw (flush_ready, failed) g'
        | inl fine ↦ elim (Bool-cases (is_empty bad)) [
          | inl clean ↦ rw (flush_ready, fine, clean) (flush_tasks-IsGone m x good _ g')
          | inr dirty ↦
              rw (flush_ready, fine, dirty)
                (flush_tasks-IsGone m x good _ (quarantine-IsGone m x ttl now bad _ g'))
        ]
      ]

  module _ (text_of : EmailTask → String)
      (marshals : (t : EmailTask) → J.marshal t ≡ inl (text_of t))
      (accepts : (k : String) (f : List (String × Field)) (s : S)
        → (L.run (xadd k f) s).0 ≡ none) where
    -- In the retry set with its score, or in the streams.
    abbrev pub IsSettled : ℤ → String → EmailTask → S → Type 0
    IsSettled at m t s = (D.due m s ≡ some at) ⊎ IsGone m (entry_of R J L text_of marshals t) s

    -- A flush at any time leaves a readable member as it was scheduled, or moves it.
    pub flush_ready-IsSettled :
        (at ttl now : ℤ) (m : String) (t : EmailTask) (s : S)
        → J.unmarshal m ≡ parsed t
        → IsSettled at m t s
        → IsSettled at m t (flush_ready R J ttl now s).1
    unfolding flush_ready
    flush_ready-IsSettled at ttl now m t s p (inr g) = inr (flush_ready-IsGone m _ ttl now s g)
    flush_ready-IsSettled at ttl now m t s p (inl scored) =
        let reply = R.zrange_by_score retry_delayed_key (unix now) 100 s in
        let same = ap (D.due m) (D.zrange_state (unix now) 100 s) ∙ scored in
        elim (Option-cases reply.0.0) [
          | inr (e, failed) ↦ rw (flush_ready, failed) (inl same)
          | inl fine ↦ elim (Bool-cases (contains reply.0.1 m)) [
            | inl present ↦
                let (gone, _, there) =
                  moved R J L D text_of marshals accepts ttl now reply.0.1 m t reply.1 present p in
                rw (flush_ready, fine) (inr (record { absent = gone; present = there }))
            | inr absent ↦
                rw (flush_ready, fine)
                  (inl (handled_keeps R J L D ttl now reply.0.1 m reply.1 absent ∙ same))
          ]
        ]

    -- A flush at or behind the score, with a successful and not full read, leaves it in the streams.
    pub flush_ready_settles :
        (at ttl now : ℤ) (m : String) (t : EmailTask) (s : S)
        → J.unmarshal m ≡ parsed t
        → IsSettled at m t s
        → at ≤ℤ unix now
        → (R.zrange_by_score retry_delayed_key (unix now) 100 s).0.0 ≡ none
        → length (R.zrange_by_score retry_delayed_key (unix now) 100 s).0.1 < 100
        → IsGone m (entry_of R J L text_of marshals t) (flush_ready R J ttl now s).1
    flush_ready_settles at ttl now m t s p (inr g) reached fine few =
        flush_ready-IsGone m _ ttl now s g
    flush_ready_settles at ttl now m t s p (inl scored) reached fine few =
        let (gone, _, there) =
          flush_ready_moves R J L D text_of marshals accepts ttl now at m t s scored reached p fine
            few in
        record { absent = gone; present = there }
