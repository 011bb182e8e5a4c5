-- ===== src/Redis/Retry/Delay.antt =====
-- The retry set of internal/adapters/redis/retry_scheduler.go as a delay queue: which members a
-- flush leaves where they are.

use qtip_challenge.Base.{
  ℕ, String, ◌⊎◌, inl, inr, Bool, true, false, ◌&&◌, Option, none, some, List, [], ◌∷◌, ◌++◌, map,
  ◌≡◌, refl, ◌∙◌, ap, arith, All, length, is_empty, str_eq, Bool-cases, Option-cases, if◌then◌else◌,
}
use qtip_challenge.Base.Int.{ℤ, pos, ◌≤ℤ◌, ◌<ℤ◌, ltb_ℤ}
use qtip_challenge.Domain.Errors.{GoError}
use qtip_challenge.Domain.Task.{EmailTask}
use qtip_challenge.Redis.Idempotency.{unix}
use qtip_challenge.Redis.Retry.{
  retry_delayed_key, retry_poison_key, Command, xadd, zrem, rpush, expire, TaskCodec, Parsed,
  parsed, corrupt, SortedSetCommands, parse_members, poison_commands, quarantine_corrupt_members,
  flush_commands, flush_pipeline, flush_tasks, flush_ready,
}
use qtip_challenge.Redis.Retry.Laws.{contains, run_all, IsServer}

-- A ZREM of the retry set that names the member.
abbrev pub removes : Command → String → Bool
removes (zrem k ms) m = str_eq k retry_delayed_key && contains ms m
removes (xadd k f) m = false
removes (rpush k v) m = false
removes (expire k ttl) m = false

abbrev pub value_or {ℓ} : {A : Type ℓ} → A → Option A → A
value_or a none = a
value_or a (some b) = b

-- Documented behaviour of sorted sets: `due` is the score of a member of the retry set. ZADD NX
-- keeps an old score, ZRANGEBYSCORE gives members up to the limit, all of them unless it gives as
-- many as it may, and the commands of a pipeline touch no other member than ZREM names.
pub record IsSortedSet {S : Type 0} (R : SortedSetCommands S) (L : IsServer R) : Type 0 where
  pub due : String → S → Option ℤ
  pub zadd_lem :
      (score : ℤ) (m : String) (s : S)
      → (R.zadd_nx retry_delayed_key score m s).0 ≡ none
      → due m (R.zadd_nx retry_delayed_key score m s).1 ≡ some (value_or score (due m s))
  pub zrange_state :
      (limit : ℤ) (n : ℕ) (s : S) → (R.zrange_by_score retry_delayed_key limit n s).1 ≡ s
  pub zrange_due :
      (limit : ℤ) (n : ℕ) (s : S) (m : String)
      → contains (R.zrange_by_score retry_delayed_key limit n s).0.1 m ≡ true
      → (d : ℤ) × (due m s ≡ some d) × (d ≤ℤ limit)
  pub zrange_all :
      (limit : ℤ) (n : ℕ) (s : S) (m : String) (d : ℤ)
      → (R.zrange_by_score retry_delayed_key limit n s).0.0 ≡ none
      → due m s ≡ some d
      → d ≤ℤ limit
      → (contains (R.zrange_by_score retry_delayed_key limit n s).0.1 m ≡ true)
        ⊎ (length (R.zrange_by_score retry_delayed_key limit n s).0.1 ≡ n)
  pub run_due :
      (c : Command) (m : String) (s : S)
      → due m (L.run c s).1 ≡ (if removes c m then none else due m s)

module _ {S : Type 0} (R : SortedSetCommands S) (J : TaskCodec) (L : IsServer R)
    (D : IsSortedSet R L) where
  run_all_keeps :
      (cs : List Command) (m : String) (s : S)
      → All (λ c. removes c m ≡ false) cs
      → D.due m (run_all L.run cs s).1 ≡ D.due m s
  unfolding run_all
  run_all_keeps [] m s h = refl
  run_all_keeps (c ∷ cs) m s (h, hs) =
      run_all_keeps cs m (L.run c s).1 hs ∙ D.run_due c m s ∙ rw (h)

  exec_keeps :
      (cs : List Command) (m : String) (s : S)
      → All (λ c. removes c m ≡ false) cs
      → D.due m (R.exec cs s).1 ≡ D.due m s
  exec_keeps cs m s h = ap (D.due m) (L.exec_lem cs s).1 ∙ run_all_keeps cs m s h

  pub Parsed-cases :
      (p : Parsed) → ((t : EmailTask) × (p ≡ parsed t)) ⊎ ((e : GoError) × (p ≡ corrupt e))
  Parsed-cases (parsed t) = inl (t, refl)
  Parsed-cases (corrupt e) = inr (e, refl)

  -- Neither the parsed nor the corrupt members are others than those that were read.
  parse_members-fresh :
      (ms : List String) (m : String)
      → contains ms m ≡ false
      → (contains (map (λ x. x.1) (parse_members R J ms).0) m ≡ false)
        × (contains (map (λ x. x.0) (parse_members R J ms).1) m ≡ false)
  unfolding parse_members
  parse_members-fresh [] m h = (refl, refl)
  parse_members-fresh (x ∷ ms) m h = elim (Parsed-cases (J.unmarshal x)) [
    | inl (t, p) ↦ ground (arith, p, parse_members-fresh ms m)
    | inr (e, p) ↦ ground (arith, p, parse_members-fresh ms m)
  ]

  poison_commands-fresh :
      (now : ℤ) (bad : List (String × GoError)) (m : String)
      → contains (map (λ x. x.0) bad) m ≡ false
      → (contains (poison_commands R J now bad).1 m ≡ false)
        × All (λ c. removes c m ≡ false) (poison_commands R J now bad).0
  unfolding poison_commands
  poison_commands-fresh now [] m h = (refl, tt)
  poison_commands-fresh now ((x, e) ∷ bad) m h = ground (arith, h, poison_commands-fresh now bad m)

  All-append :
      (P : Command → Type 0) (xs ys : List Command) → All P xs → All P ys → All P (xs ++ ys)
  All-append P [] ys p q = q
  All-append P (x ∷ xs) ys (p, ps) q = (p, All-append P xs ys ps q)

  flush_commands-fresh :
      (good : List (EmailTask × String)) (m : String)
      → All (λ c. removes c m ≡ false) (map (λ x. x.1) (flush_commands R J good))
  unfolding flush_commands
  flush_commands-fresh [] m = tt
  flush_commands-fresh ((t, x) ∷ good) m = ground (arith, flush_commands-fresh good m)

  zrem-fresh :
      (ms : List String) (m : String)
      → contains ms m ≡ false
      → removes (zrem retry_delayed_key ms) m ≡ false
  zrem-fresh ms m h = rw (h)

  ttl-fresh :
      (b : Bool) (ttl : ℤ) (m : String)
      → All (λ c. removes c m ≡ false) (if b then expire retry_poison_key ttl ∷ [] else [])
  ttl-fresh true ttl m = (refl, tt)
  ttl-fresh false ttl m = tt

  quarantine-keeps :
      (ttl now : ℤ) (bad : List (String × GoError)) (m : String) (s : S)
      → contains (map (λ x. x.0) bad) m ≡ false
      → D.due m (quarantine_corrupt_members R J ttl now bad s) ≡ D.due m s
  unfolding quarantine_corrupt_members
  quarantine-keeps ttl now bad m s h =
      let (commands, to_remove) = poison_commands R J now bad in
      let fresh = poison_commands-fresh now bad m h in
      elim (Bool-cases (is_empty to_remove)) [
        | inl none_left ↦ rw (none_left)
        | inr some_left ↦ rw (some_left) (
            exec_keeps _ m s (
              All-append _ commands _ fresh.1
                (zrem-fresh to_remove m fresh.0, ttl-fresh (ltb_ℤ (pos 0) ttl) ttl m)))
      ]

  flush-keeps :
      (good : List (EmailTask × String)) (m : String) (s : S)
      → contains (map (λ x. x.1) good) m ≡ false
      → D.due m (flush_tasks R J good s).1 ≡ D.due m s
  unfolding flush_tasks
  flush-keeps [] m s h = refl
  flush-keeps (x ∷ good) m s h = exec_keeps (flush_pipeline R J (x ∷ good)) m s (
      All-append _ _ _ (flush_commands-fresh (x ∷ good) m)
        (zrem-fresh (map (λ y. y.1) (x ∷ good)) m h, tt))

  -- A member that is due later is not read.
  not_read :
      (limit d : ℤ) (n : ℕ) (m : String) (s : S)
      → D.due m s ≡ some d
      → limit <ℤ d
      → contains (R.zrange_by_score retry_delayed_key limit n s).0.1 m ≡ false
  not_read limit d n m s waiting later =
      elim (Bool-cases (contains (R.zrange_by_score retry_delayed_key limit n s).0.1 m)) [
        | inr absent ↦ absent
        | inl present ↦
            let (d', at, low) = D.zrange_due limit n s m present in
            let same : d ≡ d' = ground (arith, waiting, at) in
            let low' : d ≤ℤ limit = rw same low in absurd (omega (arith, later, low'))
      ]

  -- The last part of FlushReady, from the members that were read.
  pub handled_keeps :
      (ttl now : ℤ) (ms : List String) (m : String) (s : S)
      → contains ms m ≡ false
      → let (good, bad) = parse_members R J ms in
        D.due m
          (flush_tasks R J good
            (if is_empty bad then s else quarantine_corrupt_members R J ttl now bad s)).1
        ≡ D.due m s
  handled_keeps ttl now ms m s absent =
      let (good, bad) = parse_members R J ms in
      let fresh = parse_members-fresh ms m absent in
      flush-keeps good m _ fresh.0 ∙ elim (Bool-cases (is_empty bad)) [
        | inl clean ↦ rw (clean)
        | inr dirty ↦ rw (dirty) (quarantine-keeps ttl now bad m s fresh.1)
      ]

  -- After a FlushReady, with or without an error, a member of the retry set that is due later than
  -- the second of the clock is in it as before.
  pub flush_ready_waits :
      (ttl now d : ℤ) (m : String) (s : S)
      → D.due m s ≡ some d
      → unix now <ℤ d
      → D.due m (flush_ready R J ttl now s).1 ≡ some d
  unfolding flush_ready
  flush_ready_waits ttl now d m s waiting later =
      let reply = R.zrange_by_score retry_delayed_key (unix now) 100 s in
      let same : D.due m reply.1 ≡ D.due m s = ap (D.due m) (D.zrange_state (unix now) 100 s) in
      elim (Option-cases reply.0.0) [
        | inr (e, failed) ↦ rw (flush_ready, failed) (same ∙ waiting)
        | inl fine ↦
            rw (flush_ready, fine)
              (handled_keeps ttl now reply.0.1 m reply.1
                  (not_read (unix now) d 100 m s waiting later)
                ∙ same
                ∙ waiting)
      ]
