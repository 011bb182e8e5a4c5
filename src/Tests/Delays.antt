-- ===== src/Tests/Delays.antt =====
-- A server in memory with the scores of the retry set, and retries on it.
use mathlib.Core.List.{Memᴰ}
use mathlib.Core.Path.{subst}
use qtip_challenge.Base.{
  ℕ, zero, suc, ◌*◌, String, Bool, true, false, Option, none, some, List, [], ◌∷◌, ◌++◌, ◌≡◌, ◌⊎◌,
  inl, inr, refl, sym, arith, eq_iff, str_eq, length, All, Option-cases, Bool-cases, if◌then◌else◌,
}
use qtip_challenge.Base.Int.{ℤ, pos, ◌+ℤ◌, ◌≤ℤ◌, leb_ℤ, eqb_ℤ, div_floor}
use qtip_challenge.Domain.Errors.{GoError, plain}
use qtip_challenge.Domain.Retry.{second}
use qtip_challenge.Redis.Dlq.Laws.{take}
use qtip_challenge.Redis.Idempotency.{unix}
use qtip_challenge.Redis.Retry.{
  retry_delayed_key, Field, Command, xadd, zrem, rpush, expire, SortedSetCommands, schedule_retry,
  flush_ready,
}
use qtip_challenge.Redis.Retry.Laws.{contains, run_all, IsServer, entry_of}
use qtip_challenge.Redis.Retry.Settled.{IsStreamLog}
use qtip_challenge.Redis.Retry.Due.{IsDue, flush_ready-IsDue}
use qtip_challenge.Worker.DelayedScheduler.Moves.{scheduled, ticked, retry_moves_when_due}
use qtip_challenge.Redis.Retry.Delay.{IsSortedSet, removes, value_or}
use qtip_challenge.Tests.Sample.{welcome}
use qtip_challenge.Tests.Queues.{tasks}

pub record Delayed : Type 0 where
  pub members : List (String × ℤ)
  pub streams : List (String × List (String × Field))

abbrev score_in : String → List (String × ℤ) → Option ℤ
score_in m [] = none
score_in m ((x, d) ∷ xs) = let deeper = score_in m xs in if str_eq x m then some d else deeper

abbrev without : List String → List (String × ℤ) → List (String × ℤ)
without ms [] = []
without ms ((x, d) ∷ xs) = let rest = without ms xs in if contains ms x then rest else (x, d) ∷ rest

abbrev is_low : ℤ → List (String × ℤ) → String → Bool
is_low limit set m = elim (score_in m set) [ none ↦ false | some d ↦ leb_ℤ d limit ]

abbrev low_names : ℤ → List (String × ℤ) → List (String × ℤ) → List String
low_names limit set [] = []
low_names limit set ((x, d) ∷ xs) =
    let rest = low_names limit set xs in if is_low limit set x then x ∷ rest else rest

abbrev add_new : ℤ → String → List (String × ℤ) → List (String × ℤ)
add_new score m set = elim (score_in m set) [ none ↦ (m, score) ∷ set | some d ↦ set ]

abbrev run : Command → Delayed → Option GoError × Delayed
run (xadd k f) s = (none, record s { streams = s.streams ++ (k, f) ∷ [] })
run (zrem k ms) s =
    if str_eq k retry_delayed_key
    then (none, record s { members = without ms s.members })
    else (none, s)
run (rpush k v) s = (none, s)
run (expire k ttl) s = (none, s)

-- The read of the members up to 3 times out.
abbrev read_low : ℤ → ℕ → Delayed → Option GoError × List String
read_low limit n s =
    if eqb_ℤ limit (pos 3)
    then (some (plain "i/o timeout"), [])
    else (none, take n (low_names limit s.members s.members))

abbrev delays : SortedSetCommands Delayed
delays = record {
  zadd_nx = λ k score m s. (none, record s { members = add_new score m s.members });
  zrange_by_score = λ k limit n s. (read_low limit n s, s);
  exec = λ cs s. let (es, t) = run_all run cs s in ((es, none), t);
}

score_in-without :
    (ms : List String) (xs : List (String × ℤ)) (m : String)
    → score_in m (without ms xs) ≡ (if contains ms m then none else score_in m xs)
score_in-without ms [] m = ground arith
score_in-without ms ((x, d) ∷ xs) m = ground (arith, eq_iff x m, score_in-without ms xs m)

holds : List (String × ℤ) → String → Bool
holds set m = elim (score_in m set) [ none ↦ false | some d ↦ true ]

contains-without :
    (ms : List String) (xs : List (String × ℤ)) (m : String)
    → holds (without ms xs) m ≡ (if contains ms m then false else holds xs m)
unfolding holds
contains-without ms xs m = ground (arith, score_in-without ms xs m)

delays-IsServer : IsServer delays
unfolding holds
delays-IsServer = record {
  run = run;
  holds = λ m s. holds s.members m;
  appended = λ s. s.streams;
  exec_lem = λ cs s. (refl, refl);
  xadd_lem = λ k f s. inl (refl, refl);
  zrem_holds = λ m ms s. contains-without ms s.members m;
  zrem_appended = λ k ms s. ground arith;
}

add_new-score :
    (score : ℤ) (m : String) (set : List (String × ℤ))
    → score_in m (add_new score m set) ≡ some (value_or score (score_in m set))
add_new-score score m set = elim (Option-cases (score_in m set)) [
  | inl absent ↦ ground (arith, absent, eq_iff m m)
  | inr (d, present) ↦ ground (arith, present)
]

low_names-low :
    (limit : ℤ) (n : ℕ) (set xs : List (String × ℤ)) (m : String)
    → contains (take n (low_names limit set xs)) m ≡ true
    → is_low limit set m ≡ true
low_names-low limit zero set xs m h = cc
low_names-low limit (suc n) set [] m h = cc
low_names-low limit (suc n) set ((x, d) ∷ xs) m h = elim (Bool-cases (is_low limit set x)) [
  | inr high ↦ low_names-low limit (suc n) set xs m (ground (arith, h, high))
  | inl low ↦ elim (Bool-cases (str_eq x m)) [
    | inl same ↦ subst (λ y. is_low limit set y ≡ true) ((eq_iff x m).0 same) low
    | inr other ↦ low_names-low limit n set xs m (ground (arith, h, low, other))
  ]
]

is_low-score :
    (limit : ℤ) (set : List (String × ℤ)) (m : String)
    → is_low limit set m ≡ true
    → (d : ℤ) × (score_in m set ≡ some d) × (d ≤ℤ limit)
is_low-score limit set m h = elim (Option-cases (score_in m set)) [
  | inl absent ↦ absurd (ground (arith, h, absent))
  | inr (d, present) ↦ (d, present, ground (arith, h, present))
]

low_names-all :
    (limit : ℤ) (n : ℕ) (set xs : List (String × ℤ)) (m : String) (d : ℤ)
    → score_in m xs ≡ some d
    → is_low limit set m ≡ true
    → (contains (take n (low_names limit set xs)) m ≡ true)
      ⊎ (length (take n (low_names limit set xs)) ≡ n)
low_names-all limit n set [] m d h low = cc
low_names-all limit zero set (x ∷ xs) m d h low = inr refl
low_names-all limit (suc n) set ((x, e) ∷ xs) m d h low = elim (Bool-cases (str_eq x m)) [
  | inl same ↦
      let here : is_low limit set x ≡ true =
        subst (λ y. is_low limit set y ≡ true) (sym ((eq_iff x m).0 same)) low in
      inl (ground (arith, here, same))
  | inr other ↦ elim (Bool-cases (is_low limit set x)) [
    | inl lower ↦
        ground
          (arith, lower, other, low_names-all limit n set xs m d (ground (arith, h, other)) low)
    | inr high ↦
        ground (arith, high, low_names-all limit (suc n) set xs m d (ground (arith, h, other)) low)
  ]
]

score-low :
    (limit : ℤ) (set : List (String × ℤ)) (m : String) (d : ℤ)
    → score_in m set ≡ some d
    → d ≤ℤ limit
    → is_low limit set m ≡ true
score-low limit set m d h low = ground (arith, h, low)

run-score :
    (c : Command) (m : String) (s : Delayed)
    → score_in m (run c s).1.members ≡ (if removes c m then none else score_in m s.members)
run-score (xadd k f) m s = refl
run-score (zrem k ms) m s = ground (arith, score_in-without ms s.members m)
run-score (rpush k v) m s = refl
run-score (expire k ttl) m s = refl

read_low-low :
    (limit : ℤ) (n : ℕ) (s : Delayed) (m : String)
    → contains (read_low limit n s).1 m ≡ true
    → is_low limit s.members m ≡ true
read_low-low limit n s m h = elim (Bool-cases (eqb_ℤ limit (pos 3))) [
  | inl late ↦ absurd (ground (arith, h, late))
  | inr fine ↦ low_names-low limit n s.members s.members m (ground (arith, fine, h))
]

read_low-all :
    (limit : ℤ) (n : ℕ) (s : Delayed) (m : String) (d : ℤ)
    → (read_low limit n s).0 ≡ none
    → score_in m s.members ≡ some d
    → is_low limit s.members m ≡ true
    → (contains (read_low limit n s).1 m ≡ true) ⊎ (length (read_low limit n s).1 ≡ n)
read_low-all limit n s m d ok h low = elim (Bool-cases (eqb_ℤ limit (pos 3))) [
  | inl late ↦ absurd (ground (arith, ok, late))
  | inr fine ↦ ground (arith, fine, low_names-all limit n s.members s.members m d h low)
]

delays-IsStreamLog : IsStreamLog delays delays-IsServer
unfolding delays-IsServer
delays-IsStreamLog = record { rpush_appended = λ k v s. refl; expire_appended = λ k ttl s. refl }

delays-IsSortedSet : IsSortedSet delays delays-IsServer
unfolding delays-IsServer
delays-IsSortedSet = record {
  due = λ m s. score_in m s.members;
  zadd_lem = λ score m s fine. add_new-score score m s.members;
  zrange_state = λ limit n s. refl;
  zrange_due = λ limit n s m h. is_low-score limit s.members m (read_low-low limit n s m h);
  zrange_all = λ limit n s m d fine h low.
      read_low-all limit n s m d fine h (score-low limit s.members m d h low);
  run_due = run-score;
}

abbrev at_second : ℕ → ℤ
at_second n = pos (n * second)

abbrev one_waits : Delayed
one_waits = record { members = ("t-1", pos 5) ∷ []; streams = [] }

flush_ready-IsDue_example :
    All
      (IsDue delays tasks delays-IsServer delays-IsSortedSet (at_second 6) one_waits)
      (flush_ready delays tasks (pos 60) (at_second 6) one_waits).0.1
flush_ready-IsDue_example =
    flush_ready-IsDue delays tasks delays-IsServer delays-IsSortedSet (pos 60) (at_second 6)
      one_waits

-- Scheduled at second 1 for two seconds later, with ticks at 1, 2, at 3, where the read fails, and 4.
retry_moves_when_due_example :
    let empty : Delayed = record { members = []; streams = [] } in
    let s1 =
      scheduled delays tasks delays-IsServer delays-IsSortedSet
        (at_second 1)
        welcome
        (at_second 2)
        empty in
    let ticked' = ticked delays tasks delays-IsServer delays-IsSortedSet (pos second) (pos 60) in
    let early = at_second 1 ∷ at_second 2 ∷ [] in
    let s2 = ticked' ((early ++ at_second 3 ∷ []) ++ at_second 4 ∷ []) s1 in
    (delays-IsSortedSet.due "t-1" (ticked' early s1) ≡ some (unix (at_second 1 +ℤ at_second 2)))
    × (delays-IsSortedSet.due "t-1" s2 ≡ none)
    × Memᴰ
        (entry_of delays tasks delays-IsServer (λ t. t.id) (λ t. refl) welcome)
        (delays-IsServer.appended s2)
unfolding delays-IsServer delays-IsSortedSet schedule_retry ticked flush_ready div_floor ◌+ℤ◌
retry_moves_when_due_example =
    retry_moves_when_due delays tasks delays-IsServer delays-IsSortedSet delays-IsStreamLog
      (λ t. t.id) (λ t. refl) (λ k f s. refl) (pos second) (pos 60) (at_second 1) (at_second 2)
      (at_second 4) (at_second 1 ∷ at_second 2 ∷ []) (at_second 3 ∷ []) welcome
      (record { members = []; streams = [] }) (omega arith) refl refl refl
      (omega arith, (omega arith, tt)) (omega arith) refl (omega arith)
