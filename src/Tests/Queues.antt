-- ===== src/Tests/Queues.antt =====
-- A server in memory with lists, and one with a sorted set and streams that may be full.
use qtip_challenge.Base.{
  suc, String, Bool, true, false, Option, none, some, List, [], ◌∷◌, ◌++◌, ◌≡◌, ◌⊎◌, inl, inr, refl,
  arith, eq_iff, str_eq, length, is_some, if◌then◌else◌,
}
use qtip_challenge.Base.Int.{pos, pos_part}
use qtip_challenge.Domain.Errors.{GoError, plain}
use qtip_challenge.Redis.Dlq.{ListCommands}
use qtip_challenge.Redis.Dlq.Laws.{take, IsLists}
use qtip_challenge.Redis.Retry.{
  retry_delayed_key, Field, Command, xadd, zrem, rpush, expire, SortedSetCommands, TaskCodec,
  parsed, corrupt,
}
use qtip_challenge.Redis.Retry.Laws.{contains, run_all, IsServer}
use qtip_challenge.Tests.Sample.{welcome}

abbrev pub Lists : Type 0
Lists = String → List String

-- LRANGE is for a start of 0 only.
abbrev pub lists : ListCommands Lists
lists = record {
  push = λ k v ttl s. (none, λ j. if str_eq k j then s k ++ v ∷ [] else s j);
  llen = λ k s. ((none, pos (length (s k))), s);
  lrange = λ k start stop s. ((none, take (suc (pos_part stop)) (s k)), s);
}

pub lists-IsLists : IsLists lists (λ k s. s k)
lists-IsLists = record {
  push_lem = λ k v ttl s. inr (λ j. refl);
  llen_keeps = λ k j s. refl;
  lrange_lem = λ k n s. inr refl;
}

-- `full` servers refuse XADD.
pub record RetrySet : Type 0 where
  pub members : List String
  pub streams : List (String × List (String × Field))
  pub full : Bool

abbrev pub remove : List String → List String → List String
remove ms [] = []
remove ms (x ∷ xs) = if contains ms x then remove ms xs else x ∷ remove ms xs

abbrev pub run : Command → RetrySet → Option GoError × RetrySet
run (xadd k f) s =
    if s.full
    then (some (plain "OOM command not allowed"), s)
    else (none, record s { streams = s.streams ++ (k, f) ∷ [] })
run (zrem k ms) s =
    if str_eq k retry_delayed_key
    then (none, record s { members = remove ms s.members })
    else (none, s)
run (rpush k v) s = (none, s)
run (expire k ttl) s = (none, s)

abbrev pub retries : SortedSetCommands RetrySet
retries = record {
  zadd_nx = λ k score m s. (none, record s { members = m ∷ s.members });
  zrange_by_score = λ k limit n s. ((none, take n s.members), s);
  exec = λ cs s. let (es, t) = run_all run cs s in ((es, none), t);
}

contains-remove :
    (ms xs : List String) (m : String)
    → contains (remove ms xs) m ≡ (if contains ms m then false else contains xs m)
contains-remove ms [] m = ground arith
contains-remove ms (x ∷ xs) m = ground (arith, eq_iff x m, contains-remove ms xs m)

xadd_outcome :
    (b : Bool) (k : String) (f : List (String × Field)) (s : RetrySet)
    → s.full ≡ b
    → (((run (xadd k f) s).0 ≡ none) × ((run (xadd k f) s).1.streams ≡ s.streams ++ (k, f) ∷ []))
      ⊎ ((is_some (run (xadd k f) s).0 ≡ true) × ((run (xadd k f) s).1.streams ≡ s.streams))
xadd_outcome true k f s h = ground (arith, h)
xadd_outcome false k f s h = ground (arith, h)

zrem_outcome :
    (k : String) (ms : List String) (s : RetrySet) → (run (zrem k ms) s).1.streams ≡ s.streams
zrem_outcome k ms s = ground arith

pub retries-IsServer : IsServer retries
retries-IsServer = record {
  run = run;
  holds = λ m s. contains s.members m;
  appended = λ s. s.streams;
  exec_lem = λ cs s. (refl, refl);
  xadd_lem = λ k f s. xadd_outcome s.full k f s refl;
  zrem_holds = λ m ms s. contains-remove ms s.members m;
  zrem_appended = zrem_outcome;
}

-- A codec for `welcome`.
abbrev pub tasks : TaskCodec
tasks = record {
  marshal = λ t. inl t.id;
  unmarshal = λ s. if str_eq s "t-1" then parsed welcome else corrupt (plain "invalid character");
  marshal_poison = λ e. inl e.raw_member;
}
