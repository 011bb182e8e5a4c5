-- ===== src/Redis/Retry/Laws.antt =====
-- The pipeline of FlushReady, internal/adapters/redis/retry_scheduler.go, on the retry set and the
-- streams.
use mathlib.Core.List.{append-nil, append_assoc}
use qtip_challenge.Base.{
  String, ◌⊎◌, inl, Bool, true, false, ◌||◌, Option, none, List, [], ◌∷◌, ◌++◌, map, ◌≡◌, refl, sym,
  ◌∙◌, ap, arith, is_some, str_eq, if◌then◌else◌,
}
use qtip_challenge.Domain.Errors.{GoError}
use qtip_challenge.Domain.Priority
use qtip_challenge.Domain.Task.{EmailTask}
use qtip_challenge.Redis.Retry.{
  retry_delayed_key, Field, xadd_values_builder, Command, xadd, zrem, TaskCodec, SortedSetCommands,
  marshal_task_payload, flush_commands, flush_pipeline, flushed_tasks, flush_tasks,
}

abbrev pub contains : List String → String → Bool
contains [] m = false
contains (x ∷ xs) m = str_eq x m || contains xs m

-- The commands of a pipeline run one after the other, also behind one that failed.
unfoldable pub run_all :
    {S : Type 0} → (Command → S → Option GoError × S) → List Command → S → List (Option GoError) × S
run_all run [] s = ([], s)
run_all run (c ∷ cs) s = let (e, s') = run c s in let (es, t) = run_all run cs s' in (e ∷ es, t)

-- Documented behaviour of a pipeline that reaches the server: `holds` says what the retry set
-- holds, `appended` what was added to streams so far. An XADD is carried out or refused, and ZREM
-- removes its members.
pub record IsServer {S : Type 0} (R : SortedSetCommands S) : Type 0 where
  pub run : Command → S → Option GoError × S
  pub holds : String → S → Bool
  pub appended : S → List (String × List (String × Field))
  pub exec_lem :
      (cs : List Command) (s : S)
      → ((R.exec cs s).0.0 ≡ (run_all run cs s).0) × ((R.exec cs s).1 ≡ (run_all run cs s).1)
  pub xadd_lem :
      (k : String) (f : List (String × Field)) (s : S)
      → (((run (xadd k f) s).0 ≡ none)
          × (appended (run (xadd k f) s).1 ≡ appended s ++ (k, f) ∷ []))
        ⊎ ((is_some (run (xadd k f) s).0 ≡ true) × (appended (run (xadd k f) s).1 ≡ appended s))
  pub zrem_holds :
      (m : String) (ms : List String) (s : S)
      → holds m (run (zrem retry_delayed_key ms) s).1 ≡ (if contains ms m then false else holds m s)
  pub zrem_appended :
      (k : String) (ms : List String) (s : S) → appended (run (zrem k ms) s).1 ≡ appended s

module _ {S : Type 0} (R : SortedSetCommands S) (J : TaskCodec) (L : IsServer R) where
  run_all_removes :
      (cs : List Command) (m : String) (ms : List String) (s : S)
      → contains ms m ≡ true
      → L.holds m (run_all L.run (cs ++ zrem retry_delayed_key ms ∷ []) s).1 ≡ false
  unfolding run_all
  run_all_removes [] m ms s h = L.zrem_holds m ms s ∙ rw h
  run_all_removes (c ∷ cs) m ms s h = run_all_removes cs m ms (L.run c s).1 h

  -- On a server that behaves as documented, FlushReady's pipeline takes every parsed member out of
  -- the retry set, whether or not its XADD succeeded.
  flush_tasks_removes :
      (good : List (EmailTask × String)) (m : String) (s : S)
      → contains (map (λ x. x.1) good) m ≡ true
      → L.holds m (flush_tasks R J good s).1 ≡ false
  unfolding flush_tasks
  flush_tasks_removes [] m s h = cc
  flush_tasks_removes (x ∷ good) m s h =
      ap (L.holds m) (L.exec_lem _ s).1 ∙ run_all_removes _ m (map (λ x. x.1) (x ∷ good)) s h

  module _ (text_of : EmailTask → String)
      (marshals : (t : EmailTask) → J.marshal t ≡ inl (text_of t)) where
    -- The stream and the fields that a task is added with.
    abbrev pub entry_of : EmailTask → String × List (String × Field)
    entry_of t = (Priority.queue_name t.priority, xadd_values_builder t (text_of t))

    pub flush_commands-cons :
        (t : EmailTask) (m : String) (good : List (EmailTask × String))
        → flush_commands R J ((t, m) ∷ good)
          ≡ (t, xadd (entry_of t).0 (entry_of t).1) ∷ flush_commands R J good
    unfolding flush_commands marshal_task_payload
    flush_commands-cons t m good = ground (arith, marshals t)

    flush_commands-appends :
        (good : List (EmailTask × String)) (ms : List String) (s : S)
        → let (errors, t) =
            run_all L.run
              (map (λ x. x.1) (flush_commands R J good) ++ zrem retry_delayed_key ms ∷ [])
              s in
          L.appended t
          ≡ L.appended s ++ map entry_of (flushed_tasks R J (flush_commands R J good) errors)
    unfolding run_all flushed_tasks
    flush_commands-appends [] ms s =
        let nothing : flush_commands R J [] ≡ [] = unfold flush_commands in refl in
        rw nothing (L.zrem_appended _ ms s ∙ sym (append-nil _))
    flush_commands-appends ((t, m) ∷ good) ms s =
        let (k, f) = entry_of t in
        let s' = (L.run (xadd k f) s).1 in
        let rest = map entry_of (
          flushed_tasks R J (flush_commands R J good)
            (run_all L.run
              (map (λ x. x.1) (flush_commands R J good) ++ zrem retry_delayed_key ms ∷ []) s').0) in
        rw (flush_commands-cons t m good) (
          ground (
            arith,
            L.xadd_lem k f s,
            flush_commands-appends good ms s',
            append_assoc (L.appended s) ((k, f) ∷ []) rest,
          ))

    -- On a server that behaves as documented, the streams have grown after a flush by exactly the
    -- entries of the tasks that FlushReady reports as flushed, in their order, where every task can
    -- be marshalled.
    pub flush_tasks-appends :
        (good : List (EmailTask × String)) (s : S)
        → let (flushed, t) = flush_tasks R J good s in
          L.appended t ≡ L.appended s ++ map entry_of flushed
    unfolding flush_tasks
    flush_tasks-appends [] s = sym (append-nil _)
    flush_tasks-appends (x ∷ good) s =
        let law = L.exec_lem (flush_pipeline R J (x ∷ good)) s in
        rw (law.0, law.1) (flush_commands-appends (x ∷ good) (map (λ x. x.1) (x ∷ good)) s)
