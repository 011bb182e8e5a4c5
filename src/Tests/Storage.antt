-- ===== src/Tests/Storage.antt =====
-- The dead-letter queue and the retry set on the servers in memory.
use qtip_challenge.Base.{
  none, some, true, false, [], ◌∷◌, ◌++◌, map, ◌≡◌, ◌⊎◌, inl, inr, refl, arith, str_eq, eq_iff,
  is_some, if◌then◌else◌,
}
use qtip_challenge.Base.Int.{pos}
use qtip_challenge.Domain.Errors.{plain}
use qtip_challenge.Domain.Task.{DlqEntry}
use qtip_challenge.Redis.Dlq.{EntryCodec, dlq_key, send_to_dlq, list_dlq}
use qtip_challenge.Redis.Dlq.Laws.{take, Queued, send_to_dlq-Queued, list_dlq-Queued}
use qtip_challenge.Redis.Retry.{flush_tasks}
use qtip_challenge.Redis.Retry.Laws.{entry_of, flush_tasks-appends}
use qtip_challenge.Worker.DlqMonitor.{parse_dlq_key}
use qtip_challenge.Worker.DlqMonitor.Keys.{parse_dlq_key-dlq_key}
use qtip_challenge.Tests.Sample.{welcome}
use qtip_challenge.Tests.Queues.{
  Lists, lists, lists-IsLists, RetrySet, retries, retries-IsServer, tasks,
}

abbrev dead : DlqEntry
dead = record {
  task = welcome;
  dead_at = pos 0;
  failure_reason = "max_attempts_exceeded";
  final_error = "sendgrid: server error 503: ";
  attempt_history = [];
}

-- A codec for entries like `dead`.
abbrev entries : EntryCodec
entries = record {
  marshal = λ e. inl e.task.id;
  unmarshal = λ s. if str_eq s "t-1" then inl dead else inr (plain "invalid character");
}

abbrev none_queued : Lists
none_queued k = []

abbrev one_queued : Lists
one_queued k = "t-1" ∷ []

send_to_dlq-Queued_example :
    Queued lists entries
      (λ k s. s k)
      lists-IsLists
      "acme"
      "registration"
      (dead ∷ dead ∷ [])
      (send_to_dlq lists entries (pos 60) dead one_queued).1
unfolding send_to_dlq
send_to_dlq-Queued_example =
    send_to_dlq-Queued lists entries (λ k s. s k) lists-IsLists (pos 60) dead (dead ∷ []) "t-1"
      one_queued refl refl (refl, tt) refl

list_dlq-Queued_example :
    ((list_dlq lists entries "acme" "registration" (pos 5) one_queued).0
      ≡ (none, take 5 (dead ∷ [])))
    ⊎ (is_some (list_dlq lists entries "acme" "registration" (pos 5) one_queued).0.0 ≡ true)
list_dlq-Queued_example =
    list_dlq-Queued lists entries (λ k s. s k) lists-IsLists "acme" "registration" (dead ∷ []) 4
      one_queued (refl, tt)

abbrev due : RetrySet
due = record { members = "t-1" ∷ []; streams = []; full = true }

flush_tasks-appends_example :
    let s = record due { full = false } in
    let (flushed, t) = flush_tasks retries tasks ((welcome, "t-1") ∷ []) s in
    retries-IsServer.appended t
    ≡ retries-IsServer.appended s
      ++ map (entry_of retries tasks retries-IsServer (λ t. t.id) (λ t. refl)) flushed
flush_tasks-appends_example =
    flush_tasks-appends retries tasks retries-IsServer (λ t. t.id) (λ t. refl)
      ((welcome, "t-1") ∷ []) (record due { full = false })

parse_dlq_key-dlq_key_example :
    parse_dlq_key (dlq_key "acme" "registration") ≡ some ("acme", "registration")
parse_dlq_key-dlq_key_example =
    parse_dlq_key-dlq_key "acme" "registration" (λ e. ground (arith, eq_iff "acme" "", e))
      (λ e. ground (arith, eq_iff "registration" "", e))
      (omega arith, (omega arith, (omega arith, (omega arith, tt))))
