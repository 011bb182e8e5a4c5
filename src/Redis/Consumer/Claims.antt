-- ===== src/Redis/Consumer/Claims.antt =====
-- ClaimStale of internal/adapters/redis/consumer.go against the messages that the server hands over.
use mathlib.Core.List.{append-nil, append_assoc}
use mathlib.Core.Path.{subst}
use qtip_challenge.Base.{
  String, ◌<>◌, ◌⊎◌, inl, inr, List, [], ◌∷◌, ◌++◌, map, ◌≡◌, ◌≢◌, refl, sym, ◌∙◌, ap, arith,
}
use qtip_challenge.Base.Int.{ℤ}
use qtip_challenge.Domain.Errors.{GoError, wrap}
use qtip_challenge.Domain.Task.{EmailTask}
use qtip_challenge.Redis.Client.{Cmd, value, nil_reply, error}
use qtip_challenge.Redis.Retry.{TaskCodec}
use qtip_challenge.Redis.Consumer.{
  priority_streams, Message, GroupCommands, task_from_message, parsed_tasks, claim_from,
  claim_stale,
}

-- An XAUTOCLAIM on a stream: its idle time and its reply.
pub record Asked : Type 0 where
  pub stream_key : String
  pub idle : ℤ
  pub reply : Cmd (List Message)

-- Documented behaviour of a server: `asked` is the history of the XAUTOCLAIMs, the latest last.
pub record IsClaiming {S : Type 0} (R : GroupCommands S) : Type 0 where
  pub asked : S → List Asked
  pub xautoclaim_lem :
      (k : String) (idle : ℤ) (s : S)
      → asked (R.xautoclaim k idle s).1
        ≡ asked s ++ record { stream_key = k; idle = idle; reply = (R.xautoclaim k idle s).0 } ∷ []

-- An XAUTOCLAIM on this stream with this idle time that has not failed.
abbrev pub Answers : ℤ → String → Asked → Type 0
Answers idle k a = (a.stream_key ≡ k) × (a.idle ≡ idle) × ((e : GoError) → a.reply ≢ error e)

-- One for each of these streams, in order.
abbrev pub AllAnswer : ℤ → List String → List Asked → Type 0
AllAnswer idle [] [] = Unit
AllAnswer idle (k ∷ ks) (a ∷ asked) = Answers idle k a × AllAnswer idle ks asked
AllAnswer idle _ _ = ⊥

-- The messages of the replies, each with its stream.
abbrev pub given : List Asked → List (String × Message)
given [] = []
given (a ∷ asked) =
    let more = given asked in
    elim a.reply [
      | value msgs ↦ map (λ msg. (a.stream_key, msg)) msgs ++ more
      | nil_reply ↦ more
      | error e ↦ more
    ]

-- The tasks of those messages that can be read as one, in order.
abbrev pub tasks_of : TaskCodec → List (String × Message) → List EmailTask
tasks_of J [] = []
tasks_of J ((k, msg) ∷ rest) =
    let more = tasks_of J rest in
    elim (task_from_message J k msg) [ inl t ↦ t ∷ more | inr e ↦ more ]

Claim-cases :
    (x : List EmailTask ⊎ GoError)
    → ((ts : List EmailTask) × (x ≡ inl ts)) ⊎ ((e : GoError) × (x ≡ inr e))
Claim-cases (inl ts) = inl (ts, refl)
Claim-cases (inr e) = inr (e, refl)

Reply-cases :
    (r : Cmd (List Message))
    → ((msgs : List Message) × (r ≡ value msgs))
      ⊎ ((r ≡ nil_reply) ⊎ ((e : GoError) × (r ≡ error e)))
Reply-cases (value msgs) = inl (msgs, refl)
Reply-cases nil_reply = inr (inl refl)
Reply-cases (error e) = inr (inr (e, refl))

Task-cases :
    (x : EmailTask ⊎ GoError) → ((t : EmailTask) × (x ≡ inl t)) ⊎ ((e : GoError) × (x ≡ inr e))
Task-cases (inl t) = inl (t, refl)
Task-cases (inr e) = inr (e, refl)

tasks_of-append :
    (J : TaskCodec) (k : String) (msgs : List Message) (rest : List (String × Message))
    → tasks_of J (map (λ msg. (k, msg)) msgs ++ rest) ≡ parsed_tasks J k msgs ++ tasks_of J rest
unfolding parsed_tasks
tasks_of-append J k [] rest = refl
tasks_of-append J k (msg ∷ msgs) rest = elim (Task-cases (task_from_message J k msg)) [
  | inl (t, read) ↦ ground (arith, read, tasks_of-append J k msgs rest)
  | inr (e, unread) ↦ ground (arith, unread, tasks_of-append J k msgs rest)
]

module _ {S : Type 0} (R : GroupCommands S) (J : TaskCodec) (quoted : String → String)
    (group : String) (L : IsClaiming R) where
  -- The outcome of claims on these streams, by the XAUTOCLAIMs that were made: all of them, and the
  -- tasks; or those up to the first that failed, and its error.
  abbrev pub Claims : ℤ → List String → List EmailTask ⊎ GoError → List Asked → Type 0
  Claims idle ks (inl ts) log = AllAnswer idle ks log × (ts ≡ tasks_of J (given log))
  Claims idle ks (inr e) log =
      (before : List String) × (k : String) × (after : List String) × (earlier : List Asked)
      × (cause : GoError) × (ks ≡ before ++ k ∷ after)
      × AllAnswer idle before earlier
      × (log ≡ earlier ++ record { stream_key = k; idle = idle; reply = error cause } ∷ [])
      × (e ≡ wrap ("consumer: XAUTOCLAIM stream=" <> (k <> ": ")) cause)

  abbrev no_messages : Cmd (List Message)
  no_messages = nil_reply

  value_fine : (msgs : List Message) (e : GoError) → value msgs ≢ error e
  value_fine msgs e h = cc

  nil_fine : (e : GoError) → no_messages ≢ error e
  nil_fine e h = cc

  abbrev asked_of : String → ℤ → Cmd (List Message) → Asked
  asked_of k idle reply = record { stream_key = k; idle = idle; reply = reply }

  -- An error behind a stream that answered.
  later :
      (idle : ℤ) (e : GoError) (k : String) (ks : List String) (a : Asked) (log : List Asked)
      → Answers idle k a
      → Claims idle ks (inr e) log
      → Claims idle (k ∷ ks) (inr e) (a ∷ log)
  later idle e k ks a log answers (before, k', after, earlier, cause, split, fine, all, text) = (
    k ∷ before,
    k',
    after,
    a ∷ earlier,
    cause,
    ap (λ x. k ∷ x) split,
    (answers, fine),
    ap (λ x. a ∷ x) all,
    text,
  )

  claim_from-Claims :
      (idle : ℤ) (ks : List String) (s : S)
      → let (result, s') = claim_from R J quoted group idle ks s in
        (log : List Asked) × (L.asked s' ≡ L.asked s ++ log) × Claims idle ks result log
  unfolding claim_from
  claim_from-Claims idle [] s = ([], sym (append-nil _), (tt, refl))
  claim_from-Claims idle (k ∷ ks) s =
      let s' = (R.xautoclaim k idle s).1 in
      let (log, grown, rest) = claim_from-Claims idle ks s' in
      let all =
        λ (a : Asked)
            (here : record { stream_key = k; idle = idle; reply = (R.xautoclaim k idle s).0 } ≡ a).
          grown
          ∙ ap (λ x. x ++ log) (L.xautoclaim_lem k idle s ∙ ap (λ x. L.asked s ++ x ∷ []) here)
          ∙ append_assoc (L.asked s) (a ∷ []) log in
      elim (Reply-cases (R.xautoclaim k idle s).0) [
        | inl (msgs, got) ↦
            let a : Asked = record { stream_key = k; idle = idle; reply = value msgs } in
            let answers : Answers idle k a = (refl, refl, value_fine msgs) in
            elim (Claim-cases (claim_from R J quoted group idle ks s').0) [
              | inl (ts, fine) ↦
                  let old : Claims idle ks (inl ts) log =
                    subst (λ x. Claims idle ks x log) fine rest in
                  let done : Claims idle (k ∷ ks) (inl (parsed_tasks J k msgs ++ ts)) (a ∷ log) = (
                    (answers, old.0),
                    ap (λ x. parsed_tasks J k msgs ++ x) old.1
                        ∙ sym (tasks_of-append J k msgs (given log)),
                  ) in
                  rw (claim_from, got, fine) (a ∷ log, all a (ap (asked_of k idle) got), done)
              | inr (e, failed) ↦
                  let old : Claims idle ks (inr e) log =
                    subst (λ x. Claims idle ks x log) failed rest in
                  rw (claim_from, got, failed)
                    (a ∷ log, all a (ap (asked_of k idle) got), later idle e k ks a log answers old)
            ]
        | inr (inl nothing) ↦
            let a : Asked = record { stream_key = k; idle = idle; reply = nil_reply } in
            let answers : Answers idle k a = (refl, refl, nil_fine) in
            elim (Claim-cases (claim_from R J quoted group idle ks s').0) [
              | inl (ts, fine) ↦
                  let old : Claims idle ks (inl ts) log =
                    subst (λ x. Claims idle ks x log) fine rest in
                  rw (claim_from, nothing, fine)
                    (a ∷ log, all a (ap (asked_of k idle) nothing), ((answers, old.0), old.1))
              | inr (e, failed) ↦
                  let old : Claims idle ks (inr e) log =
                    subst (λ x. Claims idle ks x log) failed rest in
                  rw (claim_from, nothing, failed)
                    (
                      a ∷ log,
                      all a (ap (asked_of k idle) nothing),
                      later idle e k ks a log answers old,
                    )
            ]
        | inr (inr (e, failed)) ↦
            let a : Asked = record { stream_key = k; idle = idle; reply = error e } in
            rw (claim_from, failed)
              (
                a ∷ [],
                L.xautoclaim_lem k idle s
                    ∙ ap (λ x. L.asked s ++ x ∷ []) (ap (asked_of k idle) failed),
                ([], k, ks, [], e, refl, tt, refl, refl),
              )
      ]

  -- ClaimStale on a server that behaves as documented. Without an error, it made one XAUTOCLAIM with
  -- the idle threshold on each priority stream, in the order of the priorities, none of them failed,
  -- and the tasks are exactly those of the messages that they gave which can be read, in order. With an
  -- error, it made them up to the first that failed, and the error is that one's.
  pub claim_stale-Claims :
      (idle : ℤ) (s : S)
      → let (result, s') = claim_stale R J quoted group idle s in
        (log : List Asked) × (L.asked s' ≡ L.asked s ++ log)
        × Claims idle priority_streams result log
  unfolding claim_stale
  claim_stale-Claims idle s = claim_from-Claims idle priority_streams s
