-- ===== src/Redis/Poll/Tasks.antt =====
-- The tasks of messages, as taskFromMessage of internal/adapters/redis/consumer.go parses them.
use qtip_challenge.Base.{String, List, [], ◌∷◌, ◌++◌, ◌≡◌, ◌⊎◌, inl, inr, refl, sym, ap, ◌∙◌}
use qtip_challenge.Domain.Errors.{GoError}
use qtip_challenge.Domain.Task.{EmailTask}
use qtip_challenge.Redis.Retry.{TaskCodec}
use qtip_challenge.Redis.Consumer.{Message, task_from_message}

pub Parsed-cases :
    (x : EmailTask ⊎ GoError) → ((t : EmailTask) × (x ≡ inl t)) ⊎ ((e : GoError) × (x ≡ inr e))
Parsed-cases (inl t) = inl (t, refl)
Parsed-cases (inr e) = inr (e, refl)

-- The tasks of the messages that parse, in their order.
unfoldable pub tasks_in : TaskCodec → List (String × Message) → List EmailTask
tasks_in J [] = []
tasks_in J ((key, msg) ∷ rest) =
    let more = tasks_in J rest in
    elim (task_from_message J key msg) [ inl t ↦ t ∷ more | inr e ↦ more ]

pub tasks_in-parsed :
    (J : TaskCodec) (key : String) (msg : Message) (rest : List (String × Message)) (t : EmailTask)
    → task_from_message J key msg ≡ inl t
    → tasks_in J ((key, msg) ∷ rest) ≡ t ∷ tasks_in J rest
unfolding tasks_in
tasks_in-parsed J key msg rest t h = rw (tasks_in, h)

pub tasks_in-skipped :
    (J : TaskCodec) (key : String) (msg : Message) (rest : List (String × Message)) (e : GoError)
    → task_from_message J key msg ≡ inr e
    → tasks_in J ((key, msg) ∷ rest) ≡ tasks_in J rest
unfolding tasks_in
tasks_in-skipped J key msg rest e h = rw (tasks_in, h)

pub tasks_in-append :
    (J : TaskCodec) (xs ys : List (String × Message))
    → tasks_in J (xs ++ ys) ≡ tasks_in J xs ++ tasks_in J ys
unfolding tasks_in
tasks_in-append J [] ys = refl
tasks_in-append J ((key, msg) ∷ xs) ys = elim (Parsed-cases (task_from_message J key msg)) [
  | inl (t, h) ↦
      tasks_in-parsed J key msg (xs ++ ys) t h
      ∙ ap (λ ts. t ∷ ts) (tasks_in-append J xs ys)
      ∙ ap (λ ts. ts ++ tasks_in J ys) (sym (tasks_in-parsed J key msg xs t h))
  | inr (e, h) ↦
      tasks_in-skipped J key msg (xs ++ ys) e h
      ∙ tasks_in-append J xs ys
      ∙ ap (λ ts. ts ++ tasks_in J ys) (sym (tasks_in-skipped J key msg xs e h))
]
