-- ===== src/Tests/Streams.antt =====
-- The producer and the consumer on streams in memory.
use qtip_challenge.Base.{
  String, inl, inr, none, some, List, [], ◌∷◌, ◌++◌, ◌≡◌, refl, arith, str_eq, if◌then◌else◌,
}
use qtip_challenge.Domain.Errors.{GoErrors, multi, plain, count_errors}
use qtip_challenge.Domain.Priority
use qtip_challenge.Domain.TaskType
use qtip_challenge.Domain.Task
use qtip_challenge.Domain.Task.{EmailTask, read_map}
use qtip_challenge.Redis.Retry.{
  Field, TaskCodec, parsed, corrupt, xadd_values_builder, marshal_task_payload,
}
use qtip_challenge.Redis.Producer.{StreamCommands, stamp_trace, append_task, enqueue, enqueue_batch}
use qtip_challenge.Redis.Producer.Laws.{IsStreams, enqueue-appended, invalid, enqueue_batch_refuses}
use qtip_challenge.Redis.Consumer.{
  meta_stream_id, meta_stream_key, task_from_message, GroupCommands, acknowledge,
}
use qtip_challenge.Redis.Client.{value}
use qtip_challenge.Redis.Consumer.Laws.{Acks, task_from_message-xadd_values_builder}
use qtip_challenge.Tests.Sample.{welcome}

abbrev Streams : Type 0
Streams = List (String × List (String × Field))

abbrev streams : StreamCommands Streams
streams = record {
  context_error = λ s. none;
  append = λ k f s. (none, s ++ (k, f) ∷ []);
  zadd = λ k score m s. (none, s);
  run_pipeline = λ cs s. (([], none), s);
}

streams-IsStreams : IsStreams streams
streams-IsStreams = record { appended = λ s. s; append_lem = λ k f s. inr refl }

abbrev pub codec : TaskCodec
codec = record {
  marshal = λ t. inl t.id;
  unmarshal = λ s. if str_eq s "t-1" then parsed welcome else corrupt (plain "invalid character");
  marshal_poison = λ e. inl e.raw_member;
}

abbrev pub quote : String → String
quote s = s

abbrev traced : EmailTask
traced = stamp_trace (some ("4bf92f", "00f067")) welcome

enqueue-appended_example :
    (Task.validate quote welcome ≡ none)
    × ((payload : String) × (codec.marshal traced ≡ inl payload)
        × (streams-IsStreams.appended
              (enqueue streams codec quote (some ("4bf92f", "00f067")) welcome []).1
            ≡ streams-IsStreams.appended []
              ++ (Priority.queue_name traced.priority, xadd_values_builder traced payload) ∷ []))
unfolding enqueue append_task marshal_task_payload Task.validate TaskType.is_valid Priority.is_valid
enqueue-appended_example =
    enqueue-appended streams codec quote streams-IsStreams (some ("4bf92f", "00f067")) welcome []
      refl

-- The second task has no recipient.
abbrev batch : List EmailTask
batch = welcome ∷ record welcome { recipient = "" } ∷ []

enqueue_batch_refuses_example :
    (es : GoErrors) × (count_errors es ≡ invalid streams codec quote batch)
    × (enqueue_batch streams codec quote batch [] ≡ (some (multi es), []))
unfolding invalid Task.validate TaskType.is_valid Priority.is_valid
enqueue_batch_refuses_example = enqueue_batch_refuses streams codec quote batch [] (omega arith)

-- The stream and the id of each XACK.
abbrev acking : GroupCommands (List (String × String))
acking = record {
  create_group = λ k s. (none, s);
  xack = λ k id s. (none, s ++ (k, id) ∷ []);
  xautoclaim = λ k idle s. (value [], s);
}

task_from_message-xadd_values_builder_example :
    (t' : EmailTask) × (task_from_message codec "{queue}:email:normal"
        (record { id = "1-0"; values = xadd_values_builder welcome "t-1" })
      ≡ inl t')
    × (record t' { metadata = none } ≡ welcome)
    × (read_map t'.metadata meta_stream_key ≡ "{queue}:email:normal")
    × (read_map t'.metadata meta_stream_id ≡ "1-0")
    × ((s : List (String × String))
        → Acks acking "{queue}:email:normal" "1-0" s
            (acknowledge acking codec quote "email-workers" t' s))
task_from_message-xadd_values_builder_example =
    task_from_message-xadd_values_builder acking codec quote "email-workers" welcome "t-1"
      "{queue}:email:normal" "1-0" refl
