-- ===== src/Tests/Polling.antt =====
-- The poll loop on one message.
use qtip_challenge.Base.{
  ℕ, ◌+◌, ◌≤◌, String, true, false, List, [], ◌∷◌, ◌++◌, ◌≡◌, ◌≢◌, ◌⊎◌, none, refl, length, arith,
}
use qtip_challenge.Base.Assoc.{lookup}
use qtip_challenge.Redis.Client.{Cmd, value}
use qtip_challenge.Redis.Retry.{xadd_values_builder}
use qtip_challenge.Redis.Consumer.{GroupCommands, Message, stamp_place, task_from_message}
use qtip_challenge.Redis.Poll.{
  reading, forwarding, closed, Poll, new_poll, messages_of, after_read, LoopStep, go_on, read,
  forward, abandon, loop, Polls,
}
use qtip_challenge.Redis.Poll.Tasks.{tasks_in}
use qtip_challenge.Redis.Poll.Accounts.{Polls-accounts}
use qtip_challenge.Redis.Poll.Live.{Counted, poll_loop_stops}
use qtip_challenge.Tests.Sample.{welcome}
use qtip_challenge.Tests.Streams.{codec, quote}

abbrev groups : GroupCommands ℕ
groups = record {
  create_group = λ k s. (none, s);
  xack = λ k id s. (none, s);
  xautoclaim = λ k idle s. (value [], s);
}

abbrev stream : String
stream = "{queue}:email:normal"

abbrev message : Message
message = record { id = "1-0"; values = xadd_values_builder welcome "t-1" }

abbrev one_message : ℕ → Cmd (List (String × List Message)) × ℕ
one_message s = (value ((stream, message ∷ []) ∷ []), s)

abbrev at_message : Poll ℕ
at_message = record {
  world = 0;
  place = forwarding;
  cancelled = false;
  waiting = (stream, message) ∷ [];
  channel = [];
  received = (stream, message) ∷ [];
  taken = [];
}

abbrev forwarded : Poll ℕ
forwarded = record at_message { waiting = []; channel = stamp_place stream "1-0" welcome ∷ [] }

forwarded-Polls : Polls groups codec quote "email-workers" one_message 1 (new_poll 0) forwarded
unfolding new_poll after_read messages_of task_from_message xadd_values_builder lookup
forwarded-Polls =
    let start : Poll ℕ = new_poll 0 in
    let ready : Poll ℕ = record start { place = reading } in
    Polls.next
      (Polls.next (Polls.next Polls.here (loop (go_on start refl refl)))
        (loop (read ready (one_message 0).0 0 refl refl)))
      (loop (
        forward at_message stream message [] (stamp_place stream "1-0" welcome) refl refl refl
          (omega arith)))

Polls-accounts_example :
    (tasks_in codec forwarded.received
      ≡ forwarded.taken ++ (forwarded.channel ++ tasks_in codec forwarded.waiting))
    × (length forwarded.channel ≤ 1)
    × (((forwarded.place ≡ forwarding) ⊎ (forwarded.place ≡ closed)) ⊎ (forwarded.waiting ≡ []))
    × (forwarded.place ≡ closed → forwarded.cancelled ≡ true)
Polls-accounts_example =
    Polls-accounts codec 1 groups quote "email-workers" one_message 0 forwarded forwarded-Polls

-- The channel is full when the cancellation comes.
abbrev cut_off : Poll ℕ
cut_off = record at_message { cancelled = true; channel = welcome ∷ [] }

cut_off-Counted :
    Counted groups codec quote "email-workers" one_message 1 cut_off 1
      (record cut_off { place = closed })
unfolding task_from_message xadd_values_builder lookup
cut_off-Counted =
    Counted.own Counted.rests
      (abandon cut_off stream message [] (stamp_place stream "1-0" welcome) refl refl refl refl)

poll_loop_stops_example :
    (1 ≤ length cut_off.waiting + 2)
    × (closed ≢ reading)
    × ((closed ≡ closed)
        ⊎ ((r : Poll ℕ) × LoopStep groups codec quote "email-workers" one_message 1
              (record cut_off { place = closed })
              r))
poll_loop_stops_example =
    poll_loop_stops groups codec quote "email-workers" one_message 1 cut_off
      (record cut_off { place = closed }) 1 refl (λ e. cc) cut_off-Counted
