-- ===== src/Redis/Poll.antt =====
-- `pollLoop` of internal/adapters/redis/consumer.go and its channel, as a step relation beside the
-- receiver of the channel, the cancellation of the context and the other clients of the server.
pub mod Tasks
pub mod Accounts
pub mod Live
use qtip_challenge.Base.{
  ℕ, ◌<◌, String, Bool, true, false, List, [], ◌∷◌, ◌++◌, ◌≡◌, ◌⊎◌, inl, inr, length, if◌then◌else◌,
}
use qtip_challenge.Domain.Errors.{GoError}
use qtip_challenge.Domain.Task.{EmailTask}
use qtip_challenge.Redis.Client.{Cmd, value, nil_reply, error}
use qtip_challenge.Redis.Retry.{TaskCodec}
use qtip_challenge.Redis.Consumer.{
  GroupCommands, Message, priority_streams, is_no_group, task_from_message, ensure_consumer_group,
}

-- At the test of the context, at XREADGROUP, in the loops over the messages, and returned with the
-- channel closed.
pub data Place : Type 0 where
  checking reading forwarding closed : Place

-- `waiting` messages are to be handled still. `received` is the history of the messages that
-- XREADGROUP gave, by stream key, and `taken` that of the tasks that the receiver took.
pub record Poll (S : Type 0) : Type 0 where
  pub world : S
  pub place : Place
  pub cancelled : Bool
  pub waiting : List (String × Message)
  pub channel : List EmailTask
  pub received : List (String × Message)
  pub taken : List EmailTask

-- `cfg.Worker.PoolSize` is the size of the channel's buffer; its groups are there.
unfoldable pub new_poll : {S : Type 0} → S → Poll S
new_poll s = record {
  world = s;
  place = checking;
  cancelled = false;
  waiting = [];
  channel = [];
  received = [];
  taken = [];
}

abbrev pub with_key : String → List Message → List (String × Message)
with_key key [] = []
with_key key (msg ∷ msgs) = (key, msg) ∷ with_key key msgs

-- The messages in the order of the two loops.
unfoldable pub messages_of : List (String × List Message) → List (String × Message)
messages_of [] = []
messages_of ((key, msgs) ∷ streams) = with_key key msgs ++ messages_of streams

module _ {S : Type 0} (R : GroupCommands S) (J : TaskCodec) (quoted : String → String)
    (group : String) where
  -- The groups made again, whatever errors that gives.
  unfoldable pub recreate_groups : List String → S → S
  unfolding ensure_consumer_group
  recreate_groups [] s = s
  recreate_groups (key ∷ keys) s =
      recreate_groups keys (ensure_consumer_group R J quoted group key s).1

  -- What follows XREADGROUP up to the loops.
  unfoldable pub after_read : Cmd (List (String × List Message)) → Poll S → Poll S
  unfolding recreate_groups messages_of
  after_read (value streams) p = record p {
    place = forwarding;
    waiting = messages_of streams;
    received = p.received ++ messages_of streams;
  }
  after_read nil_reply p = record p { place = if p.cancelled then closed else checking }
  after_read (error e) p =
      if p.cancelled
      then record p { place = closed }
      else if is_no_group e
      then record p { place = checking; world = recreate_groups priority_streams p.world }
      else record p { place = checking }

  -- `xreadgroup` is XREADGROUP GROUP group consumer COUNT 10 BLOCK … STREAMS with the four streams
  -- and `>`; any reply of the server.
  module _ (xreadgroup : S → Cmd (List (String × List Message)) × S) (pool_size : ℕ) where
    -- The steps of the goroutine.
    pub data LoopStep : Poll S → Poll S → Type 0 where
      stop :
          (p : Poll S)
          → p.place ≡ checking
          → p.cancelled ≡ true
          → LoopStep p (record p { place = closed })
      go_on :
          (p : Poll S)
          → p.place ≡ checking
          → p.cancelled ≡ false
          → LoopStep p (record p { place = reading })
      -- the end of a call, which may block for ever: nothing says that this step is taken
      read :
          (p : Poll S) (reply : Cmd (List (String × List Message))) (s : S)
          → p.place ≡ reading
          → xreadgroup p.world ≡ (reply, s)
          → LoopStep p (after_read reply (record p { world = s }))
      -- the two cases of the select
      forward :
          (p : Poll S) (key : String) (msg : Message) (rest : List (String × Message))
          (t : EmailTask)
          → p.place ≡ forwarding
          → p.waiting ≡ (key, msg) ∷ rest
          → task_from_message J key msg ≡ inl t
          → length p.channel < pool_size
          → LoopStep p (record p { waiting = rest; channel = p.channel ++ t ∷ [] })
      abandon :
          (p : Poll S) (key : String) (msg : Message) (rest : List (String × Message))
          (t : EmailTask)
          → p.place ≡ forwarding
          → p.waiting ≡ (key, msg) ∷ rest
          → task_from_message J key msg ≡ inl t
          → p.cancelled ≡ true
          → LoopStep p (record p { place = closed })
      skip :
          (p : Poll S) (key : String) (msg : Message) (rest : List (String × Message)) (e : GoError)
          → p.place ≡ forwarding
          → p.waiting ≡ (key, msg) ∷ rest
          → task_from_message J key msg ≡ inr e
          → LoopStep p (record p { waiting = rest })
      again :
          (p : Poll S)
          → p.place ≡ forwarding
          → p.waiting ≡ []
          → LoopStep p (record p { place = checking })

    -- The steps of all.
    pub data PollStep : Poll S → Poll S → Type 0 where
      loop : {p q : Poll S} → LoopStep p q → PollStep p q
      take :
          (p : Poll S) (t : EmailTask) (ts : List EmailTask)
          → p.channel ≡ t ∷ ts
          → PollStep p (record p { channel = ts; taken = p.taken ++ t ∷ [] })
      cancel : (p : Poll S) → PollStep p (record p { cancelled = true })
      elsewhere : (p : Poll S) (s : S) → PollStep p (record p { world = s })

    pub data Polls (p : Poll S) : Poll S → Type 0 where
      here : Polls p p
      next : {q r : Poll S} → Polls p q → PollStep q r → Polls p r
