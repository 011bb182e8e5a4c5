-- ===== src/Redis/Poll/Accounts.antt =====
-- What the poll loop does with the messages that it reads.
use qtip_challenge.Base.{
  ℕ, ◌≤◌, String, Bool, true, false, List, [], ◌∷◌, ◌++◌, ◌≡◌, ◌⊎◌, inl, inr, refl, sym, ap, ◌∙◌,
  length, length-append, arith, if◌then◌else◌,
}
use qtip_challenge.Redis.Poll.Tasks.{tasks_in, tasks_in-append, tasks_in-parsed, tasks_in-skipped}
use mathlib.Core.List.{append-nil, append_assoc}
use qtip_challenge.Redis.Client.{Cmd, value, nil_reply, error}
use qtip_challenge.Redis.Retry.{TaskCodec}
use qtip_challenge.Redis.Consumer.{GroupCommands, Message, is_no_group, priority_streams}
use qtip_challenge.Redis.Poll.{
  Place, checking, reading, forwarding, closed, Poll, new_poll, messages_of, recreate_groups,
  after_read, LoopStep, stop, go_on, read, forward, abandon, skip, again, PollStep, loop, take,
  cancel, elsewhere, Polls, here, next,
}

closed_only : (c : Bool) → (if c then closed else checking) ≡ closed → c ≡ true
closed_only true e = refl
closed_only false e = cc

module _ {S : Type 0} (J : TaskCodec) (pool_size : ℕ) where
  pub record IsAccounted (p : Poll S) : Type 0 where
    pub accounts : tasks_in J p.received ≡ p.taken ++ (p.channel ++ tasks_in J p.waiting)
    pub room : length p.channel ≤ pool_size
    pub idle : ((p.place ≡ forwarding) ⊎ (p.place ≡ closed)) ⊎ (p.waiting ≡ [])
    pub ended : p.place ≡ closed → p.cancelled ≡ true

  -- Away from the loops, all that was read is taken or in the channel.
  accounts_idle :
      (p : Poll S) → IsAccounted p → p.waiting ≡ [] → tasks_in J p.received ≡ p.taken ++ p.channel
  unfolding tasks_in
  accounts_idle p a e =
      a.accounts
      ∙ ap (λ ms. p.taken ++ (p.channel ++ tasks_in J ms)) e
      ∙ ap (λ ts. p.taken ++ ts) (append-nil p.channel)

  -- A step that moves no message.
  moved :
      (p : Poll S) (place : Place) (s : S)
      → IsAccounted p
      → p.waiting ≡ []
      → (place ≡ closed → p.cancelled ≡ true)
      → IsAccounted (record p { place = place; world = s })
  moved p place s a none_left h = record {
    accounts = a.accounts;
    room = a.room;
    idle = inr none_left;
    ended = h;
  }

  either-IsAccounted :
      (b : Bool) (x y : Poll S)
      → (b ≡ true → IsAccounted x)
      → (b ≡ false → IsAccounted y)
      → IsAccounted (if b then x else y)
  either-IsAccounted true x y p q = p refl
  either-IsAccounted false x y p q = q refl

  module _ (R : GroupCommands S) (quoted : String → String) (group : String) where
    after_read-IsAccounted :
        (reply : Cmd (List (String × List Message))) (p : Poll S)
        → p.waiting ≡ []
        → IsAccounted p
        → IsAccounted (after_read R J quoted group reply p)
    unfolding after_read
    after_read-IsAccounted (value streams) p none_left a = record {
      accounts =
          tasks_in-append J p.received (messages_of streams)
          ∙ ap (λ ts. ts ++ tasks_in J (messages_of streams)) (accounts_idle p a none_left)
          ∙ append_assoc p.taken p.channel (tasks_in J (messages_of streams));
      room = a.room;
      idle = inl (inl refl);
      ended = λ e. cc;
    }
    after_read-IsAccounted nil_reply p none_left a =
        moved p (if p.cancelled then closed else checking) p.world a none_left
          (closed_only p.cancelled)
    after_read-IsAccounted (error x) p none_left a =
        let again_at : S → Poll S = λ s. record p { place = checking; world = s } in
        either-IsAccounted p.cancelled (record p { place = closed })
          (if is_no_group x
            then again_at (recreate_groups R J quoted group priority_streams p.world)
            else again_at p.world)
          (λ dead. moved p closed p.world a none_left (λ _. dead))
          (λ live.
            either-IsAccounted (is_no_group x)
              (again_at (recreate_groups R J quoted group priority_streams p.world))
              (again_at p.world) (λ _. moved p checking _ a none_left (λ e. cc))
              (λ _. moved p checking p.world a none_left (λ e. cc)))

    module _ (xreadgroup : S → Cmd (List (String × List Message)) × S) where
      -- Nothing waits where the loop is on its way to XREADGROUP.
      none_waits :
          (p : Poll S) → IsAccounted p → (p.place ≡ checking) ⊎ (p.place ≡ reading) → p.waiting ≡ []
      none_waits p a at = ground (arith, a.idle)

      LoopStep-IsAccounted :
          {p q : Poll S}
          → LoopStep R J quoted group xreadgroup pool_size p q
          → IsAccounted p
          → IsAccounted q
      LoopStep-IsAccounted (stop p e dead) a =
          moved p closed p.world a (none_waits p a (inl e)) (λ _. dead)
      LoopStep-IsAccounted (go_on p e live) a =
          moved p reading p.world a (none_waits p a (inl e)) (λ h. cc)
      LoopStep-IsAccounted (read p reply s e answer) a =
          let none_left = none_waits p a (inr e) in
          after_read-IsAccounted reply (record p { world = s }) none_left
            (moved p p.place s a none_left a.ended)
      LoopStep-IsAccounted (forward p key msg rest t e w h room) a = record {
        accounts =
            a.accounts
            ∙ ap (λ ms. p.taken ++ (p.channel ++ tasks_in J ms)) w
            ∙ ap (λ ts. p.taken ++ (p.channel ++ ts)) (tasks_in-parsed J key msg rest t h)
            ∙ ap (λ ts. p.taken ++ ts) (sym (append_assoc p.channel (t ∷ []) (tasks_in J rest)));
        room = omega (arith, room, length-append p.channel (t ∷ []));
        idle = inl (inl e);
        ended = a.ended;
      }
      LoopStep-IsAccounted (abandon p key msg rest t e w h dead) a = record {
        accounts = a.accounts;
        room = a.room;
        idle = inl (inr refl);
        ended = λ _. dead;
      }
      LoopStep-IsAccounted (skip p key msg rest x e w h) a = record {
        accounts =
            a.accounts
            ∙ ap (λ ms. p.taken ++ (p.channel ++ tasks_in J ms)) w
            ∙ ap (λ ts. p.taken ++ (p.channel ++ ts)) (tasks_in-skipped J key msg rest x h);
        room = a.room;
        idle = inl (inl e);
        ended = a.ended;
      }
      LoopStep-IsAccounted (again p e w) a = moved p checking p.world a w (λ h. cc)

      PollStep-IsAccounted :
          {p q : Poll S}
          → PollStep R J quoted group xreadgroup pool_size p q
          → IsAccounted p
          → IsAccounted q
      PollStep-IsAccounted (loop s) a = LoopStep-IsAccounted s a
      PollStep-IsAccounted (take p t ts e) a = record {
        accounts =
            a.accounts
            ∙ ap (λ c. p.taken ++ (c ++ tasks_in J p.waiting)) e
            ∙ sym (append_assoc p.taken (t ∷ []) (ts ++ tasks_in J p.waiting));
        room = omega (arith, a.room, ap length e);
        idle = a.idle;
        ended = a.ended;
      }
      PollStep-IsAccounted (cancel p) a = record {
        accounts = a.accounts;
        room = a.room;
        idle = a.idle;
        ended = λ _. refl;
      }
      PollStep-IsAccounted (elsewhere p s) a = record {
        accounts = a.accounts;
        room = a.room;
        idle = a.idle;
        ended = a.ended;
      }

      Polls-IsAccounted :
          (s : S) {p : Poll S}
          → Polls R J quoted group xreadgroup pool_size (new_poll s) p
          → IsAccounted p
      unfolding new_poll tasks_in
      Polls-IsAccounted s here = record {
        accounts = refl;
        room = omega arith;
        idle = inr refl;
        ended = λ h. cc;
      }
      Polls-IsAccounted s (next r step) = PollStep-IsAccounted step (Polls-IsAccounted s r)

      -- In every run of the poll loop beside a receiver, other clients of the server and a
      -- cancellation at any time: the tasks of the messages that XREADGROUP gave and that parse
      -- are, in their order, those that were taken from the channel, those in it, and those of the
      -- messages that wait to be handled, so that none is lost or passed on twice; the channel holds
      -- at most `pool_size`; messages wait only in the loops over them and after a cancelled end;
      -- and the channel is closed only after a cancellation.
      pub Polls-accounts :
          (s : S) (p : Poll S)
          → Polls R J quoted group xreadgroup pool_size (new_poll s) p
          → (tasks_in J p.received ≡ p.taken ++ (p.channel ++ tasks_in J p.waiting))
            × (length p.channel ≤ pool_size)
            × (((p.place ≡ forwarding) ⊎ (p.place ≡ closed)) ⊎ (p.waiting ≡ []))
            × (p.place ≡ closed → p.cancelled ≡ true)
      Polls-accounts s p r = let a = Polls-IsAccounted s r in (a.accounts, a.room, a.idle, a.ended)
