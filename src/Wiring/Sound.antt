-- ===== src/Wiring/Sound.antt =====
-- The Redis store as the gate of processTask: internal/adapters/redis/idempotency.go against what
-- internal/worker/supervisor.go asks of it.
use qtip_challenge.Base.{
  ◌≤◌, String, Bool, true, false, Option, none, ◌≡◌, inl, refl, ap, ◌∙◌, arith,
}
use qtip_challenge.Base.Int.{ℤ, ◌-ℤ◌, ◌<ℤ◌, div_trunc}
use qtip_challenge.Domain.Errors.{GoError}
use qtip_challenge.Domain.Task.{EmailTask, read_map}
use qtip_challenge.Domain.Retry.{Float64, second}
use qtip_challenge.Config.Types.{Config}
use qtip_challenge.Worker.Ports.{returns, Answer, Failable}
use qtip_challenge.Worker.Supervisor.Gate.{Blocks}
use qtip_challenge.Worker.Supervisor.Gate.Marked.{Guards}
use qtip_challenge.Redis.Client.{IsRedis}
use qtip_challenge.Redis.Idempotency.{
  IdempotencyRecord, idempotency_key, unix, set_processing, is_completed, try_reclaim_stale,
}
use qtip_challenge.Redis.Idempotency.Lock.{
  IsFaithful, Holds, lock_of, completed_refuses, set_processing_refused, set_processing-Holds,
  try_reclaim_stale_young,
}
use qtip_challenge.Redis.Idempotency.Completion.{
  Completed, is_completed_keeps, is_completed_held, try_reclaim_stale-Holds,
  set_completed-Completed,
}
use qtip_challenge.Redis.Consumer.{meta_stream_key, meta_stream_id, acknowledge, nack}
use qtip_challenge.Wiring.{Outside, email_sender, wired}

accepted :
    (x : Bool × Option GoError) (e : Option GoError)
    → ◌≡◌ {A = Answer} (returns x) (returns (true, e))
    → x.0 ≡ true
accepted x e h = cc

no_error : (x : Option GoError) → ◌≡◌ {A = Failable} (returns x) (returns none) → x ≡ none
no_error x h = cc

module _ (F : Float64) {S : Type 0} (cfg : Config F) (D : Outside F.Carrier S) where
  -- Documented behaviour of the server, the encoders and the calls beside the store: XACK, a send and
  -- a look at the clock change no key.
  pub record IsSound : Type 0 where
    pub redis : IsRedis D.keys
    pub faithful : IsFaithful D.formats
    pub clock_keeps : (j : String) (s : S) → D.keys.read j (D.clock s).1 ≡ D.keys.read j s
    pub xack_keeps :
        (stream id j : String) (s : S)
        → D.keys.read j (D.groups.xack stream id s).1 ≡ D.keys.read j s
    pub sendgrid_keeps :
        (t : EmailTask) (j : String) (s : S) → D.keys.read j (D.sendgrid t s).1 ≡ D.keys.read j s
    pub stub_keeps :
        (t : EmailTask) (j : String) (s : S) → D.keys.read j (D.stub t s).1 ≡ D.keys.read j s

  -- An answer "no" that left the server as it was.
  refused :
      (k : String) (rec : IdempotencyRecord) (x : (Bool × Option GoError) × S) (s : S)
      → (x.0.0 ≡ false) × (x.1 ≡ s)
      → Holds D.keys D.formats k rec s
      → (e : Option GoError) × (◌≡◌ {A = Answer} (returns x.0) (returns (false, e)))
        × Holds D.keys D.formats k rec x.1
  refused k rec x s (said, same) held = (
    x.0.1,
    ap (λ (b : Bool). returns (b, x.0.1)) said,
    ap (D.keys.read (idempotency_key k)) same ∙ held,
  )

  module _ (L : IsSound) (k : String) where
    acknowledge_keeps :
        (t : EmailTask) (j : String) (s : S)
        → D.keys.read j ((wired F cfg D).acknowledge t s).1 ≡ D.keys.read j s
    unfolding wired acknowledge
    acknowledge_keeps t j s = ground (
      arith,
      L.xack_keeps (read_map t.metadata meta_stream_key) (read_map t.metadata meta_stream_id) j s,
    )

    send_keeps :
        (t : EmailTask) (j : String) (s : S)
        → D.keys.read j ((wired F cfg D).send t s).1 ≡ D.keys.read j s
    unfolding wired email_sender
    send_keeps t j s = ground (arith, L.sendgrid_keeps t j s, L.stub_keeps t j s)

    clock_Holds :
        (rec : IdempotencyRecord) (w : S)
        → Holds D.keys D.formats k rec w
        → Holds D.keys D.formats k rec (D.clock w).1
    clock_Holds rec w held = L.clock_keeps (idempotency_key k) w ∙ held

    read_Holds :
        (rec : IdempotencyRecord) (w : S)
        → Holds D.keys D.formats k rec w
        → Holds D.keys D.formats k rec (is_completed D.keys D.formats k w).1
    read_Holds rec w held =
        ap (D.keys.read (idempotency_key k))
          (is_completed_keeps D.keys D.formats L.redis L.faithful k w)
        ∙ held

    acknowledge_Holds :
        (t : EmailTask) (rec : IdempotencyRecord) (w : S)
        → Holds D.keys D.formats k rec w
        → Holds D.keys D.formats k rec ((wired F cfg D).acknowledge t w).1
    acknowledge_Holds t rec w held = acknowledge_keeps t (idempotency_key k) w ∙ held

    pub Completed-Blocks : Blocks F cfg.worker (wired F cfg D) k (Completed D.keys D.formats k) 1
    unfolding wired nack
    Completed-Blocks = record {
      refuses = λ w (rec, done, held).
          let (now, s) = D.clock w in
          let held' = clock_Holds rec w held in
          let h =
            completed_refuses D.keys D.formats L.redis L.faithful cfg.retry.dlq_ttl_seconds now k
              cfg.worker.consumer_name s rec now done held' in
          let (e, said, after) =
            refused k rec
              (set_processing D.keys D.formats cfg.retry.dlq_ttl_seconds now k
                cfg.worker.consumer_name s)
              s (h.0, h.1) held' in
          (e, said, (rec, done, after));
      reads = λ w (rec, done, held). (rec, done, read_Holds rec w held);
      answers = λ e w b h. omega arith;
      stays = λ w (rec, done, held).
          let (now, s) = D.clock w in
          let held' = clock_Holds rec w held in
          let h =
            completed_refuses D.keys D.formats L.redis L.faithful cfg.retry.dlq_ttl_seconds now k
              cfg.worker.consumer_name s rec cfg.worker.claim_idle_threshold done held' in
          let (e, said, after) =
            refused k rec
              (try_reclaim_stale D.keys D.formats cfg.retry.dlq_ttl_seconds now k
                cfg.worker.consumer_name cfg.worker.claim_idle_threshold s)
              s (h.2, h.3) held' in
          (e, said, (rec, done, after));
      acks = λ t w (rec, done, held). (rec, done, acknowledge_Holds t rec w held);
      nacks = λ t cause w b. b;
    }

    -- The lock of `holder`, younger than the threshold whenever the clock is read.
    module _ (holder : String) (since : ℤ)
        (young : (w : S)
          → unix (D.clock w).0 -ℤ unix since
            <ℤ div_trunc cfg.worker.claim_idle_threshold second) where
      abbrev pub Locked : S → Type 0
      Locked = Holds D.keys D.formats k (lock_of D.keys D.formats holder since)

      not_completed :
          (e : Option GoError) (w : S)
          → Locked w
          → ◌≡◌ {A = Answer} (returns (is_completed D.keys D.formats k w).0) (returns (true, e))
          → 1 ≤ 0
      not_completed e w held said =
          let no' = is_completed_held D.keys D.formats L.redis L.faithful k w holder since held in
          cc

      pub young-Blocks : Blocks F cfg.worker (wired F cfg D) k Locked 0
      unfolding wired nack
      young-Blocks = record {
        refuses = λ w held.
            let (now, s) = D.clock w in
            let held' = clock_Holds _ w held in
            refused k _
              (set_processing D.keys D.formats cfg.retry.dlq_ttl_seconds now k
                cfg.worker.consumer_name s)
              s
              (set_processing_refused D.keys D.formats L.redis L.faithful cfg.retry.dlq_ttl_seconds
                now k cfg.worker.consumer_name s _ (inl refl) held')
              held';
        reads = λ w held. read_Holds _ w held;
        answers = not_completed;
        stays = λ w held.
            let (now, s) = D.clock w in
            let held' = clock_Holds _ w held in
            refused k _
              (try_reclaim_stale D.keys D.formats cfg.retry.dlq_ttl_seconds now k
                cfg.worker.consumer_name cfg.worker.claim_idle_threshold s)
              s
              (try_reclaim_stale_young D.keys D.formats L.redis L.faithful cfg.retry.dlq_ttl_seconds
                now k cfg.worker.consumer_name s holder since cfg.worker.claim_idle_threshold held'
                (young w))
              held';
        acks = λ t w held. acknowledge_Holds t _ w held;
        nacks = λ t cause w b. b;
      }

    -- The key holds some record.
    abbrev pub Taken : S → Type 0
    Taken w = (rec : IdempotencyRecord) × Holds D.keys D.formats k rec w

    pub wired-Guards : Guards F cfg.worker (wired F cfg D) k Taken (Completed D.keys D.formats k)
    unfolding wired
    wired-Guards = record {
      locks = λ n e w h.
          let (now, s) = D.clock w in
          (
            _,
            set_processing-Holds D.keys D.formats L.redis L.faithful cfg.retry.dlq_ttl_seconds now k
                n s (accepted _ e h),
          );
      reclaims = λ n d e w h.
          let (now, s) = D.clock w in
          (
            _,
            try_reclaim_stale-Holds D.keys D.formats L.redis L.faithful k s
                cfg.retry.dlq_ttl_seconds now n d (accepted _ e h),
          );
      sends = λ t w (rec, held). (rec, send_keeps t (idempotency_key k) w ∙ held);
      acks = λ t w (rec, held). (rec, acknowledge_Holds t rec w held);
      marks = λ w (rec, held) h.
          let (now, s) = D.clock w in
          set_completed-Completed D.keys D.formats L.redis L.faithful k s cfg.retry.dlq_ttl_seconds
            now rec (clock_Holds rec w held) (no_error _ h);
    }
