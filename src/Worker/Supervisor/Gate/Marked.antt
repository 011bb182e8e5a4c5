-- ===== src/Worker/Supervisor/Gate/Marked.antt =====
-- What the store holds once processTask of internal/worker/supervisor.go has marked an attempt as
-- completed.
use qtip_challenge.Base.{
  ◌<◌, List, ◌+◌, String, Bool, true, false, Option, none, some, ◌∷◌, [], ◌≡◌, ◌⊎◌, inl, inr, refl,
  ap, arith,
}
use qtip_challenge.Base.Int.{ℤ}
use qtip_challenge.Domain.Errors.{GoError, error_text}
use qtip_challenge.Domain.TaskStatus
use qtip_challenge.Domain.Task.{EmailTask}
use qtip_challenge.Domain.Retry.{Float64}
use qtip_challenge.Config.Types.{WorkerConfig}
use qtip_challenge.Worker.Ports.{
  Reply, returns, panics, Event, Ports, Run, M, call, ◌>>=◌, ◌>>◌, modify, note, lock_taken,
  completion_read, stale_reclaimed, completion_marked, sent, acknowledged, recorded,
}
use qtip_challenge.Worker.Protocol.Safety.{count}
use qtip_challenge.Worker.Supervisor.{
  is_permanent, attempt_key, clear_lock_and_nack, delivered, after_dlq, dead_letter, after_schedule,
  retry, failed, after_send, deliver, after_reclaim, after_is_completed, after_set_processing,
  process_body, recover, release, process_task,
}
use qtip_challenge.Worker.Supervisor.Gate.{call-rule}

-- SetCompleted without error.
abbrev pub is_marked : Event → Bool
is_marked (completion_marked k (returns none)) = true
is_marked _ = false

module _ (F : Float64) {W : Type 0} (cfg : WorkerConfig) (P : Ports F.Carrier W) (k : String) where
  -- `H` holds once the key is locked for the goroutine, until it is marked, and `C` from then on.
  pub record Guards (H C : W → Type 0) : Type 0 where
    pub locks :
        (n : String) (e : Option GoError) (w : W)
        → (P.set_processing k n w).0 ≡ returns (true, e)
        → H (P.set_processing k n w).1
    pub reclaims :
        (n : String) (d : ℤ) (e : Option GoError) (w : W)
        → (P.try_reclaim_stale k n d w).0 ≡ returns (true, e)
        → H (P.try_reclaim_stale k n d w).1
    pub sends : (t : EmailTask) (w : W) → H w → H (P.send t w).1
    pub acks : (t : EmailTask) (w : W) → H w → H (P.acknowledge t w).1
    pub marks : (w : W) → H w → (P.set_completed k w).0 ≡ returns none → C (P.set_completed k w).1

  abbrev Unmarked : Reply (Unit {0}) × Run W → Type 0
  Unmarked x = count is_marked x.1.log ≡ 0

  dead_letter-Unmarked :
      (e : GoError) (b : Bool) (r : Run W)
      → count is_marked r.log ≡ 0
      → Unmarked (dead_letter F cfg P k e b r)
  unfolding dead_letter after_dlq clear_lock_and_nack
  dead_letter-Unmarked e b r n = ground arith

  retry-Unmarked : (r : Run W) → count is_marked r.log ≡ 0 → Unmarked (retry F cfg P k r)
  unfolding retry after_schedule clear_lock_and_nack
  retry-Unmarked r n = ground arith

  failed-Unmarked :
      (e : GoError) (r : Run W) → count is_marked r.log ≡ 0 → Unmarked (failed F cfg P k e r)
  unfolding failed
  failed-Unmarked e r n =
      let u = record (r.task) { last_error = error_text e; status = TaskStatus.failed } in
      let r' = record r { total_failed = r.total_failed + 1; task = u } in
      ground (arith, dead_letter-Unmarked e (is_permanent e) r', retry-Unmarked r')

  module _ (H C : W → Type 0) (G : Guards H C) where
    abbrev Final : Reply (Unit {0}) × Run W → Type 0
    Final x = Unmarked x ⊎ ((x.0 ≡ returns tt) × C x.1.world)

    after_mark :
        (x : Option GoError) (w : W) (log : List Event)
        → count is_marked log ≡ 0
        → H w
        → (P.set_completed k w).0 ≡ returns x
        → (count is_marked (recorded "success" ∷ completion_marked k (returns x) ∷ log) ≡ 0)
          ⊎ ((◌≡◌ {A = Reply (Unit {0})} (returns tt) (returns tt)) × C (P.set_completed k w).1)
    after_mark none w log n h e = inr (refl, G.marks w h e)
    after_mark (some x) w log n h e = inl (omega (arith, n))

    delivered-Final :
        (r : Run W) → count is_marked r.log ≡ 0 → H r.world → Final (delivered F cfg P k r)
    unfolding delivered
    delivered-Final r n h =
        let counted : M W (Unit {0}) =
          modify (λ r. record r { total_processed = r.total_processed + 1 })
          >> note (recorded "success") in
        let w = (P.acknowledge r.task r.world).1 in
        let h' = G.acks r.task r.world h in
        call-rule Final (acknowledged r.task) (P.acknowledge r.task)
          (λ _. call (completion_marked k) (P.set_completed k) >>= λ _. counted) r
          (λ x e.
            call-rule Final (completion_marked k) (P.set_completed k) (λ _. counted)
              (record r { world = w; log = acknowledged r.task (returns x) ∷ r.log })
              (λ y e'.
                after_mark y w (acknowledged r.task (returns x) ∷ r.log) (omega (arith, n)) h' e')
              (λ v e'. inl (omega (arith, n))))
          (λ v e. inl (omega (arith, n)))

    after_send-Final :
        (x : Option GoError) (r : Run W)
        → count is_marked r.log ≡ 0
        → H r.world
        → Final (after_send F cfg P k x r)
    unfolding after_send
    after_send-Final none r n h = delivered-Final r n h
    after_send-Final (some e) r n h = inl (failed-Unmarked e r n)

    deliver-Final :
        (r : Run W) → count is_marked r.log ≡ 0 → H r.world → Final (deliver F cfg P k r)
    unfolding deliver
    deliver-Final r n h =
        let h' = G.sends r.task r.world h in
        call-rule Final (sent r.task) (P.send r.task) (after_send F cfg P k) r
          (λ x e. after_send-Final x _ (omega (arith, n)) h') (λ v e. inl (omega (arith, n)))

    after_reclaim-Final :
        (x : Bool × Option GoError) (r : Run W)
        → (x.0 ≡ true → H r.world)
        → count is_marked r.log ≡ 0
        → Final (after_reclaim F cfg P k x r)
    unfolding after_reclaim
    after_reclaim-Final (true, _) r h n = deliver-Final r n (h refl)
    after_reclaim-Final (false, _) r h n = inl (ground arith)

    reclaimed_held :
        (x : Bool × Option GoError) (w : W) (n : String) (d : ℤ)
        → (P.try_reclaim_stale k n d w).0 ≡ returns x
        → x.0 ≡ true
        → H (P.try_reclaim_stale k n d w).1
    reclaimed_held (true, e) w n d h said = G.reclaims n d e w h
    reclaimed_held (false, e) w n d h said = cc

    after_is_completed-Final :
        (x : Bool × Option GoError) (r : Run W)
        → count is_marked r.log ≡ 0
        → Final (after_is_completed F cfg P k x r)
    unfolding after_is_completed
    after_is_completed-Final (true, _) r n = inl (ground arith)
    after_is_completed-Final (false, _) r n =
        let name = cfg.consumer_name in
        let age = cfg.claim_idle_threshold in
        call-rule Final (stale_reclaimed k) (P.try_reclaim_stale k name age)
          (after_reclaim F cfg P k) r
          (λ x h. after_reclaim-Final x _ (reclaimed_held x r.world name age h) (omega (arith, n)))
          (λ v h. inl (omega (arith, n)))

    after_set_processing-Final :
        (x : Bool × Option GoError) (r : Run W)
        → (x.0 ≡ true → H r.world)
        → count is_marked r.log ≡ 0
        → Final (after_set_processing F cfg P k x r)
    unfolding after_set_processing
    after_set_processing-Final (true, _) r h n = deliver-Final r n (h refl)
    after_set_processing-Final (false, _) r h n =
        call-rule Final (completion_read k) (P.is_completed k) (after_is_completed F cfg P k) r
          (λ x h. after_is_completed-Final x _ (omega (arith, n))) (λ v h. inl (omega (arith, n)))

    locked_held :
        (x : Bool × Option GoError) (w : W) (n : String)
        → (P.set_processing k n w).0 ≡ returns x
        → x.0 ≡ true
        → H (P.set_processing k n w).1
    locked_held (true, e) w n h said = G.locks n e w h
    locked_held (false, e) w n h said = cc

    final_marked :
        (a : Reply (Unit {0})) (r : Run W) → Final (a, r) → 0 < count is_marked r.log → C r.world
    final_marked a r (inl n) marked = absurd (omega arith)
    final_marked a r (inr (returned, c)) marked = c

    process_body-Final :
        (r : Run W)
        → attempt_key r.task.id r.task.attempt ≡ k
        → count is_marked r.log ≡ 0
        → Final (process_body F cfg P r)
    unfolding process_body
    process_body-Final r key n = rw key (
        call-rule Final (lock_taken k) (P.set_processing k cfg.consumer_name)
          (after_set_processing F cfg P k) r
          (λ x h.
            after_set_processing-Final x _ (locked_held x r.world cfg.consumer_name h)
              (omega (arith, n)))
          (λ v h. inl (omega (arith, n))))

    recover-Final : (x : Reply (Unit {0}) × Run W) → Final x → Final (recover F cfg P x)
    unfolding recover
    recover-Final (returns _, r) q = q
    recover-Final (panics v, r) (inl n) = inl (ground arith)
    recover-Final (panics v, r) (inr (returned, c)) = cc

  -- Where a run of processTask, from an empty log on, has marked the attempt as completed without
  -- error, the world is one in which the key is marked.
  pub process_task_marked :
      (H C : W → Type 0)
      → Guards H C
      → (r : Run W) → r.log ≡ []
      → attempt_key r.task.id r.task.attempt ≡ k
      → 0 < count is_marked (process_task F cfg P r).1.log
      → C (process_task F cfg P r).1.world
  unfolding process_task release
  process_task_marked H C G r fresh key marked =
      let begun = record r { active = r.active + 1 } in
      let ended = recover F cfg P (process_body F cfg P begun) in
      final_marked H C G ended.0 ended.1
        (recover-Final H C G (process_body F cfg P begun)
          (process_body-Final H C G begun key (ap (count is_marked) fresh)))
        (omega (arith, marked))
