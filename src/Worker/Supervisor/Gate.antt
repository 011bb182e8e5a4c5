-- ===== src/Worker/Supervisor/Gate.antt =====
-- The idempotency gate of processTask in internal/worker/supervisor.go, by what the store answers for
-- the key of the attempt.
pub mod Marked
use mathlib.Core.Path.{subst}
use qtip_challenge.Base.{
  ℕ, ◌≤◌, ap, ◌+◌, String, ◌<>◌, Bool, true, false, ◌||◌, Option, none, some, List, [], ◌∷◌, ◌≡◌,
  refl, sym, ◌∙◌, arith,
}
use qtip_challenge.Base.Int.{ℤ}
use qtip_challenge.Domain.Errors.{GoError, plain, error_text}
use qtip_challenge.Domain.TaskStatus
use qtip_challenge.Domain.Task.{EmailTask, write_map}
use qtip_challenge.Domain.Retry.{Float64}
use qtip_challenge.Config.Types.{WorkerConfig}
use qtip_challenge.Worker.Ports.{
  Reply, returns, panics, Failable, Answer, Event, Ports, Run, M, call, ◌>>=◌, pure, note, modify,
  acknowledged, nacked, recorded, stats_recorded, lock_taken, completion_read, stale_reclaimed,
  completion_marked, sent,
}
use qtip_challenge.Worker.Protocol.Safety.{count, is_sent, is_acked}
use qtip_challenge.Worker.Supervisor.{
  is_permanent, attempt_key, clear_lock_and_nack, delivered, after_dlq, dead_letter, after_schedule,
  retry, failed, after_send, deliver, after_reclaim, after_is_completed, after_set_processing,
  process_body, recover, release, process_task,
}

-- What holds after a call and the steps that follow it, by the reply of the call.
pub call-rule :
    {W A : Type 0} (Q : Reply (Unit {0}) × Run W → Type 0) (entry : Reply A → Event)
    (f : W → Reply A × W) (k : A → M W (Unit {0})) (r : Run W)
    → ((x : A)
        → (f r.world).0 ≡ returns x
        → Q (k x (record r { world = (f r.world).1; log = entry (returns x) ∷ r.log })))
    → ((v : String)
        → (f r.world).0 ≡ panics v
        → Q (panics v, record r { world = (f r.world).1; log = entry (panics v) ∷ r.log }))
    → Q ((call entry f >>= k) r)
call-rule {W} {A} Q entry f k r on_return on_panic = split (f r.world) refl
  where
    split : (p : Reply A × W) → f r.world ≡ p → Q ((call entry (λ (w : W). p) >>= k) r)
    split (returns x, w) e =
        subst (λ (u : W). Q (k x (record r { world = u; log = entry (returns x) ∷ r.log })))
          (ap (λ (p : Reply A × W). p.1) e) (on_return x (ap (λ (p : Reply A × W). p.0) e))
    split (panics v, w) e =
        subst (λ (u : W). Q (panics v, record r { world = u; log = entry (panics v) ∷ r.log }))
          (ap (λ (p : Reply A × W). p.1) e) (on_panic v (ap (λ (p : Reply A × W). p.0) e))

returned_false :
    (x : Bool × Option GoError) (e : Option GoError)
    → ◌≡◌ {A = Answer} (returns x) (returns (false, e))
    → x.0 ≡ false
returned_false x e h = cc

module _ (F : Float64) {W : Type 0} (cfg : WorkerConfig) (P : Ports F.Carrier W) (k : String) where
  -- Worlds in which the store refuses the key to everyone, and which the calls of a refused
  -- delivery do not leave. `limit` is 1 where the store may say that the attempt is completed.
  pub record Blocks (B : W → Type 0) (limit : ℕ) : Type 0 where
    pub refuses :
        (w : W)
        → B w
        → (e : Option GoError) × ((P.set_processing k cfg.consumer_name w).0 ≡ returns (false, e))
          × B (P.set_processing k cfg.consumer_name w).1
    pub reads : (w : W) → B w → B (P.is_completed k w).1
    pub answers :
        (e : Option GoError) (w : W) → B w → (P.is_completed k w).0 ≡ returns (true, e) → 1 ≤ limit
    pub stays :
        (w : W)
        → B w
        → (e : Option GoError) × ((P.try_reclaim_stale k cfg.consumer_name cfg.claim_idle_threshold
              w).0
            ≡ returns (false, e))
          × B (P.try_reclaim_stale k cfg.consumer_name cfg.claim_idle_threshold w).1
    pub acks : (t : EmailTask) (w : W) → B w → B (P.acknowledge t w).1
    pub nacks : (t : EmailTask) (cause : GoError) (w : W) → B w → B (P.nack t cause w).1

  -- Nothing was sent yet, and at most so many messages were acknowledged.
  abbrev Quiet : ℕ → List Event → Type 0
  Quiet n log = (count is_sent log ≡ 0) × (count is_acked log ≤ n)

  module _ (B : W → Type 0) (limit : ℕ) (H : Blocks B limit) where
    abbrev Refused : Reply (Unit {0}) × Run W → Type 0
    Refused x = Quiet limit x.1.log × B x.1.world

    after_reclaim-Quiet :
        (x : Bool × Option GoError) (r : Run W)
        → x.0 ≡ false
        → Quiet 0 r.log
        → B r.world
        → Refused (after_reclaim F cfg P k x r)
    unfolding after_reclaim
    after_reclaim-Quiet (true, e) r h n b = cc
    after_reclaim-Quiet (false, e) r h n b =
        let cause = plain "idempotency lock actively held" in
        let done = H.nacks r.task cause r.world b in
        call-rule Refused (nacked r.task cause) (P.nack r.task cause) (λ _. pure tt) r
          (λ x e. (omega (arith, n), done)) (λ v e. (omega (arith, n), done))

    after_is_completed-Quiet :
        (x : Bool × Option GoError) (r : Run W)
        → (x.0 ≡ true → 1 ≤ limit)
        → Quiet 0 r.log
        → B r.world
        → Refused (after_is_completed F cfg P k x r)
    unfolding after_is_completed
    after_is_completed-Quiet (true, e) r allowed n b =
        let done = H.acks r.task r.world b in
        call-rule Refused (acknowledged r.task) (P.acknowledge r.task)
          (λ _. note (recorded "deduped")) r (λ x e. (omega (arith, n, allowed refl), done))
          (λ v e. (omega (arith, n), done))
    after_is_completed-Quiet (false, e) r allowed n b =
        let (e, refused, after) = H.stays r.world b in
        call-rule Refused (stale_reclaimed k)
          (P.try_reclaim_stale k cfg.consumer_name cfg.claim_idle_threshold)
          (after_reclaim F cfg P k) r
          (λ x h.
            after_reclaim-Quiet x _ (returned_false x e (sym h ∙ refused)) (omega (arith, n)) after)
          (λ v h. (omega (arith, n), after))

    completed_allowed :
        (x : Bool × Option GoError) (r : Run W)
        → (P.is_completed k r.world).0 ≡ returns x
        → B r.world
        → x.0 ≡ true
        → 1 ≤ limit
    completed_allowed (true, e) r h b said = H.answers e r.world b h
    completed_allowed (false, e) r h b said = cc

    after_set_processing-Quiet :
        (x : Bool × Option GoError) (r : Run W)
        → x.0 ≡ false
        → Quiet 0 r.log
        → B r.world
        → Refused (after_set_processing F cfg P k x r)
    unfolding after_set_processing
    after_set_processing-Quiet (true, e) r h n b = cc
    after_set_processing-Quiet (false, e) r h n b =
        let after = H.reads r.world b in
        call-rule Refused (completion_read k) (P.is_completed k) (after_is_completed F cfg P k) r
          (λ x h. after_is_completed-Quiet x _ (completed_allowed x r h b) (omega (arith, n)) after)
          (λ v h. (omega (arith, n), after))

    recover-Quiet : (x : Reply (Unit {0}) × Run W) → Refused x → Refused (recover F cfg P x)
    unfolding recover
    recover-Quiet (returns _, r) q = q
    recover-Quiet (panics v, r) q =
        let flagged = record (r.task) { metadata = write_map r.task.metadata "poison" "true" } in
        let r' = record r { task = flagged; total_failed = r.total_failed + 1 } in
        let cause = plain ("panic: " <> v) in
        let done = H.nacks flagged cause r.world q.1 in
        call-rule Refused (nacked flagged cause) (P.nack flagged cause) (λ _. pure tt) r'
          (λ x e. (omega (arith, q.0), done)) (λ v e. (omega (arith, q.0), done))

    process_body-Quiet :
        (r : Run W)
        → attempt_key r.task.id r.task.attempt ≡ k
        → Quiet 0 r.log
        → B r.world
        → Refused (process_body F cfg P r)
    unfolding process_body
    process_body-Quiet r key n b =
        let (e, refused, after) = H.refuses r.world b in
        rw key (
          call-rule Refused (lock_taken k) (P.set_processing k cfg.consumer_name)
            (after_set_processing F cfg P k) r
            (λ x h.
              after_set_processing-Quiet x _ (returned_false x e (sym h ∙ refused))
                (omega (arith, n)) after)
            (λ v h. (omega (arith, n), after)))

  -- A run of processTask, from an empty log on, for an attempt whose key the store refuses sends
  -- nothing, acknowledges at most `limit` times, and the store refuses the key afterwards too.
  pub process_task_blocked :
      (B : W → Type 0) (limit : ℕ)
      → Blocks B limit
      → (r : Run W) → r.log ≡ []
      → attempt_key r.task.id r.task.attempt ≡ k
      → B r.world
      → (count is_sent (process_task F cfg P r).1.log ≡ 0)
        × (count is_acked (process_task F cfg P r).1.log ≤ limit)
        × B (process_task F cfg P r).1.world
  unfolding process_task release
  process_task_blocked B limit H r fresh key b =
      let begun = record r { active = r.active + 1 } in
      let q =
        recover-Quiet B limit H (process_body F cfg P begun)
          (process_body-Quiet B limit H begun key (ground (arith, fresh)) b) in
      (omega (arith, q.0), omega (arith, q.0), q.1)
