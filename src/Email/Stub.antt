-- ===== src/Email/Stub.antt =====
-- internal/adapters/email/stub_sender.go. The random numbers and the timer are parameters.
pub mod Outcomes
use qtip_challenge.Base.{
  ℕ, ◌+◌, String, ◌<>◌, Bool, ◌&&◌, Option, none, some, List, [], ◌∷◌, if◌then◌else◌,
}
use qtip_challenge.Base.Int.{ℤ, pos, ltb_ℤ, leb_ℤ, ◌+ℤ◌, div_trunc}
use qtip_challenge.Domain.Errors.{GoError, GoErrors, nil, cons, plain, wrap, multi_error}
use qtip_challenge.Domain.Retry.{Float64}
use qtip_challenge.Domain.Task.{EmailTask}
use qtip_challenge.Worker.Ports.{Reply, returns, panics, Failable}

-- RealisticStubSender; its generator is part of the world.
pub record StubSender (F : Float64) : Type 0 where
  pub fail_rate : F.Carrier
  pub latency : ℤ

pub record Chances (F : Float64) (S : Type 0) : Type 0 where
  -- Int63n for a bound above 0, and Float64, of math/rand
  pub int63n : ℤ → S → ℤ × S
  pub float64 : S → F.Carrier × S
  -- the select of sleepWithContext for a time above 0: the timer, or ctx.Err()
  pub timer : ℤ → S → Option GoError × S

module _ (F : Float64) {S : Type 0} (C : Chances F S) where
  unfoldable pub sleep_with_context : ℤ → S → Option GoError × S
  sleep_with_context d s = if leb_ℤ d (pos 0) then (none, s) else C.timer d s

  -- The jitter: Int63n panics for a bound that is not above 0.
  unfoldable pub draw_jitter : ℤ → S → Reply ℤ × S
  draw_jitter latency s =
      if ltb_ℤ (pos 0) latency
      then if leb_ℤ (div_trunc latency 2) (pos 0)
        then (panics "invalid argument to Int63n", s)
        else (let (j, s') = C.int63n (div_trunc latency 2) s in (returns j, s'))
      else (returns (pos 0), s)

  -- `&&` draws only where the rate is above 0.
  unfoldable pub draw_failure : StubSender F → EmailTask → S → Option GoError × S
  draw_failure stub t s =
      let (x, s') = C.float64 s in
      if F.less (F.of_int (pos 0)) stub.fail_rate
      then if F.less x stub.fail_rate
        then (some (plain ("stub: simulated send failure for " <> t.id)), s')
        else (none, s')
      else (none, s)

  unfoldable pub send : StubSender F → EmailTask → S → Failable × S
  unfolding draw_jitter sleep_with_context draw_failure
  send stub t s =
      let (jitter, s1) = draw_jitter stub.latency s in
      elim jitter [
        | panics v ↦ (panics v, s1)
        | returns j ↦
            let (slept, s2) = sleep_with_context (stub.latency +ℤ j) s1 in
            elim slept [
              | some e ↦ (returns (some e), s2)
              | none ↦ let (failure, s3) = draw_failure stub t s2 in (returns failure, s3)
            ]
      ]

  -- The loop of SendBatch; a panic ends it.
  unfoldable pub batch_errors : StubSender F → List EmailTask → S → Reply GoErrors × S
  unfolding send
  batch_errors stub [] s = (returns nil, s)
  batch_errors stub (t ∷ ts) s =
      let (reply, s') = send stub t s in
      let (rest, s'') = batch_errors stub ts s' in
      elim reply [
        | panics v ↦ (panics v, s')
        | returns none ↦ (rest, s'')
        | returns (some e) ↦ elim rest [
          | panics v ↦ (panics v, s'')
          | returns es ↦ (returns (cons (wrap ("task " <> (t.id <> ": ")) e) es), s'')
        ]
      ]

  unfoldable pub send_batch : StubSender F → List EmailTask → S → Failable × S
  unfolding batch_errors
  send_batch stub ts s =
      let (reply, s') = batch_errors stub ts s in
      elim reply [ panics v ↦ (panics v, s') | returns es ↦ (returns (multi_error es), s') ]
