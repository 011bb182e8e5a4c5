-- ===== src/Email/Stub/Outcomes.antt =====
-- When the stub sender panics, and when it cannot fail.
use qtip_challenge.Base.{
  zero, suc, ◌+◌, ◌/◌, true, false, none, ◌≡◌, ◌≢◌, inl, inr, refl, arith, Bool-cases, leb,
}
use qtip_challenge.Base.Int.{ℤ, pos, negsuc, ltb_ℤ, leb_ℤ, ◌+ℤ◌, div_trunc}
use qtip_challenge.Domain.Retry.{Float64}
use qtip_challenge.Domain.Task.{EmailTask}
use qtip_challenge.Worker.Ports.{returns, panics}
use qtip_challenge.Email.Stub.{
  StubSender, Chances, sleep_with_context, draw_jitter, draw_failure, send,
}

module _ (F : Float64) {S : Type 0} (C : Chances F S) where
  draw_jitter-returns :
      (latency : ℤ) (s : S)
      → latency ≢ pos 1
      → (j : ℤ) × ((draw_jitter F C latency s).0 ≡ returns j)
  unfolding draw_jitter div_trunc
  draw_jitter-returns (negsuc n) s h =
      let negative : ltb_ℤ (pos 0) (negsuc n) ≡ false = ground arith in (pos 0, rw (negative))
  draw_jitter-returns (pos zero) s h = (pos 0, refl)
  draw_jitter-returns (pos (suc zero)) s h = absurd (h refl)
  draw_jitter-returns (pos (suc (suc n))) s h =
      let positive : ltb_ℤ (pos 0) (pos (suc (suc n))) ≡ true = ground arith in
      let even : leb (suc (suc n) / 2 + 0) (0 + 0) ≡ false = ground arith in
      ((C.int63n (pos (suc (suc n) / 2)) s).0, rw (positive, even))

  sleep-none :
      (d : ℤ) (s : S)
      → ((d' : ℤ) (w : S) → (C.timer d' w).0 ≡ none)
      → (sleep_with_context F C d s).0 ≡ none
  unfolding sleep_with_context
  sleep-none d s uncut = elim (Bool-cases (leb_ℤ d (pos 0))) [
    | inl past ↦ rw (past)
    | inr later ↦ rw (later, uncut d s)
  ]

  -- With a failure rate that is not above 0.
  draw_failure-none :
      (stub : StubSender F) (t : EmailTask) (s : S)
      → F.less (F.of_int (pos 0)) stub.fail_rate ≡ false
      → (draw_failure F C stub t s).0 ≡ none
  unfolding draw_failure
  draw_failure-none stub t s h = rw (h)

  -- With a failure rate that is not above 0 and a timer that the context never cuts short: the stub
  -- sender panics for a latency of one nanosecond, where the bound of its jitter is 0, and succeeds
  -- for any other latency.
  stub_send_lem :
      (stub : StubSender F) (t : EmailTask) (s : S)
      → ((d : ℤ) (w : S) → (C.timer d w).0 ≡ none)
      → F.less (F.of_int (pos 0)) stub.fail_rate ≡ false
      → ((stub.latency ≡ pos 1) → (send F C stub t s).0 ≡ panics "invalid argument to Int63n")
        × (stub.latency ≢ pos 1 → (send F C stub t s).0 ≡ returns none)
  unfolding send div_trunc
  stub_send_lem stub t s uncut reliable = (
    λ e. rw (send, e),
    λ other.
        let (j, drawn) = draw_jitter-returns stub.latency s other in
        let s1 = (draw_jitter F C stub.latency s).1 in
        let d = stub.latency +ℤ j in
        let s2 = (sleep_with_context F C d s1).1 in
        rw (send, drawn, sleep-none d s1 uncut, draw_failure-none stub t s2 reliable),
  )
