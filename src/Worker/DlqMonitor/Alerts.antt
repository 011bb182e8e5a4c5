-- ===== src/Worker/DlqMonitor/Alerts.antt =====
-- What the DLQ monitor of internal/worker/dlq_monitor.go records and when it warns.

use qtip_challenge.Base.{
  String, Option, none, some, List, [], ◌∷◌, ◌≡◌, refl, ◌⊎◌, inl, inr, arith, Option-cases,
  Bool-cases, if◌then◌else◌,
}
use qtip_challenge.Base.Int.{ℤ, pos, ltb_ℤ, leb_ℤ, ◌<ℤ◌, ◌≤ℤ◌}
use qtip_challenge.Domain.Errors.{GoError}
use qtip_challenge.Worker.Ticker.{Wake, Standing, tick, cancelled, waiting, returned, new_ticker}
use qtip_challenge.Worker.DlqMonitor.{
  parse_dlq_key, Action, depth_recorded, alert, scrape_interval, alert_threshold, on_depth,
  scrape_key, scrape, scrape_loop, run,
}

module _ {W : Type 0} (dlq_depth : String → String → W → (ℤ × Option GoError) × W) where
  -- What is to come of one known key: nothing, and no read, for a malformed one; else its depth is
  -- read. Nothing for a read that failed, else the depth is recorded, with a warning above the
  -- threshold.
  abbrev pub Fits : ℤ → String → W → List Action → W → Type 0
  Fits threshold key w actions w' =
      ((parse_dlq_key key ≡ none) × (actions ≡ []) × (w' ≡ w))
      ⊎ ((tenant : String) × (type : String) × (parse_dlq_key key ≡ some (tenant, type))
          × (w' ≡ (dlq_depth tenant type w).1)
          × (((e : GoError) × ((dlq_depth tenant type w).0.1 ≡ some e) × (actions ≡ []))
              ⊎ (((dlq_depth tenant type w).0.1 ≡ none)
                  × (((threshold <ℤ (dlq_depth tenant type w).0.0)
                        × (actions
                            ≡ depth_recorded tenant type (dlq_depth tenant type w).0.0
                              ∷ alert key (dlq_depth tenant type w).0.0
                              ∷ []))
                      ⊎ (((dlq_depth tenant type w).0.0 ≤ℤ threshold)
                          × (actions
                              ≡ depth_recorded tenant type (dlq_depth tenant type w).0.0 ∷ []))))))

  -- One tick: the known keys in order, each from where the one before left the server.
  abbrev pub FitsTick : ℤ → List String → W → List (List Action) → W → Type 0
  FitsTick threshold [] w [] w' = w' ≡ w
  FitsTick threshold (key ∷ keys) w (actions ∷ rest) w'' =
      (w' : W) × Fits threshold key w actions w' × FitsTick threshold keys w' rest w''
  FitsTick threshold _ w _ w' = ⊥

  -- A run: a tick for each wake up to the cancellation, which ends it.
  abbrev pub FitsRun :
      ℤ → List String → List Wake → W → Standing → List (List (List Action)) → W → Type 0
  FitsRun threshold keys [] w standing [] w' = (standing ≡ waiting) × (w' ≡ w)
  FitsRun threshold keys (cancelled ∷ wakes) w standing [] w' = (standing ≡ returned) × (w' ≡ w)
  FitsRun threshold keys (tick now ∷ wakes) w standing (actions ∷ rest) w'' =
      (w' : W) × FitsTick threshold keys w actions w'
      × FitsRun threshold keys wakes w' standing rest w''
  FitsRun threshold keys _ w standing _ w' = ⊥

  scrape_key-Fits :
      (threshold : ℤ) (key : String) (w : W)
      → let (actions, w') = scrape_key dlq_depth threshold key w in Fits threshold key w actions w'
  unfolding scrape_key on_depth
  scrape_key-Fits threshold key w = elim (Option-cases (parse_dlq_key key)) [
    | inl malformed ↦ rw (scrape_key, malformed) (inl (refl, refl, refl))
    | inr ((tenant, type), read) ↦
        let answer = (dlq_depth tenant type w).0 in
        elim (Option-cases answer.1) [
          | inr (e, failed) ↦
              rw (scrape_key, read, on_depth, failed)
                (inr (tenant, type, refl, refl, inl (e, failed, refl)))
          | inl fine ↦ elim (Bool-cases (ltb_ℤ threshold answer.0)) [
            | inl above ↦
                rw (scrape_key, read, on_depth, fine, above)
                  (inr (tenant, type, refl, refl, inr (fine, inl (ground (arith, above), refl))))
            | inr below ↦
                rw (scrape_key, read, on_depth, fine, below)
                  (inr (tenant, type, refl, refl, inr (fine, inr (ground (arith, below), refl))))
          ]
        ]
  ]

  scrape-FitsTick :
      (threshold : ℤ) (keys : List String) (w : W)
      → let (actions, w') = scrape dlq_depth threshold keys w in
        FitsTick threshold keys w actions w'
  unfolding scrape
  scrape-FitsTick threshold [] w = refl
  scrape-FitsTick threshold (key ∷ keys) w = (
    (scrape_key dlq_depth threshold key w).1,
    scrape_key-Fits threshold key w,
    scrape-FitsTick threshold keys (scrape_key dlq_depth threshold key w).1,
  )

  scrape_loop-FitsRun :
      (threshold : ℤ) (keys : List String) (wakes : List Wake) (w : W)
      → let ((standing, ticks), w') = scrape_loop dlq_depth threshold keys wakes w in
        FitsRun threshold keys wakes w standing ticks w'
  unfolding scrape_loop
  scrape_loop-FitsRun threshold keys [] w = (refl, refl)
  scrape_loop-FitsRun threshold keys (cancelled ∷ wakes) w = (refl, refl)
  scrape_loop-FitsRun threshold keys (tick now ∷ wakes) w = (
    (scrape dlq_depth threshold keys w).1,
    scrape-FitsTick threshold keys w,
    scrape_loop-FitsRun threshold keys wakes (scrape dlq_depth threshold keys w).1,
  )

  new_ticker-scrape_interval : (interval : ℤ) → new_ticker (scrape_interval interval) ≡ none
  unfolding new_ticker scrape_interval
  new_ticker-scrape_interval interval = ground arith

  -- Whatever its interval and its threshold are set to, Run does not panic, and returns at the
  -- cancellation. Each tick before takes the known keys in order: a malformed key is passed over; of
  -- any other the depth is read, and recorded unless the read failed, with a warning exactly if it is
  -- above the threshold, 100 for one that is not positive.
  pub run_alerts :
      (interval threshold : ℤ) (keys : List String) (wakes : List Wake) (w : W)
      → let ((standing, ticks), w') = run dlq_depth interval threshold keys wakes w in
        FitsRun
          (if leb_ℤ threshold (pos 0) then pos 100 else threshold)
          keys
          wakes
          w
          standing
          ticks
          w'
  unfolding run alert_threshold
  run_alerts interval threshold keys wakes w =
      rw (run, new_ticker-scrape_interval interval)
        (scrape_loop-FitsRun (if leb_ℤ threshold (pos 0) then pos 100 else threshold) keys wakes w)
