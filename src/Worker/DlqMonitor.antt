-- ===== src/Worker/DlqMonitor.antt =====
-- internal/worker/dlq_monitor.go. Warnings of the log are kept as alerts, other lines are left out.
pub mod Alerts
pub mod Keys
use Prim.Native.Char.{code}
use Prim.Native.String.{[] as end, ◌∷◌ as ◌before◌}
use qtip_challenge.Base.{ℕ, ◌*◌, String, Option, none, some, List, [], ◌∷◌, ◌==◌, if◌then◌else◌}
use qtip_challenge.Base.Texts.{strip_prefix}
use qtip_challenge.Base.Int.{ℤ, pos, ltb_ℤ, leb_ℤ}
use qtip_challenge.Domain.Errors.{GoError}
use qtip_challenge.Domain.Retry.{second}
use qtip_challenge.Worker.Ticker.{
  Wake, tick, cancelled, Standing, waiting, returned, panicked, new_ticker,
}

-- The parts before and behind the first ":", which `strings.Index` finds.
unfoldable pub cut_colon : String → Option (String × String)
cut_colon end = none
cut_colon (◌before◌ c cs) =
    let rest = cut_colon cs in
    if code c == b':'
    then some ("", cs)
    else elim rest [ none ↦ none | some (a, b) ↦ some (◌before◌ c a, b) ]

-- Both parts must be there: `idx <= 0 || idx >= len(rest)-1` is refused.
unfoldable pub both_parts : String × String → Option (String × String)
both_parts (end, b) = none
both_parts (◌before◌ c a, end) = none
both_parts (◌before◌ c a, ◌before◌ d b) = some (◌before◌ c a, ◌before◌ d b)

unfoldable pub parse_dlq_key : String → Option (String × String)
unfolding strip_prefix cut_colon both_parts
parse_dlq_key key = elim (strip_prefix "queue:dlq:" key) [
  | none ↦ none
  | some rest ↦ elim (cut_colon rest) [ none ↦ none | some parts ↦ both_parts parts ]
]

-- What a scrape does: RecordDLQDepth, and the warning dlq.depth_threshold_exceeded.
pub data Action : Type 0 where
  depth_recorded : String → String → ℤ → Action
  alert : String → ℤ → Action

-- Interval and threshold of Run, with the defaults for values that are not positive.
unfoldable pub scrape_interval : ℤ → ℤ
scrape_interval interval = if leb_ℤ interval (pos 0) then pos (30 * second) else interval

unfoldable pub alert_threshold : ℤ → ℤ
alert_threshold threshold = if leb_ℤ threshold (pos 0) then pos 100 else threshold

module _ {W : Type 0} (dlq_depth : String → String → W → (ℤ × Option GoError) × W) where
  unfoldable pub on_depth : ℤ → String → String × String → ℤ × Option GoError → List Action
  on_depth threshold key (tenant, type) (depth, some e) = []
  on_depth threshold key (tenant, type) (depth, none) =
      depth_recorded tenant type depth
      ∷ (if ltb_ℤ threshold depth then alert key depth ∷ [] else [])

  unfoldable pub scrape_key : ℤ → String → W → List Action × W
  unfolding on_depth
  scrape_key threshold key w = elim (parse_dlq_key key) [
    | none ↦ ([], w)
    | some (tenant, type) ↦
        let (answer, w') = dlq_depth tenant type w in
        (on_depth threshold key (tenant, type) answer, w')
  ]

  -- The actions for each key in turn.
  unfoldable pub scrape : ℤ → List String → W → List (List Action) × W
  unfolding scrape_key
  scrape threshold [] w = ([], w)
  scrape threshold (key ∷ keys) w =
      let (a, w') = scrape_key threshold key w in
      let (rest, w'') = scrape threshold keys w' in (a ∷ rest, w'')

  -- The select loop of Run, on the wakes so far, with the actions of each tick.
  unfoldable pub scrape_loop :
      ℤ → List String → List Wake → W → (Standing × List (List (List Action))) × W
  unfolding scrape
  scrape_loop threshold keys [] w = ((waiting, []), w)
  scrape_loop threshold keys (cancelled ∷ wakes) w = ((returned, []), w)
  scrape_loop threshold keys (tick now ∷ wakes) w =
      let (actions, w') = scrape threshold keys w in
      let ((standing, rest), w'') = scrape_loop threshold keys wakes w' in
      ((standing, actions ∷ rest), w'')

  unfoldable pub run :
      ℤ → ℤ → List String → List Wake → W → (Standing × List (List (List Action))) × W
  unfolding scrape_loop new_ticker scrape_interval alert_threshold
  run interval threshold keys wakes w = elim (new_ticker (scrape_interval interval)) [
    | some v ↦ ((panicked v, []), w)
    | none ↦ scrape_loop (alert_threshold threshold) keys wakes w
  ]
