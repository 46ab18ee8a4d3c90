-- ===== src/Strategy/Progress.antt =====
-- src/strategy/progress.rs: what survives a short interruption of the observations.
use lp_maker.Base.{
  ℕ, ◌+◌, ◌-◌, ◌/◌, Bool, true, false, ◌&&◌, ◌||◌, not, Option, none, some, List, [], ◌∷◌, ◌++◌,
  ltb, ◌==◌, if◌then◌else◌, any, is_empty, is_none,
}
use mathlib.Core.Bool.{decide}
use lp_maker.Float.{F64, ◌*f◌, ◌<f◌, ◌≤f◌, lit}
use lp_maker.Domain.{Candle, MarketFrame}
use lp_maker.Strategy.State.{
  Strategy, StrategyConfig, Report, Reset, Cause, Cause-discrete, Reason, CounterEvent,
  resume_volatility_high, new_hourly_low, below_fast_ema, legacy_without_observation,
  observation_clock_reversed, observation_gap_over_grace, hourly_gap, completed_candle_changed,
  resume_conditions_failed, recovery_progress_reset, recovery_progress_retained, unchanged,
  rechecked_empty, reset_after_recheck, retained_after_recheck, hours_ms,
}
use lp_maker.Strategy.Indicators.{Metrics}

abbrev pub recheck_grace_ms : ℕ
recheck_grace_ms = 300000

abbrev pub div_ceil : ℕ → ℕ → ℕ
div_ceil a b = (a + b - 1) / b

abbrev pub same_cause : Cause → Cause → Bool
same_cause a b = decide (Cause-discrete a b)

abbrev pub only_if : Bool → Cause → List Cause
only_if true cause = cause ∷ []
only_if false cause = []

-- `last_reset` names this reason already.
abbrev pub names : Option Reset → Cause → Bool
names none cause = false
names (some r) cause = same_cause r.reason cause

-- The strategy, the reasons to add and the event.
pub record Recheck {ℓ} (W : Type ℓ) : Type ℓ where
  pub strategy : Strategy W
  pub added : List Reason
  pub event : CounterEvent

abbrev pub revalidated {ℓ} : {W : Type ℓ} → Strategy W → Strategy W
revalidated s =
    let progress = s.recovery_progress in
    record s { recovery_progress = record progress { pending_revalidation = false } }

module _ {ℓ} {W : Type ℓ} where
  unfoldable pub freeze_recovery_progress : Strategy W → Strategy W
  freeze_recovery_progress s =
      let progress = s.recovery_progress in
      record s { recovery_progress = record progress { pending_revalidation = true } }

  unfoldable pub reset_healthy_progress : Strategy W → ℕ → Cause → Strategy W
  reset_healthy_progress s now cause =
      let progress = s.recovery_progress in
      let reset : Reset = record {
        time_ms = now;
        previous_hours = s.healthy_hours;
        reason = cause;
      } in
      if ltb 0 s.healthy_hours || not (names progress.last_reset cause)
      then record s {
        healthy_hours = 0;
        recovery_progress = record progress { last_reset = some reset };
      }
      else record s { healthy_hours = 0 }

module _ {ℓ} {W : Type ℓ} ⦃f : F64 W⦄ where
  unfoldable pub blockers : StrategyConfig W → MarketFrame W → Metrics W → List Cause → List Cause
  blockers c frame m risk =
      risk
      ++ (only_if (c.vol_resume_ratio ≤f m.vol_ratio) resume_volatility_high
          ++ (only_if (not m.no_new_low) new_hourly_low
              ++ only_if (frame.pool.price <f m.ema_fast) below_fast_ema))

  unfoldable pub same_bar : Candle W → Candle W → Bool
  same_bar a b =
      (a.open_ms == b.open_ms)
      && (a.close_ms == b.close_ms)
      && f.eq a.opening b.opening
      && f.eq a.high b.high
      && f.eq a.low b.low
      && f.eq a.close b.close

  -- The anchor closes the last counted hour and stands unchanged among the candles.
  unfoldable pub anchored : Option (Candle W) → ℕ → List (Candle W) → Bool
  anchored none last_hour candles = false
  anchored (some a) last_hour candles = (a.close_ms == last_hour) && any (same_bar a) candles

  -- Why the progress of before the interruption cannot be kept.
  unfoldable pub recheck_cause : Strategy W → MarketFrame W → Metrics W → List Cause → Option Cause
  recheck_cause s frame m blocked =
      let p = s.recovery_progress in
      if (p.observed_ms == 0) || is_none p.anchor
      then some legacy_without_observation
      else if ltb frame.now_ms p.observed_ms
      then some observation_clock_reversed
      else if ltb recheck_grace_ms (frame.now_ms - p.observed_ms)
      then some observation_gap_over_grace
      else if ltb m.last_close_ms s.last_hour || ltb 3600000 (m.last_close_ms - s.last_hour)
      then some hourly_gap
      else if not (anchored p.anchor s.last_hour frame.candles)
      then some completed_candle_changed
      else if not (is_empty blocked)
      then some resume_conditions_failed
      else none

  unfoldable pub conclude : Strategy W → MarketFrame W → Option Cause → Recheck W
  conclude s frame none = record {
    strategy = s;
    added =
        recovery_progress_retained s.healthy_hours
          (div_ceil (frame.now_ms - s.recovery_progress.observed_ms) 1000)
        ∷ [];
    event = retained_after_recheck;
  }
  conclude s frame (some cause) = record {
    strategy = reset_healthy_progress s frame.now_ms cause;
    added = recovery_progress_reset cause ∷ [];
    event = reset_after_recheck;
  }

  unfoldable pub recheck_progress : Strategy W → MarketFrame W → Metrics W → List Cause → Recheck W
  recheck_progress s frame m blocked =
      if not s.recovery_progress.pending_revalidation
      then record { strategy = s; added = []; event = unchanged }
      else if s.healthy_hours == 0
      then record { strategy = revalidated s; added = []; event = rechecked_empty }
      else conclude (revalidated s) frame (recheck_cause (revalidated s) frame m blocked)

  unfoldable pub find_bar : ℕ → List (Candle W) → Option (Candle W)
  find_bar close_ms [] = none
  find_bar close_ms (b ∷ rest) = if b.close_ms == close_ms then some b else find_bar close_ms rest

  unfoldable pub report_progress :
      Strategy W
      → StrategyConfig W
      → MarketFrame W
      → Metrics W
      → List Cause
      → CounterEvent
      → Strategy W
  report_progress s c frame m blocked event =
      let progress = s.recovery_progress in
      record s {
        recovery_progress = record progress {
          observed_ms = frame.now_ms;
          anchor = find_bar m.last_close_ms frame.candles;
          report = some report;
        };
      }
    where
      report : Report W
      report = record {
        observed_ms = frame.now_ms;
        completed_hour_ms = m.last_close_ms;
        recent_hours = c.vol_short_hours;
        baseline_hours = c.vol_long_hours;
        recent_vol_pct = m.recent_vol *f lit 100;
        baseline_vol_pct = m.baseline_vol *f lit 100;
        baseline_used_vol_pct = f.f64_max m.baseline_vol (f.decimal 1 6) *f lit 100;
        vol_ratio = m.vol_ratio;
        pause_ratio = c.vol_pause_ratio;
        resume_ratio = c.vol_resume_ratio;
        healthy_hours = s.healthy_hours;
        required_hours = c.resume_healthy_hours;
        cooldown_remaining_seconds =
            div_ceil (hours_ms c.cooldown_hours - (frame.now_ms - s.pause_since)) 1000;
        blockers = blocked;
        counter_event = event;
      }
