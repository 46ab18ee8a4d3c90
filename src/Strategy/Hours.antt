-- ===== src/Strategy/Hours.antt =====
-- How healthy hours are counted by src/strategy/mod.rs and kept by src/strategy/progress.rs.
use lp_maker.Base.{◌+◌, ◌≤◌, ◌<◌, ◌≡◌, inl, inr, true, false, none, [], arith, Option-cases}
use lp_maker.Float.{F64}
use lp_maker.Domain.{MarketFrame}
use lp_maker.Strategy.State.{Strategy, StrategyConfig}
use lp_maker.Strategy.Indicators.{Metrics}
use lp_maker.Strategy.Progress.{reset_healthy_progress, recheck_progress, recheck_cause, conclude}
use lp_maker.Strategy.Market.{unsafe_market, blocked_by}
use lp_maker.Strategy.Phases.{Advance, stop, proceed}
use lp_maker.Strategy.Evaluate.{recheck}
use lp_maker.Strategy.Progress.{recheck_grace_ms, anchored, revalidated}

module _ {W : Type 0} ⦃f : F64 W⦄ (c : StrategyConfig W) (frame : MarketFrame W) where
  -- The hours and the last hour are those of `t`.
  abbrev KeepsHours : Strategy W → Advance W → Type 0
  KeepsHours t (stop u d) = (u.healthy_hours ≡ t.healthy_hours) × (u.last_hour ≡ t.last_hour)
  KeepsHours t (proceed u lp reasons) =
      (u.healthy_hours ≡ t.healthy_hours) × (u.last_hour ≡ t.last_hour)

  -- What an interrupted observation has to show before its healthy hours are kept.
  pub record Proven (m : Metrics W) (s : Strategy W) : Type 0 where
    pub observed : 0 < s.recovery_progress.observed_ms
    pub in_order : s.recovery_progress.observed_ms ≤ frame.now_ms
    pub in_grace : frame.now_ms ≤ s.recovery_progress.observed_ms + recheck_grace_ms
    pub hour_order : s.last_hour ≤ m.last_close_ms
    pub hour_gap : m.last_close_ms ≤ s.last_hour + 3600000
    pub anchor : anchored s.recovery_progress.anchor s.last_hour frame.candles ≡ true
    pub unblocked : blocked_by c frame m ≡ []

  recheck_cause-none :
      (m : Metrics W) (s : Strategy W)
      → recheck_cause s frame m (blocked_by c frame m) ≡ none
      → Proven m s
  unfolding recheck_cause
  recheck_cause-none m s e = ground arith

  -- After an interruption in a market that is not unsafe, healthy hours survive only if the last
  -- observation is known and at most five minutes old, the completed hours go on without a gap, the candle
  -- of the last counted hour is unchanged, and nothing blocks a resumption.
  pub recheck-Proven :
      (m : Metrics W) (s : Strategy W)
      → unsafe_market c frame m ≡ false
      → s.recovery_progress.pending_revalidation ≡ true
      → 0 < (recheck c frame true m s).strategy.healthy_hours
      → Proven m s
  unfolding recheck recheck_progress conclude reset_healthy_progress
  recheck-Proven m s safe pending kept =
      elim (Option-cases (recheck_cause (revalidated s) frame m (blocked_by c frame m))) [
        | inl e ↦ ground (arith, recheck_cause-none m (revalidated s) e)
        | inr (cause, e) ↦ absurd (ground arith)
      ]
