-- ===== src/Strategy/Phases.antt =====
-- The middle blocks of `Strategy::evaluate_inner` in src/strategy/mod.rs: the count of healthy hours and
-- the phases.
use lp_maker.Base.{
  ℕ, ◌-◌, Bool, true, ◌&&◌, ◌||◌, not, List, [], ◌∷◌, ◌++◌, ltb, leb, if◌then◌else◌, is_empty,
  saturating_add, u32_max,
}
use lp_maker.Float.{F64, ◌+f◌, lit}
use lp_maker.Domain.{MarketFrame, LpIntent, hold, exit_to_quote, deploy, base}
use lp_maker.Strategy.State.{
  Strategy, StrategyConfig, Phase, warmup, active, paused, recovering, halted, hourly_gap,
  hour_not_healthy, Reason, initial_entry_waived, initial_entry_passed, resume_wait, CounterEvent,
  hour_counted, Decision, hours_ms, is_initial,
}
use lp_maker.Strategy.Indicators.{Metrics}
use lp_maker.Strategy.Progress.{reset_healthy_progress, div_ceil}

-- The strategy and the event for the report.
pub record Counted {ℓ} (W : Type ℓ) : Type ℓ where
  pub strategy : Strategy W
  pub event : CounterEvent

-- Either the decision is made, or the last block goes on with an intent and reasons.
pub data Advance {ℓ} (W : Type ℓ) : Type ℓ where
  stop : Strategy W → Decision W → Advance W
  proceed : Strategy W → LpIntent W → List Reason → Advance W

module _ {ℓ} {W : Type ℓ} ⦃f : F64 W⦄ (c : StrategyConfig W) (frame : MarketFrame W) where
  open frame use {now_ms, candles, portfolio}

  -- A new completed hour, counted if it is healthy.
  unfoldable pub count_hour : Bool → Metrics W → Bool → Bool → CounterEvent → Strategy W → Counted W
  count_hour continuity m unsafe healthy event s =
      let gapped =
        if ltb 0 s.last_hour && ltb 3600000 (m.last_close_ms - s.last_hour)
        then if continuity
          then reset_healthy_progress s now_ms hourly_gap
          else record s { healthy_hours = 0 }
        else s in
      let s' = record gapped { last_hour = m.last_close_ms } in
      if not (ltb s.last_hour m.last_close_ms)
      then record { strategy = s; event = event }
      else if healthy
      then record {
        strategy = record s' { healthy_hours = saturating_add u32_max s'.healthy_hours 1 };
        event = hour_counted;
      }
      else if continuity && not unsafe
      then record { strategy = reset_healthy_progress s' now_ms hour_not_healthy; event = event }
      else record { strategy = record s' { healthy_hours = 0 }; event = event }

  -- Enough healthy hours and, since a pause or a step, enough time.
  abbrev pub rested : Strategy W → ℕ → ℕ → Bool
  rested s since hours =
      leb c.resume_healthy_hours s.healthy_hours && leb (hours_ms hours) (now_ms - since)

  unfoldable pub can_resume : Bool → Bool → Bool → Strategy W → Bool
  can_resume continuity unsafe healthy s =
      not unsafe && (not continuity || healthy) && rested s s.pause_since c.cooldown_hours

  -- The decision of a pause that goes on.
  abbrev pub waiting : List Reason → Strategy W → Decision W
  waiting reasons s = record {
    state = paused;
    reasons =
        reasons
        ++ resume_wait (div_ceil (hours_ms c.cooldown_hours - (now_ms - s.pause_since)) 1000)
            s.healthy_hours c.resume_healthy_hours
          ∷ [];
    lp = exit_to_quote;
    target_short_base = base portfolio;
    emergency = true;
  }

  unfoldable pub advance_paused : Bool → Bool → Bool → List Reason → Strategy W → Advance W
  unfolding can_resume
  advance_paused continuity unsafe healthy reasons s =
      if is_initial s.entry_history && not unsafe
      then proceed (record s { phase = active; fraction = lit 1 }) (deploy (lit 1))
          (reasons ++ initial_entry_waived ∷ [])
      else if can_resume continuity unsafe healthy s
      then proceed
          (record s { phase = recovering; fraction = c.recovery_fraction; last_scale = now_ms })
          (deploy c.recovery_fraction) reasons
      else stop s (waiting reasons s)

  unfoldable pub advance_warmup : List Reason → Strategy W → Advance W
  advance_warmup reasons s =
      let s' = record s { phase = active; fraction = lit 1 } in
      if is_empty portfolio.positions
      then proceed s' (deploy (lit 1)) (reasons ++ initial_entry_passed ∷ [])
      else proceed s' hold reasons

  unfoldable pub advance_recovering : Bool → Bool → List Reason → Strategy W → Advance W
  advance_recovering continuity healthy reasons s =
      let more = f.f64_min (s.fraction +f c.recovery_fraction) (lit 1) in
      if (not continuity || healthy) && rested s s.last_scale c.recovery_step_hours
      then proceed
          (record s {
            fraction = more;
            last_scale = now_ms;
            phase = if f.le (lit 1) more then active else recovering;
          })
          (deploy more) reasons
      else proceed s hold reasons

  unfoldable pub advance : Phase → Bool → Bool → Bool → List Reason → Strategy W → Advance W
  unfolding advance_paused advance_warmup advance_recovering
  advance paused continuity unsafe healthy reasons s =
      advance_paused continuity unsafe healthy reasons s
  advance warmup continuity unsafe healthy reasons s = advance_warmup reasons s
  advance recovering continuity unsafe healthy reasons s =
      advance_recovering continuity healthy reasons s
  advance active continuity unsafe healthy reasons s = proceed s hold reasons
  advance halted continuity unsafe healthy reasons s = proceed s hold reasons
