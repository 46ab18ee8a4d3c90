-- ===== src/Strategy/Market.antt =====
-- The first blocks of `Strategy::evaluate_inner` in src/strategy/mod.rs: the data, the drawdown and the
-- market. `continuity` is set by the EVM runner and not by the Solana one.
use lp_maker.Base.{
  ◌-◌, ◌*◌, Bool, true, false, ◌&&◌, ◌||◌, not, List, [], ◌∷◌, ◌++◌, ltb, if◌then◌else◌, is_empty,
  all,
}
use lp_maker.Float.{F64, ◌-f◌, ◌*f◌, ◌/f◌, ◌<f◌, lit}
use lp_maker.Domain.{MarketFrame, base, equity}
use lp_maker.Strategy.State.{
  Strategy, StrategyConfig, paused, halted, Cause, fast_drop, volatility_spike,
  persistent_downtrend, pool_perp_basis_limit, hour_not_healthy, wrap64, is_paused, is_halted,
  is_warmup, is_initial, observe_lp, clear_streaks,
}
use lp_maker.Strategy.Indicators.{Metrics}
use lp_maker.Strategy.Progress.{
  freeze_recovery_progress, reset_healthy_progress, blockers, only_if, revalidated,
}

abbrev pub first_cause : List Cause → Cause
first_cause [] = hour_not_healthy
first_cause (cause ∷ rest) = cause

module _ {ℓ} {W : Type ℓ} ⦃f : F64 W⦄ (c : StrategyConfig W) (frame : MarketFrame W) where
  open frame use {now_ms, pool, hedge_price, hedge_time_ms, candles, portfolio}

  abbrev pub price : W
  price = pool.price

  abbrev pub is_flat : Bool
  is_flat = is_empty portfolio.positions

  unfoldable pub begin : Strategy W → Strategy W
  begin s =
      let s' = observe_lp s (not is_flat) in
      if is_warmup s'.phase && not (is_initial s'.entry_history) && is_flat
      then record s' { phase = paused; pause_since = now_ms }
      else s'

  unfoldable pub stale : Bool
  stale =
      ltb (wrap64 (c.max_data_age_seconds * 1000)) (now_ms - pool.time_ms)
      || ltb (wrap64 (c.max_data_age_seconds * 1000)) (now_ms - hedge_time_ms)

  unfoldable pub valid : Bool
  valid =
      all f.is_finite
        (price ∷ hedge_price ∷ equity portfolio price ∷ base portfolio ∷ portfolio.short_base ∷ [])
      && (lit 0 <f price)
      && (lit 0 <f hedge_price)

  unfoldable pub unusable : Bool
  unusable = stale || not valid

  -- The state after data that cannot be used.
  unfoldable pub refuse : Bool → Strategy W → Strategy W
  refuse true s = freeze_recovery_progress s
  refuse false s =
      record (if is_halted s.phase then s else record s { phase = paused; pause_since = now_ms }) {
        healthy_hours = 0;
      }

  unfoldable pub new_peak : Strategy W → W
  new_peak s = f.f64_max (f.f64_max s.peak_equity (equity portfolio price)) c.total_capital

  unfoldable pub drawn_down : Strategy W → Bool
  drawn_down s = equity portfolio price <f new_peak s *f (lit 1 -f c.max_drawdown)

  unfoldable pub mark_drawdown : Strategy W → Strategy W
  mark_drawdown s = record s {
    peak_equity = new_peak s;
    phase = if drawn_down s then halted else s.phase;
  }

  module _ (m : Metrics W) where
    unfoldable pub fast : Bool
    fast =
        (m.return_1h <f f.neg c.fast_drop_1h)
        || (price /f m.last_close -f lit 1 <f f.neg c.fast_drop_1h)

    unfoldable pub wide_basis : Bool
    wide_basis = c.max_basis_bps <f f.abs (price /f hedge_price -f lit 1) *f lit 10000

    unfoldable pub shock : Bool
    shock = c.vol_pause_ratio <f m.vol_ratio

    unfoldable pub risks : List Cause
    risks =
        only_if fast fast_drop
        ++ (only_if shock volatility_spike
            ++ (only_if m.downtrend persistent_downtrend
                ++ only_if wide_basis pool_perp_basis_limit))

    unfoldable pub unsafe_market : Bool
    unsafe_market = fast || shock || m.downtrend || wide_basis

  -- What an unsafe market does to the state.
  unfoldable pub pause_market : Bool → List Cause → Strategy W → Strategy W
  pause_market continuity blocked s =
      let s' = record s {
        pause_since = if is_paused s.phase then s.pause_since else now_ms;
        phase = paused;
      } in
      let s'' =
        if continuity
        then reset_healthy_progress (revalidated s') now_ms (first_cause blocked)
        else record s' { healthy_hours = 0 } in
      record s'' { fraction = lit 0; layers = clear_streaks s''.layers }

  -- The causes that block a resumption in this market.
  abbrev pub blocked_by : Metrics W → List Cause
  blocked_by m = blockers c frame m (risks m)

  unfoldable pub after_market : Bool → Metrics W → Strategy W → Strategy W
  after_market continuity m s =
      if unsafe_market m then pause_market continuity (blocked_by m) s else s
