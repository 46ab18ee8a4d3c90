-- ===== src/Strategy/Eth/Evaluate.antt =====
-- The entries of src/strategy/eth/mod.rs: `evaluate`, which makes the hourly features, and
-- `evaluate_feature`, which checks the observation; and the entry of src/strategy/mod.rs that the EVM
-- runner calls.
use lp_maker.Base.{
  ◌+◌, ◌-◌, Bool, true, false, ◌&&◌, ◌||◌, not, none, some, [], ◌∷◌, Result, ok, err, ltb, leb,
  if◌then◌else◌, any, all,
}
use lp_maker.Float.{F64, ◌-f◌, ◌*f◌, ◌<f◌, ◌≤f◌, lit}
use lp_maker.Domain.{MarketFrame, hold, exit_to_quote, base, equity}
use lp_maker.Strategy.State.{
  Strategy, StrategyConfig, halted, Reason, stale_history, stale_observation,
  portfolio_drawdown_limit, is_halted,
}
use lp_maker.Strategy.Evaluate.{Evaluated, evaluate_inner}
use lp_maker.Strategy.Eth.State.{PersistentConfig}
use lp_maker.Strategy.Eth.Feature.{Feature, latest_feature, hour_ms}
use lp_maker.Strategy.Eth.Steps.{max_age}
use lp_maker.Strategy.Eth.Persistent.{evaluate_range}
use lp_maker.Strategy.Eth.Account.{with_managed, managed_equity, band_of}
use lp_maker.Strategy.Eth.Band.{evaluate_band}

module _ {ℓ} {W : Type ℓ} ⦃f : F64 W⦄ (c : StrategyConfig W) (frame : MarketFrame W) where
  open frame use {now_ms, pool, hedge_price, hedge_time_ms, candles, portfolio}

  -- The clocks of the pool and of the perpetual are not ahead.
  abbrev pub in_order : Bool
  in_order = leb pool.time_ms now_ms && leb hedge_time_ms now_ms

  abbrev pub too_old : Bool
  too_old = ltb (max_age c) (now_ms - pool.time_ms) || ltb (max_age c) (now_ms - hedge_time_ms)

  unfoldable pub unobserved : Feature W → Bool
  unobserved x =
      any (λ v. not (f.is_finite v))
        (pool.price
          ∷ hedge_price
          ∷ equity portfolio pool.price
          ∷ base portfolio
          ∷ portfolio.short_base
          ∷ x.close
          ∷ x.r1
          ∷ x.r6
          ∷ x.r24
          ∷ x.r72
          ∷ x.vol6
          ∷ [])
      || (pool.price ≤f lit 0)
      || (hedge_price ≤f lit 0)
      || (x.close ≤f lit 0)
      || not in_order
      || leb now_ms x.time
      || ltb (hour_ms + 60000) (now_ms - x.time)
      || too_old

  -- Nothing is traded, and the healthy hours are lost.
  unfoldable pub hold_unhealthy : Reason → Strategy W → Evaluated W
  hold_unhealthy reason s = record {
    strategy = record s { healthy_hours = 0 };
    decision = record {
      state = s.phase;
      reasons = reason ∷ [];
      lp = hold;
      target_short_base = portfolio.short_base;
      emergency = false;
    };
  }

  -- The strategy of a profile: with a band or without.
  abbrev pub evaluate_profile : PersistentConfig W → Feature W → Strategy W → Evaluated W
  evaluate_profile cfg x s = elim cfg.band [
    | none ↦ evaluate_range c frame cfg x s
    | some b ↦ evaluate_band c frame b cfg x s
  ]

  unfoldable pub evaluate_feature : PersistentConfig W → Feature W → Strategy W → Evaluated W
  unfolding hold_unhealthy
  evaluate_feature cfg x s =
      if unobserved x then hold_unhealthy stale_observation s else evaluate_profile cfg x s

  -- The account can be measured without the candles.
  unfoldable pub account_observed : Bool
  account_observed =
      all f.is_finite (pool.price ∷ hedge_price ∷ equity portfolio pool.price ∷ [])
      && (lit 0 <f pool.price)
      && (lit 0 <f hedge_price)
      && in_order
      && not too_old

  -- The equity that counts, on the strategy that may now know its origin.
  abbrev pub equity_of : PersistentConfig W → Strategy W → W
  equity_of cfg s =
      let raw = equity portfolio pool.price in
      elim cfg.band [
        | none ↦ raw
        | some b ↦ (managed_equity c raw (band_of s.eth_persistent)).risk_equity
      ]

  abbrev pub managed : PersistentConfig W → Strategy W → Strategy W
  managed cfg s = elim cfg.band [
    | none ↦ s
    | some b ↦ with_managed c (equity portfolio pool.price) s
  ]

  unfoldable pub with_peak : PersistentConfig W → Strategy W → Strategy W
  unfolding with_managed managed_equity
  with_peak cfg s =
      let t = managed cfg s in
      record t {
        peak_equity = f.f64_max (f.f64_max s.peak_equity (equity_of cfg s)) c.total_capital;
      }

  -- A drawdown is seen even where the candles are not.
  unfoldable pub check_drawdown : PersistentConfig W → Evaluated W → Evaluated W
  unfolding with_peak managed_equity
  check_drawdown cfg r =
      let s = with_peak cfg r.strategy in
      if not account_observed
      then r
      else if is_halted s.phase
          || (equity_of cfg r.strategy ≤f s.peak_equity *f (lit 1 -f c.max_drawdown))
      then record {
        strategy = record s { phase = halted };
        decision = record {
          state = halted;
          reasons = portfolio_drawdown_limit ∷ [];
          lp = exit_to_quote;
          target_short_base = base portfolio;
          emergency = true;
        };
      }
      else record r { strategy = s }

  abbrev pub with_feature : PersistentConfig W → Result (Feature W) → Strategy W → Evaluated W
  with_feature cfg (ok x) s = evaluate_feature cfg x s
  with_feature cfg (err message) s = check_drawdown cfg (hold_unhealthy (stale_history message) s)

  -- `eth::evaluate`.
  unfoldable pub evaluate_eth : PersistentConfig W → Strategy W → Evaluated W
  evaluate_eth cfg s = with_feature cfg (latest_feature candles now_ms) s

  unfoldable pub evaluate_with_continuity : Strategy W → Evaluated W
  evaluate_with_continuity s = elim c.eth_persistent [
    | none ↦ evaluate_inner c frame true s
    | some cfg ↦ evaluate_eth cfg s
  ]
