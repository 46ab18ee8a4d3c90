-- ===== src/Strategy/Evaluate.antt =====
-- `Strategy::evaluate_inner` of src/strategy/mod.rs: the decision. Its blocks stand in
-- `Market`, `Progress`, `Phases` and `Breakout`.
use lp_maker.Base.{
  Bool, true, false, ◌&&◌, not, List, [], ◌∷◌, ◌++◌, map, Result, ok, err, if◌then◌else◌, is_empty,
  String,
}
use lp_maker.Float.{F64, lit}
use lp_maker.Domain.{MarketFrame, LpIntent, hold, exit_to_quote, recenter, base}
use lp_maker.Strategy.State.{
  Strategy, StrategyConfig, halted, Reason, risk, stale_or_invalid_data, portfolio_drawdown_limit,
  indicator_warmup_or_gap, CounterEvent, unchanged, reset_market_risk, waiting_next_hour, Decision,
  is_halted,
}
use lp_maker.Strategy.Indicators.{Metrics, calculate}
use lp_maker.Strategy.Progress.{
  Recheck, freeze_recovery_progress, recheck_progress, report_progress,
}
use lp_maker.Strategy.Market.{
  begin, unusable, refuse, drawn_down, mark_drawdown, risks, unsafe_market, blocked_by,
  after_market,
}
use lp_maker.Strategy.Breakout.{turn_bar, is_new_bar, sweep}
use lp_maker.Strategy.Phases.{Advance, stop, proceed, count_hour, advance}

abbrev is_unchanged : CounterEvent → Bool
is_unchanged unchanged = true
is_unchanged _ = false

abbrev pub is_hold {ℓ} : {W : Type ℓ} → LpIntent W → Bool
is_hold hold = true
is_hold _ = false

-- The strategy after a call and what the call returns.
pub record Evaluated {ℓ} (W : Type ℓ) : Type ℓ where
  pub strategy : Strategy W
  pub decision : Decision W

module _ {ℓ} {W : Type ℓ} ⦃f : F64 W⦄ (c : StrategyConfig W) (frame : MarketFrame W) where
  open frame use {now_ms, candles, portfolio}

  abbrev pub settle : LpIntent W → List String → LpIntent W
  settle lp resets = if is_hold lp && not (is_empty resets) then recenter resets else lp

  -- The bars, the layers and the hedge target.
  unfoldable pub finish : Advance W → Evaluated W
  finish (stop s d) = record { strategy = s; decision = d }
  finish (proceed s lp reasons) =
      let turned = turn_bar c frame s in
      let swept = sweep c frame.pool.price (is_new_bar c frame s) portfolio.positions (record {
        layers = turned.layers;
        target = portfolio.wallet_base;
        emergency = false;
        resets = [];
      }) in
      record {
        strategy = record turned { layers = swept.layers };
        decision = record {
          state = turned.phase;
          reasons = reasons;
          lp = settle lp swept.resets;
          target_short_base = f.f64_max swept.target (lit 0);
          emergency = swept.emergency;
        };
      }

  -- The blocks between the checks of the market and the phases.
  abbrev pub event_of : Bool → Bool → CounterEvent → CounterEvent
  event_of continuity unsafe event = if unsafe && continuity then reset_market_risk else event

  unfoldable pub recheck : Bool → Metrics W → Strategy W → Recheck W
  recheck continuity m s =
      if continuity && not (unsafe_market c frame m)
      then recheck_progress s frame m (blocked_by c frame m)
      else record { strategy = s; added = []; event = unchanged }

  unfoldable pub account : Bool → Metrics W → CounterEvent → Strategy W → Strategy W
  account continuity m event s =
      let unsafe = unsafe_market c frame m in
      let blocked = blocked_by c frame m in
      let counted =
        count_hour c frame continuity m unsafe (is_empty blocked) (event_of continuity unsafe event)
          (after_market c frame continuity m s) in
      if continuity
      then report_progress counted.strategy c frame m blocked
          (if is_unchanged counted.event then waiting_next_hour else counted.event)
      else counted.strategy

  unfoldable pub judge : Bool → Metrics W → Strategy W → Evaluated W
  judge continuity m s =
      let r = recheck continuity m s in
      let s' = account continuity m r.event r.strategy in
      finish (
        advance c frame s'.phase continuity (unsafe_market c frame m)
          (is_empty (blocked_by c frame m)) (map risk (risks c frame m) ++ r.added) s')

  unfoldable pub halt : List Reason → Strategy W → Evaluated W
  halt reasons s = record {
    strategy = s;
    decision = record {
      state = halted;
      reasons = reasons;
      lp = exit_to_quote;
      target_short_base = base portfolio;
      emergency = true;
    };
  }

  unfoldable pub refused : Strategy W → Evaluated W
  refused s = record {
    strategy = s;
    decision = record {
      state = s.phase;
      reasons = stale_or_invalid_data ∷ [];
      lp = hold;
      target_short_base = portfolio.short_base;
      emergency = false;
    };
  }

  unfoldable pub unmeasured : Bool → String → Strategy W → Evaluated W
  unmeasured continuity message s = record {
    strategy = if continuity then freeze_recovery_progress s else s;
    decision = record {
      state = s.phase;
      reasons = indicator_warmup_or_gap message ∷ [];
      lp = hold;
      target_short_base = base portfolio;
      emergency = not (is_empty portfolio.positions);
    };
  }

  unfoldable pub measured : Bool → Result (Metrics W) → Strategy W → Evaluated W
  measured continuity (ok m) s = judge continuity m s
  measured continuity (err message) s = unmeasured continuity message s

  unfoldable pub evaluate_inner : Bool → Strategy W → Evaluated W
  evaluate_inner continuity s =
      let s₀ = begin c frame s in
      let s₁ = mark_drawdown c frame s₀ in
      if unusable c frame
      then refused (refuse c frame continuity s₀)
      else if is_halted s₁.phase
      then halt (if drawn_down c frame s₀ then portfolio_drawdown_limit ∷ [] else []) s₁
      else measured continuity (calculate candles c now_ms) s₁

-- The entry of the Solana runner.
unfoldable pub evaluate {ℓ} :
    {W : Type ℓ} ⦃f : F64 W⦄ → StrategyConfig W → MarketFrame W → Strategy W → Evaluated W
evaluate c frame s = evaluate_inner c frame false s
