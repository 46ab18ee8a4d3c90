-- ===== src/Solana/Regime/Examples.antt =====
-- The theorems on src/solana/regime.rs at concrete inputs: 25 hours, the last of which rises.
use lp_maker.Base.{
  ℕ, zero, suc, ◌+◌, ◌*◌, ◌-◌, ◌≤◌, ◌≡◌, refl, List, [], ◌∷◌, ◌++◌, length, take, none,
}
use lp_maker.Float.{sum}
use lp_maker.Domain.{Candle, MarketFrame, LpPosition, base, equity}
use lp_maker.Strategy.State.{Phase, default, observe_lp, hours_ms}
use lp_maker.Strategy.Samples.{whole, settings, hour, empty_wallet, snapshot, at_rest}
use lp_maker.Strategy.Indicators.{calculate, check_rows, check_order, measure, ema}
use lp_maker.Strategy.Market.{mark_drawdown, drawn_down, new_peak}
use lp_maker.Solana.Signals.{RegimeConfig, Signals, signals, read_signals, average, deviation}
use lp_maker.Solana.Averages.{closes, average-ema}
use lp_maker.Solana.Regime.{evaluate_regime, sol_act, sol_trade, sol_unusable, unsafe_now}
use lp_maker.Solana.Regime.Entries.{SolSeen, SolSound, SolEntry, evaluate_regime-Entry}
use lp_maker.Solana.Regime.Waits.{left_waits}
use lp_maker.Solana.Regime.Dangers.{SolWithdraws, moved, evaluate_regime-SolWithdraws}

abbrev timing : RegimeConfig ℕ
timing = record {
  ema_entry_hours = 3;
  ema_exit_hours = 3;
  momentum_hours = 2;
  min_momentum = 0;
  max_hourly_vol = 1;
  entry_vol_fraction = 1;
  max_momentum = 5;
  max_bar_range = 5;
  exit_buffer = 0;
  entry_confirm_hours = 1;
}

abbrev hours : ℕ → ℕ → List (Candle ℕ)
hours first zero = []
hours first (suc n) = hour first ∷ hours (first + 1) n

abbrev rising : ℕ → Candle ℕ
rising n = record {
  open_ms = n * 3600000;
  close_ms = n * 3600000 + 3599999;
  opening = 10;
  high = 20;
  low = 10;
  close = 20;
}

-- A minute after hour `n`, at this pool price.
abbrev sol_frame : ℕ → ℕ → List (LpPosition ℕ) → MarketFrame ℕ
sol_frame n price positions = record {
  now_ms = n * 3600000 + 60000;
  pool = snapshot (n * 3600000 + 59000) price;
  hedge_price = price;
  hedge_time_ms = n * 3600000 + 59000;
  candles = hours (n - 25) 24 ++ rising (n - 1) ∷ [];
  portfolio = record empty_wallet { positions = positions };
}

abbrev calm_frame : MarketFrame ℕ
calm_frame = sol_frame 25 20 []

evaluate_regime-Entry_example :
    (v : Signals ℕ) × SolSeen timing settings calm_frame v
    × SolSound timing settings calm_frame default
    × SolEntry timing settings calm_frame v 1 default
        (evaluate_regime timing settings calm_frame default).strategy
unfolding evaluate_regime signals read_signals average deviation calculate check_rows check_order
    measure mark_drawdown drawn_down new_peak sol_unusable unsafe_now sol_act sol_trade equity base
    sum default observe_lp
evaluate_regime-Entry_example = evaluate_regime-Entry timing settings calm_frame 1 default refl

average-ema_example :
    let rows = rising 0 ∷ hour 1 ∷ rising 2 ∷ [] in
    (average rows 1 ≡ (ema (closes rows) 1).0)
    × (average (take (length rows - 1) rows) 1 ≡ (ema (closes rows) 1).1)
average-ema_example = average-ema (rising 0) (hour 1) (rising 2 ∷ []) 1

-- A range above the price.
abbrev far_above : LpPosition ℕ
far_above = record {
  layer = "core";
  token_id = none;
  lower = 100;
  upper = 200;
  liquidity = 0;
  raw_liquidity = "0";
  unclaimed_base = 0;
  unclaimed_quote = 0;
  base = 0;
  quote = 0;
}

abbrev outside_frame : MarketFrame ℕ
outside_frame = sol_frame 25 20 (far_above ∷ [])

left_waits_example : hours_ms 3 ≤ 29 * 3600000 - 25 * 3600000
unfolding evaluate_regime signals read_signals average deviation calculate check_rows check_order
    measure mark_drawdown drawn_down new_peak sol_unusable unsafe_now sol_act sol_trade equity base
    sum default observe_lp
left_waits_example =
    left_waits timing settings outside_frame (at_rest Phase.active) (sol_frame 27 20 [] ∷ [])
      (sol_frame 29 20 []) refl refl refl (refl, tt) 1 refl

-- The price has risen to seven times that of the newest completed hour.
abbrev risen_frame : MarketFrame ℕ
risen_frame = sol_frame 25 140 []

evaluate_regime-SolWithdraws_example :
    SolWithdraws timing settings risen_frame
      (evaluate_regime timing settings risen_frame (at_rest Phase.active))
unfolding sol_unusable equity base sum
evaluate_regime-SolWithdraws_example =
    evaluate_regime-SolWithdraws timing settings risen_frame (at_rest Phase.active) refl
      (moved (rising 24) refl refl)
