-- ===== src/Strategy/Eth/Samples.antt =====
-- Concrete inputs of src/strategy/eth, over decimals of four digits; what is below zero stands at zero.
use lp_maker.Base.{ℕ, ◌+◌, ◌-◌, ◌*◌, ◌/◌, ◌^◌, true, some, [], ◌∷◌, map, ltb, leb, ◌==◌, max, min}
use lp_maker.Float.{F64, sum}
use lp_maker.Domain.{LpPosition, Portfolio, MarketFrame, base, equity}
use lp_maker.Strategy.State.{
  Strategy, StrategyConfig, Phase, established, fresh_progress, observe_lp,
}
use lp_maker.Strategy.Breakout.{entry, put}
use lp_maker.Strategy.Evaluate.{Evaluated}
use lp_maker.Strategy.Indicators.{check_order}
use lp_maker.Strategy.Samples.{settings, hour, snapshot, empty_wallet}
use lp_maker.Strategy.Eth.State.{PersistentConfig, BandConfig, BandState, fresh_persistent}
use lp_maker.Strategy.Eth.Feature.{
  Feature, latest_feature, features, feature_at, danger, recovered, guard_of, range_from,
}
use lp_maker.Strategy.Eth.Steps.{
  count_outside, start_run, is_reanchored, anchor_pause, see, bucket_of, watch_layers, fresh_layers,
  watch, drop_hours_in_danger, publish, danger_now, count_feature_hour,
}
use lp_maker.Strategy.Eth.Account.{band_target, managed_equity}
use lp_maker.Strategy.Eth.Band.{
  side_of_band, start_band, mark_loss, open_episode, assess, limits, withdraw_band, recenter_band,
  hedge_band, hold_band, may_enter_band, enter_band, reenter_band, choose_band, prepare_band,
  join_band, evaluate_band,
}
use lp_maker.Strategy.Eth.Persistent.{start_pause, distrust_warmup, stay_out}
use lp_maker.Strategy.Eth.Evaluate.{unobserved, hold_unhealthy, evaluate_feature, evaluate_eth}

instance abbrev pub fixed : F64 ℕ
fixed = record {
  decimal = λ n k. n * 10000 / 10 ^ k;
  from_int = λ n. n * 10000;
  infinity = 10 ^ 20;
  add = λ a b. a + b;
  sub = λ a b. a - b;
  mul = λ a b. a * b / 10000;
  div = λ a b. a * 10000 / b;
  neg = λ a. 0;
  abs = λ a. a;
  ln = λ a. a - 10000;
  sqrt = λ a. a;
  powi = λ a n. a * a / 10000;
  f64_max = max;
  f64_min = min;
  lt = ltb;
  le = leb;
  eq = λ a b. a == b;
  is_finite = λ a. true;
}

abbrev pub band : BandConfig ℕ
band = record {
  lower_width = 500;
  upper_width = 1000;
  net_lower_usd = 0;
  net_upper_usd = 1000000;
  minimum_holding_hours = 48;
  roll_delay_seconds = 0;
  episode_drawdown = 200;
  pause_drawdown = 300;
  reentry_loss_budget = 100;
}

abbrev pub profile : PersistentConfig ℕ
profile = record {
  band = some band;
  drop_24h = 500;
  drop_72h = 800;
  max_hourly_vol = 100;
  hedge_interval_hours = 4;
}

abbrev pub eth_settings : StrategyConfig ℕ
eth_settings = record settings {
  eth_persistent = some profile;
  total_capital = 1000000;
  max_drawdown = 500;
  max_basis_bps = 1000000;
  breakout_confirm_bars = 1;
}

abbrev pub eth_frame : ℕ → Portfolio ℕ → MarketFrame ℕ
eth_frame price portfolio = record {
  now_ms = 100 * 3600000 + 60000;
  pool = snapshot (100 * 3600000 + 59000) price;
  hedge_price = 100000;
  hedge_time_ms = 100 * 3600000 + 59000;
  candles =
      map (λ h. record (hour h) { opening = 100000; high = 100000; low = 100000; close = 100000 })
        (range_from 20 80);
  portfolio = portfolio;
}

-- A range from 5 to 8, while the price is 10.
abbrev pub old_range : LpPosition ℕ
old_range = record {
  layer = "core";
  token_id = some "7";
  lower = 50000;
  upper = 80000;
  liquidity = 10000;
  raw_liquidity = "10000";
  unclaimed_base = 0;
  unclaimed_quote = 0;
  base = 0;
  quote = 600000;
}

abbrev pub invested : Portfolio ℕ
invested = record empty_wallet { positions = old_range ∷ []; wallet_quote = 400000 }

abbrev pub cash : Portfolio ℕ
cash = record empty_wallet { wallet_quote = 1000000 }

-- The newest feature of these candles.
abbrev pub calm : Feature ℕ
calm = record {
  time = 100 * 3600000 - 1;
  close = 100000;
  r1 = 0;
  r6 = 0;
  r24 = 0;
  r72 = 0;
  vol6 = 0;
}

-- The first 30 hours are over, and the position is held since then.
abbrev pub held_band : BandState ℕ
held_band = record {
  account_origin_equity = some 1000000;
  risk_equity = 1000000;
  entered_ms = 30 * 3600000;
  episode_peak = 1000000;
  entry_drawdown = 0;
  net_exposure_usd = 0;
  pause_threshold = 300;
}

abbrev pub in_eth : Phase → Strategy ℕ
in_eth phase = record {
  eth_persistent = some (record fresh_persistent { band = some held_band });
  entry_history = established;
  phase = phase;
  peak_equity = 1000000;
  pause_since = 0;
  last_hour = 0;
  healthy_hours = 0;
  fraction = 10000;
  last_scale = 0;
  last_decision_bar = 0;
  layers = [];
  recovery_progress = fresh_progress;
}

-- All that an evaluation of this profile computes with.
unfoldable pub evaluated_eth : MarketFrame ℕ → Strategy ℕ → Evaluated ℕ
unfolding evaluate_eth evaluate_feature unobserved hold_unhealthy latest_feature features feature_at
    danger recovered guard_of count_outside start_run is_reanchored anchor_pause see bucket_of
    watch_layers fresh_layers watch drop_hours_in_danger publish danger_now count_feature_hour
    managed_equity side_of_band start_band mark_loss open_episode assess limits withdraw_band
    recenter_band hedge_band hold_band may_enter_band enter_band reenter_band choose_band
    prepare_band join_band evaluate_band start_pause distrust_warmup stay_out check_order base
    equity sum observe_lp band_target entry put
evaluated_eth frame s = evaluate_eth eth_settings frame profile s
