-- ===== src/Strategy/Samples.antt =====
-- Concrete inputs of the strategy. The floating point numbers stand for whole numbers here.
use lp_maker.Base.{
  pos, ℕ, ◌+◌, ◌-◌, ◌*◌, ◌/◌, ◌^◌, Bool, true, [], ◌∷◌, ltb, leb, ◌==◌, max, none, min,
}
use lp_maker.Float.{F64, sum}
use lp_maker.Domain.{PoolSnapshot, Candle, Portfolio, MarketFrame, base, equity}
use lp_maker.Strategy.State.{
  Strategy, StrategyConfig, Phase, default, established, fresh_progress, observe_lp, clear_streaks,
}
use lp_maker.Strategy.Indicators.{calculate, check_rows, check_order, measure}
use lp_maker.Strategy.Progress.{
  freeze_recovery_progress, reset_healthy_progress, blockers, recheck_progress, report_progress,
  recheck_cause, conclude, anchored, same_bar, find_bar,
}
use lp_maker.Strategy.Market.{
  begin, unusable, stale, valid, drawn_down, new_peak, mark_drawdown, unsafe_market, fast, shock,
  wide_basis, risks, refuse, pause_market, after_market,
}
use lp_maker.Strategy.Breakout.{turn_bar}
use lp_maker.Strategy.Phases.{count_hour, advance}
use lp_maker.Strategy.Evaluate.{
  Evaluated, recheck, account, unmeasured, judge, finish, halt, refused, measured, evaluate_inner,
}

instance abbrev pub whole : F64 ℕ
whole = record {
  decimal = λ n k. n / 10 ^ k;
  from_int = λ n. n;
  infinity = 1000000000;
  add = λ a b. a + b;
  sub = λ a b. a - b;
  mul = λ a b. a * b;
  div = λ a b. a / b;
  neg = λ a. 0;
  abs = λ a. a;
  ln = λ a. a;
  sqrt = λ a. a;
  powi = λ a n. a ^ n;
  f64_max = max;
  f64_min = min;
  lt = ltb;
  le = leb;
  eq = λ a b. a == b;
  is_finite = λ a. true;
}

abbrev pub settings : StrategyConfig ℕ
settings = record {
  eth_persistent = none;
  total_capital = 100;
  lp_budget = 60;
  hedge_collateral = 30;
  reserve = 10;
  inside_hedge_ratio = 0;
  hedge_deadband_usd = 1;
  max_drawdown = 0;
  max_basis_bps = 100;
  max_data_age_seconds = 60;
  fast_drop_1h = 0;
  vol_short_hours = 1;
  vol_long_hours = 2;
  vol_pause_ratio = 2;
  vol_resume_ratio = 1;
  ema_fast_hours = 1;
  ema_slow_hours = 1;
  resume_healthy_hours = 1;
  cooldown_hours = 3;
  recovery_fraction = 1;
  recovery_step_hours = 4;
  breakout_buffer = 0;
  breakout_confirm_bars = 8;
  decision_bar_seconds = 900;
  hedge_release_buffer = 0;
  layers = [];
}

abbrev pub hour : ℕ → Candle ℕ
hour n = record {
  open_ms = n * 3600000;
  close_ms = n * 3600000 + 3599999;
  opening = 10;
  high = 10;
  low = 10;
  close = 10;
}

abbrev pub empty_wallet : Portfolio ℕ
empty_wallet = record {
  positions = [];
  wallet_base = 0;
  wallet_quote = 100;
  short_base = 0;
  hedge_equity = 0;
  reserve = 0;
}

abbrev pub snapshot : ℕ → ℕ → PoolSnapshot ℕ
snapshot time price = record {
  block = 1;
  block_hash = "0x1";
  time_ms = time;
  price = price;
  tick = pos 0;
  tick_spacing = pos 1;
  liquidity = "1";
  sqrt_price_x96 = "1";
  base_is_token0 = true;
}

-- A minute after the fourth hour, at this pool price.
abbrev pub frame_at : ℕ → MarketFrame ℕ
frame_at price = record {
  now_ms = 4 * 3600000 + 60000;
  pool = snapshot (4 * 3600000 + 59000) price;
  hedge_price = 10;
  hedge_time_ms = 4 * 3600000 + 59000;
  candles = hour 0 ∷ hour 1 ∷ hour 2 ∷ hour 3 ∷ [];
  portfolio = empty_wallet;
}

-- All that an evaluation computes with.
unfoldable pub evaluated : Bool → MarketFrame ℕ → Strategy ℕ → Evaluated ℕ
unfolding evaluate_inner begin observe_lp unusable stale valid equity base sum mark_drawdown
    drawn_down new_peak calculate check_rows check_order measure measured judge recheck
    recheck_progress conclude recheck_cause anchored same_bar account after_market unsafe_market
    fast shock wide_basis risks blockers pause_market clear_streaks count_hour report_progress
    find_bar advance finish default freeze_recovery_progress reset_healthy_progress refused refuse
    halt unmeasured turn_bar
evaluated continuity frame s = evaluate_inner settings frame continuity s

abbrev pub at_rest : Phase → Strategy ℕ
at_rest phase = record {
  eth_persistent = none;
  entry_history = established;
  phase = phase;
  peak_equity = 0;
  pause_since = 1;
  last_hour = 3 * 3600000 - 1;
  healthy_hours = 1;
  fraction = 0;
  last_scale = 0;
  last_decision_bar = 0;
  layers = [];
  recovery_progress = fresh_progress;
}
