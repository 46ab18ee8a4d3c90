-- ===== src/Config/Samples.antt =====
-- A configuration that passes, over decimals of eight digits; what is below zero stands at zero.
use Prim.Native.Char.{code}
use Prim.Native.String.{[], ◌∷◌}
use lp_maker.Base.{
  ℕ, ◌+◌, ◌-◌, ◌*◌, ◌/◌, ◌^◌, Bool, true, false, none, some, [], ◌∷◌, String, Result, ltb, leb,
  ◌==◌, max, min, if◌then◌else◌,
}
use lp_maker.Float.{F64, sum}
use lp_maker.Strategy.State.{LayerConfig, StrategyConfig}
use lp_maker.Strategy.Eth.State.{PersistentConfig, BandConfig}
use lp_maker.Liquidity.Chains.{weth_usdg, validate_known, validate_pool, same_contracts, pool}
use lp_maker.Hyperliquid.Json.{eq_ignore_ascii_case}
use lp_maker.Config.State.{
  Config, HyperliquidConfig, LiquidityConfig, live, default_runtime, default_storage,
  default_websocket, default_monitoring, default_logging, default_rpc_interval, default_evm_ws,
  default_nonce_refresh, default_tx_stale, default_gas_fee_buffer, default_gas_limit_buffer,
  default_quote_age,
}
use lp_maker.Config.Profile.{validate_profile, validate_band, validate_optional_band}
use lp_maker.Config.Endpoints.{
  Parsers, validate_endpoints, validate_url, check_addresses, check_websocket,
}
use lp_maker.Config.Validate.{
  validate, validate_limits, validate_budgets, validate_windows, validate_layers,
  validate_execution, validate_deployment, validate_optional_profile, all_new,
}

instance abbrev pub eight : F64 ℕ
eight = record {
  decimal = λ n k. n * 10 ^ 8 / 10 ^ k;
  from_int = λ n. n * 10 ^ 8;
  infinity = 10 ^ 20;
  add = λ a b. a + b;
  sub = λ a b. a - b;
  mul = λ a b. a * b / 10 ^ 8;
  div = λ a b. a * 10 ^ 8 / b;
  neg = λ a. 0;
  abs = λ a. a;
  ln = λ a. a - 10 ^ 8;
  sqrt = λ a. a;
  powi = λ a n. a * a / 10 ^ 8;
  f64_max = max;
  f64_min = min;
  lt = ltb;
  le = leb;
  eq = λ a b. a == b;
  is_finite = λ a. true;
}

-- What stands before the first colon.
abbrev scheme_of : String → String
scheme_of [] = ""
scheme_of (c ∷ rest) = if code c == b':' then "" else c ∷ scheme_of rest

-- Readers that refuse only the empty text.
abbrev has_text : String → Bool
has_text [] = false
has_text (c ∷ rest) = true

instance abbrev pub readers : Parsers
readers = record {
  parse_url = λ url.
      if has_text url then some (record { scheme = scheme_of url; host = some "host" }) else none;
  is_address = has_text;
  to_lowercase = λ a. a;
}

abbrev pub band : BandConfig ℕ
band = record {
  lower_width = 5000000;
  upper_width = 8000000;
  net_lower_usd = 0;
  net_upper_usd = 100000000;
  minimum_holding_hours = 48;
  roll_delay_seconds = 60;
  episode_drawdown = 2000000;
  pause_drawdown = 3000000;
  reentry_loss_budget = 1000000;
}

abbrev pub profile : PersistentConfig ℕ
profile = record {
  band = some band;
  drop_24h = 5000000;
  drop_72h = 8000000;
  max_hourly_vol = 1000000;
  hedge_interval_hours = 4;
}

abbrev core : LayerConfig ℕ
core = record { name = "core"; weight = 100000000; half_width = 8000000 }

abbrev strategy : StrategyConfig ℕ
strategy = record {
  eth_persistent = some profile;
  total_capital = 20000000000;
  lp_budget = 12000000000;
  hedge_collateral = 6000000000;
  reserve = 2000000000;
  inside_hedge_ratio = 35000000;
  hedge_deadband_usd = 500000000;
  max_drawdown = 5000000;
  max_basis_bps = 5000000000;
  max_data_age_seconds = 60;
  fast_drop_1h = 3000000;
  vol_short_hours = 6;
  vol_long_hours = 48;
  vol_pause_ratio = 200000000;
  vol_resume_ratio = 120000000;
  ema_fast_hours = 12;
  ema_slow_hours = 24;
  resume_healthy_hours = 1;
  cooldown_hours = 6;
  recovery_fraction = 50000000;
  recovery_step_hours = 6;
  breakout_buffer = 0;
  breakout_confirm_bars = 1;
  decision_bar_seconds = 900;
  hedge_release_buffer = 0;
  layers = core ∷ [];
}

abbrev hyperliquid : HyperliquidConfig
hyperliquid = record {
  http_url = "https://host";
  ws_url = "wss://host";
  mainnet = true;
  coins = "ETH" ∷ [];
  hedge_coin = "ETH";
  private_key_env = "KEY";
  account = some "0x1";
  vault = none;
  leverage = 3;
  cross_margin = true;
  maker_wait_seconds = 5;
  emergency_slippage_bps = 50;
}

abbrev liquidity : LiquidityConfig ℕ
liquidity = record {
  kind = "uniswap_v3";
  chain_id = 4663;
  rpc_url = "https://host";
  archive_rpc_url = none;
  rpc_min_interval_ms = default_rpc_interval;
  ws_url = default_evm_ws;
  owner = none;
  nonce_refresh_seconds = default_nonce_refresh;
  pending_warn_seconds = default_tx_stale;
  pool = "0x52e65b17fb6e5ba00ed806f37afcd2daa50271ca";
  factory = weth_usdg.chain.factory;
  position_manager = weth_usdg.chain.position_manager;
  swap_router = weth_usdg.chain.swap_router;
  base_token = weth_usdg.base_token;
  quote_token = weth_usdg.quote_token;
  base_decimals = 18;
  quote_decimals = 6;
  fee = 100;
  private_key_env = "KEY";
  confirmations = 1;
  slippage_bps = 50;
  deadline_seconds = 60;
  max_gas_native = 100000;
  gas_fee_buffer_bps = default_gas_fee_buffer;
  gas_limit_buffer_bps = default_gas_limit_buffer;
  max_quote_age_seconds = default_quote_age;
}

abbrev pub config : Config ℕ
config = record {
  mode = live;
  state_dir = "state";
  poll_seconds = 15;
  hyperliquid = hyperliquid;
  liquidity = liquidity;
  strategy = strategy;
  websocket = default_websocket;
  monitoring = default_monitoring;
  logging = default_logging;
  runtime = default_runtime;
  storage = default_storage;
}

-- All the checks, computed.
unfoldable pub validated : Config ℕ → Result (Unit {0})
unfolding validate validate_limits validate_endpoints validate_budgets validate_windows
    validate_layers validate_execution validate_deployment validate_optional_profile validate_url
    check_addresses check_websocket all_new validate_profile validate_band validate_optional_band
    validate_known validate_pool same_contracts pool eq_ignore_ascii_case sum
validated c = validate c
