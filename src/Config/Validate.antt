-- ===== src/Config/Validate.antt =====
-- `Config::validate` of src/config.rs, its checks in the order of the source; those of the endpoints stand
-- in `Config.Endpoints`.
use lp_maker.Base.{
  Bool, true, ◌&&◌, ◌||◌, not, Option, none, some, List, [], ◌∷◌, map, String, Result, ok, ◌>>◌,
  ensure, ltb, leb, any, all, is_empty, is_some,
}
use lp_maker.Float.{F64, ◌+f◌, ◌-f◌, ◌<f◌, ◌≤f◌, lit, sum}
use lp_maker.Strategy.Eth.State.{PersistentConfig}
use lp_maker.Strategy.State.{LayerConfig, StrategyConfig}
use lp_maker.Liquidity.Chains.{Pool, pool, validate_pool}
use text.Mathlib.Text.{◌==◌ as str_eq}
use lp_maker.Config.Endpoints.{Parsers, check_addresses, validate_endpoints}
use lp_maker.Config.Profile.{validate_profile}
use lp_maker.Config.State.{Config, HyperliquidConfig, Mode, paper, live}

-- The test of `HashSet::insert` for every name: it is new.
unfoldable pub all_new {ℓ} : {W : Type ℓ} → List String → List (LayerConfig W) → Bool
all_new names [] = true
all_new names (l ∷ rest) = not (any (str_eq l.name) names) && all_new (l.name ∷ names) rest

abbrev pub has_owner : Mode → HyperliquidConfig → Bool
has_owner paper h = true
has_owner live h = is_some h.account

abbrev pub same_coin : HyperliquidConfig → Option Pool → Bool
same_coin h none = true
same_coin h (some known) = str_eq h.hedge_coin known.hedge_coin

module _ {ℓ} {W : Type ℓ} ⦃f : F64 W⦄ where
  -- The limits of buffers, reads and storage.
  unfoldable pub validate_limits : Config W → Result (Unit {0})
  validate_limits c = do
    ensure
        (leb 1 c.liquidity.gas_fee_buffer_bps
          && leb c.liquidity.gas_fee_buffer_bps 40000
          && leb 1 c.liquidity.gas_limit_buffer_bps
          && leb c.liquidity.gas_limit_buffer_bps 10000)
        "gas fee buffer must be 1..=40000 bps; gas limit buffer must be 1..=10000 bps"
    ensure
        (ltb 0 c.runtime.read_retry_seconds
          && leb c.runtime.read_retry_seconds 300
          && ltb 0 c.runtime.observation_timeout_seconds
          && leb c.runtime.observation_timeout_seconds c.strategy.max_data_age_seconds
          && ltb 0 c.liquidity.max_quote_age_seconds)
        "invalid observation/retry limits"
    ensure
        (leb 1024 c.storage.event_segment_bytes
          && ltb 0 c.storage.event_retained_segments
          && ltb 0 c.storage.terminal_orders_keep
          && leb 1024 c.storage.order_archive_max_bytes)
        "invalid storage retention limits"

  -- The budgets and the fractions.
  unfoldable pub validate_budgets : Config W → Result (Unit {0})
  validate_budgets c = do
    ensure
        (all (λ v. f.is_finite v && (lit 0 <f v))
          (c.strategy.total_capital ∷ c.strategy.lp_budget ∷ c.strategy.hedge_collateral
            ∷ c.strategy.hedge_deadband_usd ∷ c.strategy.max_basis_bps ∷ c.liquidity.max_gas_native
            ∷ []))
        "positive finite budget/limit required"
    ensure (f.is_finite c.strategy.reserve && (lit 0 ≤f c.strategy.reserve)) "invalid reserve"
    ensure
        ((c.strategy.lp_budget +f c.strategy.hedge_collateral +f c.strategy.reserve)
          ≤f (c.strategy.total_capital +f f.decimal 1 6))
        "budgets exceed total capital"
    ensure
        (all (λ v. f.is_finite v && (lit 0 <f v) && (v ≤f lit 1))
          (c.strategy.max_drawdown ∷ c.strategy.fast_drop_1h ∷ c.strategy.recovery_fraction ∷ []))
        "invalid fractional limit"
    ensure ((lit 0 ≤f c.strategy.inside_hedge_ratio) && (c.strategy.inside_hedge_ratio ≤f lit 1))
        "invalid hedge ratio"

  -- The windows, the hysteresis and the periods of the strategy.
  unfoldable pub validate_windows : Config W → Result (Unit {0})
  validate_windows c = do
    ensure
        (leb 2 c.strategy.vol_short_hours
          && ltb c.strategy.vol_short_hours c.strategy.vol_long_hours
          && ltb c.strategy.vol_long_hours 4000)
        "invalid volatility windows"
    ensure
        (ltb 1 c.strategy.ema_fast_hours
          && ltb c.strategy.ema_fast_hours c.strategy.ema_slow_hours
          && ltb c.strategy.ema_slow_hours 4000)
        "invalid EMA windows"
    ensure
        ((lit 0 <f c.strategy.vol_resume_ratio)
          && (c.strategy.vol_resume_ratio <f c.strategy.vol_pause_ratio)
          && f.is_finite c.strategy.vol_pause_ratio)
        "invalid volatility hysteresis"
    ensure
        (f.is_finite c.strategy.breakout_buffer
          && (lit 0 ≤f c.strategy.breakout_buffer)
          && (c.strategy.breakout_buffer <f f.decimal 2 1))
        "invalid breakout buffer"
    ensure
        (f.is_finite c.strategy.hedge_release_buffer
          && (lit 0 ≤f c.strategy.hedge_release_buffer)
          && (c.strategy.hedge_release_buffer <f f.decimal 2 1))
        "invalid hedge release"
    ensure
        (ltb 0 c.strategy.resume_healthy_hours
          && ltb 0 c.strategy.recovery_step_hours
          && ltb 0 c.strategy.breakout_confirm_bars
          && ltb 0 c.strategy.decision_bar_seconds)
        "zero confirmation period"
    ensure (ltb 0 c.poll_seconds && ltb c.poll_seconds c.strategy.max_data_age_seconds)
        "invalid poll/stale interval"

  abbrev pub sound_layer : StrategyConfig W → LayerConfig W → Bool
  sound_layer s x =
      f.is_finite x.weight
      && (lit 0 <f x.weight)
      && f.is_finite x.half_width
      && (f.decimal 1 3 <f x.half_width)
      && ((x.half_width <f lit 1) || (is_some s.eth_persistent && (x.half_width ≤f lit 9)))

  unfoldable pub validate_layers : StrategyConfig W → Result (Unit {0})
  unfolding all_new
  validate_layers s = do
    ensure (not (is_empty s.layers) && all (sound_layer s) s.layers) "invalid layers"
    ensure (f.abs (sum (map (λ x. x.weight) s.layers) -f lit 1) <f f.decimal 1 8)
        "layer weights must sum to one"
    ensure (all_new [] s.layers) "duplicate layer name"

  unfoldable pub validate_optional_profile :
      Option (PersistentConfig W) → Config W → Result (Unit {0})
  unfolding validate_profile
  validate_optional_profile none c = ok tt
  validate_optional_profile (some profile) c = validate_profile profile c

  -- The pools that the program knows.
  unfoldable pub validate_deployment : Config W → Result (Unit {0})
  unfolding validate_pool pool
  validate_deployment c = do
    ensure (has_owner c.mode c.hyperliquid) "live requires Hyperliquid account owner address"
    validate_pool c.liquidity
    ensure (same_coin c.hyperliquid (pool c.liquidity))
        "pool base asset must match Hyperliquid hedge coin"

module _ {ℓ} {W : Type ℓ} ⦃f : F64 W⦄ ⦃p : Parsers⦄ where
  -- The exchange, the profile and the execution on the chain.
  unfoldable pub validate_execution : Config W → Result (Unit {0})
  unfolding validate_optional_profile check_addresses
  validate_execution c = do
    ensure (ltb 0 c.hyperliquid.leverage && leb c.hyperliquid.leverage 3)
        "strategy leverage capped at 3x"
    validate_optional_profile c.strategy.eth_persistent c
    ensure (ltb 0 c.hyperliquid.maker_wait_seconds) "maker wait must be positive"
    ensure
        (ltb 0 c.hyperliquid.emergency_slippage_bps
          && leb c.hyperliquid.emergency_slippage_bps 100
          && ltb 0 c.liquidity.slippage_bps
          && leb c.liquidity.slippage_bps 100)
        "slippage must be in 1..100 bps"
    ensure (str_eq c.liquidity.kind "uniswap_v3") "unsupported liquidity adapter"
    ensure (ltb 0 c.liquidity.confirmations && leb 30 c.liquidity.deadline_seconds)
        "invalid chain finality/deadline"
    check_addresses "invalid contract address" (
        c.liquidity.pool ∷ c.liquidity.factory ∷ c.liquidity.position_manager
        ∷ c.liquidity.swap_router ∷ c.liquidity.base_token ∷ c.liquidity.quote_token ∷ [])
    ensure
        (not
          (str_eq (p.to_lowercase c.liquidity.base_token) (p.to_lowercase c.liquidity.quote_token)))
        "same pool tokens"
    ensure
        (leb c.liquidity.base_decimals 24
          && leb c.liquidity.quote_decimals 24
          && ltb c.liquidity.fee 1000000)
        "invalid token configuration"

  unfoldable pub validate : Config W → Result (Unit {0})
  unfolding validate_limits validate_endpoints validate_budgets validate_windows validate_layers
      validate_execution validate_deployment
  validate c = do
    validate_limits c
    validate_endpoints c
    validate_budgets c
    validate_windows c
    validate_layers c.strategy
    validate_execution c
    validate_deployment c
