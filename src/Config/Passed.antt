-- ===== src/Config/Passed.antt =====
-- The groups of checks of `Config::validate` in src/config.rs, and what each leaves once it has passed.
use lp_maker.Base.{◌≤◌, ◌<◌, ◌≡◌, true, some, ok, ensure, ensure-eq-ok, >>-eq-ok, arith}
use lp_maker.Float.{F64}
use mathlib.Core.Path.{subst}
use lp_maker.Strategy.State.{StrategyConfig}
use lp_maker.Strategy.Eth.State.{PersistentConfig, BandConfig}
use lp_maker.Liquidity.Chains.{Pool, pool, validate_known, validate_pool, same_contracts}
use lp_maker.Hyperliquid.Json.{eq_ignore_ascii_case}
use lp_maker.Config.State.{Config, HyperliquidConfig, LiquidityConfig}
use lp_maker.Config.Profile.{validate_profile, validate_band, validate_optional_band, pinned_pool}
use lp_maker.Config.Endpoints.{Parsers, validate_endpoints}
use lp_maker.Config.Validate.{
  validate, validate_limits, validate_budgets, validate_windows, validate_layers,
  validate_execution, validate_deployment, validate_optional_profile, same_coin, has_owner,
}
use text.Mathlib.Text.{◌==◌ as str_eq}
use text.Mathlib.TextEquality.{eq_iff}

deployment-coin :
    (h : HyperliquidConfig) (known : Pool)
    → same_coin h (some known) ≡ true
    → h.hedge_coin ≡ known.hedge_coin
deployment-coin h known e = (eq_iff h.hedge_coin known.hedge_coin).0 e

module _ {W : Type 0} where
  -- The contracts, the fee and the decimals are those of a pool.
  pub record Matches (c : LiquidityConfig W) (known : Pool) : Type 0 where
    pub factory : eq_ignore_ascii_case c.factory known.chain.factory ≡ true
    pub position_manager :
        eq_ignore_ascii_case c.position_manager known.chain.position_manager ≡ true
    pub swap_router : eq_ignore_ascii_case c.swap_router known.chain.swap_router ≡ true
    pub base_token : eq_ignore_ascii_case c.base_token known.base_token ≡ true
    pub quote_token : eq_ignore_ascii_case c.quote_token known.quote_token ≡ true
    pub fee : c.fee ≡ known.fee
    pub base_decimals : c.base_decimals ≡ known.base_decimals
    pub quote_decimals : c.quote_decimals ≡ known.quote_decimals

module _ {W : Type 0} ⦃f : F64 W⦄ ⦃p : Parsers⦄ where
  -- The groups of checks, one after the other.
  pub record Passed (c : Config W) : Type 0 where
    pub limits : validate_limits c ≡ ok tt
    pub windows : validate_windows c ≡ ok tt
    pub layers : validate_layers c.strategy ≡ ok tt
    pub execution : validate_execution c ≡ ok tt
    pub deployment : validate_deployment c ≡ ok tt

  pub validate-Passed : (c : Config W) → validate c ≡ ok tt → Passed c
  unfolding validate
  validate-Passed c h =
      let (limits, h₁) = >>-eq-ok (validate_limits c) _ h in
      let (_, h₂) = >>-eq-ok (validate_endpoints c) _ h₁ in
      let (_, h₃) = >>-eq-ok (validate_budgets c) _ h₂ in
      let (windows, h₄) = >>-eq-ok (validate_windows c) _ h₃ in
      let (layers, h₅) = >>-eq-ok (validate_layers c.strategy) _ h₄ in
      let (execution, h₆) = >>-eq-ok (validate_execution c) _ h₅ in
      record {
        limits = limits;
        windows = windows;
        layers = layers;
        execution = execution;
        deployment = h₆;
      }

  -- The windows of the indicators, as far as the request for candles depends on them.
  pub record Windowed (s : StrategyConfig W) : Type 0 where
    pub long : s.vol_long_hours < 4000
    pub short : s.vol_short_hours < 4000
    pub slow : s.ema_slow_hours < 4000

  pub windows-Windowed : (c : Config W) → validate_windows c ≡ ok tt → Windowed c.strategy
  unfolding validate_windows
  windows-Windowed c h = record { long = ground arith; short = ground arith; slow = ground arith }

  pub execution-profile :
      (c : Config W) (profile : PersistentConfig W)
      → validate_execution c ≡ ok tt
      → c.strategy.eth_persistent ≡ some profile
      → validate_profile profile c ≡ ok tt
  unfolding validate_execution validate_optional_profile
  execution-profile c profile h e =
      let (_, h₁) = ensure-eq-ok _ _ _ h in
      let (checked, _) = >>-eq-ok (validate_optional_profile c.strategy.eth_persistent c) _ h₁ in
      subst (λ o. validate_optional_profile o c ≡ ok tt) e checked

  -- The clocks of the profile: no product of hours wraps.
  pub record Clocked (c : Config W) : Type 0 where
    pub cooldown : 1 ≤ c.strategy.cooldown_hours
    pub week : c.strategy.cooldown_hours ≤ 168

  pub profile-Clocked :
      (c : Config W) (profile : PersistentConfig W) → validate_profile profile c ≡ ok tt → Clocked c
  unfolding validate_profile
  profile-Clocked c profile h = record { cooldown = ground arith; week = ground arith }

  pub profile-band :
      (c : Config W) (profile : PersistentConfig W) (b : BandConfig W)
      → validate_profile profile c ≡ ok tt
      → profile.band ≡ some b
      → (validate_band b c ≡ ok tt) × (str_eq c.hyperliquid.hedge_coin "ETH" ≡ true)
  unfolding validate_profile validate_optional_band
  profile-band c profile b h e = ground (arith, e)

  pub band-pinned :
      (c : Config W) (b : BandConfig W) → validate_band b c ≡ ok tt → pinned_pool c ≡ true
  unfolding validate_band
  band-pinned c b h = ground arith

  known-Matches :
      (c : LiquidityConfig W) (known : Pool)
      → validate_known c (some known) ≡ ok tt
      → Matches c known
  unfolding validate_known same_contracts
  known-Matches c known h = record {
    factory = ground arith;
    position_manager = ground arith;
    swap_router = ground arith;
    base_token = ground arith;
    quote_token = ground arith;
    fee = ground arith;
    base_decimals = ground arith;
    quote_decimals = ground arith;
  }

  -- A pool that the program knows is used as it is known.
  pub deployment-Matches :
      (c : Config W) (known : Pool)
      → validate_deployment c ≡ ok tt
      → pool c.liquidity ≡ some known
      → Matches c.liquidity known × (c.hyperliquid.hedge_coin ≡ known.hedge_coin)
  unfolding validate_deployment validate_pool
  deployment-Matches c known h e =
      let coin = same_coin c.hyperliquid (pool c.liquidity) in
      let (_, h₁) = ensure-eq-ok (has_owner c.mode c.hyperliquid) _ _ h in
      let (checked, h₂) =
        >>-eq-ok (validate_known c.liquidity (pool c.liquidity))
          (ensure coin "pool base asset must match Hyperliquid hedge coin") h₁ in
      let same : coin ≡ true = ground (arith, h₂) in
      (
        known-Matches c.liquidity known
            (subst (λ o. validate_known c.liquidity o ≡ ok tt) e checked),
        deployment-coin c.hyperliquid known (subst (λ o. same_coin c.hyperliquid o ≡ true) e same),
      )
