-- ===== src/Config/Profile.antt =====
-- `PersistentConfig::validate` of src/strategy/eth/mod.rs and `BandConfig::validate` of
-- src/strategy/eth/band.rs.
use lp_maker.Base.{
  Bool, false, ◌&&◌, Option, none, some, List, [], ◌∷◌, Result, ok, ◌>>◌, ensure, leb, ◌==◌, length,
  all,
}
use lp_maker.Float.{F64, ◌<f◌, ◌≤f◌, lit}
use lp_maker.Strategy.Eth.State.{BandConfig, PersistentConfig}
use lp_maker.Strategy.State.{LayerConfig, StrategyConfig}
use lp_maker.Liquidity.Chains.{robinhood_chain}
use lp_maker.Hyperliquid.Json.{eq_ignore_ascii_case}
use text.Mathlib.Text.{◌==◌ as str_eq}
use lp_maker.Config.State.{Config}

module _ {ℓ} {W : Type ℓ} ⦃f : F64 W⦄ where
  -- `layers[0].half_width <= 0.08`, where there is one layer.
  abbrev pub first_layer_bounded : List (LayerConfig W) → Bool
  first_layer_bounded [] = false
  first_layer_bounded (x ∷ rest) = x.half_width ≤f f.decimal 8 2

  abbrev pub pinned_pool : Config W → Bool
  pinned_pool c =
      (c.liquidity.chain_id == robinhood_chain.id)
      && eq_ignore_ascii_case c.liquidity.pool "0x52e65B17fB6E5BA00Ed806f37Afcd2DaA50271Ca"

  abbrev pub reviewed_budget : StrategyConfig W → Bool
  reviewed_budget s =
      f.eq s.total_capital (lit 200)
      && f.eq s.lp_budget (lit 120)
      && f.eq s.hedge_collateral (lit 60)
      && f.eq s.reserve (lit 20)
      && (length s.layers == 1)
      && first_layer_bounded s.layers

  unfoldable pub validate_band : BandConfig W → Config W → Result (Unit {0})
  validate_band b c = do
    ensure (pinned_pool c) "ETH band profile is limited to the reviewed Robinhood pool"
    ensure
        (all (λ v. f.is_finite v && (f.decimal 1 3 <f v) && (v ≤f f.decimal 8 2))
          (b.lower_width ∷ b.upper_width ∷ []))
        "band boundaries must be within 8% of entry quote"
    ensure
        (f.is_finite b.net_lower_usd
          && f.is_finite b.net_upper_usd
          && (b.net_lower_usd ≤f lit 0)
          && (lit 0 <f b.net_upper_usd))
        "invalid net exposure band"
    ensure
        (leb 1 b.minimum_holding_hours
          && leb b.minimum_holding_hours 720
          && leb 1 b.roll_delay_seconds
          && leb b.roll_delay_seconds 300)
        "invalid band holding/roll time"
    ensure
        (all (λ v. f.is_finite v && (lit 0 <f v) && (v <f c.strategy.max_drawdown))
          (b.episode_drawdown ∷ b.pause_drawdown ∷ b.reentry_loss_budget ∷ []))
        "invalid band drawdown thresholds"
    ensure (reviewed_budget c.strategy)
        "reviewed band profile requires 200 = 120 LP + 60 hedge + 20 reserve and one bounded layer"

  unfoldable pub validate_optional_band : Option (BandConfig W) → Config W → Result (Unit {0})
  unfolding validate_band
  validate_optional_band none c = ok tt
  validate_optional_band (some b) c = validate_band b c

  unfoldable pub validate_profile : PersistentConfig W → Config W → Result (Unit {0})
  unfolding validate_optional_band
  validate_profile p c = do
    ensure (str_eq c.hyperliquid.hedge_coin "ETH" && str_eq c.liquidity.kind "uniswap_v3")
        "persistent profile only supports EVM ETH Uniswap v3"
    ensure c.hyperliquid.cross_margin "persistent ETH requires dedicated cross margin"
    ensure (c.strategy.max_drawdown ≤f f.decimal 5 2) "persistent ETH drawdown cap cannot exceed 5%"
    ensure ((length c.strategy.layers == 1) && (f.decimal 35 2 ≤f c.strategy.inside_hedge_ratio))
        "persistent ETH requires one LP layer and at least 35% inventory hedge"
    ensure
        (all (λ x. f.is_finite x && (lit 0 <f x) && (x <f lit 1))
            (p.drop_24h ∷ p.drop_72h ∷ p.max_hourly_vol ∷ [])
          && (p.drop_24h ≤f p.drop_72h)
          && leb 1 p.hedge_interval_hours
          && leb p.hedge_interval_hours 24
          && leb 1 c.strategy.cooldown_hours
          && leb c.strategy.cooldown_hours 168)
        "invalid persistent ETH risk parameters"
    validate_optional_band p.band c
