-- ===== src/Strategy/Eth/Account.antt =====
-- src/strategy/eth/band.rs: the equity that a band counts its losses from, its target and its limits.
use lp_maker.Base.{Bool, true, false, ◌&&◌, not, Option, none, some, unwrap_or, if◌then◌else◌}
use lp_maker.Float.{F64, ◌+f◌, ◌-f◌, ◌*f◌, ◌/f◌, ◌<f◌, lit}
use lp_maker.Domain.{Portfolio, base}
use lp_maker.Strategy.State.{
  Strategy, StrategyConfig, Phase, halted, Cause, Reason, risk, portfolio_drawdown_limit,
  global_drawdown_pause, early_drawdown_pause, is_halted,
}
use lp_maker.Strategy.Eth.State.{
  BandConfig, BandState, PersistentState, fresh_band, fresh_persistent,
}
use lp_maker.Strategy.Eth.Feature.{Feature}
use lp_maker.Strategy.Eth.Steps.{Run, Choice}

-- The run with the state of the band apart, and the equity and the drawdown of this call.
pub record Assessed {ℓ} (W : Type ℓ) : Type ℓ where
  pub run : Run W
  pub band : BandState W
  pub equity : W
  pub drawdown : W

pub record BandChoice {ℓ} (W : Type ℓ) : Type ℓ where
  pub choice : Choice W
  pub band : BandState W

-- What ends a position: a loss since its entry, or the loss of the account.
pub record Limits : Type 0 where
  pub soft : Bool
  pub global : Bool

abbrev pub band_reason : Phase → Option Cause → Bool → Reason
band_reason halted cause global = portfolio_drawdown_limit
band_reason _ (some cause) global = risk cause
band_reason _ none true = global_drawdown_pause
band_reason _ none false = early_drawdown_pause

module _ {ℓ} {W : Type ℓ} ⦃f : F64 W⦄ where
  -- The narrow side is below after a rise over 24 hours.
  unfoldable pub widths : BandConfig W → Feature W → W × W
  widths b x =
      let n = f.f64_min b.lower_width b.upper_width in
      let w = f.f64_max b.lower_width b.upper_width in if lit 0 <f x.r24 then (n, w) else (w, n)

  -- `f64::clamp`, which keeps NaN.
  abbrev pub clamp : W → W → W → W
  clamp lo hi x = let y = if x <f lo then lo else x in if hi <f y then hi else y

  -- The short position that brings the net exposure back to the band, as far as the margin goes.
  unfoldable pub band_target : BandConfig W → Portfolio W → W → W
  band_target b p price =
      let net = (base p -f p.short_base) *f price in
      let target =
        if b.net_upper_usd <f net
        then f.f64_max (base p -f b.net_upper_usd /f price) (lit 0)
        else if net <f b.net_lower_usd
        then f.f64_max (base p -f b.net_lower_usd /f price) (lit 0)
        else p.short_base in
      f.f64_min target (clamp (lit 0) (lit 60) p.hedge_equity *f f.decimal 255 2 /f price)

  -- The band of a state that may have none.
  abbrev pub band_of : Option (PersistentState W) → BandState W
  band_of none = fresh_band
  band_of (some st) = unwrap_or st.band fresh_band

  -- `managed_equity`: the first observed equity stays the origin; the new band has the result.
  unfoldable pub managed_equity : StrategyConfig W → W → BandState W → BandState W
  managed_equity c raw bs =
      let origin = unwrap_or bs.account_origin_equity raw in
      record bs {
        account_origin_equity = some origin;
        risk_equity = c.total_capital +f raw -f origin;
      }

  -- The same, on the state of the strategy.
  unfoldable pub with_managed : StrategyConfig W → W → Strategy W → Strategy W
  unfolding managed_equity
  with_managed c raw s =
      let st = unwrap_or s.eth_persistent fresh_persistent in
      record s {
        eth_persistent =
            some (record st { band = some (managed_equity c raw (band_of s.eth_persistent)) });
      }

  abbrev pub loss_limit : BandConfig W → BandState W → W
  loss_limit b bs =
      f.f64_min (f.f64_max b.pause_drawdown (bs.entry_drawdown +f b.reentry_loss_budget))
        (f.decimal 475 4)

  -- `entry_equity_safe`, between the transactions of an entry.
  unfoldable pub entry_equity_safe : Strategy W → StrategyConfig W → W → Bool
  entry_equity_safe s c raw = elim c.eth_persistent [
    | none ↦ true
    | some cfg ↦ elim cfg.band [
      | none ↦ true
      | some b ↦ elim s.eth_persistent [
        | none ↦ false
        | some st ↦ elim st.band [
          | none ↦ false
          | some bs ↦ elim bs.account_origin_equity [
            | none ↦ false
            | some origin ↦
                let eq = c.total_capital +f raw -f origin in
                f.is_finite raw
                && not (is_halted s.phase)
                && (s.peak_equity *f (lit 1 -f c.max_drawdown) <f eq)
                && (s.peak_equity *f (lit 1 -f loss_limit b bs) <f eq)
                && (bs.episode_peak *f (lit 1 -f b.episode_drawdown) <f eq)
          ]
        ]
      ]
    ]
  ]
