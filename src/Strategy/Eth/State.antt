-- ===== src/Strategy/Eth/State.antt =====
-- The settings and the state of src/strategy/eth: the persistent position in ETH, and its band.
use lp_maker.Base.{ℕ, Option, none}
use lp_maker.Float.{F64, lit}

pub record BandConfig {ℓ} (W : Type ℓ) : Type ℓ where
  pub lower_width : W
  pub upper_width : W
  pub net_lower_usd : W
  pub net_upper_usd : W
  pub minimum_holding_hours : ℕ  -- u64
  pub roll_delay_seconds : ℕ  -- u64
  pub episode_drawdown : W
  pub pause_drawdown : W
  pub reentry_loss_budget : W

pub record PersistentConfig {ℓ} (W : Type ℓ) : Type ℓ where
  pub band : Option (BandConfig W)
  pub drop_24h : W
  pub drop_72h : W
  pub max_hourly_vol : W
  pub hedge_interval_hours : ℕ  -- u64

pub record BandState {ℓ} (W : Type ℓ) : Type ℓ where
  pub account_origin_equity : Option W
  pub risk_equity : W
  pub entered_ms : ℕ
  pub episode_peak : W
  pub entry_drawdown : W
  pub net_exposure_usd : W
  pub pause_threshold : W

-- The `Report` of this strategy.
pub record PersistentReport {ℓ} (W : Type ℓ) : Type ℓ where
  pub observed_ms : ℕ
  pub completed_hour_ms : ℕ
  pub return_1h : W
  pub return_24h : W
  pub return_72h : W
  pub vol_6h : W
  pub pause_vol : W
  pub healthy_hours : ℕ  -- u32
  pub required_hours : ℕ  -- u32
  pub cooldown_remaining_seconds : ℕ

pub record PersistentState {ℓ} (W : Type ℓ) : Type ℓ where
  pub band : Option (BandState W)
  pub last_observed_ms : ℕ
  pub last_hedge_check_ms : ℕ
  pub pending_hedge_target : Option W
  pub reentry_not_before_ms : ℕ
  pub pause_anchor_ms : ℕ
  pub report : Option (PersistentReport W)

module _ {ℓ} {W : Type ℓ} ⦃f : F64 W⦄ where
  -- `BandState::default`.
  abbrev pub fresh_band : BandState W
  fresh_band = record {
    account_origin_equity = none;
    risk_equity = lit 0;
    entered_ms = 0;
    episode_peak = lit 0;
    entry_drawdown = lit 0;
    net_exposure_usd = lit 0;
    pause_threshold = lit 0;
  }

-- `PersistentState::default`.
abbrev pub fresh_persistent {ℓ} : {W : Type ℓ} → PersistentState W
fresh_persistent = record {
  band = none;
  last_observed_ms = 0;
  last_hedge_check_ms = 0;
  pending_hedge_target = none;
  reentry_not_before_ms = 0;
  pause_anchor_ms = 0;
  report = none;
}
