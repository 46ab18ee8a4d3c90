-- ===== src/Strategy/State.antt =====
-- The state of src/strategy/mod.rs, the record of recovery progress of src/strategy/progress.rs, and
-- the strategy's settings of src/config.rs. Texts that the code only produces and compares are
-- constructors.
use lp_maker.Base.{ℕ, ◌*◌, ◌%◌, ◌^◌, Bool, true, false, Option, none, List, [], ◌∷◌, String}
use lp_maker.Float.{F64, lit}
use lp_maker.Domain.{Candle, LpIntent}
use lp_maker.Strategy.Eth.State.{PersistentConfig, PersistentState}

pub record LayerConfig {ℓ} (W : Type ℓ) : Type ℓ where
  pub name : String
  pub weight : W
  pub half_width : W

pub record StrategyConfig {ℓ} (W : Type ℓ) : Type ℓ where
  pub eth_persistent : Option (PersistentConfig W)
  pub total_capital : W
  pub lp_budget : W
  pub hedge_collateral : W
  pub reserve : W
  pub inside_hedge_ratio : W
  pub hedge_deadband_usd : W
  pub max_drawdown : W
  pub max_basis_bps : W
  pub max_data_age_seconds : ℕ  -- u64
  pub fast_drop_1h : W
  pub vol_short_hours : ℕ  -- usize
  pub vol_long_hours : ℕ  -- usize
  pub vol_pause_ratio : W
  pub vol_resume_ratio : W
  pub ema_fast_hours : ℕ  -- usize
  pub ema_slow_hours : ℕ  -- usize
  pub resume_healthy_hours : ℕ  -- u32
  pub cooldown_hours : ℕ  -- u64
  pub recovery_fraction : W
  pub recovery_step_hours : ℕ  -- u64
  pub breakout_buffer : W
  pub breakout_confirm_bars : ℕ  -- u32
  pub decision_bar_seconds : ℕ  -- u64, not 0
  pub hedge_release_buffer : W
  pub layers : List (LayerConfig W)

pub data Phase : Type 0 where
  warmup active paused recovering halted : Phase

pub data EntryHistory : Type 0 where
  initial established legacy_unknown : EntryHistory

-- `outside_side` is -1, 0 or 1.
pub data Side : Type 0 where
  below inside above : Side

pub record LayerState : Type 0 where
  pub protected : Bool
  pub outside_side : Side
  pub outside_count : ℕ  -- u32

-- Why progress was reset, or a resumption is blocked.
pub data Cause : Type 0 where
  fast_drop volatility_spike persistent_downtrend pool_perp_basis_limit : Cause
  resume_volatility_high new_hourly_low below_fast_ema : Cause
  hourly_gap hour_not_healthy : Cause
  legacy_without_observation observation_clock_reversed observation_gap_over_grace : Cause
  completed_candle_changed resume_conditions_failed workflow_or_inventory_changed : Cause
  downtrend volatility : Cause

pub Cause-discrete : Discrete Cause
Cause-discrete = hlevel

-- The reasons of src/solana/regime.rs.
pub data SolReason : Type 0 where
  sol_high_volatility sol_downtrend sol_fast_drop sol_trend_not_confirmed : SolReason
  sol_intrahour_fast_drop sol_intrahour_large_move sol_indicator_gap : SolReason
  sol_wait_for_trend_and_cooldown sol_outside_range_exit_and_wait : SolReason

pub data Reason : Type 0 where
  risk : Cause → Reason
  sol : SolReason → Reason
  stale_or_invalid_data portfolio_drawdown_limit : Reason
  indicator_warmup_or_gap : (message : String) → Reason
  recovery_progress_reset : Cause → Reason
  recovery_progress_retained : (healthy_hours observation_gap_seconds : ℕ) → Reason
  initial_entry_waived initial_entry_passed : Reason
  resume_wait : (cooldown_remaining_seconds healthy_hours required : ℕ) → Reason
  manual_entry_rearm : (id : String) → Reason
  stale_history : (message : String) → Reason
  stale_observation : Reason
  global_drawdown_pause early_drawdown_pause range_recenter : Reason

-- The `counter_event` of a report.
pub data CounterEvent : Type 0 where
  unchanged rechecked_empty reset_after_recheck retained_after_recheck : CounterEvent
  reset_market_risk hour_counted waiting_next_hour : CounterEvent

pub record Reset : Type 0 where
  pub time_ms : ℕ
  pub previous_hours : ℕ
  pub reason : Cause

pub record Report {ℓ} (W : Type ℓ) : Type ℓ where
  pub observed_ms : ℕ
  pub completed_hour_ms : ℕ
  pub recent_hours : ℕ
  pub baseline_hours : ℕ
  pub recent_vol_pct : W
  pub baseline_vol_pct : W
  pub baseline_used_vol_pct : W
  pub vol_ratio : W
  pub pause_ratio : W
  pub resume_ratio : W
  pub healthy_hours : ℕ
  pub required_hours : ℕ
  pub cooldown_remaining_seconds : ℕ
  pub blockers : List Cause
  pub counter_event : CounterEvent

pub record Progress {ℓ} (W : Type ℓ) : Type ℓ where
  pub observed_ms : ℕ
  pub anchor : Option (Candle W)
  pub pending_revalidation : Bool
  pub last_reset : Option Reset
  pub report : Option (Report W)

pub record Strategy {ℓ} (W : Type ℓ) : Type ℓ where
  pub eth_persistent : Option (PersistentState W)
  pub entry_history : EntryHistory
  pub phase : Phase
  pub peak_equity : W
  pub pause_since : ℕ
  pub last_hour : ℕ
  pub healthy_hours : ℕ  -- u32
  pub fraction : W
  pub last_scale : ℕ
  pub last_decision_bar : ℕ
  pub layers : List (String × LayerState)
  pub recovery_progress : Progress W

-- `state` is the name of a phase.
pub record Decision {ℓ} (W : Type ℓ) : Type ℓ where
  pub state : Phase
  pub reasons : List Reason
  pub lp : LpIntent W
  pub target_short_base : W
  pub emergency : Bool

-- Products and sums of `u64` wrap.
abbrev pub wrap64 : ℕ → ℕ
wrap64 n = n % 2 ^ 64

abbrev pub hours_ms : ℕ → ℕ
hours_ms n = wrap64 (n * 3600000)

abbrev pub is_paused : Phase → Bool
is_paused paused = true
is_paused _ = false

abbrev pub is_halted : Phase → Bool
is_halted halted = true
is_halted _ = false

abbrev pub is_warmup : Phase → Bool
is_warmup warmup = true
is_warmup _ = false

abbrev pub is_recovering : Phase → Bool
is_recovering recovering = true
is_recovering _ = false

abbrev pub is_initial : EntryHistory → Bool
is_initial initial = true
is_initial _ = false

module _ {ℓ} {W : Type ℓ} ⦃f : F64 W⦄ where
  abbrev pub fresh_progress : Progress W
  fresh_progress = record {
    observed_ms = 0;
    anchor = none;
    pending_revalidation = false;
    last_reset = none;
    report = none;
  }

  -- `Strategy::default`.
  unfoldable pub default : Strategy W
  default = record {
    eth_persistent = none;
    entry_history = initial;
    phase = warmup;
    peak_equity = lit 0;
    pause_since = 0;
    last_hour = 0;
    healthy_hours = 0;
    fraction = lit 0;
    last_scale = 0;
    last_decision_bar = 0;
    layers = [];
    recovery_progress = fresh_progress;
  }

unfoldable pub observe_lp {ℓ} : {W : Type ℓ} → Strategy W → Bool → Strategy W
observe_lp s true = record s { entry_history = established }
observe_lp s false = s

-- `outside_count = 0; outside_side = 0` for every layer.
unfoldable pub clear_streaks : List (String × LayerState) → List (String × LayerState)
clear_streaks [] = []
clear_streaks ((name, layer) ∷ rest) =
    (name, record layer { outside_count = 0; outside_side = inside }) ∷ clear_streaks rest
