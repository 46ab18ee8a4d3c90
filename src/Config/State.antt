-- ===== src/Config/State.antt =====
-- The settings of src/config.rs, but for those of the strategy, with the values of a missing section
-- or field.
use lp_maker.Base.{ℕ, ◌*◌, Bool, Option, List, String}
use lp_maker.Strategy.State.{StrategyConfig}

pub data Mode : Type 0 where
  paper live : Mode

pub record HyperliquidConfig : Type 0 where
  pub http_url : String
  pub ws_url : String
  pub mainnet : Bool
  pub coins : List String
  pub hedge_coin : String
  pub private_key_env : String
  pub account : Option String
  pub vault : Option String
  pub leverage : ℕ  -- u32
  pub cross_margin : Bool
  pub maker_wait_seconds : ℕ  -- u64
  pub emergency_slippage_bps : ℕ  -- u32

pub record LiquidityConfig {ℓ} (W : Type ℓ) : Type ℓ where
  pub kind : String
  pub chain_id : ℕ  -- u64
  pub rpc_url : String
  pub archive_rpc_url : Option String
  pub rpc_min_interval_ms : ℕ  -- u64
  pub ws_url : String
  pub owner : Option String
  pub nonce_refresh_seconds : ℕ  -- u64
  pub pending_warn_seconds : ℕ  -- u64
  pub pool : String
  pub factory : String
  pub position_manager : String
  pub swap_router : String
  pub base_token : String
  pub quote_token : String
  pub base_decimals : ℕ  -- u8
  pub quote_decimals : ℕ  -- u8
  pub fee : ℕ  -- u32
  pub private_key_env : String
  pub confirmations : ℕ  -- u64
  pub slippage_bps : ℕ  -- u32
  pub deadline_seconds : ℕ  -- u64
  pub max_gas_native : W
  pub gas_fee_buffer_bps : ℕ  -- u32
  pub gas_limit_buffer_bps : ℕ  -- u32
  pub max_quote_age_seconds : ℕ  -- u64

abbrev pub default_gas_fee_buffer : ℕ
default_gas_fee_buffer = 10000

abbrev pub default_rpc_interval : ℕ
default_rpc_interval = 250

abbrev pub default_gas_limit_buffer : ℕ
default_gas_limit_buffer = 2000

abbrev pub default_quote_age : ℕ
default_quote_age = 60

abbrev pub default_evm_ws : String
default_evm_ws = "wss://robinhood-rpc.publicnode.com"

abbrev pub default_nonce_refresh : ℕ
default_nonce_refresh = 30

abbrev pub default_tx_stale : ℕ
default_tx_stale = 120

pub record RuntimeConfig : Type 0 where
  pub read_retry_seconds : ℕ  -- u64
  pub observation_timeout_seconds : ℕ  -- u64

abbrev pub default_runtime : RuntimeConfig
default_runtime = record { read_retry_seconds = 5; observation_timeout_seconds = 45 }

pub record StorageConfig : Type 0 where
  pub event_segment_bytes : ℕ  -- u64
  pub event_retained_segments : ℕ  -- usize
  pub terminal_orders_keep : ℕ  -- usize
  pub order_archive_max_bytes : ℕ  -- u64
  pub min_free_bytes : ℕ  -- u64

abbrev pub default_storage : StorageConfig
default_storage = record {
  event_segment_bytes = 16 * 1024 * 1024;
  event_retained_segments = 32;
  terminal_orders_keep = 1000;
  order_archive_max_bytes = 256 * 1024 * 1024;
  min_free_bytes = 256 * 1024 * 1024;
}

pub record WebSocketConfig : Type 0 where
  pub heartbeat_seconds : ℕ  -- u64
  pub heartbeat_timeout_seconds : ℕ  -- u64
  pub idle_timeout_seconds : ℕ  -- u64
  pub connect_timeout_seconds : ℕ  -- u64
  pub write_timeout_seconds : ℕ  -- u64
  pub reconnect_initial_ms : ℕ  -- u64
  pub reconnect_max_seconds : ℕ  -- u64

abbrev pub default_websocket : WebSocketConfig
default_websocket = record {
  heartbeat_seconds = 20;
  heartbeat_timeout_seconds = 60;
  idle_timeout_seconds = 300;
  connect_timeout_seconds = 15;
  write_timeout_seconds = 10;
  reconnect_initial_ms = 1000;
  reconnect_max_seconds = 30;
}

pub record MonitoringConfig : Type 0 where
  pub hyperliquid_interval_seconds : ℕ  -- u64
  pub robinhood_interval_seconds : ℕ  -- u64
  pub hyperliquid_refresh_seconds : ℕ  -- u64
  pub robinhood_refresh_seconds : ℕ  -- u64
  pub volume_refresh_seconds : ℕ  -- u64
  pub volume_window_seconds : ℕ  -- u64
  pub backfill_blocks : ℕ  -- u64
  pub refresh_timeout_seconds : ℕ  -- u64

abbrev pub default_monitoring : MonitoringConfig
default_monitoring = record {
  hyperliquid_interval_seconds = 60;
  robinhood_interval_seconds = 60;
  hyperliquid_refresh_seconds = 30;
  robinhood_refresh_seconds = 15;
  volume_refresh_seconds = 60;
  volume_window_seconds = 300;
  backfill_blocks = 6000;
  refresh_timeout_seconds = 45;
}

pub record LoggingConfig : Type 0 where
  pub directory : String
  pub retained_files : ℕ  -- usize
  pub level : String

abbrev pub default_logging : LoggingConfig
default_logging = record { directory = "data/logs"; retained_files = 14; level = "info" }

pub record Config {ℓ} (W : Type ℓ) : Type ℓ where
  pub mode : Mode
  pub state_dir : String
  pub poll_seconds : ℕ  -- u64
  pub hyperliquid : HyperliquidConfig
  pub liquidity : LiquidityConfig W
  pub strategy : StrategyConfig W
  pub websocket : WebSocketConfig
  pub monitoring : MonitoringConfig
  pub logging : LoggingConfig
  pub runtime : RuntimeConfig
  pub storage : StorageConfig
