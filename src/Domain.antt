-- ===== src/Domain.antt =====
-- src/domain.rs: what the strategy is shown and what it answers. The traits of that file, which the venues
-- implement, are not modelled.
use lp_maker.Base.{Bool, ℕ, ℤ, Option, List, map, String}
use lp_maker.Float.{F64, ◌+f◌, ◌*f◌, sum}

pub record Candle {ℓ} (W : Type ℓ) : Type ℓ where
  pub open_ms : ℕ
  pub close_ms : ℕ
  pub opening : W
  pub high : W
  pub low : W
  pub close : W

pub record PoolSnapshot {ℓ} (W : Type ℓ) : Type ℓ where
  pub block : ℕ
  pub block_hash : String
  pub time_ms : ℕ
  pub price : W
  pub tick : ℤ  -- i32
  pub tick_spacing : ℤ  -- i32
  pub liquidity : String
  pub sqrt_price_x96 : String
  pub base_is_token0 : Bool

pub record LpPosition {ℓ} (W : Type ℓ) : Type ℓ where
  pub layer : String
  pub token_id : Option String
  pub lower : W
  pub upper : W
  pub liquidity : W
  pub raw_liquidity : String
  pub unclaimed_base : W
  pub unclaimed_quote : W
  pub base : W
  pub quote : W

pub record Portfolio {ℓ} (W : Type ℓ) : Type ℓ where
  pub positions : List (LpPosition W)
  pub wallet_base : W
  pub wallet_quote : W
  pub short_base : W
  pub hedge_equity : W
  pub reserve : W

pub record MarketFrame {ℓ} (W : Type ℓ) : Type ℓ where
  pub now_ms : ℕ
  pub pool : PoolSnapshot W
  pub hedge_price : W
  pub hedge_time_ms : ℕ
  pub candles : List (Candle W)
  pub portfolio : Portfolio W

pub data LpIntent {ℓ} (W : Type ℓ) : Type ℓ where
  hold : LpIntent W
  exit_to_quote : LpIntent W
  deploy : (fraction : W) → LpIntent W
  recenter : (layers : List String) → LpIntent W

module _ {ℓ} {W : Type ℓ} ⦃f : F64 W⦄ where
  unfoldable pub base : Portfolio W → W
  base p = p.wallet_base +f sum (map (λ x. x.base) p.positions)

  unfoldable pub equity : Portfolio W → W → W
  equity p price =
      base p *f price
      +f p.wallet_quote
      +f sum (map (λ x. x.quote) p.positions)
      +f p.hedge_equity
      +f p.reserve
