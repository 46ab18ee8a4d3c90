-- ===== src/Engine/Paper.antt =====
-- src/engine/paper.rs: the book of simulated executions, with the target of the hedge of
-- src/engine/live.rs. The engine drops a book whose step fails, so a step returns the new book or an error.
pub mod Apply
pub mod Payments
pub mod Held
pub mod Layers
pub mod Funding
mod Examples
use lp_maker.Base.{
  ℕ, ◌-◌, ◌*◌, Bool, true, false, ◌&&◌, ◌||◌, not, Option, none, some, is_none, is_some, List, [],
  ◌∷◌, ◌++◌, map, String, Result, ok, err, ◌>>=◌, ◌>>◌, ensure, context, ltb, leb, if◌then◌else◌,
  any, is_empty, select,
}
use text.Mathlib.Text.{◌==◌ as str_eq}
use lp_maker.Float.{F64, ◌+f◌, ◌-f◌, ◌*f◌, ◌/f◌, ◌<f◌, ◌≤f◌, lit, sum}
use lp_maker.Math.{amounts, liquidity_for_value, range}
use lp_maker.Domain.{LpPosition, Portfolio, LpIntent, hold, exit_to_quote, deploy, recenter, base}
use lp_maker.Config.State.{Config}
use lp_maker.Hyperliquid.Json.{Json}
use lp_maker.Strategy.State.{Decision, StrategyConfig, wrap64}
use lp_maker.Strategy.Eth.State.{BandConfig, PersistentConfig}
use lp_maker.Strategy.Eth.Account.{band_target}

pub record PaperOrder {ℓ} (W : Type ℓ) : Type ℓ where
  pub target : W
  pub buy : Bool
  pub price : W
  pub submitted : ℕ
  pub emergency : Bool

pub record Paper {ℓ} (W : Type ℓ) : Type ℓ where
  pub portfolio : Portfolio W
  pub last_hedge_price : W
  pub pending : Option (PaperOrder W)
  pub hedge_fees : W
  pub swap_costs : W
  pub funding_pnl : W
  pub last_funding_ms : ℕ

-- `layers.contains(name)`.
abbrev pub contains : List String → String → Bool
contains layers name = any (str_eq name) layers

module _ {ℓ} {W : Type ℓ} where
  abbrev band_of_profile : Option (PersistentConfig W) → Option (BandConfig W)
  band_of_profile none = none
  band_of_profile (some p) = p.band

  -- `band::config`.
  abbrev pub band_config : StrategyConfig W → Option (BandConfig W)
  band_config c = band_of_profile c.eth_persistent

  abbrev pub is_entry : LpIntent W → Bool
  is_entry hold = false
  is_entry exit_to_quote = false
  is_entry (deploy fraction) = true
  is_entry (recenter layers) = true

module _ {ℓ} {W : Type ℓ} ⦃f : F64 W⦄ where
  abbrev shared_target : StrategyConfig W → Portfolio W → W → W
  shared_target c p price =
      p.wallet_base
      +f sum (
          map
            (λ pos.
              pos.base
              *f (if price ≤f pos.lower *f (lit 1 +f c.hedge_release_buffer)
                  then lit 1
                  else c.inside_hedge_ratio))
            p.positions)

  abbrev target_of : Option (BandConfig W) → StrategyConfig W → Portfolio W → W → W
  target_of (some band) c p price = band_target band p price
  target_of none c p price =
      if is_some c.eth_persistent then base p *f c.inside_hedge_ratio else shared_target c p price

  unfoldable pub inventory_hedge_target : StrategyConfig W → Portfolio W → W → W
  inventory_hedge_target c p price = target_of (band_config c) c p price

  -- `new`, at a time.
  unfoldable pub opened : Config W → ℕ → Paper W
  opened c now = record {
    portfolio = record {
      positions = [];
      wallet_base = lit 0;
      wallet_quote = c.strategy.lp_budget;
      short_base = lit 0;
      hedge_equity = c.strategy.hedge_collateral;
      reserve = c.strategy.reserve;
    };
    last_hedge_price = lit 0;
    pending = none;
    hedge_fees = lit 0;
    swap_costs = lit 0;
    funding_pnl = lit 0;
    last_funding_ms = now;
  }

  unfoldable pub fill : W → W → W → Paper W → Paper W
  fill target execution fee_rate b =
      let p = b.portfolio in
      let delta = target -f p.short_base in
      let fee = f.abs delta *f execution *f fee_rate in
      record b {
        portfolio = record p {
          hedge_equity = p.hedge_equity +f (delta *f (execution -f b.last_hedge_price) -f fee);
          short_base = target;
        };
        hedge_fees = b.hedge_fees +f fee;
      }

  -- The rates of the exchange, 0.00015 and 0.00045.
  abbrev maker_rate : W
  maker_rate = f.decimal 15 5

  abbrev taker_rate : W
  taker_rate = f.decimal 45 5

  abbrev pub slippage : Config W → W
  slippage c = f.from_int c.hyperliquid.emergency_slippage_bps /f lit 10000

  abbrev set_amounts : W → LpPosition W → LpPosition W
  set_amounts p pos =
      let (b, q) = amounts pos.liquidity pos.lower pos.upper p in record pos { base = b; quote = q }

  abbrev crossed : W → ℕ → PaperOrder W → Bool
  crossed hedge now o =
      ltb o.submitted now && (if o.buy then hedge <f o.price else o.price <f hedge)

  -- `hedge * (1.0 + side * bps / 10000.0)`.
  abbrev execution_price : Config W → W → PaperOrder W → W
  execution_price c hedge o =
      hedge
      *f (lit 1
          +f (if o.buy then lit 1 else f.neg (lit 1))
            *f f.from_int c.hyperliquid.emergency_slippage_bps
            /f lit 10000)

  unfoldable pub settle_pending : Config W → W → ℕ → Option (PaperOrder W) → Paper W → Paper W
  unfolding fill
  settle_pending c hedge now none b = b
  settle_pending c hedge now (some o) b =
      if crossed hedge now o
      then record (fill o.target o.price maker_rate b) { pending = none }
      else if leb (wrap64 (c.hyperliquid.maker_wait_seconds * 1000)) (now - o.submitted)
      then record (if o.emergency
          then fill o.target (execution_price c hedge o) taker_rate b
          else b) { pending = none }
      else b

  unfoldable pub mark : W → W → ℕ → Config W → Paper W → Paper W
  unfolding settle_pending amounts
  mark p hedge now c b =
      let old = b.portfolio in
      let gained =
        if lit 0 <f b.last_hedge_price
        then old.hedge_equity +f old.short_base *f (b.last_hedge_price -f hedge)
        else old.hedge_equity in
      settle_pending c hedge now b.pending (record b {
        portfolio = record old {
          hedge_equity = gained;
          positions = map (set_amounts p) old.positions;
        };
        last_hedge_price = hedge;
      })

  unfoldable pub swap_to_base : W → W → Config W → Paper W → Paper W
  swap_to_base target p c b =
      let old = b.portfolio in
      let delta = target -f old.wallet_base in
      let cost =
        f.abs delta
        *f p
        *f (f.from_int c.liquidity.fee /f lit 1000000
            +f f.from_int c.liquidity.slippage_bps /f lit 10000) in
      record b {
        portfolio = record old {
          wallet_quote = old.wallet_quote -f (delta *f p +f cost);
          wallet_base = target;
        };
        swap_costs = b.swap_costs +f cost;
      }

  -- The positions of these layers go back to the wallet, in their order.
  unfoldable pub collect : List String → List (LpPosition W) → W → W → W × W
  collect layers [] wallet_base wallet_quote = (wallet_base, wallet_quote)
  collect layers (pos ∷ rest) wallet_base wallet_quote =
      if contains layers pos.layer
      then collect layers rest (wallet_base +f pos.base) (wallet_quote +f pos.quote)
      else collect layers rest wallet_base wallet_quote

  unfoldable pub remove : List String → Paper W → Paper W
  unfolding collect
  remove layers b =
      let old = b.portfolio in
      let (wallet_base, wallet_quote) =
        collect layers old.positions old.wallet_base old.wallet_quote in
      record b {
        portfolio = record old {
          positions = select (λ pos. not (contains layers pos.layer)) old.positions;
          wallet_base = wallet_base;
          wallet_quote = wallet_quote;
        };
      }
