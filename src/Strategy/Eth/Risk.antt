-- ===== src/Strategy/Eth/Risk.antt =====
-- The first steps of src/strategy/eth/band.rs: the equity and the loss that its limits are about.
use lp_maker.Base.{◌&&◌, ◌==◌, if◌then◌else◌}
use lp_maker.Float.{F64, ◌-f◌, ◌*f◌, ◌/f◌, ◌<f◌, ◌≤f◌, lit}
use lp_maker.Domain.{MarketFrame, LpPosition, base, equity}
use lp_maker.Strategy.State.{Strategy, StrategyConfig, halted, Side, below, inside, above}
use lp_maker.Strategy.Eth.State.{BandConfig, BandState}
use lp_maker.Strategy.Eth.Steps.{has_lp, start_run, is_reanchored, anchor_pause}
use lp_maker.Strategy.Eth.Account.{Assessed, Limits, band_of, managed_equity, loss_limit}

module _ {ℓ} {W : Type ℓ} ⦃f : F64 W⦄ (c : StrategyConfig W) (frame : MarketFrame W) where
  open frame use {now_ms, pool, portfolio}

  unfoldable pub side_of_band : LpPosition W → Side
  side_of_band pos =
      if pool.price <f pos.lower then below else if pos.upper <f pool.price then above else inside

  -- The state before the clocks: the equity of the account, and the pause of the executor.
  unfoldable pub start_band : Strategy W → Assessed W
  unfolding managed_equity
  start_band s =
      let bs = managed_equity c (equity portfolio pool.price) (band_of s.eth_persistent) in
      let r = start_run frame s in
      record {
        run = anchor_pause c r;
        band = if is_reanchored r then record bs { entered_ms = 0 } else bs;
        equity = bs.risk_equity;
        drawdown = lit 0;
      }

  unfoldable pub mark_loss : Assessed W → Assessed W
  mark_loss a =
      let s = a.run.strategy in
      let r = a.run in
      let peak = f.f64_max (f.f64_max s.peak_equity a.equity) c.total_capital in
      let dd = lit 1 -f a.equity /f peak in
      record a {
        run = record r {
          strategy = record s {
            peak_equity = peak;
            phase = if c.max_drawdown ≤f dd then halted else s.phase;
          };
        };
        drawdown = dd;
      }

  -- A position without a known entry counts from its first observation.
  unfoldable pub open_episode : Assessed W → BandState W
  open_episode a =
      let bs = a.band in
      if has_lp frame && (bs.entered_ms == 0)
      then if f.eq bs.episode_peak (lit 0)
        then record bs { entered_ms = now_ms; episode_peak = a.equity; entry_drawdown = a.drawdown }
        else record bs { entered_ms = now_ms }
      else bs

  module _ (b : BandConfig W) where
    unfoldable pub assess : Assessed W → Assessed W
    unfolding open_episode
    assess a =
        let bs = open_episode (record a {
          band =
              (let bs = a.band in
                record bs {
                  net_exposure_usd = (base portfolio -f portfolio.short_base) *f pool.price;
                });
        }) in
        record a {
          band = record bs {
            episode_peak = f.f64_max bs.episode_peak a.equity;
            pause_threshold = loss_limit b bs;
          };
        }

    unfoldable pub limits : Assessed W → Limits
    limits a = record {
      soft = has_lp frame && (b.episode_drawdown ≤f lit 1 -f a.equity /f a.band.episode_peak);
      global = has_lp frame && (a.band.pause_threshold ≤f a.drawdown);
    }
