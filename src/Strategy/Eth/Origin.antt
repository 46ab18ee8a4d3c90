-- ===== src/Strategy/Eth/Origin.antt =====
-- The equity that the losses of an account count from, in src/strategy/eth.
use lp_maker.Base.{◌≡◌, refl, Bool, Option, some, arith, List, [], ◌∷◌}
use lp_maker.Float.{F64, ◌+f◌, ◌-f◌}
use lp_maker.Domain.{MarketFrame, equity}
use lp_maker.Strategy.State.{Strategy, StrategyConfig, Cause, Reason, stale_history, observe_lp}
use lp_maker.Strategy.Eth.State.{PersistentConfig, BandConfig, BandState}
use lp_maker.Strategy.Eth.Feature.{Feature}
use lp_maker.Strategy.Eth.Steps.{
  Barred, danger_now, publish, watch, start_run, anchor_pause, see, count_feature_hour,
  drop_hours_in_danger, is_reanchored,
}
use lp_maker.Strategy.Eth.Persistent.{
  choose, withdraw, start_pause, evaluate_range, prepare, reenter, distrust_warmup, enter_range,
  stay_out, hold_range, renew_target, follow_target, mark_equity,
}
use lp_maker.Strategy.Eth.Account.{Assessed, band_of, managed_equity, with_managed}
use lp_maker.Strategy.Eth.Band.{
  choose_band, withdraw_band, reenter_band, enter_band, hold_band, recenter_band, evaluate_band,
  prepare_band, join_band, start_band, mark_loss, assess, open_episode,
}
use lp_maker.Strategy.Eth.Clocks.{bar_of_band}
use lp_maker.Strategy.Eth.Cases.{Seen, eth_cases, profile_cases, Seen-evaluate_eth}
use lp_maker.Strategy.Eth.Evaluate.{
  evaluate_eth, hold_unhealthy, check_drawdown, with_peak, evaluate_with_continuity,
}
use lp_maker.Strategy.Eth.Lasting.{after_frames}

-- The first equity that the account was seen with, if one is known.
abbrev pub origin_of : {W : Type 0} ⦃f : F64 W⦄ → Strategy W → Option W
origin_of s = (band_of s.eth_persistent).account_origin_equity

module _ {W : Type 0} ⦃f : F64 W⦄ (c : StrategyConfig W) (frame : MarketFrame W) where
  origin-start_run :
      (s : Strategy W)
      → (band_of (some (anchor_pause c (start_run frame s)).state)).account_origin_equity
        ≡ origin_of s
  unfolding anchor_pause start_run is_reanchored observe_lp
  origin-start_run s = ground arith

  prepare_keeps_band :
      (cfg : PersistentConfig W) (y : Feature W) (s : Strategy W)
      → (prepare c frame cfg y s).run.state.band ≡ (anchor_pause c (start_run frame s)).state.band
  unfolding prepare watch drop_hours_in_danger count_feature_hour mark_equity see
  prepare_keeps_band cfg y s = ground arith

  choose_keeps_band :
      (cfg : PersistentConfig W) (cause : Option Cause) (w : Barred W)
      → (choose c frame cfg cause w).run.state.band ≡ w.run.state.band
  unfolding choose withdraw start_pause reenter enter_range stay_out distrust_warmup hold_range
      renew_target follow_target
  choose_keeps_band cfg cause w = ground arith

  range_keeps_origin :
      (cfg : PersistentConfig W) (y : Feature W) (s : Strategy W)
      → origin_of (evaluate_range c frame cfg y s).strategy ≡ origin_of s
  unfolding evaluate_range publish
  range_keeps_origin cfg y s = ground (
    arith,
    choose_keeps_band cfg (danger_now c cfg frame y) (prepare c frame cfg y s),
    prepare_keeps_band cfg y s,
    origin-start_run s,
  )

  -- The band counts its losses from this equity.
  record CountsFrom (o : W) (bs : BandState W) : Type 0 where
    origin : bs.account_origin_equity ≡ some o
    risk : bs.risk_equity ≡ c.total_capital +f equity frame.portfolio frame.pool.price -f o

  prepare_band-CountsFrom :
      (b : BandConfig W) (cfg : PersistentConfig W) (y : Feature W) (s : Strategy W) (o : W)
      → origin_of s ≡ some o
      → CountsFrom o (prepare_band c frame b cfg y s).band
  unfolding prepare_band start_band mark_loss assess open_episode managed_equity
  prepare_band-CountsFrom b cfg y s o h = record {
    origin = ground arith;
    risk = rw h (ground arith);
  }

  choose_band-CountsFrom :
      (b : BandConfig W) (cfg : PersistentConfig W) (y : Feature W) (cause : Option Cause)
      (outside : Bool) (a : Assessed W) (o : W)
      → CountsFrom o a.band
      → CountsFrom o (choose_band c frame b cfg y cause outside a).band
  unfolding choose_band withdraw_band reenter_band enter_band hold_band recenter_band
  choose_band-CountsFrom b cfg y cause outside a o h = record {
    origin = ground arith;
    risk = ground arith;
  }

  band-CountsFrom :
      (b : BandConfig W) (cfg : PersistentConfig W) (y : Feature W) (s : Strategy W) (o : W)
      → origin_of s ≡ some o
      → CountsFrom o (band_of (evaluate_band c frame b cfg y s).strategy.eth_persistent)
  unfolding evaluate_band publish join_band
  band-CountsFrom b cfg y s o h =
      let a = prepare_band c frame b cfg y s in
      let w = bar_of_band c frame b cfg y s in
      choose_band-CountsFrom b cfg y (danger_now c cfg frame y) w.outside (record a { run = w.run })
        o (prepare_band-CountsFrom b cfg y s o h)

  no_feature_keeps_origin :
      (cfg : PersistentConfig W) (reason : Reason) (s : Strategy W) (o : W)
      → origin_of s ≡ some o
      → origin_of (check_drawdown c frame cfg (hold_unhealthy c frame reason s)).strategy ≡ some o
  unfolding check_drawdown hold_unhealthy with_peak with_managed managed_equity
  no_feature_keeps_origin cfg reason s o h = ground arith

  eth_keeps_origin :
      (cfg : PersistentConfig W) (s : Strategy W) (o : W)
      → origin_of s ≡ some o
      → origin_of (evaluate_eth c frame cfg s).strategy ≡ some o
  unfolding hold_unhealthy
  eth_keeps_origin cfg s o h =
      eth_cases c frame (λ r. origin_of r.strategy ≡ some o) cfg s
        (λ message. no_feature_keeps_origin cfg (stale_history message) s o h) h
        (λ y _. rw (range_keeps_origin cfg y s) h)
        (λ y b _ _. (band-CountsFrom b cfg y s o h).origin)

  profile-evaluate :
      (cfg : PersistentConfig W) (s : Strategy W)
      → c.eth_persistent ≡ some cfg
      → evaluate_with_continuity c frame s ≡ evaluate_eth c frame cfg s
  unfolding evaluate_with_continuity
  profile-evaluate cfg s h = rw h refl

module _ {W : Type 0} ⦃f : F64 W⦄ (c : StrategyConfig W) where
  origin_lasts :
      (cfg : PersistentConfig W) (s : Strategy W) (o : W) (frames : List (MarketFrame W))
      → c.eth_persistent ≡ some cfg
      → origin_of s ≡ some o
      → origin_of (after_frames c s frames) ≡ some o
  origin_lasts cfg s o [] has h = h
  origin_lasts cfg s o (frame ∷ rest) has h =
      origin_lasts cfg (evaluate_with_continuity c frame s).strategy o rest has
        (rw (profile-evaluate c frame cfg s has) (eth_keeps_origin c frame cfg s o h))

  -- Once the first equity of an account with a profile in ETH is known, no frame, pause, move or gap
  -- replaces it: after any frames it is still the origin, and the next fresh observation of a profile
  -- with a band measures the risk equity as the whole capital plus the equity seen less that origin.
  pub eth_losses_count_from_origin :
      (cfg : PersistentConfig W) (b : BandConfig W) (s : Strategy W) (o : W)
      (frames : List (MarketFrame W)) (next : MarketFrame W) (y : Feature W)
      → c.eth_persistent ≡ some cfg
      → cfg.band ≡ some b
      → origin_of s ≡ some o
      → Seen c next y
      → (origin_of (after_frames c s frames) ≡ some o)
        × ((band_of
              (evaluate_with_continuity c next
                (after_frames c s frames)).strategy.eth_persistent).risk_equity
            ≡ c.total_capital +f equity next.portfolio next.pool.price -f o)
  eth_losses_count_from_origin cfg b s o frames next y has banded h seen =
      let t = after_frames c s frames in
      let lasts = origin_lasts cfg s o frames has h in
      (
        lasts,
        rw (profile-evaluate c next cfg t has, Seen-evaluate_eth c next cfg y t seen)
            (profile_cases c next
              (λ r.
                (band_of r.strategy.eth_persistent).risk_equity
                ≡ c.total_capital +f equity next.portfolio next.pool.price -f o)
              cfg y t (λ bare. ground arith)
              (λ b' _. (band-CountsFrom c next b' cfg y t o lasts).risk)),
      )
