-- ===== src/Strategy/Eth/Holding.antt =====
-- How long src/strategy/eth/band.rs holds a range before it moves it.
use lp_maker.Base.{
  ◌+◌, ◌-◌, ◌≤◌, ◌≡◌, ◌⊎◌, refl, Bool, true, false, Option, none, some, arith, ltb, List, map,
  String,
}
use lp_maker.Float.{F64}
use lp_maker.Domain.{MarketFrame, recenter}
use lp_maker.Strategy.State.{
  Strategy, StrategyConfig, Cause, Reason, stale_history, is_halted, hours_ms,
}
use lp_maker.Strategy.Eth.State.{PersistentConfig, BandConfig}
use lp_maker.Strategy.Eth.Feature.{Feature}
use lp_maker.Strategy.Eth.Steps.{Run, Barred, has_lp, danger_now, publish, start_run, anchor_pause}
use lp_maker.Strategy.Eth.Persistent.{
  choose, withdraw, evaluate_range, reenter, distrust_warmup, enter_range, stay_out, hold_range,
  renew_target, follow_target,
}
use lp_maker.Strategy.Eth.Account.{Assessed, band_of, managed_equity}
use lp_maker.Strategy.Eth.Band.{
  choose_band, withdraw_band, reenter_band, enter_band, hold_band, recenter_band, hedge_band,
  evaluate_band, prepare_band, join_band, start_band, mark_loss, assess, open_episode,
}
use lp_maker.Strategy.Eth.Clocks.{MayHalt, Begins, start-Begins, bar_of_band, bar_of_band-MayHalt}
use lp_maker.Strategy.Eth.Cases.{Seen, eth_cases}
use lp_maker.Strategy.Eth.Evaluate.{evaluate_eth, hold_unhealthy, check_drawdown}

module _ {W : Type 0} ⦃f : F64 W⦄ (c : StrategyConfig W) (frame : MarketFrame W) where
  -- The time of entry before the bars of this frame.
  entered-prepare_band :
      (b : BandConfig W) (cfg : PersistentConfig W) (y : Feature W) (s : Strategy W)
      → has_lp frame ≡ true
      → ((prepare_band c frame b cfg y s).band.entered_ms ≡ frame.now_ms)
        ⊎ (((prepare_band c frame b cfg y s).band.entered_ms
              ≡ (band_of s.eth_persistent).entered_ms)
            × (ltb 0 (band_of s.eth_persistent).entered_ms ≡ true))
  unfolding prepare_band start_band mark_loss assess open_episode managed_equity
  entered-prepare_band b cfg y s h = ground arith

  -- What moving the range needs.
  record Moved (b : BandConfig W) (cause : Option Cause) (outside : Bool) (layers : List String)
      (a : Assessed W) : Type 0 where
    safe : cause ≡ none
    running : is_halted a.run.strategy.phase ≡ false
    held : has_lp frame ≡ true
    left : outside ≡ true
    whole : layers ≡ map (λ p. p.layer) frame.portfolio.positions
    long_enough : hours_ms b.minimum_holding_hours ≤ frame.now_ms - a.band.entered_ms

  choose_band-Moved :
      (b : BandConfig W) (cfg : PersistentConfig W) (y : Feature W) (cause : Option Cause)
      (outside : Bool) (a : Assessed W) (layers : List String)
      → (choose_band c frame b cfg y cause outside a).choice.lp ≡ recenter layers
      → Moved b cause outside layers a
  unfolding choose_band withdraw_band reenter_band enter_band stay_out distrust_warmup hold_band
      recenter_band hedge_band
  choose_band-Moved b cfg y none outside a layers h = record {
    safe = refl;
    running = ground arith;
    held = ground arith;
    left = ground arith;
    whole = ground arith;
    long_enough = ground arith;
  }
  choose_band-Moved b cfg y (some cause) outside a layers h = ground arith

  choose-recenters :
      (cfg : PersistentConfig W) (cause : Option Cause) (w : Barred W) (layers : List String)
      → ¬ ((choose c frame cfg cause w).lp ≡ recenter layers)
  unfolding choose withdraw reenter enter_range stay_out hold_range renew_target follow_target
  choose-recenters cfg cause w layers = ground arith

  -- What the move of a range in ETH tells of the state before it.
  pub record Move (cfg : PersistentConfig W) (y : Feature W) (b : BandConfig W)
      (layers : List String) (s : Strategy W) : Type 0 where
    pub seen : Seen c frame y
    pub banded : cfg.band ≡ some b
    pub safe : danger_now c cfg frame y ≡ none
    pub running : is_halted s.phase ≡ false
    pub held : has_lp frame ≡ true
    pub whole : layers ≡ map (λ p. p.layer) frame.portfolio.positions
    pub long_enough :
        (hours_ms b.minimum_holding_hours ≡ 0)
        ⊎ ((ltb 0 (band_of s.eth_persistent).entered_ms ≡ true)
            × ((band_of s.eth_persistent).entered_ms + hours_ms b.minimum_holding_hours
                ≤ frame.now_ms))

  Moved-Move :
      (cfg : PersistentConfig W) (y : Feature W) (b : BandConfig W) (outside : Bool)
      (layers : List String) (s : Strategy W) (r : Run W)
      → Seen c frame y
      → cfg.band ≡ some b
      → Begins c frame s (anchor_pause c (start_run frame s))
      → MayHalt (anchor_pause c (start_run frame s)) r
      → Moved b
          (danger_now c cfg frame y)
          outside
          layers
          (let a = prepare_band c frame b cfg y s in record a { run = r })
      → Move cfg y b layers s
  Moved-Move cfg y b outside layers s r seen banded begins kept m = record {
    seen = seen;
    banded = banded;
    safe = m.safe;
    running = ground (arith, m.running);
    held = m.held;
    whole = m.whole;
    long_enough = ground (arith, entered-prepare_band b cfg y s m.held, m.long_enough);
  }

  band-Move :
      (b : BandConfig W) (cfg : PersistentConfig W) (y : Feature W) (layers : List String)
      (s : Strategy W)
      → Seen c frame y
      → cfg.band ≡ some b
      → (evaluate_band c frame b cfg y s).decision.lp ≡ recenter layers
      → Move cfg y b layers s
  unfolding evaluate_band publish join_band
  band-Move b cfg y layers s seen banded h =
      let a = prepare_band c frame b cfg y s in
      let w = bar_of_band c frame b cfg y s in
      Moved-Move cfg y b w.outside layers s w.run seen banded (start-Begins c frame s)
        (bar_of_band-MayHalt c frame b cfg y s)
        (choose_band-Moved b cfg y (danger_now c cfg frame y) w.outside (record a { run = w.run })
          layers h)

  range-recenters :
      (cfg : PersistentConfig W) (y : Feature W) (layers : List String) (s : Strategy W)
      → ¬ ((evaluate_range c frame cfg y s).decision.lp ≡ recenter layers)
  unfolding evaluate_range publish
  range-recenters cfg y layers s = choose-recenters cfg (danger_now c cfg frame y) _ layers

  no_feature-recenters :
      (cfg : PersistentConfig W) (reason : Reason) (layers : List String) (s : Strategy W)
      → ¬ (
          (check_drawdown c frame cfg (hold_unhealthy c frame reason s)).decision.lp
          ≡ recenter layers)
  unfolding check_drawdown hold_unhealthy
  no_feature-recenters cfg reason layers s = ground arith

  -- A range in ETH is moved only by a profile with a band, as a whole, on a fresh observation without
  -- danger and without a halt, and after the position was held for the minimum holding time since it was
  -- first seen.
  evaluate_eth-Move :
      (cfg : PersistentConfig W) (layers : List String) (s : Strategy W)
      → (evaluate_eth c frame cfg s).decision.lp ≡ recenter layers
      → (y : Feature W) × (b : BandConfig W) × Move cfg y b layers s
  unfolding hold_unhealthy
  evaluate_eth-Move cfg layers s =
      eth_cases c frame
        (λ r.
          r.decision.lp ≡ recenter layers
          → (y : Feature W) × (b : BandConfig W) × Move cfg y b layers s)
        cfg s
        (λ message h. ground (arith, no_feature-recenters cfg (stale_history message) layers s))
        (λ h. ground arith) (λ y seen h. ground (arith, range-recenters cfg y layers s))
        (λ y b seen banded h. (y, b, band-Move b cfg y layers s seen banded h))
