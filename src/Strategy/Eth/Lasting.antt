-- ===== src/Strategy/Eth/Lasting.antt =====
-- The halt of the strategy, over any frames.
use lp_maker.Base.{◌≡◌, ◌⊎◌, inl, inr, refl, Bool, true, Option, arith, List, [], ◌∷◌}
use lp_maker.Float.{F64}
use lp_maker.Domain.{MarketFrame, hold, exit_to_quote}
use lp_maker.Strategy.State.{Strategy, StrategyConfig, halted, Cause, Reason, stale_history}
use lp_maker.Strategy.Halting.{StaysHalted, evaluate-StaysHalted}
use lp_maker.Strategy.Eth.State.{PersistentConfig, BandConfig}
use lp_maker.Strategy.Eth.Feature.{Feature}
use lp_maker.Strategy.Eth.Steps.{Barred, danger_now, publish}
use lp_maker.Strategy.Eth.Persistent.{choose, withdraw, start_pause, evaluate_range, prepare}
use lp_maker.Strategy.Eth.Account.{Assessed}
use lp_maker.Strategy.Eth.Band.{choose_band, withdraw_band, evaluate_band, prepare_band, join_band}
use lp_maker.Strategy.Eth.Clocks.{start-Begins, prepare-MayHalt, bar_of_band, bar_of_band-MayHalt}
use lp_maker.Strategy.Eth.Cases.{eth_cases, continuity_cases}
use lp_maker.Strategy.Eth.Evaluate.{
  evaluate_eth, hold_unhealthy, check_drawdown, evaluate_with_continuity,
}

module _ {W : Type 0} ⦃f : F64 W⦄ (c : StrategyConfig W) where
  -- The strategy after it was asked about each frame in turn.
  abbrev pub after_frames : Strategy W → List (MarketFrame W) → Strategy W
  after_frames s [] = s
  after_frames s (frame ∷ rest) = after_frames (evaluate_with_continuity c frame s).strategy rest

  module _ (frame : MarketFrame W) where
    choose-StaysHalted :
        (cfg : PersistentConfig W) (cause : Option Cause) (w : Barred W)
        → w.run.strategy.phase ≡ halted
        → let d = choose c frame cfg cause w in
          (d.run.strategy.phase ≡ halted) × (d.lp ≡ exit_to_quote)
    unfolding choose withdraw start_pause
    choose-StaysHalted cfg cause w h = (ground arith, ground arith)

    range-StaysHalted :
        (cfg : PersistentConfig W) (y : Feature W) (s : Strategy W)
        → s.phase ≡ halted
        → StaysHalted c (evaluate_range c frame cfg y s)
    unfolding evaluate_range publish
    range-StaysHalted cfg y s h =
        let kept = prepare-MayHalt c frame cfg y s in
        let begins = start-Begins c frame s in
        let d =
          choose-StaysHalted cfg (danger_now c cfg frame y) (prepare c frame cfg y s)
            (ground arith) in
        (d.0, inr d.1)

    choose_band-StaysHalted :
        (b : BandConfig W) (cfg : PersistentConfig W) (y : Feature W) (cause : Option Cause)
        (outside : Bool) (a : Assessed W)
        → a.run.strategy.phase ≡ halted
        → let d = (choose_band c frame b cfg y cause outside a).choice in
          (d.run.strategy.phase ≡ halted) × (d.lp ≡ exit_to_quote)
    unfolding choose_band withdraw_band start_pause
    choose_band-StaysHalted b cfg y cause outside a h = (ground arith, ground arith)

    band-StaysHalted :
        (b : BandConfig W) (cfg : PersistentConfig W) (y : Feature W) (s : Strategy W)
        → s.phase ≡ halted
        → StaysHalted c (evaluate_band c frame b cfg y s)
    unfolding evaluate_band publish join_band
    band-StaysHalted b cfg y s h =
        let a = prepare_band c frame b cfg y s in
        let w = bar_of_band c frame b cfg y s in
        let begins = start-Begins c frame s in
        let kept = bar_of_band-MayHalt c frame b cfg y s in
        let d =
          choose_band-StaysHalted b cfg y (danger_now c cfg frame y) w.outside
            (record a { run = w.run }) (ground arith) in
        (d.0, inr d.1)

    no_feature-StaysHalted :
        (cfg : PersistentConfig W) (reason : Reason) (s : Strategy W)
        → s.phase ≡ halted
        → StaysHalted c (check_drawdown c frame cfg (hold_unhealthy c frame reason s))
    unfolding check_drawdown hold_unhealthy
    no_feature-StaysHalted cfg reason s h = (ground arith, ground arith)

    eth-StaysHalted :
        (cfg : PersistentConfig W) (s : Strategy W)
        → s.phase ≡ halted
        → StaysHalted c (evaluate_eth c frame cfg s)
    unfolding hold_unhealthy
    eth-StaysHalted cfg s h =
        eth_cases c frame (StaysHalted c) cfg s
          (λ message. no_feature-StaysHalted cfg (stale_history message) s h) (h, inl refl)
          (λ y _. range-StaysHalted cfg y s h) (λ y b _ _. band-StaysHalted b cfg y s h)

    evaluate_with_continuity-StaysHalted :
        (s : Strategy W) → s.phase ≡ halted → StaysHalted c (evaluate_with_continuity c frame s)
    evaluate_with_continuity-StaysHalted s h =
        continuity_cases c frame (StaysHalted c) s (λ _. evaluate-StaysHalted c frame true s h)
          (λ cfg _. eth-StaysHalted cfg s h)

  -- Whatever profile runs, a halted strategy is never deployed again: after any frames it is still halted,
  -- and about the next frame it holds or withdraws.
  pub every_profile_stays_halted :
      (s : Strategy W) (frames : List (MarketFrame W)) (next : MarketFrame W)
      → s.phase ≡ halted
      → ((after_frames s frames).phase ≡ halted)
        × (((evaluate_with_continuity c next (after_frames s frames)).decision.lp ≡ hold)
            ⊎ ((evaluate_with_continuity c next (after_frames s frames)).decision.lp
                ≡ exit_to_quote))
  every_profile_stays_halted s [] next h = (h, (evaluate_with_continuity-StaysHalted next s h).1)
  every_profile_stays_halted s (frame ∷ rest) next h =
      every_profile_stays_halted (evaluate_with_continuity c frame s).strategy rest next
        (evaluate_with_continuity-StaysHalted frame s h).0
