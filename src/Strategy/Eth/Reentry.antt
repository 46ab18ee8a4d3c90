-- ===== src/Strategy/Eth/Reentry.antt =====
-- How long the strategies of src/strategy/eth stay out after they left a position.
use lp_maker.Base.{◌+◌, ◌*◌, ◌^◌, ◌≤◌, ◌<◌, ◌≡◌, Bool, true, some, arith}
use lp_maker.Float.{F64}
use lp_maker.Domain.{MarketFrame, deploy}
use lp_maker.Strategy.State.{Strategy, StrategyConfig, established, Cause, observe_lp}
use lp_maker.Strategy.Eth.State.{PersistentConfig, BandConfig}
use lp_maker.Strategy.Eth.Feature.{Feature}
use lp_maker.Strategy.Eth.Steps.{Barred, has_lp, start_run, anchor_pause, danger_now, publish}
use lp_maker.Strategy.Eth.Persistent.{choose, withdraw, start_pause, evaluate_range, prepare}
use lp_maker.Strategy.Eth.Account.{Assessed}
use lp_maker.Strategy.Eth.Band.{choose_band, withdraw_band, evaluate_band, prepare_band, join_band}
use lp_maker.Strategy.Eth.Clocks.{prepare-MayHalt, bar_of_band, bar_of_band-MayHalt}
use lp_maker.Strategy.Eth.Cases.{Seen, profile_cases, Seen-evaluate_eth}
use lp_maker.Strategy.Eth.Entries.{evaluate_eth-Entry}
use lp_maker.Strategy.Eth.Withdrawals.{evaluate_eth-Withdraws}
use lp_maker.Strategy.Eth.Evaluate.{evaluate_eth}

module _ {W : Type 0} ⦃f : F64 W⦄ (c : StrategyConfig W) where
  module _ (frame : MarketFrame W) where
    -- A position that is seen establishes the history.
    start-established :
        (s : Strategy W)
        → has_lp frame ≡ true
        → (anchor_pause c (start_run frame s)).strategy.entry_history ≡ established
    unfolding anchor_pause start_run observe_lp
    start-established s held = ground (arith, held)

    choose-entry_history :
        (cfg : PersistentConfig W) (cause : Cause) (w : Barred W)
        → (choose c frame cfg (some cause) w).run.strategy.entry_history
          ≡ w.run.strategy.entry_history
    unfolding choose withdraw start_pause
    choose-entry_history cfg cause w = ground arith

    choose_band-entry_history :
        (b : BandConfig W) (cfg : PersistentConfig W) (y : Feature W) (cause : Cause)
        (outside : Bool) (a : Assessed W)
        → (choose_band c frame b cfg y (some cause) outside a).choice.run.strategy.entry_history
          ≡ a.run.strategy.entry_history
    unfolding choose_band withdraw_band start_pause
    choose_band-entry_history b cfg y cause outside a = ground arith

    range-established :
        (cfg : PersistentConfig W) (y : Feature W) (cause : Cause) (s : Strategy W)
        → has_lp frame ≡ true
        → danger_now c cfg frame y ≡ some cause
        → (evaluate_range c frame cfg y s).strategy.entry_history ≡ established
    unfolding evaluate_range publish
    range-established cfg y cause s held e = rw e (
        let w = prepare c frame cfg y s in
        let h : w.run.strategy.entry_history
            ≡ (anchor_pause c (start_run frame s)).strategy.entry_history =
          (prepare-MayHalt c frame cfg y s).history in
        ground (arith, choose-entry_history cfg cause w, h, start-established s held))

    band-established :
        (b : BandConfig W) (cfg : PersistentConfig W) (y : Feature W) (cause : Cause)
        (s : Strategy W)
        → has_lp frame ≡ true
        → danger_now c cfg frame y ≡ some cause
        → (evaluate_band c frame b cfg y s).strategy.entry_history ≡ established
    unfolding evaluate_band publish join_band
    band-established b cfg y cause s held e = rw e (
        let a = prepare_band c frame b cfg y s in
        let w = bar_of_band c frame b cfg y s in
        let at_bar = record a { run = w.run } in
        let h : w.run.strategy.entry_history
            ≡ (anchor_pause c (start_run frame s)).strategy.entry_history =
          (bar_of_band-MayHalt c frame b cfg y s).history in
        ground (
          arith,
          choose_band-entry_history b cfg y cause w.outside at_bar,
          h,
          start-established s held,
        ))

    -- Who leaves a position has entered one.
    evaluate_eth-established :
        (cfg : PersistentConfig W) (y : Feature W) (cause : Cause) (s : Strategy W)
        → Seen c frame y
        → has_lp frame ≡ true
        → danger_now c cfg frame y ≡ some cause
        → (evaluate_eth c frame cfg s).strategy.entry_history ≡ established
    evaluate_eth-established cfg y cause s seen held e =
        rw (Seen-evaluate_eth c frame cfg y s seen) (
          profile_cases c frame (λ r. r.strategy.entry_history ≡ established) cfg y s
            (λ _. range-established cfg y cause s held e)
            (λ b _. band-established b cfg y cause s held e))

  -- After a position was left in danger, whatever the next observation is, no position is entered
  -- before the whole cooldown is over, as long as its end is a time that a `u64` holds.
  pub exit_waits :
      (cfg : PersistentConfig W) (y : Feature W) (cause : Cause) (s : Strategy W)
      (frame later : MarketFrame W) (x : W)
      → Seen c frame y
      → has_lp frame ≡ true
      → danger_now c cfg frame y ≡ some cause
      → frame.now_ms + c.cooldown_hours * 3600000 < 2 ^ 64
      → (evaluate_eth c later cfg (evaluate_eth c frame cfg s).strategy).decision.lp ≡ deploy x
      → frame.now_ms + c.cooldown_hours * 3600000 ≤ later.now_ms
  exit_waits cfg y cause s frame later x seen held e room h =
      let w = evaluate_eth-Withdraws c frame cfg y cause s seen e in
      let known = evaluate_eth-established frame cfg y cause s seen held e in
      let (z, _, entry) =
        evaluate_eth-Entry c later cfg x (evaluate_eth c frame cfg s).strategy h in
      ground (arith, w.waits, known, entry.waited, entry.running)
