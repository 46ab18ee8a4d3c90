-- ===== src/Strategy/Eth/Clocks.antt =====
-- What the steps of src/strategy/eth leave alone.
use lp_maker.Base.{◌≡◌, ◌⊎◌, Bool, true, Option, arith, ltb}
use lp_maker.Float.{F64}
use lp_maker.Domain.{MarketFrame, LpPosition}
use lp_maker.Strategy.State.{Strategy, StrategyConfig, halted, Side, Cause, observe_lp}
use lp_maker.Strategy.Eth.State.{PersistentConfig, BandConfig}
use lp_maker.Strategy.Eth.Feature.{Feature, Guard, guard_of}
use lp_maker.Strategy.Eth.Steps.{
  Run, Barred, has_lp, start_run, anchor_pause, see, watch, bucket_of, drop_hours_in_danger,
  danger_now, count_feature_hour,
}
use lp_maker.Strategy.Eth.Persistent.{mark_equity, prepare}
use lp_maker.Strategy.Eth.Account.{Assessed}
use lp_maker.Strategy.Eth.Band.{side_of_band, start_band, mark_loss, assess, prepare_band}

-- The phase, the pause and the history stay, and with them the clocks of the pause.
pub record SamePause {W : Type 0} (a b : Run W) : Type 0 where
  pub phase : b.strategy.phase ≡ a.strategy.phase
  pub pause_since : b.strategy.pause_since ≡ a.strategy.pause_since
  pub history : b.strategy.entry_history ≡ a.strategy.entry_history
  pub anchor : b.state.pause_anchor_ms ≡ a.state.pause_anchor_ms
  pub reentry : b.state.reentry_not_before_ms ≡ a.state.reentry_not_before_ms

pub SamePause-trans : {W : Type 0} {a b d : Run W} → SamePause a b → SamePause b d → SamePause a d
SamePause-trans p q = ground arith

-- The same but for a halt.
pub record MayHalt {W : Type 0} (a b : Run W) : Type 0 where
  pub phase : (b.strategy.phase ≡ a.strategy.phase) ⊎ (b.strategy.phase ≡ halted)
  pub pause_since : b.strategy.pause_since ≡ a.strategy.pause_since
  pub history : b.strategy.entry_history ≡ a.strategy.entry_history
  pub reentry : b.state.reentry_not_before_ms ≡ a.state.reentry_not_before_ms

SamePause-MayHalt : {W : Type 0} {a b d : Run W} → MayHalt a b → SamePause b d → MayHalt a d
SamePause-MayHalt p q = ground arith

module _ {W : Type 0} (c : StrategyConfig W) (frame : MarketFrame W) where
  see-SamePause : (r : Run W) → SamePause r (see c frame r)
  unfolding see
  see-SamePause r = ground arith

  watch-SamePause :
      (side : LpPosition W → Side) (is_new : Bool) (r : Run W)
      → SamePause r (watch c frame side is_new r).run
  unfolding watch
  watch-SamePause side is_new r = ground arith

drop-SamePause :
    {W : Type 0} (cause : Option Cause) (r : Run W) → SamePause r (drop_hours_in_danger cause r)
unfolding drop_hours_in_danger
drop-SamePause cause r = ground arith

-- The start keeps the phase, and at most establishes the history.
pub record Begins {W : Type 0} (c : StrategyConfig W) (frame : MarketFrame W) (s : Strategy W)
    (r : Run W) : Type 0 where
  pub phase : r.strategy.phase ≡ s.phase
  pub history : (r.strategy.entry_history ≡ s.entry_history) ⊎ (has_lp frame ≡ true)

pub start-Begins :
    {W : Type 0} (c : StrategyConfig W) (frame : MarketFrame W) (s : Strategy W)
    → Begins c frame s (anchor_pause c (start_run frame s))
unfolding anchor_pause start_run observe_lp
start-Begins c frame s = ground arith

module _ {W : Type 0} ⦃f : F64 W⦄ (c : StrategyConfig W) (frame : MarketFrame W) where
  count-SamePause :
      (g : Guard W) (price : W) (x : Feature W) (r : Run W)
      → SamePause r (count_feature_hour g price x r)
  unfolding count_feature_hour
  count-SamePause g price x r = ground arith

  mark_equity-MayHalt : (r : Run W) → MayHalt r (mark_equity c frame r)
  unfolding mark_equity
  mark_equity-MayHalt r = ground arith

  mark_loss-MayHalt : (a : Assessed W) → MayHalt a.run (mark_loss c frame a).run
  unfolding mark_loss
  mark_loss-MayHalt a = ground arith

  MayHalt-after : {a b d : Run W} → SamePause a b → MayHalt b d → MayHalt a d
  MayHalt-after p q = ground arith

  -- From the start to the choice only a halt changes the phase.
  pub prepare-MayHalt :
      (cfg : PersistentConfig W) (x : Feature W) (s : Strategy W)
      → MayHalt (anchor_pause c (start_run frame s)) (prepare c frame cfg x s).run
  unfolding prepare
  prepare-MayHalt cfg x s =
      SamePause-MayHalt (MayHalt-after (see-SamePause c frame _) (mark_equity-MayHalt _)) (
        SamePause-trans (count-SamePause (guard_of cfg c) frame.pool.price x _) (
          SamePause-trans (drop-SamePause (danger_now c cfg frame x) _)
            (watch-SamePause c frame _ _ _)))

  prepare_band-MayHalt :
      (b : BandConfig W) (cfg : PersistentConfig W) (x : Feature W) (s : Strategy W)
      → MayHalt (anchor_pause c (start_run frame s)) (prepare_band c frame b cfg x s).run
  unfolding prepare_band start_band assess
  prepare_band-MayHalt b cfg x s =
      let a = start_band c frame s in
      SamePause-MayHalt
        (MayHalt-after (see-SamePause c frame _)
          (mark_loss-MayHalt (record a { run = see c frame a.run })))
        (SamePause-trans (count-SamePause (guard_of cfg c) frame.pool.price x _)
          (drop-SamePause (danger_now c cfg frame x) _))

  -- The bar that `evaluate_band` watches.
  abbrev pub bar_of_band : BandConfig W → PersistentConfig W → Feature W → Strategy W → Barred W
  bar_of_band b cfg x s =
      let a = prepare_band c frame b cfg x s in
      watch c frame (side_of_band c frame)
        (ltb a.run.strategy.last_decision_bar (bucket_of c frame)) a.run

  pub bar_of_band-MayHalt :
      (b : BandConfig W) (cfg : PersistentConfig W) (x : Feature W) (s : Strategy W)
      → MayHalt (anchor_pause c (start_run frame s)) (bar_of_band b cfg x s).run
  bar_of_band-MayHalt b cfg x s =
      let a = prepare_band c frame b cfg x s in
      SamePause-MayHalt (prepare_band-MayHalt b cfg x s) (
        watch-SamePause c frame (side_of_band c frame)
          (ltb a.run.strategy.last_decision_bar (bucket_of c frame)) a.run)
