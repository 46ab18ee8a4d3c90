-- ===== src/Strategy/Eth/Entries.antt =====
-- When the strategies of src/strategy/eth enter a position.
use lp_maker.Base.{
  ℕ, ◌≡◌, ◌⊎◌, refl, Bool, true, false, ◌&&◌, not, Option, none, some, is_none, if◌then◌else◌,
  arith, leb, ◌==◌, unwrap_or,
}
use lp_maker.Float.{F64, lit}
use lp_maker.Domain.{MarketFrame, deploy}
use lp_maker.Strategy.State.{
  Strategy, StrategyConfig, active, Cause, Reason, stale_history, observe_lp, is_paused, is_halted,
  is_warmup, is_initial,
}
use lp_maker.Strategy.Eth.State.{PersistentConfig, BandConfig, fresh_persistent}
use lp_maker.Strategy.Eth.Feature.{Feature}
use lp_maker.Strategy.Eth.Steps.{
  Run, Barred, Choice, has_lp, cooled, danger_now, start_run, anchor_pause, is_reanchored, publish,
}
use lp_maker.Strategy.Eth.Persistent.{
  choose, withdraw, reenter, distrust_warmup, may_reenter, enter_range, stay_out, hold_range,
  renew_target, follow_target, evaluate_range, prepare,
}
use lp_maker.Strategy.Eth.Account.{Assessed}
use lp_maker.Strategy.Eth.Band.{
  choose_band, evaluate_band, prepare_band, hold_band, recenter_band, hedge_band, withdraw_band,
  reenter_band, enter_band, may_enter_band, join_band,
}
use lp_maker.Strategy.Eth.Clocks.{
  MayHalt, Begins, start-Begins, prepare-MayHalt, bar_of_band, bar_of_band-MayHalt,
}
use lp_maker.Strategy.Eth.Cases.{Seen, eth_cases}
use lp_maker.Strategy.Eth.Evaluate.{evaluate_eth, hold_unhealthy, check_drawdown}

-- What an entry needs of the run before the choice.
record Entered {W : Type 0} ⦃f : F64 W⦄ (frame : MarketFrame W) (cause : Option Cause) (x : W)
    (r : Run W) (d : Choice W) : Type 0 where
  safe : is_none cause ≡ true
  running : is_halted r.strategy.phase ≡ false
  nothing_held : has_lp frame ≡ false
  whole_budget : x ≡ lit 1
  started : d.run.strategy.phase ≡ active
  hours : d.run.strategy.healthy_hours ≡ r.strategy.healthy_hours

-- How long it has waited by then.
record Waited {W : Type 0} (c : StrategyConfig W) (frame : MarketFrame W) (r : Run W) : Type 0 where
  proof :
      (is_initial r.strategy.entry_history ≡ true)
      ⊎ ((leb c.resume_healthy_hours r.strategy.healthy_hours ≡ true)
          × ((is_warmup r.strategy.phase ≡ true)
              ⊎ (leb r.state.reentry_not_before_ms frame.now_ms ≡ true)))

module _ {W : Type 0} ⦃f : F64 W⦄ (c : StrategyConfig W) (frame : MarketFrame W) where
  hold_range-deploys :
      (cfg : PersistentConfig W) (r : Run W) (x : W) → ¬ ((hold_range c frame cfg r).lp ≡ deploy x)
  unfolding hold_range follow_target renew_target
  hold_range-deploys cfg r x = ground arith

  choose-Entered :
      (cfg : PersistentConfig W) (cause : Option Cause) (w : Barred W) (x : W)
      → (choose c frame cfg cause w).lp ≡ deploy x
      → Entered frame cause x w.run (choose c frame cfg cause w)
  unfolding choose withdraw reenter enter_range stay_out distrust_warmup
  choose-Entered cfg cause w x h = ground (arith, hold_range-deploys cfg w.run x)

  may_reenter-Waited :
      (r : Run W) → may_reenter c frame (distrust_warmup c frame r) ≡ true → Waited c frame r
  unfolding may_reenter distrust_warmup
  may_reenter-Waited r h = record { proof = ground arith }

  choose-Waited :
      (cfg : PersistentConfig W) (cause : Option Cause) (w : Barred W) (x : W)
      → (choose c frame cfg cause w).lp ≡ deploy x
      → Waited c frame w.run
  unfolding choose withdraw reenter enter_range stay_out
  choose-Waited cfg cause w x h =
      may_reenter-Waited w.run (ground (arith, hold_range-deploys cfg w.run x))

  module _ (b : BandConfig W) (cfg : PersistentConfig W) where
    hold_band-deploys :
        (outside : Bool) (a : Assessed W) (x : W)
        → ¬ ((hold_band c frame b cfg outside a).choice.lp ≡ deploy x)
    unfolding hold_band recenter_band hedge_band
    hold_band-deploys outside a x = ground arith

    choose_band-Entered :
        (y : Feature W) (cause : Option Cause) (outside : Bool) (a : Assessed W) (x : W)
        → (choose_band c frame b cfg y cause outside a).choice.lp ≡ deploy x
        → Entered frame cause x a.run (choose_band c frame b cfg y cause outside a).choice
    unfolding choose_band withdraw_band reenter_band enter_band stay_out distrust_warmup
    choose_band-Entered y cause outside a x h = ground (arith, hold_band-deploys outside a x)

    may_enter_band-Waited :
        (y : Feature W) (r : Run W)
        → may_enter_band c frame b cfg y (distrust_warmup c frame r) ≡ true
        → Waited c frame r
    unfolding may_enter_band distrust_warmup
    may_enter_band-Waited y r h = record { proof = ground arith }

    choose_band-Waited :
        (y : Feature W) (cause : Option Cause) (outside : Bool) (a : Assessed W) (x : W)
        → (choose_band c frame b cfg y cause outside a).choice.lp ≡ deploy x
        → Waited c frame a.run
    unfolding choose_band withdraw_band reenter_band enter_band stay_out
    choose_band-Waited y cause outside a x h =
        may_enter_band-Waited y a.run (ground (arith, hold_band-deploys outside a x))

  -- Until when the strategy waits: the cooldown, from a pause of the executor on if that is new.
  abbrev pub waits_until : Strategy W → ℕ
  waits_until s =
      let st = unwrap_or s.eth_persistent fresh_persistent in
      if is_paused s.phase && not (st.pause_anchor_ms == s.pause_since)
      then cooled c s.pause_since
      else st.reentry_not_before_ms

  -- What an entry needs of the state and of the feature before it, and what it leaves.
  pub record Entry (cfg : PersistentConfig W) (y : Feature W) (x : W) (s t : Strategy W)
      : Type 0 where
    pub safe : danger_now c cfg frame y ≡ none
    pub running : is_halted s.phase ≡ false
    pub nothing_held : has_lp frame ≡ false
    pub whole_budget : x ≡ lit 1
    pub started : t.phase ≡ active
    pub waited :
        (is_initial s.entry_history ≡ true)
        ⊎ ((leb c.resume_healthy_hours t.healthy_hours ≡ true)
            × ((is_warmup s.phase ≡ true) ⊎ (leb (waits_until s) frame.now_ms ≡ true)))

  anchor-waits_until :
      (s : Strategy W)
      → (anchor_pause c (start_run frame s)).state.reentry_not_before_ms ≡ waits_until s
  unfolding anchor_pause start_run is_reanchored observe_lp
  anchor-waits_until s = ground arith

  is_none-≡ : {A : Type 0} (o : Option A) → is_none o ≡ true → o ≡ none
  is_none-≡ none h = refl
  is_none-≡ (some a) h = ground arith

  choice-Entry :
      (cfg : PersistentConfig W) (y : Feature W) (x : W) (s : Strategy W) (r : Run W) (d : Choice W)
      → Begins c frame s (anchor_pause c (start_run frame s))
      → MayHalt (anchor_pause c (start_run frame s)) r
      → Entered frame (danger_now c cfg frame y) x r d
      → Waited c frame r
      → Entry cfg y x s d.run.strategy
  choice-Entry cfg y x s r d begins kept entered w = record {
    safe = is_none-≡ _ entered.safe;
    running = ground arith;
    nothing_held = entered.nothing_held;
    whole_budget = entered.whole_budget;
    started = entered.started;
    waited = ground (arith, anchor-waits_until s, w.proof);
  }

  evaluate_range-Entry :
      (cfg : PersistentConfig W) (y : Feature W) (x : W) (s : Strategy W)
      → (evaluate_range c frame cfg y s).decision.lp ≡ deploy x
      → Entry cfg y x s (evaluate_range c frame cfg y s).strategy
  unfolding evaluate_range publish
  evaluate_range-Entry cfg y x s h =
      let e =
        choice-Entry cfg y x s (prepare c frame cfg y s).run _ (start-Begins c frame s)
          (prepare-MayHalt c frame cfg y s) (choose-Entered cfg (danger_now c cfg frame y) _ x h)
          (choose-Waited cfg (danger_now c cfg frame y) _ x h) in
      record {
        safe = e.safe;
        running = e.running;
        nothing_held = e.nothing_held;
        whole_budget = e.whole_budget;
        started = e.started;
        waited = e.waited;
      }

  evaluate_band-Entry :
      (b : BandConfig W) (cfg : PersistentConfig W) (y : Feature W) (x : W) (s : Strategy W)
      → (evaluate_band c frame b cfg y s).decision.lp ≡ deploy x
      → Entry cfg y x s (evaluate_band c frame b cfg y s).strategy
  unfolding evaluate_band publish join_band
  evaluate_band-Entry b cfg y x s h =
      let a = prepare_band c frame b cfg y s in
      let w = bar_of_band c frame b cfg y s in
      let cause = danger_now c cfg frame y in
      let e =
        choice-Entry cfg y x s w.run _ (start-Begins c frame s)
          (bar_of_band-MayHalt c frame b cfg y s)
          (choose_band-Entered b cfg y cause w.outside (record a { run = w.run }) x h)
          (choose_band-Waited b cfg y cause w.outside (record a { run = w.run }) x h) in
      record {
        safe = e.safe;
        running = e.running;
        nothing_held = e.nothing_held;
        whole_budget = e.whole_budget;
        started = e.started;
        waited = e.waited;
      }

  no_feature-deploys :
      (cfg : PersistentConfig W) (reason : Reason) (x : W) (s : Strategy W)
      → ¬ ((check_drawdown c frame cfg (hold_unhealthy c frame reason s)).decision.lp ≡ deploy x)
  unfolding check_drawdown hold_unhealthy
  no_feature-deploys cfg reason x s = ground arith

  -- A position in ETH is entered, with the whole budget, only on a fresh observation whose newest
  -- completed hours show no danger, with no position held and no halt: by an account that never entered,
  -- or with the required healthy hours and, unless it only warms up, once the wait of its last pause is
  -- over.
  pub evaluate_eth-Entry :
      (cfg : PersistentConfig W) (x : W) (s : Strategy W)
      → (evaluate_eth c frame cfg s).decision.lp ≡ deploy x
      → (y : Feature W) × Seen c frame y × Entry cfg y x s (evaluate_eth c frame cfg s).strategy
  unfolding hold_unhealthy
  evaluate_eth-Entry cfg x s =
      eth_cases c frame
        (λ r.
          r.decision.lp ≡ deploy x → (y : Feature W) × Seen c frame y × Entry cfg y x s r.strategy)
        cfg s (λ message h. ground (arith, no_feature-deploys cfg (stale_history message) x s))
        (λ h. ground arith) (λ y seen h. (y, seen, evaluate_range-Entry cfg y x s h))
        (λ y b seen _ h. (y, seen, evaluate_band-Entry b cfg y x s h))
