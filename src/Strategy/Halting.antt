-- ===== src/Strategy/Halting.antt =====
-- What the strategy of src/strategy/mod.rs does after a drawdown and with data that it cannot use.
use lp_maker.Base.{◌≡◌, ◌⊎◌, inl, inr, refl, Bool, true, false, List, [], ◌∷◌, if◌then◌else◌, arith}
use lp_maker.Float.{F64}
use lp_maker.Domain.{MarketFrame, hold, exit_to_quote, base}
use lp_maker.Strategy.State.{Strategy, StrategyConfig, paused, halted, is_halted, observe_lp}
use lp_maker.Strategy.Progress.{freeze_recovery_progress}
use lp_maker.Strategy.Market.{begin, unusable, refuse, drawn_down, mark_drawdown}
use lp_maker.Strategy.Evaluate.{Evaluated, halt, refused, evaluate_inner}
use lp_maker.Strategy.Blocks.{SameClock}
use lp_maker.Strategy.Cases.{checked_equity, evaluate_cases}

module _ {W : Type 0} ⦃f : F64 W⦄ (c : StrategyConfig W) where
  -- The strategy after it was asked about each frame in turn.
  abbrev pub after_all : Bool → Strategy W → List (MarketFrame W) → Strategy W
  after_all continuity s [] = s
  after_all continuity s (frame ∷ rest) =
      after_all continuity (evaluate_inner c frame continuity s).strategy rest

  begin-halted :
      (frame : MarketFrame W) (s : Strategy W) → s.phase ≡ halted → (begin c frame s).phase ≡ halted
  unfolding begin observe_lp
  begin-halted frame s h = ground arith

  checked-halted :
      (frame : MarketFrame W) (s : Strategy W)
      → s.phase ≡ halted
      → (checked_equity c frame s).phase ≡ halted
  unfolding mark_drawdown
  checked-halted frame s h = ground (arith, begin-halted frame s h)

  refuse-halted :
      (frame : MarketFrame W) (continuity : Bool) (s : Strategy W)
      → s.phase ≡ halted
      → (refuse c frame continuity s).phase ≡ halted
  unfolding refuse freeze_recovery_progress
  refuse-halted frame true s h = h
  refuse-halted frame false s h = ground arith

  -- Whatever the frame holds, a halted strategy stays halted and at most withdraws.
  abbrev pub StaysHalted : Evaluated W → Type 0
  StaysHalted r =
      (r.strategy.phase ≡ halted) × ((r.decision.lp ≡ hold) ⊎ (r.decision.lp ≡ exit_to_quote))

  pub evaluate-StaysHalted :
      (frame : MarketFrame W) (continuity : Bool) (s : Strategy W)
      → s.phase ≡ halted
      → StaysHalted (evaluate_inner c frame continuity s)
  unfolding refused halt
  evaluate-StaysHalted frame continuity s h =
      evaluate_cases c frame StaysHalted continuity s
        (λ _. (refuse-halted frame continuity _ (begin-halted frame s h), inl refl))
        (λ reasons _ _. (checked-halted frame s h, inr refl))
        (λ message _ n. ground (arith, checked-halted frame s h))
        (λ m _ n _. ground (arith, checked-halted frame s h))

  -- Once halted, a strategy is never deployed again: after any frames it is still halted, and about the
  -- next frame it holds or withdraws.
  halted_absorbs :
      (continuity : Bool) (s : Strategy W) (frames : List (MarketFrame W)) (next : MarketFrame W)
      → s.phase ≡ halted
      → ((after_all continuity s frames).phase ≡ halted)
        × (((evaluate_inner c next continuity (after_all continuity s frames)).decision.lp ≡ hold)
            ⊎ ((evaluate_inner c next continuity (after_all continuity s frames)).decision.lp
                ≡ exit_to_quote))
  halted_absorbs continuity s [] next h = (h, (evaluate-StaysHalted next continuity s h).1)
  halted_absorbs continuity s (frame ∷ rest) next h =
      halted_absorbs continuity (evaluate_inner c frame continuity s).strategy rest next
        (evaluate-StaysHalted frame continuity s h).0

  -- On data that can be used, an equity below the peak less the allowed drawdown halts the strategy,
  -- withdraws the liquidity and hedges all of the base asset at once.
  drawdown_halts :
      (frame : MarketFrame W) (continuity : Bool) (s : Strategy W)
      → unusable c frame ≡ false
      → drawn_down c frame (begin c frame s) ≡ true
      → let r = evaluate_inner c frame continuity s in
        (r.strategy.phase ≡ halted)
        × (r.decision.lp ≡ exit_to_quote)
        × (r.decision.target_short_base ≡ base frame.portfolio)
        × (r.decision.emergency ≡ true)
  unfolding evaluate_inner mark_drawdown halt
  drawdown_halts frame continuity s usable down = rw (usable, down) (refl, refl, refl, refl)

  -- On data that cannot be used nothing is traded: the liquidity is held, the hedge is left as it
  -- stands. The EVM runner keeps the phase, the clocks and the healthy hours; the other pauses unless it
  -- is halted, and forgets the hours.
  unusable_holds :
      (frame : MarketFrame W) (continuity : Bool) (s : Strategy W)
      → unusable c frame ≡ true
      → let r = evaluate_inner c frame continuity s in
        let t = begin c frame s in
        (r.decision.lp ≡ hold)
        × (r.decision.target_short_base ≡ frame.portfolio.short_base)
        × (r.decision.emergency ≡ false)
        × (if continuity
            then SameClock t r.strategy
              × (r.strategy.healthy_hours ≡ t.healthy_hours)
              × (r.strategy.last_hour ≡ t.last_hour)
            else (r.strategy.phase ≡ (if is_halted t.phase then halted else paused))
              × (r.strategy.healthy_hours ≡ 0)
              × (r.strategy.last_hour ≡ t.last_hour))
  unfolding evaluate_inner refused refuse freeze_recovery_progress
  unusable_holds frame true s bad = rw bad (refl, refl, refl, (ground arith, refl, refl))
  unusable_holds frame false s bad = rw bad (refl, refl, refl, (ground arith, refl, ground arith))
