-- ===== src/Strategy/Resumption.antt =====
-- How the phases of src/strategy/mod.rs follow one another, and what a resumption takes.
use lp_maker.Base.{◌-◌, ◌≤◌, ◌≡◌, ◌⊎◌, inl, inr, refl, Bool, true, false, List, arith}
use lp_maker.Float.{F64}
use lp_maker.Domain.{MarketFrame}
use lp_maker.Strategy.State.{
  Strategy, StrategyConfig, Phase, warmup, active, paused, recovering, halted, initial, established,
  Reason, hours_ms, observe_lp,
}
use lp_maker.Strategy.Indicators.{Metrics}
use lp_maker.Strategy.Progress.{freeze_recovery_progress}
use lp_maker.Strategy.Market.{begin, refuse, mark_drawdown}
use lp_maker.Strategy.Breakout.{turn_bar}
use lp_maker.Strategy.Phases.{Advance, stop, proceed, advance}
use lp_maker.Strategy.Evaluate.{Evaluated, judge, finish, halt, refused, unmeasured, evaluate_inner}
use lp_maker.Strategy.Blocks.{SameClock}
use lp_maker.Strategy.Cases.{checked_equity, evaluate_cases, judge_cases}

-- The phases that may follow a phase after one call.
abbrev pub may_follow : Phase → Phase → Bool
may_follow halted halted = true
may_follow halted _ = false
may_follow _ halted = true
may_follow _ paused = true
may_follow warmup warmup = true
may_follow warmup active = true
may_follow active active = true
may_follow paused active = true
may_follow paused recovering = true
may_follow recovering recovering = true
may_follow recovering active = true
may_follow _ _ = false

module _ {W : Type 0} ⦃f : F64 W⦄ (c : StrategyConfig W) (frame : MarketFrame W) where
  abbrev Follows : Phase → Advance W → Type 0
  Follows p (stop u d) = u.phase ≡ paused
  Follows p (proceed u lp reasons) = may_follow p u.phase ≡ true

  -- What has to hold before a paused strategy leaves the pause.
  abbrev Rested : Strategy W → Advance W → Type 0
  Rested t (stop u d) = u.phase ≡ paused
  Rested t (proceed u lp reasons) =
      ((t.entry_history ≡ initial) × (u.phase ≡ active))
      ⊎ ((u.phase ≡ recovering)
          × (u.fraction ≡ c.recovery_fraction)
          × (u.healthy_hours ≡ t.healthy_hours)
          × (c.resume_healthy_hours ≤ t.healthy_hours)
          × (hours_ms c.cooldown_hours ≤ frame.now_ms - t.pause_since))

  advance-Rested :
      (p : Phase) (continuity unsafe healthy : Bool) (reasons : List Reason) (t : Strategy W)
      → p ≡ paused
      → t.phase ≡ p
      → Rested t (advance c frame p continuity unsafe healthy reasons t)
  unfolding advance
  advance-Rested p continuity unsafe healthy reasons t e same = ground arith

  -- Out of a pause the strategy goes to the first entry, if no liquidity was ever known, or it recovers.
  -- Then it starts with the recovery fraction, has counted the healthy hours that a resumption takes, and
  -- the cooldown has passed since the pause began.
  abbrev pub Leaves : Strategy W → Evaluated W → Type 0
  Leaves s r =
      (r.strategy.phase ≡ paused)
      ⊎ ((s.entry_history ≡ initial) × (r.strategy.phase ≡ active))
      ⊎ ((r.strategy.phase ≡ recovering)
          × (r.strategy.fraction ≡ c.recovery_fraction)
          × (c.resume_healthy_hours ≤ r.strategy.healthy_hours)
          × (hours_ms c.cooldown_hours ≤ frame.now_ms - s.pause_since))

  finish-Leaves :
      (s t : Strategy W) (a : Advance W) → SameClock s t → Rested t a → Leaves s (finish c frame a)
  unfolding finish turn_bar
  finish-Leaves s t (stop u d) same r = ground arith
  finish-Leaves s t (proceed u lp reasons) same r = ground arith

  judge-Leaves :
      (continuity : Bool) (m : Metrics W) (s : Strategy W)
      → s.phase ≡ paused
      → Leaves s (judge c frame continuity m s)
  judge-Leaves continuity m s e =
      judge_cases c frame (Leaves s) continuity m s (λ r _ w. inl w.phase)
        (λ t unsafe reasons _ _ same _.
          finish-Leaves s t _ same
            (advance-Rested t.phase continuity unsafe _ reasons t (ground arith) refl))

  begin-paused :
      (s : Strategy W)
      → s.phase ≡ paused
      → ((checked_equity c frame s).pause_since ≡ s.pause_since)
        × (((checked_equity c frame s).phase ≡ paused)
            ⊎ ((checked_equity c frame s).phase ≡ halted))
        × (((checked_equity c frame s).entry_history ≡ s.entry_history)
            ⊎ ((checked_equity c frame s).entry_history ≡ established))
  unfolding mark_drawdown begin observe_lp
  begin-paused s e = ground arith

  refuse-paused :
      (continuity : Bool) (s : Strategy W)
      → s.phase ≡ paused
      → (refuse c frame continuity (begin c frame s)).phase ≡ paused
  unfolding refuse begin observe_lp freeze_recovery_progress
  refuse-paused true s e = ground arith
  refuse-paused false s e = ground arith

  -- A paused strategy stays paused, halts, makes a first entry if its history knows no liquidity, or
  -- recovers. To recover takes the healthy hours of the settings and their cooldown since the pause began,
  -- and starts with the recovery fraction.
  pub paused-Leaves :
      (continuity : Bool) (s : Strategy W)
      → s.phase ≡ paused
      → ((evaluate_inner c frame continuity s).strategy.phase ≡ halted)
        ⊎ Leaves s (evaluate_inner c frame continuity s)
  unfolding refused halt unmeasured freeze_recovery_progress
  paused-Leaves continuity s e =
      evaluate_cases c frame (λ r. (r.strategy.phase ≡ halted) ⊎ Leaves s r) continuity s
        (λ _. inr (inl (refuse-paused continuity s e))) (λ _ _ h. ground (arith, begin-paused s e))
        (λ message _ n. ground (arith, begin-paused s e))
        (λ m _ n _.
          ground (arith, begin-paused s e, judge-Leaves continuity m (checked_equity c frame s)))
