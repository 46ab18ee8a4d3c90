-- ===== src/Strategy/Deployment.antt =====
-- When the strategy of src/strategy/mod.rs deploys liquidity, and when it takes it back.
use lp_maker.Base.{◌≡◌, ◌⊎◌, inl, inr, Bool, true, false, ok, arith, Bool-cases}
use lp_maker.Float.{F64}
use lp_maker.Domain.{MarketFrame, deploy}
use lp_maker.Strategy.State.{Strategy, StrategyConfig, active, recovering, is_halted}
use lp_maker.Strategy.Indicators.{Metrics, calculate}
use lp_maker.Strategy.Market.{begin, unusable, drawn_down, mark_drawdown, unsafe_market}
use lp_maker.Strategy.Evaluate.{
  Evaluated, judge, halt, refused, unmeasured, measured, evaluate_inner,
}
use lp_maker.Strategy.Cases.{
  checked_equity, evaluate_cases, Proposes, advance-Sound, finish-deploy, Withdraws,
  judge-Withdraws,
}

module _ {W : Type 0} ⦃f : F64 W⦄ (c : StrategyConfig W) (frame : MarketFrame W) where
  judge-deploy :
      (continuity : Bool) (m : Metrics W) (s : Strategy W) (x : W)
      → (judge c frame continuity m s).decision.lp ≡ deploy x
      → (unsafe_market c frame m ≡ false)
        × Proposes c frame (judge c frame continuity m s).strategy (deploy x)
  judge-deploy continuity m s x e = elim (Bool-cases (unsafe_market c frame m)) [
    | inl bad ↦ ground (arith, judge-Withdraws c frame continuity m s bad)
    | inr safe ↦ (safe, judged e)
  ]
    where
      judged :
          (judge c frame continuity m s).decision.lp ≡ deploy x
          → Proposes c frame (judge c frame continuity m s).strategy (deploy x)
      judged =
          unfold judge in finish-deploy c frame _ x (advance-Sound c frame _ continuity _ _ _ _)

  not-halted :
      (s : Strategy W)
      → is_halted (checked_equity c frame s).phase ≡ false
      → drawn_down c frame (begin c frame s) ≡ false
  unfolding mark_drawdown
  not-halted s h = ground arith

  -- All that the data, the equity and the market have to show before liquidity is deployed.
  pub record Cleared (s : Strategy W) (x : W) (r : Evaluated W) : Type 0 where
    pub usable : unusable c frame ≡ false
    pub no_drawdown : drawn_down c frame (begin c frame s) ≡ false
    pub metrics : Metrics W
    pub measured_ok : calculate frame.candles c frame.now_ms ≡ ok metrics
    pub safe : unsafe_market c frame metrics ≡ false
    pub phase : (r.strategy.phase ≡ active) ⊎ (r.strategy.phase ≡ recovering)
    pub fraction : r.strategy.fraction ≡ x

  -- Liquidity is deployed only on data that can be used, with no drawdown, on complete hourly candles and
  -- in a safe market; the phase is then active or recovering, and the strategy records the fraction.
  pub deploy-Cleared :
      (continuity : Bool) (s : Strategy W) (x : W)
      → (evaluate_inner c frame continuity s).decision.lp ≡ deploy x
      → Cleared s x (evaluate_inner c frame continuity s)
  unfolding refused halt unmeasured
  deploy-Cleared continuity s x =
      evaluate_cases c frame (λ r. r.decision.lp ≡ deploy x → Cleared s x r) continuity s
        (λ _ e. cc) (λ _ _ _ e. cc) (λ _ _ _ e. cc)
        (λ m usable n q e.
          let j = judge-deploy continuity m (checked_equity c frame s) x e in
          record {
            usable = usable;
            no_drawdown = not-halted s n;
            metrics = m;
            measured_ok = q;
            safe = j.0;
            phase = j.1.1;
            fraction = j.1.0;
          })

  -- On data that can be used, with candles that measure and no halt, an unsafe market pauses the strategy,
  -- withdraws the liquidity, hedges all of the base asset, drops the healthy hours, and starts the
  -- cooldown unless it runs already.
  pub unsafe-Withdraws :
      (continuity : Bool) (m : Metrics W) (s : Strategy W)
      → unusable c frame ≡ false
      → is_halted (checked_equity c frame s).phase ≡ false
      → calculate frame.candles c frame.now_ms ≡ ok m
      → unsafe_market c frame m ≡ true
      → Withdraws c frame (checked_equity c frame s) (evaluate_inner c frame continuity s)
  unfolding evaluate_inner measured
  unsafe-Withdraws continuity m s usable n q bad =
      rw (usable, n, q) (judge-Withdraws c frame continuity m (checked_equity c frame s) bad)
