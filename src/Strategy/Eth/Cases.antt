-- ===== src/Strategy/Eth/Cases.antt =====
-- The ways through `evaluate` of src/strategy/eth/mod.rs.
use lp_maker.Base.{◌≡◌, refl, true, false, Option, none, some, Result, ok, err, String, if_cases}
use lp_maker.Float.{F64}
use lp_maker.Domain.{MarketFrame}
use lp_maker.Strategy.State.{Strategy, StrategyConfig, stale_history, stale_observation}
use lp_maker.Strategy.Evaluate.{Evaluated, evaluate_inner}
use lp_maker.Strategy.Eth.State.{PersistentConfig, BandConfig}
use lp_maker.Strategy.Eth.Feature.{Feature, latest_feature}
use lp_maker.Strategy.Eth.Persistent.{evaluate_range}
use lp_maker.Strategy.Eth.Band.{evaluate_band}
use lp_maker.Strategy.Eth.Evaluate.{
  unobserved, hold_unhealthy, evaluate_profile, evaluate_feature, check_drawdown, with_feature,
  evaluate_eth, evaluate_with_continuity,
}

module _ {W : Type 0} ⦃f : F64 W⦄ (c : StrategyConfig W) (frame : MarketFrame W) where
  -- A feature for the candles of now, on a fresh observation.
  pub record Seen (y : Feature W) : Type 0 where
    pub computed : latest_feature frame.candles frame.now_ms ≡ ok y
    pub observed : unobserved c frame y ≡ false

  pub profile_cases :
      (P : Evaluated W → Type 0) (cfg : PersistentConfig W) (y : Feature W) (s : Strategy W)
      → (cfg.band ≡ none → P (evaluate_range c frame cfg y s))
      → ((b : BandConfig W) → cfg.band ≡ some b → P (evaluate_band c frame b cfg y s))
      → P (evaluate_profile c frame cfg y s)
  profile_cases P cfg y s range band = go cfg.band refl
    where
      go :
          (o : Option (BandConfig W))
          → cfg.band ≡ o
          → P (elim o [
            | none ↦ evaluate_range c frame cfg y s
            | some b ↦ evaluate_band c frame b cfg y s
          ])
      go none e = range e
      go (some b) e = band b e

  -- A predicate of every way holds of the result.
  pub eth_cases :
      (P : Evaluated W → Type 0) (cfg : PersistentConfig W) (s : Strategy W)
      → ((message : String)
          → P (check_drawdown c frame cfg (hold_unhealthy c frame (stale_history message) s)))
      → P (hold_unhealthy c frame stale_observation s)
      → ((y : Feature W) → Seen y → P (evaluate_range c frame cfg y s))
      → ((y : Feature W) (b : BandConfig W)
          → Seen y
          → cfg.band ≡ some b
          → P (evaluate_band c frame b cfg y s))
      → P (evaluate_eth c frame cfg s)
  unfolding evaluate_eth evaluate_feature
  eth_cases P cfg s unknown unseen range band = go (latest_feature frame.candles frame.now_ms) refl
    where
      go :
          (r : Result (Feature W))
          → latest_feature frame.candles frame.now_ms ≡ r
          → P (with_feature c frame cfg r s)
      go (ok y) e =
          if_cases P (unobserved c frame y) (λ _. unseen)
            (λ o.
              let seen : Seen y = record { computed = e; observed = o } in
              profile_cases P cfg y s (λ _. range y seen) (λ b. band y b seen))
      go (err message) e = unknown message

  pub Seen-evaluate_eth :
      (cfg : PersistentConfig W) (y : Feature W) (s : Strategy W)
      → Seen y
      → evaluate_eth c frame cfg s ≡ evaluate_profile c frame cfg y s
  unfolding evaluate_eth evaluate_feature
  Seen-evaluate_eth cfg y s seen = rw (seen.computed, seen.observed) refl

  -- The EVM runner asks the strategy of the profile, if there is one.
  pub continuity_cases :
      (P : Evaluated W → Type 0) (s : Strategy W)
      → (c.eth_persistent ≡ none → P (evaluate_inner c frame true s))
      → ((cfg : PersistentConfig W) → c.eth_persistent ≡ some cfg → P (evaluate_eth c frame cfg s))
      → P (evaluate_with_continuity c frame s)
  unfolding evaluate_with_continuity
  continuity_cases P s plain profile = go c.eth_persistent refl
    where
      go :
          (o : Option (PersistentConfig W))
          → c.eth_persistent ≡ o
          → P (elim o [
            | none ↦ evaluate_inner c frame true s
            | some cfg ↦ evaluate_eth c frame cfg s
          ])
      go none e = plain e
      go (some cfg) e = profile cfg e
