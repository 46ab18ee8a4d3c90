-- ===== src/Strategy/Eth/Withdrawals.antt =====
-- When the strategies of src/strategy/eth leave a position, and what they keep afterwards.
use lp_maker.Base.{ℕ, ◌≡◌, ◌⊎◌, Bool, true, false, some, arith, unwrap_or}
use lp_maker.Float.{F64, lit}
use lp_maker.Domain.{MarketFrame, LpIntent, exit_to_quote, base}
use lp_maker.Strategy.State.{Strategy, StrategyConfig, paused, halted, Cause}
use lp_maker.Strategy.Evaluate.{Evaluated}
use lp_maker.Strategy.Eth.State.{PersistentConfig, BandConfig, fresh_persistent}
use lp_maker.Strategy.Eth.Feature.{Feature, Guard}
use lp_maker.Strategy.Eth.Steps.{Barred, Choice, has_lp, cooled, danger_now, publish}
use lp_maker.Strategy.Eth.Persistent.{choose, withdraw, start_pause, evaluate_range, prepare}
use lp_maker.Strategy.Eth.Account.{Assessed, BandChoice}
use lp_maker.Strategy.Eth.Band.{choose_band, withdraw_band, evaluate_band, prepare_band, join_band}
use lp_maker.Strategy.Eth.Clocks.{bar_of_band}
use lp_maker.Strategy.Eth.Cases.{Seen, profile_cases, Seen-evaluate_eth}
use lp_maker.Strategy.Eth.Evaluate.{evaluate_eth}

module _ {W : Type 0} ⦃f : F64 W⦄ (c : StrategyConfig W) (frame : MarketFrame W) where
  -- All is sold, the base asset is hedged at once, and the wait begins anew if something was held.
  pub record Withdrawn (s : Strategy W) (reentry : ℕ) (d : LpIntent W) (target : W)
      (emergency : Bool) : Type 0 where
    pub sold : d ≡ exit_to_quote
    pub hedged : target ≡ base frame.portfolio
    pub at_once : emergency ≡ true
    pub no_hours : s.healthy_hours ≡ 0
    pub no_fraction : s.fraction ≡ lit 0
    pub waits :
        (s.phase ≡ halted)
        ⊎ ((s.phase ≡ paused)
            × ((has_lp frame ≡ false)
                ⊎ ((s.pause_since ≡ frame.now_ms) × (reentry ≡ cooled c frame.now_ms))))

  choose-Withdrawn :
      (cfg : PersistentConfig W) (cause : Cause) (w : Barred W)
      → let d = choose c frame cfg (some cause) w in
        Withdrawn d.run.strategy d.run.state.reentry_not_before_ms d.lp d.target d.emergency
  unfolding choose withdraw start_pause
  choose-Withdrawn cfg cause w = record {
    sold = ground arith;
    hedged = ground arith;
    at_once = ground arith;
    no_hours = ground arith;
    no_fraction = ground arith;
    waits = ground arith;
  }

  -- The state of the profile that an evaluation leaves.
  abbrev reentry_of : Evaluated W → ℕ
  reentry_of r = (unwrap_or r.strategy.eth_persistent fresh_persistent).reentry_not_before_ms

  -- The same of a whole evaluation.
  abbrev pub Withdraws : Evaluated W → Type 0
  Withdraws r =
      Withdrawn r.strategy (reentry_of r) r.decision.lp r.decision.target_short_base
        r.decision.emergency

  choose_band-Withdrawn :
      (b : BandConfig W) (cfg : PersistentConfig W) (y : Feature W) (cause : Cause) (outside : Bool)
      (a : Assessed W)
      → let d = (choose_band c frame b cfg y (some cause) outside a).choice in
        Withdrawn d.run.strategy d.run.state.reentry_not_before_ms d.lp d.target d.emergency
  unfolding choose_band withdraw_band start_pause
  choose_band-Withdrawn b cfg y cause outside a = record {
    sold = ground arith;
    hedged = ground arith;
    at_once = ground arith;
    no_hours = ground arith;
    no_fraction = ground arith;
    waits = ground arith;
  }

  published-Withdrawn :
      (y : Feature W) (g : Guard W) (cooldown : ℕ) (d : Choice W)
      → Withdrawn d.run.strategy d.run.state.reentry_not_before_ms d.lp d.target d.emergency
      → Withdraws (publish c frame y g cooldown d)
  unfolding publish
  published-Withdrawn y g cooldown d w = record {
    sold = w.sold;
    hedged = w.hedged;
    at_once = w.at_once;
    no_hours = w.no_hours;
    no_fraction = w.no_fraction;
    waits = w.waits;
  }

  range-Withdraws :
      (cfg : PersistentConfig W) (y : Feature W) (cause : Cause) (s : Strategy W)
      → danger_now c cfg frame y ≡ some cause
      → Withdraws (evaluate_range c frame cfg y s)
  unfolding evaluate_range
  range-Withdraws cfg y cause s e =
      rw e (published-Withdrawn y _ _ _ (choose-Withdrawn cfg cause (prepare c frame cfg y s)))

  joined-Withdrawn :
      (b : BandConfig W) (cfg : PersistentConfig W) (d : BandChoice W)
      → (let ch = d.choice in
          Withdrawn ch.run.strategy ch.run.state.reentry_not_before_ms ch.lp ch.target ch.emergency)
      → let ch = join_band c frame b cfg d in
        Withdrawn ch.run.strategy ch.run.state.reentry_not_before_ms ch.lp ch.target ch.emergency
  unfolding join_band
  joined-Withdrawn b cfg d w = record {
    sold = w.sold;
    hedged = w.hedged;
    at_once = w.at_once;
    no_hours = w.no_hours;
    no_fraction = w.no_fraction;
    waits = w.waits;
  }

  band-Withdraws :
      (b : BandConfig W) (cfg : PersistentConfig W) (y : Feature W) (cause : Cause) (s : Strategy W)
      → danger_now c cfg frame y ≡ some cause
      → Withdraws (evaluate_band c frame b cfg y s)
  unfolding evaluate_band
  band-Withdraws b cfg y cause s e =
      let a = prepare_band c frame b cfg y s in
      let w = bar_of_band c frame b cfg y s in
      let at_bar = record a { run = w.run } in
      rw e (
        published-Withdrawn y _ _ _ (
          joined-Withdrawn b cfg (choose_band c frame b cfg y (some cause) w.outside at_bar)
            (choose_band-Withdrawn b cfg y cause w.outside at_bar)))

  -- In danger, a strategy in ETH that sees a fresh observation sells whatever it holds, hedges all of the
  -- base asset at once and loses its healthy hours; it is halted or paused, and if it held a position its
  -- wait starts anew with a whole cooldown.
  pub evaluate_eth-Withdraws :
      (cfg : PersistentConfig W) (y : Feature W) (cause : Cause) (s : Strategy W)
      → Seen c frame y
      → danger_now c cfg frame y ≡ some cause
      → Withdraws (evaluate_eth c frame cfg s)
  evaluate_eth-Withdraws cfg y cause s seen e = rw (Seen-evaluate_eth c frame cfg y s seen) (
      profile_cases c frame Withdraws cfg y s (λ _. range-Withdraws cfg y cause s e)
        (λ b _. band-Withdraws b cfg y cause s e))
