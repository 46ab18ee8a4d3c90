-- ===== src/Strategy/Blocks.antt =====
-- What each block of `Strategy::evaluate_inner` leaves alone, for the proofs that keep the blocks shut.
use lp_maker.Base.{
  ℕ, suc, ◌≤◌, ◌<◌, ◌≡◌, ◌⊎◌, inl, inr, refl, Bool, true, false, Option, none, some, List,
  if◌then◌else◌, is_empty, arith, Bool-cases,
}
use lp_maker.Float.{F64, lit}
use lp_maker.Domain.{MarketFrame}
use lp_maker.Strategy.State.{Strategy, StrategyConfig, paused, Cause, CounterEvent, is_paused}
use lp_maker.Strategy.Indicators.{Metrics}
use lp_maker.Strategy.Progress.{
  reset_healthy_progress, blockers, recheck_progress, report_progress, recheck_cause, conclude,
  revalidated,
}
use lp_maker.Strategy.Market.{risks, unsafe_market, pause_market, blocked_by, after_market}
use lp_maker.Strategy.Phases.{count_hour}
use lp_maker.Strategy.Evaluate.{recheck, account}

module _ {ℓ} {W : Type ℓ} where
  -- The clocks, the phase and what was ever entered are the same.
  pub record SameClock (s t : Strategy W) : Type ℓ where
    pub phase : t.phase ≡ s.phase
    pub entry_history : t.entry_history ≡ s.entry_history
    pub pause_since : t.pause_since ≡ s.pause_since
    pub last_scale : t.last_scale ≡ s.last_scale
    pub fraction : t.fraction ≡ s.fraction
    pub peak_equity : t.peak_equity ≡ s.peak_equity

  pub SameClock-refl : (s : Strategy W) → SameClock s s
  SameClock-refl s = ground arith

  pub SameClock-trans : (s t u : Strategy W) → SameClock s t → SameClock t u → SameClock s u
  SameClock-trans s t u p q = ground arith

  reset-SameClock :
      (s : Strategy W) (now : ℕ) (cause : Cause) → SameClock s (reset_healthy_progress s now cause)
  unfolding reset_healthy_progress
  reset-SameClock s now cause = ground arith

  pub reset-healthy_hours :
      (s : Strategy W) (now : ℕ) (cause : Cause)
      → ((reset_healthy_progress s now cause).healthy_hours ≡ 0)
        × ((reset_healthy_progress s now cause).last_hour ≡ s.last_hour)
  unfolding reset_healthy_progress
  reset-healthy_hours s now cause = ground arith

  -- The healthy hours stay or are dropped, and the last hour stays.
  pub record Loses (s t : Strategy W) : Type 0 where
    pub same_hour : t.last_hour ≡ s.last_hour
    pub fewer : (t.healthy_hours ≡ s.healthy_hours) ⊎ (t.healthy_hours ≡ 0)

  reset-Loses :
      (s : Strategy W) (now : ℕ) (cause : Cause) → Loses s (reset_healthy_progress s now cause)
  reset-Loses s now cause = ground (arith, reset-healthy_hours s now cause)

  -- At most one more healthy hour, and only with a later last hour.
  pub record Gains (s t : Strategy W) : Type 0 where
    pub at_most_one :
        (t.healthy_hours ≤ s.healthy_hours)
        ⊎ ((t.healthy_hours ≤ suc s.healthy_hours) × (s.last_hour < t.last_hour))

  pub Gains-Loses : (s t u : Strategy W) → Gains s t → Loses t u → Gains s u
  Gains-Loses s t u g l = ground arith

  pub Loses-Gains : (s t u : Strategy W) → Loses s t → Gains t u → Gains s u
  Loses-Gains s t u l g = ground arith

module _ {ℓ} {W : Type ℓ} ⦃f : F64 W⦄ (c : StrategyConfig W) (frame : MarketFrame W) where
  conclude-SameClock :
      (s : Strategy W) (o : Option Cause) → SameClock s (conclude s frame o).strategy
  unfolding conclude
  conclude-SameClock s none = SameClock-refl s
  conclude-SameClock s (some cause) = reset-SameClock s frame.now_ms cause

  conclude-Loses : (s : Strategy W) (o : Option Cause) → Loses s (conclude s frame o).strategy
  unfolding conclude
  conclude-Loses s none = (record { same_hour = refl; fewer = inl refl })
  conclude-Loses s (some cause) = reset-Loses s frame.now_ms cause

  pub recheck-SameClock :
      (continuity : Bool) (m : Metrics W) (s : Strategy W)
      → SameClock s (recheck c frame continuity m s).strategy
  unfolding recheck recheck_progress
  recheck-SameClock continuity m s = ground (
    arith,
    conclude-SameClock (revalidated s)
        (recheck_cause (revalidated s) frame m (blockers c frame m (risks c frame m))),
  )

  pub recheck-Loses :
      (continuity : Bool) (m : Metrics W) (s : Strategy W)
      → Loses s (recheck c frame continuity m s).strategy
  unfolding recheck recheck_progress
  recheck-Loses continuity m s = ground (
    arith,
    conclude-Loses (revalidated s)
        (recheck_cause (revalidated s) frame m (blockers c frame m (risks c frame m))),
  )

  -- An unsafe market pauses, starts the cooldown if it was not paused, and forgets the healthy hours.
  pub record Pauses (s t : Strategy W) : Type ℓ where
    pub phase : t.phase ≡ paused
    pub entry_history : t.entry_history ≡ s.entry_history
    pub pause_since : t.pause_since ≡ (if is_paused s.phase then s.pause_since else frame.now_ms)
    pub healthy_hours : t.healthy_hours ≡ 0
    pub last_hour : t.last_hour ≡ s.last_hour
    pub fraction : t.fraction ≡ lit 0
    pub peak_equity : t.peak_equity ≡ s.peak_equity

  pause_market-Pauses :
      (continuity : Bool) (blocked : List Cause) (s : Strategy W)
      → Pauses s (pause_market c frame continuity blocked s)
  unfolding pause_market reset_healthy_progress
  pause_market-Pauses continuity blocked s = ground arith

  count_hour-SameClock :
      (continuity : Bool) (m : Metrics W) (unsafe healthy : Bool) (event : CounterEvent)
      (s : Strategy W)
      → SameClock s (count_hour c frame continuity m unsafe healthy event s).strategy
  unfolding count_hour reset_healthy_progress
  count_hour-SameClock continuity m unsafe healthy event s = ground arith

  -- An hour is counted at most once, and only if no blocker stands.
  count_hour-Gains :
      (continuity : Bool) (m : Metrics W) (unsafe healthy : Bool) (event : CounterEvent)
      (s : Strategy W)
      → Gains s (count_hour c frame continuity m unsafe healthy event s).strategy
  unfolding count_hour reset_healthy_progress
  count_hour-Gains continuity m unsafe healthy event s = ground arith

  report-SameClock :
      (s : Strategy W) (m : Metrics W) (blocked : List Cause) (event : CounterEvent)
      → SameClock s (report_progress s c frame m blocked event)
  unfolding report_progress
  report-SameClock s m blocked event = ground arith

  report-Loses :
      (s : Strategy W) (m : Metrics W) (blocked : List Cause) (event : CounterEvent)
      → Loses s (report_progress s c frame m blocked event)
  unfolding report_progress
  report-Loses s m blocked event = (record { same_hour = refl; fewer = inl refl })

  report-zero :
      (s : Strategy W) (m : Metrics W) (blocked : List Cause) (event : CounterEvent)
      → s.healthy_hours ≡ 0
      → (report_progress s c frame m blocked event).healthy_hours ≡ 0
  unfolding report_progress
  report-zero s m blocked event e = e

  -- Behind the market only the healthy hours, the last hour and the record of progress change.
  pub account-SameClock :
      (continuity : Bool) (m : Metrics W) (event : CounterEvent) (s : Strategy W)
      → SameClock (after_market c frame continuity m s) (account c frame continuity m event s)
  unfolding account
  account-SameClock true m event s =
      SameClock-trans _ _ _ (count_hour-SameClock true m _ _ _ _) (report-SameClock _ m _ _)
  account-SameClock false m event s = count_hour-SameClock false m _ _ _ _

  pub account-Gains :
      (continuity : Bool) (m : Metrics W) (event : CounterEvent) (s : Strategy W)
      → Gains (after_market c frame continuity m s) (account c frame continuity m event s)
  unfolding account
  account-Gains true m event s =
      Gains-Loses _ _ _ (count_hour-Gains true m _ _ _ _) (report-Loses _ m _ _)
  account-Gains false m event s = count_hour-Gains false m _ _ _ _

  pub after_market-safe :
      (continuity : Bool) (m : Metrics W) (s : Strategy W)
      → unsafe_market c frame m ≡ false
      → after_market c frame continuity m s ≡ s
  unfolding after_market
  after_market-safe continuity m s safe = rw safe

  pub after_market-unsafe :
      (continuity : Bool) (m : Metrics W) (s : Strategy W)
      → unsafe_market c frame m ≡ true
      → Pauses s (after_market c frame continuity m s)
  unfolding after_market
  after_market-unsafe continuity m s bad = rw bad (pause_market-Pauses continuity _ s)

  pub after_market-Loses :
      (continuity : Bool) (m : Metrics W) (s : Strategy W)
      → Loses s (after_market c frame continuity m s)
  after_market-Loses continuity m s = elim (Bool-cases (unsafe_market c frame m)) [
    | inl bad ↦ ground (arith, after_market-unsafe continuity m s bad)
    | inr safe ↦
        rw (after_market-safe continuity m s safe) (record { same_hour = refl; fewer = inl refl })
  ]

  blocked_unsafe :
      (m : Metrics W) → unsafe_market c frame m ≡ true → is_empty (blocked_by c frame m) ≡ false
  unfolding unsafe_market risks blockers
  blocked_unsafe m bad = ground arith

  -- An hour that is not healthy adds nothing.
  count_hour-unhealthy :
      (continuity : Bool) (m : Metrics W) (unsafe : Bool) (event : CounterEvent) (s : Strategy W)
      → s.healthy_hours ≡ 0
      → (count_hour c frame continuity m unsafe false event s).strategy.healthy_hours ≡ 0
  unfolding count_hour reset_healthy_progress
  count_hour-unhealthy continuity m unsafe event s none_left = ground arith

  -- In an unsafe market no healthy hour is left.
  pub account-unsafe :
      (continuity : Bool) (m : Metrics W) (event : CounterEvent) (s : Strategy W)
      → unsafe_market c frame m ≡ true
      → (account c frame continuity m event s).healthy_hours ≡ 0
  unfolding account
  account-unsafe true m event s bad = rw (blocked_unsafe m bad) (
      report-zero _ m _ _
        (count_hour-unhealthy true m _ _ _ (after_market-unsafe true m s bad).healthy_hours))
  account-unsafe false m event s bad =
      rw (blocked_unsafe m bad)
        (count_hour-unhealthy false m _ _ _ (after_market-unsafe false m s bad).healthy_hours)
