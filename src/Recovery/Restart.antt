-- ===== src/Recovery/Restart.antt =====
-- The entry history and the pause after a restart, in src/recovery.rs.
use lp_maker.Base.{
  ℕ, ◌-◌, ◌<◌, ◌≤◌, ◌≡◌, ◌≢◌, ◌⊎◌, inr, Bool, true, false, not, ok, List, [], ◌∷◌, All, is_empty,
  arith, >>=-eq-ok,
}
use lp_maker.Float.{F64}
use lp_maker.Domain.{MarketFrame, Portfolio, deploy}
use lp_maker.Strategy.State.{
  Strategy, StrategyConfig, Phase, paused, halted, warmup, EntryHistory, initial, established,
  legacy_unknown, Reason, is_halted, is_initial, hours_ms, observe_lp,
}
use lp_maker.Strategy.Indicators.{Metrics}
use lp_maker.Strategy.Progress.{reset_healthy_progress, freeze_recovery_progress}
use lp_maker.Strategy.Market.{begin, refuse, mark_drawdown}
use lp_maker.Strategy.Phases.{stop, advance, waiting}
use lp_maker.Strategy.Evaluate.{evaluate_inner, judge, finish, halt, refused, unmeasured}
use lp_maker.Strategy.Cases.{checked_equity, evaluate_cases, judge_cases}
use lp_maker.Strategy.Halting.{after_all}
use lp_maker.Strategy.Deployment.{deploy-Cleared}
use lp_maker.Recovery.{
  unmarked, opened, RecoveryStore, Restored, is_established, record_lp_history,
  restore_entry_history, confirm_restored, confirm_first_entry, is_flat,
  invalidate_observation_streaks, finish_workflow_recovery,
}

-- A restored history is that of a first entry only if no liquidity is known: no NFT is registered, the
-- marker is absent, and the history is a first entry's already or an old one's that never left the
-- warm-up. Whatever shows liquidity leaves the marker on disk and an established history.
pub restore_lem :
    (store : RecoveryStore) (history : EntryHistory) (phase : Phase) (r : Restored)
    → restore_entry_history store history phase ≡ ok r
    → ((r.history ≡ established) × (r.marker ≡ opened))
      ⊎ ((store.nfts ≡ false)
          × (store.marker ≡ unmarked)
          × (r.marker ≡ unmarked)
          × ((r.history ≡ history)
              ⊎ ((r.history ≡ initial) × (history ≡ legacy_unknown) × (phase ≡ warmup)))
          × (is_established history ≡ false))
unfolding restore_entry_history record_lp_history
restore_lem store history phase r h = ground arith

-- The strategy knows liquidity, and is halted or has paused no earlier than at this time.
record IsOut {W : Type 0} (since : ℕ) (t : Strategy W) : Type 0 where
  entered : is_initial t.entry_history ≡ false
  out : (t.phase ≡ halted) ⊎ ((t.phase ≡ paused) × (since ≤ t.pause_since))

module _ {W : Type 0} ⦃f : F64 W⦄ (c : StrategyConfig W) (since : ℕ) where
  -- A frame after this time and before the end of the cooldown that began with it.
  abbrev pub Early : MarketFrame W → Type 0
  Early frame = (since ≤ frame.now_ms) × (frame.now_ms - since < hours_ms c.cooldown_hours)

  module _ (frame : MarketFrame W) (continuity : Bool) where
    checked_equity-IsOut : (s : Strategy W) → IsOut since s → IsOut since (checked_equity c frame s)
    unfolding mark_drawdown begin observe_lp
    checked_equity-IsOut s v = record {
      entered = ground (arith, v.entered);
      out = ground (arith, v.out);
    }

    refuse-IsOut :
        (s : Strategy W)
        → since ≤ frame.now_ms
        → IsOut since s
        → IsOut since (refuse c frame continuity (begin c frame s))
    unfolding refuse begin observe_lp freeze_recovery_progress
    refuse-IsOut s after v = record {
      entered = ground (arith, v.entered);
      out = ground (arith, v.out);
    }

    advance_waits :
        (p : Phase) (unsafe healthy : Bool) (reasons : List Reason) (t : Strategy W)
        → p ≡ paused
        → is_initial t.entry_history ≡ false
        → frame.now_ms - t.pause_since < hours_ms c.cooldown_hours
        → advance c frame p continuity unsafe healthy reasons t ≡ stop t (waiting c frame reasons t)
    unfolding advance
    advance_waits p unsafe healthy reasons t e entered early = ground arith

    judge-IsOut :
        (m : Metrics W) (s : Strategy W)
        → Early frame
        → is_halted s.phase ≡ false
        → IsOut since s
        → IsOut since (judge c frame continuity m s).strategy
    unfolding finish
    judge-IsOut m s early running v =
        judge_cases c frame (λ r. IsOut since r.strategy) continuity m s
          (λ r _ w. record {
            entered = ground (arith, v.entered, w.entry_history);
            out = ground (arith, v.out, w.phase, w.pause_since);
          })
          (λ t unsafe reasons _ _ same _.
            rw
              (advance_waits t.phase unsafe _ reasons t (ground (arith, v.out, same.phase))
                (ground (arith, v.entered, same.entry_history))
                (ground (arith, v.out, same.pause_since)))
              (record {
                entered = ground (arith, v.entered, same.entry_history);
                out = ground (arith, v.out, same.phase, same.pause_since);
              }))

    evaluate_inner-IsOut :
        (s : Strategy W)
        → Early frame
        → IsOut since s
        → IsOut since (evaluate_inner c frame continuity s).strategy
    unfolding refused halt unmeasured freeze_recovery_progress
    evaluate_inner-IsOut s early v =
        let w = checked_equity-IsOut s v in
        evaluate_cases c frame (λ r. IsOut since r.strategy) continuity s
          (λ _. refuse-IsOut s early.0 v) (λ _ _ _. w)
          (λ message _ _. record {
            entered = ground (arith, w.entered);
            out = ground (arith, w.out);
          })
          (λ m _ running _. judge-IsOut m (checked_equity c frame s) early running w)

    evaluate_inner-stays_out :
        (s : Strategy W)
        → Early frame
        → IsOut since s
        → let r = evaluate_inner c frame continuity s in
          ((r.strategy.phase ≡ paused) ⊎ (r.strategy.phase ≡ halted))
          × ((x : W) → r.decision.lp ≢ deploy x)
    evaluate_inner-stays_out s early v =
        let w = evaluate_inner-IsOut s early v in
        (
          ground (arith, w.out),
          λ x e. let k = deploy-Cleared c frame continuity s x e in ground (arith, w.out, k.phase),
        )

  after_all-IsOut :
      (continuity : Bool) (s : Strategy W) (frames : List (MarketFrame W))
      → All Early frames
      → IsOut since s
      → IsOut since (after_all c continuity s frames)
  after_all-IsOut continuity s [] early v = v
  after_all-IsOut continuity s (frame ∷ rest) early v =
      after_all-IsOut continuity (evaluate_inner c frame continuity s).strategy rest early.1
        (evaluate_inner-IsOut frame continuity s early.0 v)

module _ {W : Type 0} ⦃f : F64 W⦄ (c : StrategyConfig W) where
  finish_workflow_recovery-paused :
      (now : ℕ) (s : Strategy W)
      → is_halted s.phase ≡ false
      → let t = finish_workflow_recovery now s in
        (t.phase ≡ paused)
        × (t.pause_since ≡ now)
        × (t.healthy_hours ≡ 0)
        × (t.entry_history ≡ s.entry_history)
  unfolding finish_workflow_recovery invalidate_observation_streaks reset_healthy_progress
  finish_workflow_recovery-paused now s n = ground arith

  -- After an interrupted workflow was finished, a strategy without a profile that has entered before and is
  -- not halted stays out for the whole cooldown: whatever frames from then until its end come in between,
  -- the next one before its end leaves the strategy paused or halted and deploys nothing.
  pub finish_workflow_recovery-waits :
      (continuity : Bool) (now : ℕ) (s : Strategy W) (frames : List (MarketFrame W))
      (next : MarketFrame W)
      → is_halted s.phase ≡ false
      → is_initial s.entry_history ≡ false
      → All (Early c now) frames
      → Early c now next
      → let t = after_all c continuity (finish_workflow_recovery now s) frames in
        let r = evaluate_inner c next continuity t in
        ((r.strategy.phase ≡ paused) ⊎ (r.strategy.phase ≡ halted))
        × ((x : W) → r.decision.lp ≢ deploy x)
  finish_workflow_recovery-waits continuity now s frames next n entered early last =
      let t = finish_workflow_recovery-paused now s n in
      let v : IsOut now (finish_workflow_recovery now s) = record {
        entered = ground (arith, t.3);
        out = inr (t.0, omega (arith, t.1));
      } in
      evaluate_inner-stays_out c now next continuity _ last
        (after_all-IsOut c now continuity (finish_workflow_recovery now s) frames early v)

module _ {W : Type 0} ⦃f : F64 W⦄ where
  -- The operator's confirmation of a first entry changes something only for an old record of a strategy
  -- that is not halted, with no liquidity known, nothing under way and a flat wallet; then the history is
  -- that of a first entry.
  confirm_first_entry-initial :
      (store : RecoveryStore) (s : Strategy W) (p : Portfolio W) (r : Restored)
      → confirm_first_entry store s p ≡ ok (r, true)
      → (r.history ≡ initial)
        × (s.entry_history ≡ legacy_unknown)
        × (is_halted s.phase ≡ false)
        × (store.nfts ≡ false)
        × (store.marker ≡ unmarked)
        × (store.pending ≡ false)
        × (store.workflow ≡ false)
        × (is_flat p ≡ true)
  unfolding confirm_first_entry confirm_restored is_flat observe_lp
  confirm_first_entry-initial store s p r h =
      let history = (observe_lp s (not (is_empty p.positions))).entry_history in
      let (restored, e, h₁) = >>=-eq-ok (restore_entry_history store history s.phase) _ h in
      ground (arith, restore_lem store history s.phase restored e)
