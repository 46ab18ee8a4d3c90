-- ===== src/Solana/Regime/Waits.antt =====
-- How long src/solana/regime.rs stays out after it has left a position.
use lp_maker.Base.{
  ℕ, ◌-◌, ◌≤◌, ◌≡◌, ◌⊎◌, true, false, Option, none, some, List, [], ◌∷◌, All, is_empty, leb, arith,
}
use lp_maker.Float.{F64}
use lp_maker.Domain.{MarketFrame, deploy, exit_to_quote}
use lp_maker.Strategy.State.{
  Strategy, StrategyConfig, hours_ms, is_halted, is_paused, is_initial, observe_lp,
}
use lp_maker.Strategy.Market.{mark_drawdown}
use lp_maker.Solana.Signals.{RegimeConfig, Signals}
use lp_maker.Solana.Regime.{
  evaluate_regime, evaluate_with_signals, sol_act, sol_trade, sol_enter, sol_keep, sol_withdraw,
  count_sol_hour,
}
use lp_maker.Solana.Regime.Entries.{evaluate_regime-Entry}

-- The account knows liquidity, and is halted or has paused no earlier than at this time.
record IsOut {W : Type 0} (since : ℕ) (st : Strategy W) : Type 0 where
  established : is_initial st.entry_history ≡ false
  waits : (is_halted st.phase ≡ true) ⊎ (leb since st.pause_since ≡ true)

module _ {W : Type 0} ⦃f : F64 W⦄ (c : RegimeConfig W) (s : StrategyConfig W) where
  -- The strategy after it was asked about each frame in turn.
  abbrev pub after_frames : Strategy W → List (MarketFrame W) → Strategy W
  after_frames st [] = st
  after_frames st (frame ∷ rest) = after_frames (evaluate_regime c s frame st).strategy rest

  with_signals-IsOut :
      (frame : MarketFrame W) (since : ℕ) (sig : Option (Signals W)) (st : Strategy W)
      → leb since frame.now_ms ≡ true
      → IsOut since st
      → IsOut since (evaluate_with_signals c s frame sig st).strategy
  unfolding evaluate_with_signals sol_act sol_withdraw sol_trade sol_enter sol_keep mark_drawdown
      count_sol_hour observe_lp
  with_signals-IsOut frame since none st h out = record {
    established = ground (arith, out.established);
    waits = ground (arith, out.waits);
  }
  with_signals-IsOut frame since (some v) st h out = record {
    established = ground (arith, out.established);
    waits = ground (arith, out.waits);
  }

  -- A position that is left while the strategy is not paused.
  with_signals-Leaves :
      (frame : MarketFrame W) (sig : Option (Signals W)) (st : Strategy W)
      → is_empty frame.portfolio.positions ≡ false
      → is_paused st.phase ≡ false
      → (evaluate_with_signals c s frame sig st).decision.lp ≡ exit_to_quote
      → IsOut frame.now_ms (evaluate_with_signals c s frame sig st).strategy
  unfolding evaluate_with_signals sol_act sol_withdraw sol_trade sol_enter sol_keep mark_drawdown
      count_sol_hour observe_lp
  with_signals-Leaves frame none st held running left = record {
    established = ground arith;
    waits = ground arith;
  }
  with_signals-Leaves frame (some v) st held running left = record {
    established = ground arith;
    waits = ground arith;
  }

  after_frames-IsOut :
      (since : ℕ) (st : Strategy W) (frames : List (MarketFrame W))
      → All (λ frame. leb since frame.now_ms ≡ true) frames
      → IsOut since st
      → IsOut since (after_frames st frames)
  unfolding evaluate_regime
  after_frames-IsOut since st [] h out = out
  after_frames-IsOut since st (frame ∷ rest) h out =
      after_frames-IsOut since (evaluate_regime c s frame st).strategy rest h.1
        (with_signals-IsOut frame since _ st h.0 out)

  -- Once a position is left by a strategy that was not paused, no later frame enters one before the whole
  -- cooldown is over, whatever frames come in between, unless their times are earlier than the exit.
  pub left_waits :
      (left : MarketFrame W) (st : Strategy W) (frames : List (MarketFrame W))
      (next : MarketFrame W)
      → is_empty left.portfolio.positions ≡ false
      → is_paused st.phase ≡ false
      → (evaluate_regime c s left st).decision.lp ≡ exit_to_quote
      → All (λ frame. leb left.now_ms frame.now_ms ≡ true) frames
      → (x : W)
      → (evaluate_regime c s next (after_frames st (left ∷ frames))).decision.lp ≡ deploy x
      → hours_ms s.cooldown_hours ≤ next.now_ms - left.now_ms
  unfolding evaluate_regime
  left_waits left st frames next held running gone times x h =
      let (v, _, _, entry) = evaluate_regime-Entry c s next x (after_frames st (left ∷ frames)) h in
      let out =
        after_frames-IsOut left.now_ms (evaluate_regime c s left st).strategy frames times
          (with_signals-Leaves left _ st held running gone) in
      ground (arith, out.established, out.waits, entry.waited, entry.running)
