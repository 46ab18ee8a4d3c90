-- ===== src/Solana/Regime/Dangers.antt =====
-- What src/solana/regime.rs does in danger and after a halt.
use lp_maker.Base.{
  ◌≡◌, ◌⊎◌, inl, inr, Bool, true, false, ◌||◌, Option, none, some, List, [], ◌∷◌, String, err, ok,
  ap, sym, ◌∙◌, arith, Result-cases,
}
use lp_maker.Float.{F64, ◌-f◌, ◌*f◌, ◌/f◌, ◌<f◌, lit}
use lp_maker.Domain.{Candle, MarketFrame, hold, exit_to_quote, base, equity}
use lp_maker.Strategy.Indicators.{Metrics, calculate}
use lp_maker.Solana.Signals.Latest.{latest_hour, signals-IsRead, signals-last_close}
use lp_maker.Strategy.State.{Strategy, StrategyConfig, is_halted, is_paused, observe_lp}
use lp_maker.Strategy.Market.{drawn_down, new_peak, mark_drawdown}
use lp_maker.Strategy.Evaluate.{Evaluated}
use lp_maker.Solana.Signals.{RegimeConfig, Signals, signals, read_signals}
use lp_maker.Solana.Regime.{
  evaluate_regime, evaluate_with_signals, sol_act, sol_withdraw, sol_unusable, unsafe_now, fast_now,
  large_now, sol_basis,
}
use lp_maker.Solana.Regime.Waits.{after_frames}

module _ {W : Type 0} ⦃f : F64 W⦄ (c : RegimeConfig W) (s : StrategyConfig W) where
  -- What a withdrawal decides, and the state that it leaves.
  pub record SolWithdraws (frame : MarketFrame W) (r : Evaluated W) : Type 0 where
    pub sells : r.decision.lp ≡ exit_to_quote
    pub hedged : r.decision.target_short_base ≡ base frame.portfolio
    pub at_once : r.decision.emergency ≡ true
    pub hours_lost : r.strategy.healthy_hours ≡ 0
    pub nothing_deployed : r.strategy.fraction ≡ lit 0
    pub out : (is_halted r.strategy.phase || is_paused r.strategy.phase) ≡ true

  with_signals-SolWithdraws :
      (frame : MarketFrame W) (sig : Option (Signals W)) (st : Strategy W)
      → sol_unusable c s frame ≡ false
      → (is_halted st.phase || drawn_down s frame st || unsafe_now c s frame sig) ≡ true
      → SolWithdraws frame (evaluate_with_signals c s frame sig st)
  unfolding evaluate_with_signals sol_act sol_withdraw mark_drawdown observe_lp drawn_down new_peak
  with_signals-SolWithdraws frame none st usable danger = ground arith
  with_signals-SolWithdraws frame (some v) st usable danger = ground arith

  -- What makes the strategy withdraw, each by itself; what the completed hours show counts whether or
  -- not they give signals.
  pub data Danger (frame : MarketFrame W) (st : Strategy W) : Type 0 where
    was_halted : is_halted st.phase ≡ true → Danger frame st
    drew_down :
        (equity frame.portfolio frame.pool.price
            <f f.f64_max
                (f.f64_max st.peak_equity (equity frame.portfolio frame.pool.price))
                s.total_capital
              *f (lit 1 -f s.max_drawdown))
          ≡ true
        → Danger frame st
    no_signals :
        (message : String) → signals c s frame.candles frame.now_ms ≡ err message → Danger frame st
    to_leave :
        (v : Signals W)
        → signals c s frame.candles frame.now_ms ≡ ok v
        → v.exit ≡ true
        → Danger frame st
    bad_hours :
        (m : Metrics W)
        → calculate frame.candles s frame.now_ms ≡ ok m
        → (m.downtrend
            || (m.return_1h <f f.neg s.fast_drop_1h)
            || (s.vol_pause_ratio <f m.vol_ratio))
          ≡ true
        → Danger frame st
    dropped :
        (last : Candle W)
        → latest_hour frame.candles frame.now_ms ≡ some last
        → (frame.pool.price /f last.close -f lit 1 <f f.neg s.fast_drop_1h) ≡ true
        → Danger frame st
    moved :
        (last : Candle W)
        → latest_hour frame.candles frame.now_ms ≡ some last
        → (c.max_bar_range <f f.abs (frame.pool.price /f last.close -f lit 1)) ≡ true
        → Danger frame st
    apart :
        (s.max_basis_bps <f f.abs (frame.pool.price /f frame.hedge_price -f lit 1) *f lit 10000)
          ≡ true
        → Danger frame st

  -- With signals: each danger fails one of the tests.
  read_signals-exit :
      (m : Metrics W) (rows : List (Candle W)) (last first : Candle W)
      → (m.downtrend || (m.return_1h <f f.neg s.fast_drop_1h) || (s.vol_pause_ratio <f m.vol_ratio))
        ≡ true
      → (read_signals c s m rows last first).exit ≡ true
  unfolding read_signals
  read_signals-exit m rows last first h = ground arith

  unfoldable is_danger : MarketFrame W → Strategy W → Option (Signals W) → Bool
  is_danger frame st sig = is_halted st.phase || drawn_down s frame st || unsafe_now c s frame sig

  Danger-signalled :
      (frame : MarketFrame W) (st : Strategy W) (v : Signals W)
      → signals c s frame.candles frame.now_ms ≡ ok v
      → Danger frame st
      → is_danger frame st (some v) ≡ true
  unfolding is_danger drawn_down new_peak unsafe_now fast_now large_now sol_basis
  Danger-signalled frame st v e (was_halted h) = ground arith
  Danger-signalled frame st v e (drew_down h) = ground arith
  Danger-signalled frame st v e (no_signals message h) = absurd cc
  Danger-signalled frame st v e (to_leave w h exits) = let same : w ≡ v = cc in ground arith
  Danger-signalled frame st v e (bad_hours m measured h) =
      let r = signals-IsRead c s frame.candles frame.now_ms v e in
      let same : r.m ≡ m = cc in
      let exits : v.exit ≡ true =
        sym (ap (λ t. t.exit) r.shown) ∙ read_signals-exit r.m r.rows r.last r.first (rw same h) in
      ground arith
  Danger-signalled frame st v e (dropped last newest h) =
      let same : last.close ≡ v.last_close =
        sym (signals-last_close c s frame.candles frame.now_ms v last e newest) in
      let drop : (frame.pool.price /f v.last_close -f lit 1 <f f.neg s.fast_drop_1h) ≡ true =
        rw same at h in
      ground arith
  Danger-signalled frame st v e (moved last newest h) =
      let same : last.close ≡ v.last_close =
        sym (signals-last_close c s frame.candles frame.now_ms v last e newest) in
      let move : (c.max_bar_range <f f.abs (frame.pool.price /f v.last_close -f lit 1)) ≡ true =
        rw same at h in
      ground arith
  Danger-signalled frame st v e (apart h) = ground arith

  no_signal-is_danger : (frame : MarketFrame W) (st : Strategy W) → is_danger frame st none ≡ true
  unfolding is_danger unsafe_now
  no_signal-is_danger frame st = ground arith

  -- On data that can be used, each of these makes the strategy sell whatever it holds and hedge all of
  -- the base asset at once, lose its healthy hours and be paused or halted: a halt before, a drawdown,
  -- hours that give no signals or a signal to leave, hours with a downtrend, a fast drop or a volatility
  -- above the limit, a fast drop or a large move of the price since the close of the newest completed
  -- hour, and a wide basis.
  pub evaluate_regime-SolWithdraws :
      (frame : MarketFrame W) (st : Strategy W)
      → sol_unusable c s frame ≡ false
      → Danger frame st
      → SolWithdraws frame (evaluate_regime c s frame st)
  unfolding evaluate_regime is_danger
  evaluate_regime-SolWithdraws frame st usable danger =
      elim (Result-cases (signals c s frame.candles frame.now_ms)) [
        | inl (message, e) ↦
            rw e (with_signals-SolWithdraws frame none st usable (no_signal-is_danger frame st))
        | inr (v, e) ↦ rw e (
            with_signals-SolWithdraws frame (some v) st usable
              (Danger-signalled frame st v e danger))
      ]

  -- Whatever the frame holds, a halted strategy stays halted and at most withdraws.
  abbrev SolHalted : Evaluated W → Type 0
  SolHalted r =
      (is_halted r.strategy.phase ≡ true)
      × ((r.decision.lp ≡ hold) ⊎ (r.decision.lp ≡ exit_to_quote))

  with_signals-SolHalted :
      (frame : MarketFrame W) (sig : Option (Signals W)) (st : Strategy W)
      → is_halted st.phase ≡ true
      → SolHalted (evaluate_with_signals c s frame sig st)
  unfolding evaluate_with_signals sol_act sol_withdraw mark_drawdown observe_lp
  with_signals-SolHalted frame none st h = ground arith
  with_signals-SolHalted frame (some v) st h = ground arith

  -- Once halted, a strategy for SOL is never deployed again: after any frames it is still halted, and about
  -- the next frame it holds or withdraws.
  sol_stays_halted :
      (st : Strategy W) (frames : List (MarketFrame W)) (next : MarketFrame W)
      → is_halted st.phase ≡ true
      → let t = after_frames c s st frames in
        (is_halted t.phase ≡ true)
        × (((evaluate_regime c s next t).decision.lp ≡ hold)
            ⊎ ((evaluate_regime c s next t).decision.lp ≡ exit_to_quote))
  unfolding evaluate_regime
  sol_stays_halted st [] next h = (h, (with_signals-SolHalted next _ st h).1)
  sol_stays_halted st (frame ∷ rest) next h =
      sol_stays_halted (evaluate_regime c s frame st).strategy rest next
        (with_signals-SolHalted frame _ st h).0
