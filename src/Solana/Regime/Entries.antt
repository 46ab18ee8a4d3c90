-- ===== src/Solana/Regime/Entries.antt =====
-- When src/solana/regime.rs enters a position.
use lp_maker.Base.{
  ◌+◌, ◌*◌, ◌≤◌, ◌≡◌, ◌⊎◌, true, false, none, some, List, is_empty, leb, ok, ◌-◌, arith,
  Result-cases, inl, inr, ap, sym, ◌∙◌,
}
use lp_maker.Float.{F64, ◌-f◌, ◌*f◌, ◌/f◌, ◌<f◌, ◌≤f◌, lit}
use lp_maker.Domain.{Candle, MarketFrame, deploy, equity}
use lp_maker.Strategy.State.{
  Strategy, StrategyConfig, active, hours_ms, is_halted, is_initial, observe_lp, wrap64,
}
use lp_maker.Strategy.Indicators.{Metrics, calculate}
use lp_maker.Strategy.Market.{drawn_down, mark_drawdown, new_peak}
use lp_maker.Solana.Signals.{RegimeConfig, Signals, signals, read_signals}
use lp_maker.Solana.Signals.Latest.{latest_hour, signals-IsRead}
use lp_maker.Solana.Regime.{
  evaluate_regime, evaluate_with_signals, sol_act, sol_trade, sol_enter, sol_keep, sol_withdraw,
  sol_unusable, unsafe_now, count_sol_hour, fast_now, large_now, sol_basis,
}

module _ {W : Type 0} ⦃f : F64 W⦄ (c : RegimeConfig W) (s : StrategyConfig W) where
  -- What an entry signal says of the indicators of the completed hours.
  pub record Calm (m : Metrics W) : Type 0 where
    pub no_downtrend : m.downtrend ≡ false
    pub no_fast_drop : (m.return_1h <f f.neg s.fast_drop_1h) ≡ false
    pub no_spike : (s.vol_pause_ratio <f m.vol_ratio) ≡ false

  read_signals-Calm :
      (m : Metrics W) (rows : List (Candle W)) (last first : Candle W)
      → (read_signals c s m rows last first).entry ≡ true
      → Calm m
  unfolding read_signals
  read_signals-Calm m rows last first h = ground arith

  module _ (frame : MarketFrame W) where
    -- What an entry needs of the signal and of the state before it, and what it leaves.
    pub record SolEntry (v : Signals W) (x : W) (st t : Strategy W) : Type 0 where
      pub usable : sol_unusable c s frame ≡ false
      pub trend : v.entry ≡ true
      pub no_exit : v.exit ≡ false
      pub no_drop : (frame.pool.price /f v.last_close -f lit 1 <f f.neg s.fast_drop_1h) ≡ false
      pub no_move : (c.max_bar_range <f f.abs (frame.pool.price /f v.last_close -f lit 1)) ≡ false
      pub no_basis :
          (s.max_basis_bps <f f.abs (frame.pool.price /f frame.hedge_price -f lit 1) *f lit 10000)
          ≡ false
      pub running : is_halted st.phase ≡ false
      pub no_drawdown : drawn_down s frame st ≡ false
      pub nothing_held : is_empty frame.portfolio.positions ≡ true
      pub whole_budget : x ≡ lit 1
      pub started : t.phase ≡ active
      pub hours : leb c.entry_confirm_hours t.healthy_hours ≡ true
      pub waited :
          (is_initial st.entry_history ≡ true)
          ⊎ (leb (hours_ms s.cooldown_hours) (frame.now_ms - st.pause_since) ≡ true)

    -- The prices are numbers above zero and no older than the settings allow, and the equity is not below
    -- the peak less the allowed drawdown.
    pub record SolSound (st : Strategy W) : Type 0 where
      pub pool_price : (f.is_finite frame.pool.price ≡ true) × ((frame.pool.price ≤f lit 0) ≡ false)
      pub perp_price :
          (f.is_finite frame.hedge_price ≡ true) × ((frame.hedge_price ≤f lit 0) ≡ false)
      pub pool_fresh :
          (frame.now_ms - frame.pool.time_ms ≤ wrap64 (s.max_data_age_seconds * 1000))
          × (frame.pool.time_ms ≤ wrap64 (frame.now_ms + 2000))
      pub perp_fresh :
          (frame.now_ms - frame.hedge_time_ms ≤ wrap64 (s.max_data_age_seconds * 1000))
          × (frame.hedge_time_ms ≤ wrap64 (frame.now_ms + 2000))
      pub no_drawdown :
          (equity frame.portfolio frame.pool.price
            <f f.f64_max
                (f.f64_max st.peak_equity (equity frame.portfolio frame.pool.price))
                s.total_capital
              *f (lit 1 -f s.max_drawdown))
          ≡ false

    sound :
        (st : Strategy W)
        → sol_unusable c s frame ≡ false
        → drawn_down s frame st ≡ false
        → SolSound st
    unfolding sol_unusable drawn_down new_peak
    sound st usable n = record {
      pool_price = ground arith;
      perp_price = ground arith;
      pool_fresh = ground arith;
      perp_fresh = ground arith;
      no_drawdown = n;
    }

    evaluate_with_signals-Entry :
        (v : Signals W) (x : W) (st : Strategy W)
        → (evaluate_with_signals c s frame (some v) st).decision.lp ≡ deploy x
        → SolEntry v x st (evaluate_with_signals c s frame (some v) st).strategy
    unfolding evaluate_with_signals sol_act sol_withdraw sol_trade sol_enter sol_keep mark_drawdown
        count_sol_hour observe_lp unsafe_now fast_now large_now sol_basis
    evaluate_with_signals-Entry v x st h = ground arith

    no_signal-deploys :
        (x : W) (st : Strategy W)
        → ¬ ((evaluate_with_signals c s frame none st).decision.lp ≡ deploy x)
    unfolding evaluate_with_signals sol_act sol_withdraw
    no_signal-deploys x st h = ground arith

    -- What the candles of the frame show when a position is entered.
    pub record SolSeen (v : Signals W) : Type 0 where
      pub signalled : signals c s frame.candles frame.now_ms ≡ ok v
      pub m : Metrics W
      pub measured : calculate frame.candles s frame.now_ms ≡ ok m
      pub calm : Calm m
      pub last : Candle W
      pub newest : latest_hour frame.candles frame.now_ms ≡ some last
      pub close_now : v.last_close ≡ last.close

    signals-SolSeen :
        (v : Signals W) → signals c s frame.candles frame.now_ms ≡ ok v → v.entry ≡ true → SolSeen v
    unfolding read_signals
    signals-SolSeen v h e =
        let r = signals-IsRead c s frame.candles frame.now_ms v h in
        record {
          signalled = h;
          m = r.m;
          measured = r.measured;
          calm = read_signals-Calm r.m r.rows r.last r.first (ap (λ t. t.entry) r.shown ∙ e);
          last = r.last;
          newest = r.newest;
          close_now = sym (ap (λ t. t.last_close) r.shown);
        }

    -- A position in SOL is entered, with the whole budget, only on data that can be used, with no
    -- drawdown and no halt, with no position held, on the signals of the frame's candles, which allow it;
    -- while the indicators of the completed hours show no danger, the price is in no fast drop or large
    -- move since the close of the newest of them, and the basis is not wide; after the hours that
    -- confirm the entry; and if the history may know liquidity, only once the cooldown since the last
    -- pause is over.
    pub evaluate_regime-Entry :
        (x : W) (st : Strategy W)
        → (evaluate_regime c s frame st).decision.lp ≡ deploy x
        → (v : Signals W) × SolSeen v
          × SolSound st
          × SolEntry v x st (evaluate_regime c s frame st).strategy
    unfolding evaluate_regime
    evaluate_regime-Entry x st h = elim (Result-cases (signals c s frame.candles frame.now_ms)) [
      | inl (message, e) ↦ absurd (no_signal-deploys x st (rw e at h))
      | inr (v, e) ↦
          let entry = evaluate_with_signals-Entry v x st (rw e at h) in
          (v, signals-SolSeen v e entry.trend, sound st entry.usable entry.no_drawdown, rw e entry)
    ]
