-- ===== src/Solana/Regime.antt =====
-- `evaluate_with_signals` of src/solana/regime.rs, in blocks that are composed in its order. The peak of
-- the equity and the halt are those of src/strategy/mod.rs, in the same words.
pub mod Entries
pub mod Waits
pub mod Dangers
mod Examples
use lp_maker.Base.{
  ℕ, ◌+◌, ◌-◌, ◌*◌, ◌%◌, ◌^◌, Bool, true, false, ◌&&◌, ◌||◌, not, Option, none, some, List, [], ◌∷◌,
  map, Result, err, ok, ltb, leb, ◌==◌, if◌then◌else◌, is_empty, any,
}
use lp_maker.Float.{F64, ◌+f◌, ◌-f◌, ◌*f◌, ◌/f◌, ◌<f◌, ◌≤f◌, lit, sum}
use lp_maker.Domain.{MarketFrame, LpIntent, hold, exit_to_quote, deploy, recenter, base, equity}
use lp_maker.Strategy.State.{
  Strategy, StrategyConfig, active, paused, Reason, sol, risk, pool_perp_basis_limit,
  portfolio_drawdown_limit, stale_or_invalid_data, sol_intrahour_fast_drop,
  sol_intrahour_large_move, sol_indicator_gap, sol_wait_for_trend_and_cooldown,
  sol_outside_range_exit_and_wait, wrap64, hours_ms, is_halted, is_paused, is_initial, observe_lp,
}
use lp_maker.Strategy.Market.{mark_drawdown}
use lp_maker.Strategy.Evaluate.{Evaluated}
use lp_maker.Solana.Signals.{RegimeConfig, Signals, signals}

abbrev is_exit {ℓ} : {W : Type ℓ} → LpIntent W → Bool
is_exit hold = false
is_exit exit_to_quote = true
is_exit (deploy fraction) = false
is_exit (recenter layers) = false

-- The state and what is decided about the liquidity.
pub record SolChoice {ℓ} (W : Type ℓ) : Type ℓ where
  pub strategy : Strategy W
  pub lp : LpIntent W
  pub emergency : Bool
  pub reasons : List Reason

module _ {ℓ} {W : Type ℓ} where
  -- A new completed hour counts if its signal allows an entry.
  unfoldable pub count_sol_hour : Signals W → Strategy W → Strategy W
  count_sol_hour v s =
      let before =
        if ltb 0 s.last_hour && not (v.last_hour - s.last_hour == 3600000)
        then 0
        else s.healthy_hours in
      if ltb s.last_hour v.last_hour
      then record s {
        healthy_hours = if v.entry then (before + 1) % 2 ^ 32 else 0;
        last_hour = v.last_hour;
      }
      else s

module _ {ℓ} {W : Type ℓ} ⦃f : F64 W⦄ (c : RegimeConfig W) (s : StrategyConfig W)
    (frame : MarketFrame W) where
  open frame use {now_ms, pool, hedge_price, hedge_time_ms, portfolio}

  abbrev sol_price : W
  sol_price = pool.price

  abbrev is_old : ℕ → Bool
  is_old time =
      ltb (wrap64 (now_ms + 2000)) time
      || ltb (wrap64 (s.max_data_age_seconds * 1000)) (now_ms - time)

  unfoldable pub sol_unusable : Bool
  sol_unusable =
      not (f.is_finite sol_price)
      || (sol_price ≤f lit 0)
      || not (f.is_finite hedge_price)
      || (hedge_price ≤f lit 0)
      || not (f.is_finite (equity portfolio sol_price))
      || not (f.is_finite (base portfolio))
      || not (f.is_finite portfolio.short_base)
      || is_old pool.time_ms
      || is_old hedge_time_ms

  unfoldable pub sol_basis : Bool
  sol_basis = s.max_basis_bps <f f.abs (sol_price /f hedge_price -f lit 1) *f lit 10000

  unfoldable pub fast_now : Option (Signals W) → Bool
  fast_now none = false
  fast_now (some v) = sol_price /f v.last_close -f lit 1 <f f.neg s.fast_drop_1h

  unfoldable pub large_now : Option (Signals W) → Bool
  large_now none = false
  large_now (some v) = c.max_bar_range <f f.abs (sol_price /f v.last_close -f lit 1)

  abbrev exit_signal : Option (Signals W) → Bool
  exit_signal none = true
  exit_signal (some v) = v.exit

  unfoldable pub unsafe_now : Option (Signals W) → Bool
  unfolding fast_now large_now sol_basis
  unsafe_now sig = exit_signal sig || fast_now sig || large_now sig || sol_basis

  abbrev signal_reason : Option (Signals W) → Reason
  signal_reason none = sol sol_indicator_gap
  signal_reason (some v) = sol v.reason

  unfoldable pub exit_reason : Option (Signals W) → Strategy W → Reason
  exit_reason sig st =
      if is_halted st.phase
      then portfolio_drawdown_limit
      else if sol_basis
      then risk pool_perp_basis_limit
      else if fast_now sig
      then sol sol_intrahour_fast_drop
      else if large_now sig
      then sol sol_intrahour_large_move
      else signal_reason sig

  unfoldable pub sol_withdraw : Option (Signals W) → Strategy W → SolChoice W
  unfolding exit_reason
  sol_withdraw sig st =
      let halts = is_halted st.phase in
      record {
        strategy = record st {
          phase = if halts then st.phase else paused;
          pause_since = if halts || is_paused st.phase then st.pause_since else now_ms;
          fraction = lit 0;
          healthy_hours = 0;
          layers = [];
        };
        lp = exit_to_quote;
        emergency = true;
        reasons = exit_reason sig st ∷ [];
      }

  abbrev cooled_down : Strategy W → Bool
  cooled_down st =
      is_initial st.entry_history || leb (hours_ms s.cooldown_hours) (now_ms - st.pause_since)

  -- With no position: the entry, or the wait for one.
  unfoldable pub sol_enter : Signals W → Strategy W → SolChoice W
  sol_enter v st =
      if v.entry && leb c.entry_confirm_hours st.healthy_hours && cooled_down st
      then record {
        strategy = record st { phase = active; fraction = lit 1; last_scale = now_ms };
        lp = deploy (lit 1);
        emergency = false;
        reasons = [];
      }
      else record {
        strategy = record st { phase = paused };
        lp = exit_to_quote;
        emergency = true;
        reasons = sol sol_wait_for_trend_and_cooldown ∷ [];
      }

  abbrev is_outside : Bool
  is_outside = any (λ x. (sol_price <f x.lower) || (x.upper <f sol_price)) portfolio.positions

  -- With a position: it is held inside its range, and left outside of it.
  unfoldable pub sol_keep : Strategy W → SolChoice W
  sol_keep st =
      if is_outside
      then record {
        strategy = record st {
          phase = paused;
          pause_since = now_ms;
          healthy_hours = 0;
          fraction = lit 0;
        };
        lp = exit_to_quote;
        emergency = true;
        reasons = sol sol_outside_range_exit_and_wait ∷ [];
      }
      else record {
        strategy = record st { phase = active };
        lp = hold;
        emergency = false;
        reasons = [];
      }

  unfoldable pub sol_target : LpIntent W → W
  sol_target lp =
      portfolio.wallet_base
      +f sum (
          map
            (λ x.
              x.base
              *f (if (sol_price <f x.lower) || is_exit lp then lit 1 else s.inside_hedge_ratio))
            portfolio.positions)

  abbrev concluded : SolChoice W → W → Evaluated W
  concluded d target = record {
    strategy = d.strategy;
    decision = record {
      state = d.strategy.phase;
      reasons = d.reasons;
      lp = d.lp;
      target_short_base = target;
      emergency = d.emergency;
    };
  }

  unfoldable pub sol_trade : Signals W → Strategy W → SolChoice W
  unfolding sol_enter sol_keep count_sol_hour
  sol_trade v st =
      let counted = count_sol_hour v st in
      if is_empty portfolio.positions then sol_enter v counted else sol_keep counted

  -- Behind the checks; without a signal nothing is safe, so the trade always has one.
  unfoldable pub sol_act : Option (Signals W) → Strategy W → Evaluated W
  unfolding sol_withdraw
  sol_act none st = concluded (sol_withdraw none st) (base portfolio)
  sol_act (some v) st =
      if is_halted st.phase || unsafe_now (some v)
      then concluded (sol_withdraw (some v) st) (base portfolio)
      else concluded (sol_trade v st) (sol_target (sol_trade v st).lp)

  abbrev sol_refused : Strategy W → Evaluated W
  sol_refused st =
      concluded
        (record {
          strategy = record st { healthy_hours = 0 };
          lp = hold;
          emergency = false;
          reasons = stale_or_invalid_data ∷ [];
        })
        portfolio.short_base

  unfoldable pub evaluate_with_signals : Option (Signals W) → Strategy W → Evaluated W
  unfolding observe_lp
  evaluate_with_signals sig st =
      let seen = observe_lp st (not (is_empty portfolio.positions)) in
      if sol_unusable then sol_refused seen else sol_act sig (mark_drawdown s frame seen)

  -- `signal.as_ref().ok()`.
  abbrev pub signal_of : Result (Signals W) → Option (Signals W)
  signal_of (err message) = none
  signal_of (ok v) = some v

  unfoldable pub evaluate_regime : Strategy W → Evaluated W
  unfolding evaluate_with_signals
  evaluate_regime st = evaluate_with_signals (signal_of (signals c s frame.candles frame.now_ms)) st
