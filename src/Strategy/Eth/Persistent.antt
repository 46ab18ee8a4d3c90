-- ===== src/Strategy/Eth/Persistent.antt =====
-- `evaluate_feature` of src/strategy/eth/mod.rs without a band: one range in ETH, hedged in part.
use lp_maker.Base.{
  ℕ, ◌+◌, ◌-◌, ◌*◌, ◌/◌, Bool, true, ◌&&◌, ◌||◌, not, Option, none, some, is_some, is_none, [], ◌∷◌,
  ltb, leb, if◌then◌else◌,
}
use lp_maker.Float.{F64, ◌+f◌, ◌-f◌, ◌*f◌, ◌<f◌, ◌≤f◌, lit}
use lp_maker.Domain.{MarketFrame, LpPosition, exit_to_quote, deploy, base, equity}
use lp_maker.Strategy.State.{
  Strategy, StrategyConfig, Phase, active, paused, halted, Side, below, inside, above, Cause,
  Reason, risk, portfolio_drawdown_limit, range_recenter, resume_wait, wrap64, hours_ms, is_paused,
  is_halted, is_warmup, is_initial,
}
use lp_maker.Strategy.Evaluate.{Evaluated}
use lp_maker.Strategy.Eth.State.{PersistentConfig}
use lp_maker.Strategy.Eth.Feature.{Feature, guard_of}
use lp_maker.Strategy.Eth.Steps.{
  Run, Barred, Choice, has_lp, cooled, start_run, anchor_pause, see, bucket_of, watch, keep,
  drop_hours_in_danger, publish, danger_now, count_feature_hour,
}

-- Why the position is withdrawn.
abbrev pub withdrawal_reason : Phase → Option Cause → Reason
withdrawal_reason halted cause = portfolio_drawdown_limit
withdrawal_reason _ (some cause) = risk cause
withdrawal_reason _ none = range_recenter

module _ {ℓ} {W : Type ℓ} ⦃f : F64 W⦄ (c : StrategyConfig W) (frame : MarketFrame W) where
  open frame use {now_ms, pool, portfolio}

  unfoldable pub mark_equity : Run W → Run W
  mark_equity r =
      let s = r.strategy in
      let eq = equity portfolio pool.price in
      let peak = f.f64_max (f.f64_max s.peak_equity eq) c.total_capital in
      record r {
        strategy = record s {
          peak_equity = peak;
          phase = if eq ≤f peak *f (lit 1 -f c.max_drawdown) then halted else s.phase;
        };
      }

  unfoldable pub side_of_range : LpPosition W → Side
  side_of_range pos =
      if pool.price <f pos.lower *f (lit 1 -f c.breakout_buffer)
      then below
      else if pos.upper *f (lit 1 +f c.breakout_buffer) <f pool.price
      then above
      else inside

  -- The pause that a withdrawal starts, unless one runs and there is nothing to withdraw.
  unfoldable pub start_pause : ℕ → Run W → Run W
  start_pause wait r =
      let s = r.strategy in
      let st = r.state in
      if is_halted s.phase
      then r
      else if not (is_paused s.phase) || has_lp frame
      then record {
        strategy = record s { phase = paused; pause_since = now_ms };
        state = record st {
          pause_anchor_ms = now_ms;
          reentry_not_before_ms = wrap64 (now_ms + wait);
        };
      }
      else record r { strategy = record s { phase = paused } }

  -- A range that was left waits for one bar only, and keeps the healthy hours.
  unfoldable pub withdraw : Option Cause → Bool → Run W → Choice W
  unfolding start_pause
  withdraw cause outside r =
      let wait =
        if outside && is_none cause
        then wrap64 (c.decision_bar_seconds * 1000)
        else hours_ms c.cooldown_hours in
      let r' = start_pause wait r in
      let s = r'.strategy in
      let st = r'.state in
      record {
        run = record {
          strategy = record s {
            healthy_hours = if not outside || is_some cause then 0 else s.healthy_hours;
            fraction = lit 0;
            layers = [];
          };
          state = record st { pending_hedge_target = none };
        };
        lp = exit_to_quote;
        target = base portfolio;
        emergency = true;
        reasons = withdrawal_reason s.phase cause ∷ [];
      }

  -- An old checkpoint cannot prove that it never entered, so it waits.
  unfoldable pub distrust_warmup : Run W → Run W
  distrust_warmup r =
      let s = r.strategy in
      let st = r.state in
      if is_warmup s.phase && not (is_initial s.entry_history)
      then record {
        strategy = record s { phase = paused; pause_since = now_ms };
        state = record st { pause_anchor_ms = now_ms; reentry_not_before_ms = cooled c now_ms };
      }
      else r

  abbrev pub deadline : Run W → ℕ
  deadline r =
      if ltb 0 r.state.reentry_not_before_ms
      then r.state.reentry_not_before_ms
      else cooled c r.strategy.pause_since

  -- The wait that goes on, until a time.
  unfoldable pub stay_out : ℕ → Run W → Choice W
  stay_out until r =
      let s = r.strategy in
      record {
        run = record r { strategy = record s { phase = paused } };
        lp = exit_to_quote;
        target = base portfolio;
        emergency = true;
        reasons = resume_wait ((until - now_ms) / 1000) s.healthy_hours c.resume_healthy_hours ∷ [];
      }

  unfoldable pub may_reenter : Run W → Bool
  may_reenter r =
      is_initial r.strategy.entry_history
      || (leb (deadline r) now_ms && leb c.resume_healthy_hours r.strategy.healthy_hours)

  unfoldable pub enter_range : Run W → Choice W
  unfolding bucket_of
  enter_range r =
      let s = r.strategy in
      let st = r.state in
      record (keep frame r) {
        run = record {
          strategy = record s {
            phase = active;
            fraction = lit 1;
            last_decision_bar = bucket_of c frame;
          };
          state = record st { last_hedge_check_ms = now_ms; pending_hedge_target = none };
        };
        lp = deploy (lit 1);
      }

  unfoldable pub reenter : Run W → Choice W
  unfolding distrust_warmup may_reenter enter_range stay_out
  reenter r =
      let r' = distrust_warmup r in
      if may_reenter r' then enter_range r' else stay_out (deadline r') r'

  -- A new target every few hours, followed until the short position is close to it.
  unfoldable pub follow_target : Option W → Run W → Choice W
  follow_target none r = keep frame r
  follow_target (some target) r =
      if c.hedge_deadband_usd ≤f f.abs (target -f portfolio.short_base) *f pool.price
      then record (keep frame r) { target = target }
      else keep frame
          (let st = r.state in record r { state = record st { pending_hedge_target = none } })

  module _ (cfg : PersistentConfig W) where
    unfoldable pub renew_target : Run W → Run W
    renew_target r =
        let st = r.state in
        if leb (hours_ms cfg.hedge_interval_hours) (now_ms - st.last_hedge_check_ms)
        then record r {
          state = record st {
            last_hedge_check_ms = now_ms;
            pending_hedge_target = some (base portfolio *f c.inside_hedge_ratio);
          };
        }
        else r

    unfoldable pub hold_range : Run W → Choice W
    unfolding renew_target follow_target
    hold_range r =
        let s = r.strategy in
        let r' = renew_target (record r { strategy = record s { phase = active } }) in
        follow_target r'.state.pending_hedge_target r'

    unfoldable pub choose : Option Cause → Barred W → Choice W
    unfolding withdraw reenter hold_range
    choose cause b =
        if is_halted b.run.strategy.phase || is_some cause || b.outside
        then withdraw cause b.outside b.run
        else if has_lp frame
        then hold_range b.run
        else reenter b.run

    -- The state before the choice.
    unfoldable pub prepare : Feature W → Strategy W → Barred W
    unfolding mark_equity
    prepare x s =
        let r = mark_equity (see c frame (anchor_pause c (start_run frame s))) in
        let counted = count_feature_hour (guard_of cfg c) pool.price x r in
        watch c frame side_of_range
          (ltb counted.strategy.last_decision_bar (now_ms / c.decision_bar_seconds / 1000))
          (drop_hours_in_danger (danger_now c cfg frame x) counted)

    unfoldable pub evaluate_range : Feature W → Strategy W → Evaluated W
    evaluate_range x s =
        let choice = choose (danger_now c cfg frame x) (prepare x s) in
        publish c frame x (guard_of cfg c)
          ((choice.run.state.reentry_not_before_ms - now_ms) / 1000) choice
