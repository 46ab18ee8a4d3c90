-- ===== src/Strategy/Eth/Band.antt =====
-- src/strategy/eth/band.rs: one range whose net exposure is kept in a band, with its own limits on losses.
use lp_maker.Base.{
  ◌-◌, ◌/◌, Bool, true, ◌&&◌, ◌||◌, Option, none, some, is_some, is_none, [], ◌∷◌, map, ltb, leb,
  if◌then◌else◌,
}
use lp_maker.Float.{F64, ◌-f◌, ◌*f◌, ◌≤f◌, lit}
use lp_maker.Domain.{MarketFrame, exit_to_quote, deploy, recenter, base}
use lp_maker.Strategy.State.{
  Strategy, StrategyConfig, active, Cause, range_recenter, hours_ms, is_paused, is_halted,
  is_initial,
}
use lp_maker.Strategy.Evaluate.{Evaluated}
use lp_maker.Strategy.Eth.State.{BandConfig, BandState, PersistentConfig, PersistentState}
use lp_maker.Strategy.Eth.Feature.{Feature, guard_of, recovered}
use lp_maker.Strategy.Eth.Steps.{
  Run, Choice, has_lp, see, bucket_of, watch, keep, drop_hours_in_danger, publish, danger_now,
  count_feature_hour,
}
use lp_maker.Strategy.Eth.Persistent.{start_pause, distrust_warmup, stay_out}
use lp_maker.Strategy.Eth.Account.{Assessed, BandChoice, Limits, band_reason, band_target}
unfoldable pub use lp_maker.Strategy.Eth.Risk.{
  side_of_band, start_band, mark_loss, open_episode, assess, limits,
}

module _ {ℓ} {W : Type ℓ} ⦃f : F64 W⦄ (c : StrategyConfig W) (frame : MarketFrame W) where
  open frame use {now_ms, pool, portfolio}

  module _ (b : BandConfig W) where
    unfoldable pub withdraw_band : Option Cause → Limits → Run W → Choice W
    unfolding start_pause
    withdraw_band cause l r =
        let r' = start_pause c frame (hours_ms c.cooldown_hours) r in
        let s = r'.strategy in
        let st = r'.state in
        record {
          run = record {
            strategy = record s { healthy_hours = 0; fraction = lit 0; layers = [] };
            state = record st { pending_hedge_target = none };
          };
          lp = exit_to_quote;
          target = base portfolio;
          emergency = true;
          reasons = band_reason s.phase cause l.global ∷ [];
        }

    -- A new episode starts once the new position is seen.
    abbrev pub reset_episode : Assessed W → BandState W
    reset_episode a =
        let bs = a.band in
        record bs { entered_ms = 0; episode_peak = a.equity; entry_drawdown = a.drawdown }

    unfoldable pub recenter_band : Assessed W → BandChoice W
    recenter_band a =
        let s = a.run.strategy in
        let st = a.run.state in
        record {
          choice = record (keep frame a.run) {
            run = record {
              strategy = record s { layers = [] };
              state = record st { pending_hedge_target = none; last_hedge_check_ms = now_ms };
            };
            lp = recenter (map (λ p. p.layer) portfolio.positions);
            reasons = range_recenter ∷ [];
          };
          band = reset_episode a;
        }

    module _ (cfg : PersistentConfig W) where
      abbrev pub hedge_due : PersistentState W → Bool
      hedge_due st =
          leb (hours_ms cfg.hedge_interval_hours) (now_ms - st.last_hedge_check_ms)
          || is_some st.pending_hedge_target

      -- While a target is pending, the target is computed anew and the clock stands.
      unfoldable pub hedge_band : Run W → Choice W
      hedge_band r =
          let st = r.state in
          let checked =
            if is_none st.pending_hedge_target then now_ms else st.last_hedge_check_ms in
          let target = band_target b portfolio pool.price in
          let moves =
            c.hedge_deadband_usd ≤f f.abs (target -f portfolio.short_base) *f pool.price in
          if hedge_due st
          then record (keep frame (record r {
            state = record st {
              last_hedge_check_ms = checked;
              pending_hedge_target = if moves then some target else none;
            };
          })) { target = if moves then target else portfolio.short_base }
          else keep frame r

      abbrev pub held_long_enough : BandState W → Bool
      held_long_enough bs = leb (hours_ms b.minimum_holding_hours) (now_ms - bs.entered_ms)

      abbrev pub activate : Assessed W → Assessed W
      activate a =
          let r = a.run in
          let s = r.strategy in
          record a { run = record r { strategy = record s { phase = active } } }

      unfoldable pub hold_band : Bool → Assessed W → BandChoice W
      unfolding recenter_band hedge_band
      hold_band outside a =
          if outside && held_long_enough a.band
          then recenter_band (activate a)
          else record { choice = hedge_band (activate a).run; band = a.band }

      unfoldable pub may_enter_band : Feature W → Run W → Bool
      may_enter_band x r =
          is_initial r.strategy.entry_history
          || (leb r.state.reentry_not_before_ms now_ms
              && leb c.resume_healthy_hours r.strategy.healthy_hours
              && recovered (guard_of cfg c) x pool.price)

      unfoldable pub enter_band : Assessed W → Run W → BandChoice W
      unfolding bucket_of
      enter_band a r =
          let s = r.strategy in
          let st = r.state in
          record {
            choice = record (keep frame r) {
              run = record {
                strategy = record s {
                  phase = active;
                  fraction = lit 1;
                  last_decision_bar = bucket_of c frame;
                };
                state = record st {
                  pending_hedge_target = none;
                  last_hedge_check_ms = now_ms;
                  reentry_not_before_ms = 0;
                };
              };
              lp = deploy (lit 1);
            };
            band = reset_episode a;
          }

      unfoldable pub reenter_band : Feature W → Assessed W → BandChoice W
      unfolding distrust_warmup may_enter_band enter_band stay_out
      reenter_band x a =
          let r = distrust_warmup c frame a.run in
          if may_enter_band x r
          then enter_band a r
          else record { choice = stay_out c frame r.state.reentry_not_before_ms r; band = a.band }

      unfoldable pub choose_band : Feature W → Option Cause → Bool → Assessed W → BandChoice W
      unfolding limits withdraw_band hold_band reenter_band
      choose_band x cause outside a =
          let l = limits c frame b a in
          if is_halted a.run.strategy.phase || is_some cause || l.soft || l.global
          then record { choice = withdraw_band cause l a.run; band = a.band }
          else if has_lp frame
          then hold_band outside a
          else reenter_band x a

      -- Everything before the bars.
      unfoldable pub prepare_band : Feature W → Strategy W → Assessed W
      unfolding start_band mark_loss assess
      prepare_band x s =
          let a = start_band c frame s in
          let marked = mark_loss c frame (record a { run = see c frame a.run }) in
          let counted = count_feature_hour (guard_of cfg c) pool.price x marked.run in
          assess c frame b
            (record marked { run = drop_hours_in_danger (danger_now c cfg frame x) counted })

      -- The state of the band goes back into the state of the strategy.
      unfoldable pub join_band : BandChoice W → Choice W
      join_band bc =
          let ch = bc.choice in
          let r = ch.run in
          let st = r.state in
          record ch { run = record r { state = record st { band = some bc.band } } }

      unfoldable pub evaluate_band : Feature W → Strategy W → Evaluated W
      unfolding join_band bucket_of
      evaluate_band x s =
          let a = prepare_band x s in
          let w =
            watch c frame (side_of_band c frame)
              (ltb a.run.strategy.last_decision_bar (bucket_of c frame)) a.run in
          let choice =
            join_band
              (choose_band x (danger_now c cfg frame x) w.outside (record a { run = w.run })) in
          publish c frame x (guard_of cfg c)
            (if is_paused choice.run.strategy.phase
              then (choice.run.state.reentry_not_before_ms - now_ms) / 1000
              else 0)
            choice
