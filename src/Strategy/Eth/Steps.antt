-- ===== src/Strategy/Eth/Steps.antt =====
-- The steps that `evaluate_feature` of src/strategy/eth/mod.rs and `evaluate` of src/strategy/eth/band.rs
-- share: the clocks, the healthy hours, the bars outside a range and the report.
use lp_maker.Base.{
  ℕ, ◌+◌, ◌-◌, ◌*◌, ◌/◌, Bool, false, ◌&&◌, ◌||◌, not, Option, none, some, is_some, List, [], ◌∷◌,
  String, ltb, leb, ◌==◌, if◌then◌else◌, is_empty, saturating_add, u32_max, unwrap_or,
}
use lp_maker.Float.{F64, ◌-f◌, ◌*f◌, ◌/f◌, ◌<f◌, lit}
use lp_maker.Domain.{MarketFrame, LpPosition, LpIntent, hold}
use lp_maker.Strategy.State.{
  Strategy, StrategyConfig, LayerState, Side, inside, Cause, pool_perp_basis_limit, Reason, wrap64,
  hours_ms, is_paused, observe_lp,
}
use lp_maker.Strategy.Breakout.{same_side, entry, put}
use lp_maker.Strategy.Evaluate.{Evaluated}
use lp_maker.Strategy.Eth.State.{
  PersistentConfig, PersistentState, PersistentReport, fresh_persistent,
}
use lp_maker.Strategy.Eth.Feature.{Feature, Guard, guard_of, danger, recovered, hour_ms}

-- `s` and `st` of the code, while both change.
pub record Run {ℓ} (W : Type ℓ) : Type ℓ where
  pub strategy : Strategy W
  pub state : PersistentState W

-- After the loop over the positions; `outside` says that a range was left for long enough.
pub record Watched {ℓ} (W : Type ℓ) : Type ℓ where
  pub layers : List (String × LayerState)
  pub outside : Bool

-- The run behind that loop.
pub record Barred {ℓ} (W : Type ℓ) : Type ℓ where
  pub run : Run W
  pub outside : Bool

-- What is decided, before the report.
pub record Choice {ℓ} (W : Type ℓ) : Type ℓ where
  pub run : Run W
  pub lp : LpIntent W
  pub target : W
  pub emergency : Bool
  pub reasons : List Reason

-- The side of this bar, counted.
unfoldable pub count_outside : Side → LayerState → LayerState
count_outside inside layer = record layer { outside_side = inside; outside_count = 0 }
count_outside side layer = record layer {
  outside_side = side;
  outside_count =
      if same_side side layer.outside_side then saturating_add u32_max layer.outside_count 1 else 1;
}

module _ {ℓ} {W : Type ℓ} where
  abbrev pub has_lp : MarketFrame W → Bool
  has_lp frame = not (is_empty frame.portfolio.positions)

  -- An age as `c.max_data_age_seconds` allows it.
  abbrev pub max_age : StrategyConfig W → ℕ
  max_age c = wrap64 (c.max_data_age_seconds * 1000)

  -- The end of a cooldown that starts at a time.
  abbrev pub cooled : StrategyConfig W → ℕ → ℕ
  cooled c since = wrap64 (since + hours_ms c.cooldown_hours)

  unfoldable pub start_run : MarketFrame W → Strategy W → Run W
  start_run frame s = record {
    strategy = observe_lp s (has_lp frame);
    state = unwrap_or s.eth_persistent fresh_persistent;
  }

  -- The executor has started a pause that this strategy has not seen yet.
  unfoldable pub is_reanchored : Run W → Bool
  is_reanchored r =
      is_paused r.strategy.phase && not (r.state.pause_anchor_ms == r.strategy.pause_since)

  unfoldable pub anchor_pause : StrategyConfig W → Run W → Run W
  unfolding is_reanchored
  anchor_pause c r =
      if is_reanchored r
      then record {
        strategy = (let s = r.strategy in record s { healthy_hours = 0 });
        state =
            (let st = r.state in
              record st {
                pause_anchor_ms = r.strategy.pause_since;
                reentry_not_before_ms = cooled c r.strategy.pause_since;
                pending_hedge_target = none;
              });
      }
      else r

  -- A gap in the observations costs the healthy hours and the streaks.
  unfoldable pub see : StrategyConfig W → MarketFrame W → Run W → Run W
  see c frame r =
      let s = r.strategy in
      let st = r.state in
      record {
        strategy =
            if ltb frame.now_ms st.last_observed_ms
              || (ltb 0 st.last_observed_ms && ltb (max_age c) (frame.now_ms - st.last_observed_ms))
            then record s { healthy_hours = 0; layers = [] }
            else s;
        state = record st { last_observed_ms = frame.now_ms };
      }

  unfoldable pub bucket_of : StrategyConfig W → MarketFrame W → ℕ
  bucket_of c frame = frame.now_ms / wrap64 (c.decision_bar_seconds * 1000)

  unfoldable pub watch_layers :
      (LpPosition W → Side) → ℕ → List (LpPosition W) → Watched W → Watched W
  unfolding count_outside
  watch_layers side confirm [] acc = acc
  watch_layers side confirm (pos ∷ rest) acc =
      let layer = count_outside (side pos) (entry pos.layer acc.layers) in
      watch_layers side confirm rest (record {
        layers = put pos.layer layer acc.layers;
        outside = acc.outside || leb confirm layer.outside_count;
      })

  -- The streaks of this bar, after a bar that was missed.
  unfoldable pub fresh_layers : ℕ → Strategy W → List (String × LayerState)
  fresh_layers bucket s =
      if ltb 0 s.last_decision_bar && ltb (wrap64 (s.last_decision_bar + 1)) bucket
      then []
      else s.layers

  -- A new bar with positions is watched; `is_new` says that the bar is new.
  unfoldable pub watch :
      StrategyConfig W → MarketFrame W → (LpPosition W → Side) → Bool → Run W → Barred W
  unfolding bucket_of
  watch c frame side is_new r =
      let s = r.strategy in
      let bucket = bucket_of c frame in
      let w =
        watch_layers side c.breakout_confirm_bars frame.portfolio.positions
          (record { layers = fresh_layers bucket s; outside = false }) in
      if has_lp frame && is_new
      then record {
        run = record r { strategy = record s { last_decision_bar = bucket; layers = w.layers } };
        outside = w.outside;
      }
      else record { run = r; outside = false }

  -- A choice to do nothing, which the branches change.
  abbrev pub keep : MarketFrame W → Run W → Choice W
  keep frame r = record {
    run = r;
    lp = hold;
    target = frame.portfolio.short_base;
    emergency = false;
    reasons = [];
  }

  -- `healthy_hours` as the code writes it.
  abbrev pub with_hours : ℕ → Run W → Run W
  with_hours n r = let s = r.strategy in record r { strategy = record s { healthy_hours = n } }

  unfoldable pub drop_hours_in_danger : Option Cause → Run W → Run W
  drop_hours_in_danger cause r = if is_some cause then with_hours 0 r else r

  -- What is returned, with the state and its report put back.
  unfoldable pub publish :
      StrategyConfig W → MarketFrame W → Feature W → Guard W → ℕ → Choice W → Evaluated W
  publish c frame x g cooldown choice =
      let s = choice.run.strategy in
      let st = choice.run.state in
      record {
        strategy = record s { eth_persistent = some (record st { report = some report }) };
        decision = record {
          state = s.phase;
          reasons = choice.reasons;
          lp = choice.lp;
          target_short_base = choice.target;
          emergency = choice.emergency;
        };
      }
    where
      report : PersistentReport W
      report = record {
        observed_ms = frame.now_ms;
        completed_hour_ms = x.time;
        return_1h = x.r1;
        return_24h = x.r24;
        return_72h = x.r72;
        vol_6h = x.vol6;
        pause_vol = g.vol;
        healthy_hours = choice.run.strategy.healthy_hours;
        required_hours = c.resume_healthy_hours;
        cooldown_remaining_seconds = cooldown;
      }

module _ {ℓ} {W : Type ℓ} ⦃f : F64 W⦄ where
  -- The danger of the guard, or the one of the basis.
  unfoldable pub danger_now :
      StrategyConfig W → PersistentConfig W → MarketFrame W → Feature W → Option Cause
  danger_now c cfg frame x = elim (danger (guard_of cfg c) x frame.pool.price) [
    | some cause ↦ some cause
    | none ↦
        if c.max_basis_bps <f f.abs (frame.pool.price /f frame.hedge_price -f lit 1) *f lit 10000
        then some pool_perp_basis_limit
        else none
  ]

  unfoldable pub count_feature_hour : Guard W → W → Feature W → Run W → Run W
  count_feature_hour g price x r =
      let s = r.strategy in
      let hours =
        if ltb 0 s.last_hour && not (x.time - s.last_hour == hour_ms) then 0 else s.healthy_hours in
      if ltb s.last_hour x.time
      then record r {
        strategy = record s {
          last_hour = x.time;
          healthy_hours = if recovered g x price then saturating_add u32_max hours 1 else 0;
        };
      }
      else r
