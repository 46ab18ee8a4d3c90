-- ===== src/Strategy/Breakout.antt =====
-- The last block of `Strategy::evaluate_inner` in src/strategy/mod.rs: the bars between decisions, the
-- protection of each layer, the hedge target and the breakouts that ask for a new range.
use lp_maker.Base.{
  ℕ, ◌+◌, ◌*◌, ◌/◌, ◌%◌, ◌^◌, Bool, true, false, ◌&&◌, ◌||◌, List, [], ◌∷◌, ◌++◌, ltb, leb,
  if◌then◌else◌, String,
}
use text.Mathlib.Text.{◌==◌ as str_eq}
use lp_maker.Float.{F64, ◌+f◌, ◌-f◌, ◌*f◌, ◌<f◌, lit}
use lp_maker.Domain.{MarketFrame, LpPosition}
use lp_maker.Strategy.State.{
  Strategy, StrategyConfig, LayerState, Side, below, inside, above, wrap64, clear_streaks,
}

abbrev pub same_side : Side → Side → Bool
same_side below below = true
same_side inside inside = true
same_side above above = true
same_side _ _ = false

abbrev pub new_layer : LayerState
new_layer = record { protected = false; outside_side = inside; outside_count = 0 }

-- `layers.entry(name).or_default()`, and the write through that reference.
unfoldable pub entry : String → List (String × LayerState) → LayerState
entry name [] = new_layer
entry name ((k, v) ∷ rest) = if str_eq k name then v else entry name rest

unfoldable pub put : String → LayerState → List (String × LayerState) → List (String × LayerState)
put name layer [] = (name, layer) ∷ []
put name layer ((k, v) ∷ rest) =
    if str_eq k name then (k, layer) ∷ rest else (k, v) ∷ put name layer rest

-- The variables of the loop over the positions.
pub record Sweep {ℓ} (W : Type ℓ) : Type ℓ where
  pub layers : List (String × LayerState)
  pub target : W
  pub emergency : Bool
  pub resets : List String

-- The side of this bar, counted.
unfoldable pub count_bar : Side → LayerState → LayerState
count_bar inside layer = record layer { outside_side = inside; outside_count = 0 }
count_bar side layer = record layer {
  outside_side = side;
  outside_count =
      if same_side side layer.outside_side then (layer.outside_count + 1) % 2 ^ 32 else 1;
}

module _ {ℓ} {W : Type ℓ} where
  unfoldable pub bucket : StrategyConfig W → MarketFrame W → ℕ
  bucket c frame = frame.now_ms / wrap64 (c.decision_bar_seconds * 1000)

  unfoldable pub is_new_bar : StrategyConfig W → MarketFrame W → Strategy W → Bool
  unfolding bucket
  is_new_bar c frame s = ltb s.last_decision_bar (bucket c frame)

  -- A missed bar breaks every streak.
  unfoldable pub turn_bar : StrategyConfig W → MarketFrame W → Strategy W → Strategy W
  unfolding bucket
  turn_bar c frame s =
      let now = bucket c frame in
      if ltb s.last_decision_bar now
      then record s {
        layers =
            if ltb 0 s.last_decision_bar && ltb (wrap64 (s.last_decision_bar + 1)) now
            then clear_streaks s.layers
            else s.layers;
        last_decision_bar = now;
      }
      else s

module _ {ℓ} {W : Type ℓ} ⦃f : F64 W⦄ (c : StrategyConfig W) (price : W) where
  unfoldable pub protect : LpPosition W → LayerState → LayerState
  protect pos layer =
      if pos.lower *f (lit 1 +f c.hedge_release_buffer) <f price
      then record layer { protected = false }
      else if price <f pos.lower
      then record layer { protected = true }
      else layer

  unfoldable pub side_of : LpPosition W → Side
  side_of pos =
      if price <f pos.lower *f (lit 1 -f c.breakout_buffer)
      then below
      else if pos.upper *f (lit 1 +f c.breakout_buffer) <f price
      then above
      else inside

  -- `new_bar` and the position are those of the loop; a confirmed breakout starts its count anew.
  unfoldable pub visit : Bool → LpPosition W → Sweep W → Sweep W
  unfolding protect side_of count_bar
  visit new_bar pos acc =
      let layer = protect pos (entry pos.layer acc.layers) in
      let counted = if new_bar then count_bar (side_of pos) layer else layer in
      let confirmed = new_bar && leb c.breakout_confirm_bars counted.outside_count in
      record {
        layers =
            put pos.layer (if confirmed then record counted { outside_count = 0 } else counted)
              acc.layers;
        target =
            acc.target +f pos.base *f (if layer.protected then lit 1 else c.inside_hedge_ratio);
        emergency = acc.emergency || layer.protected;
        resets = if confirmed then acc.resets ++ pos.layer ∷ [] else acc.resets;
      }

  unfoldable pub sweep : Bool → List (LpPosition W) → Sweep W → Sweep W
  unfolding visit
  sweep new_bar [] acc = acc
  sweep new_bar (pos ∷ rest) acc = sweep new_bar rest (visit new_bar pos acc)
