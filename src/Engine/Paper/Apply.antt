-- ===== src/Engine/Paper/Apply.antt =====
-- `apply_with_widths` of src/engine/paper.rs.
use lp_maker.Base.{
  ℕ, Bool, true, false, ◌&&◌, ◌||◌, not, Option, none, some, is_none, is_some, List, [], ◌∷◌, ◌++◌,
  map, String, Result, ok, ◌>>=◌, ◌>>◌, ensure, context, if◌then◌else◌, any, is_empty, select,
}
use text.Mathlib.Text.{◌==◌ as str_eq}
use lp_maker.Float.{F64, ◌+f◌, ◌-f◌, ◌*f◌, ◌/f◌, ◌<f◌, ◌≤f◌, lit, sum}
use lp_maker.Math.{amounts, liquidity_for_value, range}
use lp_maker.Domain.{LpPosition, LpIntent, hold, exit_to_quote, deploy, recenter}
use lp_maker.Config.State.{Config}
use lp_maker.Strategy.State.{Decision, LayerConfig}
use lp_maker.Engine.Paper.{
  Paper, PaperOrder, band_config, contains, is_entry, inventory_hedge_target, fill, slippage,
  swap_to_base, remove,
}

module _ {ℓ} {W : Type ℓ} where
  unfoldable pub find_layer : String → List (LayerConfig W) → Option (LayerConfig W)
  find_layer name [] = none
  find_layer name (l ∷ rest) = if str_eq l.name name then some l else find_layer name rest

  abbrev pub layers_of : List (LpPosition W) → List String
  layers_of positions = map (λ pos. pos.layer) positions

  abbrev pub set_positions : List (LpPosition W) → Paper W → Paper W
  set_positions positions book =
      let p = book.portfolio in record book { portfolio = record p { positions = positions } }

  abbrev pub leaves : LpIntent W → Bool
  leaves exit_to_quote = true
  leaves _ = false

module _ {ℓ} {W : Type ℓ} ⦃f : F64 W⦄ where
  -- `wallet_base -= b; wallet_quote -= q`.
  abbrev pub pay : W → W → Paper W → Paper W
  pay b q book =
      let p = book.portfolio in
      record book {
        portfolio = record p {
          wallet_base = p.wallet_base -f b;
          wallet_quote = p.wallet_quote -f q;
        };
      }

  -- All is sold and the short position is closed.
  unfoldable pub exit_to_cash : Config W → W → W → Paper W → Paper W
  unfolding remove swap_to_base fill
  exit_to_cash c p hedge b =
      let sold =
        swap_to_base (lit 0) p c
          (remove (layers_of b.portfolio.positions) (record b { pending = none })) in
      if lit 0 <f sold.portfolio.short_base
      then fill (lit 0) (hedge *f (lit 1 +f slippage c)) (f.decimal 45 5) sold
      else sold

  module _ (c : Config W) (p : W) where
    -- A position after an addition to it, and the book that paid for it.
    abbrev pub grown : W → LpPosition W → LpPosition W
    grown added pos =
        let liquidity = pos.liquidity +f added in
        let (b, q) = amounts liquidity pos.lower pos.upper p in
        record pos { liquidity = liquidity; base = b; quote = q }

    abbrev pub add_value : W → LpPosition W → Paper W → Result (LpPosition W × Paper W)
    add_value value pos book = do
      ensure ((pos.lower <f p) && (p <f pos.upper)) "cannot scale an out-of-range paper position"
      added ← liquidity_for_value value pos.lower pos.upper p
      let (b, q) = amounts added pos.lower pos.upper p
      let swapped = swap_to_base b p c book
      ensure (q ≤f swapped.portfolio.wallet_quote) "insufficient paper scaling quote"
      ok (grown added pos, pay b q swapped)

    -- The value to add to a position of this layer; less than 10 is not worth it.
    abbrev pub wanted : W → LpPosition W → LayerConfig W → Paper W → W
    wanted fraction pos layer book =
        let desired =
          c.strategy.lp_budget *f fraction *f layer.weight -f (pos.base *f p +f pos.quote) in
        let available = book.portfolio.wallet_base *f p +f book.portfolio.wallet_quote in
        f.f64_min desired available *f f.decimal 995 3

    unfoldable pub scale_one : W → LpPosition W → Paper W → Result (LpPosition W × Paper W)
    unfolding amounts liquidity_for_value swap_to_base find_layer
    scale_one fraction pos book =
        context (find_layer pos.layer c.strategy.layers) "unknown paper layer" >>= λ layer.
        let value = wanted fraction pos layer book in
        let added = add_value value pos book in if value <f lit 10 then ok (pos, book) else added

    -- The positions in turn, each paid for out of what the one before left.
    unfoldable pub scale_each :
        W → List (LpPosition W) → Paper W → Result (List (LpPosition W) × Paper W)
    unfolding scale_one
    scale_each fraction [] book = ok ([], book)
    scale_each fraction (pos ∷ rest) book = scale_one fraction pos book >>= λ (pos', book').
        scale_each fraction rest book' >>= λ (rest', book''). ok (pos' ∷ rest', book'')

    abbrev pub bounds_of : Option (W × W) → LayerConfig W → W × W
    bounds_of none l = range p l.half_width
    bounds_of (some w) l = (p *f (lit 1 -f w.0), p *f (lit 1 +f w.1))

    abbrev pub new_position : String → W → W → W → W → W → LpPosition W
    new_position layer lower upper liquidity b q = record {
      layer = layer;
      token_id = none;
      lower = lower;
      upper = upper;
      liquidity = liquidity;
      raw_liquidity = "paper";
      unclaimed_base = lit 0;
      unclaimed_quote = lit 0;
      base = b;
      quote = q;
    }

    unfoldable pub open_one : Option (W × W) → W → LayerConfig W → Paper W → Result (Paper W)
    unfolding range amounts liquidity_for_value swap_to_base
    open_one widths value l book =
        let (lower, upper) = bounds_of widths l in
        liquidity_for_value value lower upper p >>= λ liquidity.
        let (b, q) = amounts liquidity lower upper p in
        let swapped = swap_to_base b p c book in
        let paid = pay b q swapped in
        ensure (q ≤f (swapped.portfolio.wallet_quote +f f.decimal 1 6)) "paper insufficient quote"
        >> ok (
            set_positions
              (paid.portfolio.positions ++ new_position l.name lower upper liquidity b q ∷ []) paid)

    unfoldable pub open_each :
        Option (W × W) → W → W → List (LayerConfig W) → Paper W → Result (Paper W)
    unfolding open_one
    open_each widths budget weight_sum [] book = ok book
    open_each widths budget weight_sum (l ∷ rest) book =
        open_one widths (budget *f l.weight /f weight_sum) l book
        >>= open_each widths budget weight_sum rest

    abbrev pub budget_for : LpIntent W → Option (W × W) → W → W
    budget_for (deploy fraction) widths available = c.strategy.lp_budget *f fraction
    budget_for _ (some w) available = c.strategy.lp_budget
    budget_for _ none available = available

    -- The positions of the layers are closed and opened anew around the price.
    unfoldable pub reopen : LpIntent W → Option (W × W) → List String → Paper W → Result (Paper W)
    unfolding remove open_each sum
    reopen intent widths layers book =
        let removed = remove layers book in
        let available = removed.portfolio.wallet_base *f p +f removed.portfolio.wallet_quote in
        let chosen = select (λ l. contains layers l.name) c.strategy.layers in
        let budget = f.f64_min (budget_for intent widths available) available *f f.decimal 995 3 in
        open_each widths budget (sum (map (λ l. l.weight) chosen)) chosen removed

    abbrev pub change_lp : LpIntent W → Option (W × W) → Paper W → Result (Paper W)
    change_lp hold widths book = ok book
    change_lp exit_to_quote widths book = ok book
    change_lp (deploy fraction) widths book =
        if is_empty book.portfolio.positions
        then reopen (deploy fraction) widths (map (λ l. l.name) c.strategy.layers) book
        else (scale_each fraction book.portfolio.positions book >>= λ (positions, book').
            ok (set_positions positions book'))
    change_lp (recenter layers) widths book = reopen (recenter layers) widths layers book

  module _ (d : Decision W) (c : Config W) (p hedge : W) (now : ℕ) (widths : Option (W × W)) where
    abbrev pub drop_stale : W → Option (PaperOrder W) → Option (PaperOrder W)
    drop_stale target none = none
    drop_stale target (some o) =
        if c.strategy.hedge_deadband_usd ≤f f.abs (o.target -f target) *f hedge
        then none
        else some o

    abbrev pub next_target : Paper W → W
    next_target b =
        if is_entry d.lp
        then inventory_hedge_target c.strategy b.portfolio p
        else d.target_short_base

    abbrev pub order_for : W → Paper W → PaperOrder W
    order_for target b =
        let buy = (target -f b.portfolio.short_base) <f lit 0 in
        record {
          target = target;
          buy = buy;
          price = hedge *f (if buy then f.decimal 9999 4 else f.decimal 10001 4);
          submitted = now;
          emergency =
              d.emergency
              || (is_some widths && is_entry d.lp)
              || any (λ pos. p <f pos.lower) b.portfolio.positions;
        }

    -- The order of the hedge after the liquidity has changed.
    unfoldable pub place_order : Paper W → Paper W
    unfolding inventory_hedge_target
    place_order b =
        let target = next_target b in
        let kept = drop_stale target b.pending in
        let minimum =
          if is_some widths && is_entry d.lp then lit 10 else c.strategy.hedge_deadband_usd in
        let due = minimum ≤f f.abs (target -f b.portfolio.short_base) *f hedge in
        record b { pending = if due && is_none kept then some (order_for target b) else kept }

    unfoldable pub apply_with_widths : Paper W → Result (Paper W)
    unfolding exit_to_cash scale_each reopen place_order
    apply_with_widths b = do
      ensure (not (is_some (band_config c.strategy) && is_entry d.lp) || is_some widths)
          "band paper entry requires observed hourly feature"
      if leaves d.lp
          then ok (exit_to_cash c p hedge b)
          else (change_lp c p d.lp widths b >>= λ b'. ok (place_order b'))
