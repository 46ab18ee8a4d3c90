-- ===== src/Engine/Paper/Examples.antt =====
-- The theorems about the book of simulated executions at concrete inputs.
use lp_maker.Base.{ℕ, ◌≡◌, refl, false, none, some, [], ◌∷◌, Result, ok, err}
use lp_maker.Math.{amounts, liquidity_for_value, range}
use lp_maker.Domain.{deploy, base}
use lp_maker.Float.{sum}
use lp_maker.Config.Samples.{config, eight}
use lp_maker.Hyperliquid.Samples.{Doc, docs, word, number, field, item, nothing}
use lp_maker.Strategy.State.{Decision, active}
use lp_maker.Strategy.Eth.Account.{band_target}
use lp_maker.Engine.Paper.{
  Paper, opened, remove, collect, swap_to_base, fill, inventory_hedge_target,
}
use lp_maker.Engine.Paper.Payments.{Numbers, apply_funding, funding_rows, funding_row, num}
use lp_maker.Engine.Paper.Apply.{
  layers_of, apply_with_widths, reopen, open_each, open_one, exit_to_cash, scale_each, place_order,
}
use lp_maker.Engine.Paper.Held.{held_after, names_of}
use lp_maker.Engine.Paper.Layers.{apply_with_widths-held_after}
use lp_maker.Engine.Paper.Funding.{apply_funding_twice}

-- The configured layer is opened with half of the budget.
abbrev enter : Decision ℕ
enter = record {
  state = active;
  reasons = [];
  lp = deploy 50000000;
  target_short_base = 0;
  emergency = false;
}

abbrev empty_book : Paper ℕ
empty_book = opened config 7

abbrev book_of : Result (Paper ℕ) → Paper ℕ
book_of (ok b) = b
book_of (err message) = empty_book

abbrev widths : ℕ × ℕ
widths = (5000000, 8000000)

abbrev entered : Paper ℕ
entered = book_of (apply_with_widths enter config 100000000 100000000 8 (some widths) empty_book)

enters : apply_with_widths enter config 100000000 100000000 8 (some widths) empty_book ≡ ok entered
unfolding apply_with_widths exit_to_cash scale_each reopen open_each open_one place_order opened
    remove collect swap_to_base fill inventory_hedge_target amounts liquidity_for_value range base
    sum band_target
enters = refl

-- The layer is held, and its hedge is ordered.
holds : layers_of entered.portfolio.positions ≡ "core" ∷ []
unfolding apply_with_widths exit_to_cash scale_each reopen open_each open_one place_order opened
    remove collect swap_to_base fill inventory_hedge_target amounts liquidity_for_value range base
    sum band_target
holds = refl

apply_with_widths-held_after_example :
    layers_of entered.portfolio.positions
    ≡ held_after
        (names_of config.strategy.layers)
        enter.lp
        (layers_of empty_book.portfolio.positions)
apply_with_widths-held_after_example =
    apply_with_widths-held_after enter config 100000000 100000000 8 (some widths) empty_book entered
      enters

abbrev parsers : Numbers Doc ℕ
parsers = record { parse = λ s. some 3; as_f64 = λ v. none }

-- Two payments, the later one first.
abbrev payments : Doc
payments =
    item (field "time" (number 9) (field "fundingRate" (word "0.1") nothing))
      (item (field "time" (number 8) (field "fundingRate" (word "0.1") nothing)) nothing)

abbrev booked : Paper ℕ
booked = book_of (apply_funding parsers payments empty_book)

books : apply_funding parsers payments empty_book ≡ ok booked
unfolding apply_funding funding_rows funding_row num opened
books = refl

apply_funding_twice_example : apply_funding parsers payments booked ≡ ok booked
apply_funding_twice_example = apply_funding_twice parsers payments empty_book booked books
