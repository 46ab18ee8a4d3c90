-- ===== src/Solana/Signals/Latest.antt =====
-- The last completed hour that `signals` of src/solana/regime.rs reads.
use lp_maker.Base.{
  ℕ, ◌+◌, ◌-◌, ◌≡◌, ◌≤◌, some, Option, List, length, get_elem?, get_elem?-drop, length-drop, select,
  ltb, leb, leb→le, drop, all, ok, ok-injective, >>=-eq-ok, >>-eq-ok, ensure-eq-ok, context-eq-ok,
  ap, sym, ◌∙◌, arith,
}
use lp_maker.Float.{F64}
use lp_maker.Domain.{Candle}
use lp_maker.Strategy.State.{StrategyConfig}
use lp_maker.Strategy.Indicators.{Metrics, calculate}
use lp_maker.Solana.Signals.{
  RegimeConfig, Signals, signals, read_signals, check_gaps, signals_of, history_hours, is_valid_row,
}

module _ {W : Type 0} where
  -- The newest of the candles that are complete by now.
  abbrev pub latest_hour : List (Candle W) → ℕ → Option (Candle W)
  latest_hour candles now =
      let completed = select (λ b. ltb b.close_ms now) candles in
      get_elem? completed (length completed - 1)

module _ {W : Type 0} ⦃f : F64 W⦄ (c : RegimeConfig W) (s : StrategyConfig W) where
  -- What signals are read from: the indicators of the candles and the newest completed hour.
  pub record IsRead (candles : List (Candle W)) (now : ℕ) (v : Signals W) : Type 0 where
    pub m : Metrics W
    pub rows : List (Candle W)
    pub last : Candle W
    pub first : Candle W
    pub measured : calculate candles s now ≡ ok m
    pub newest : latest_hour candles now ≡ some last
    pub shown : read_signals c s m rows last first ≡ v

  last-drop :
      (xs : List (Candle W))
      → let n = length xs - history_hours c in
        history_hours c ≤ length xs
        → get_elem? (drop n xs) (length (drop n xs) - 1) ≡ get_elem? xs (length xs - 1)
  unfolding history_hours
  last-drop xs h =
      let n = length xs - history_hours c in
      let same : n + (length (drop n xs) - 1) ≡ length xs - 1 =
        omega (arith, h, length-drop n xs) in
      get_elem?-drop n xs (length (drop n xs) - 1) ∙ ap (get_elem? xs) same

  pub signals-IsRead :
      (candles : List (Candle W)) (now : ℕ) (v : Signals W)
      → signals c s candles now ≡ ok v
      → IsRead candles now v
  unfolding signals signals_of
  signals-IsRead candles now v h =
      let (m, measured, h₁) = >>=-eq-ok (calculate candles s now) _ h in
      let completed = select (λ (b : Candle W). ltb b.close_ms now) candles in
      let rows = drop (length completed - history_hours c) completed in
      let (enough, h₂) =
        ensure-eq-ok (leb (history_hours c) (length completed)) "SOL regime history insufficient"
          (signals_of c s m rows) h₁ in
      let (_, h₃) = ensure-eq-ok (all is_valid_row rows) "invalid SOL regime OHLC" _ h₂ in
      let (_, h₄) = >>-eq-ok (check_gaps rows) _ h₃ in
      let (last, at_end, h₅) = context-eq-ok (get_elem? rows (length rows - 1)) _ _ h₄ in
      let (first, _, h₆) =
        context-eq-ok (get_elem? rows (length rows - 1 - c.momentum_hours)) _ _ h₅ in
      record {
        m = m;
        rows = rows;
        last = last;
        first = first;
        measured = measured;
        newest = sym (last-drop completed (leb→le _ _ enough)) ∙ at_end;
        shown = ok-injective h₆;
      }

  -- The price that the signals report is the close of the newest completed hour.
  pub signals-last_close :
      (candles : List (Candle W)) (now : ℕ) (v : Signals W) (last : Candle W)
      → signals c s candles now ≡ ok v
      → latest_hour candles now ≡ some last
      → v.last_close ≡ last.close
  unfolding read_signals
  signals-last_close candles now v last h newest =
      let r = signals-IsRead candles now v h in
      let same : r.last ≡ last = cc in sym (ap (λ t. t.last_close) r.shown) ∙ ap (λ t. t.close) same
