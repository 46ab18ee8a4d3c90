-- ===== src/Strategy/Indicators.antt =====
-- src/strategy/indicators.rs: moving averages, volatility and the checks of the hourly candles.
use lp_maker.Base.{
  ℕ, ◌+◌, ◌-◌, ◌*◌, max, min, Bool, ◌&&◌, List, [], ◌∷◌, map, Result, ok, ◌>>=◌, ◌>>◌, ensure,
  context, ltb, leb, ◌==◌, length, take, drop, get_elem?, select, map_pairs, unwrap_or, all,
}
use lp_maker.Float.{F64, ◌+f◌, ◌-f◌, ◌*f◌, ◌/f◌, ◌<f◌, ◌≤f◌, lit, sum}
use lp_maker.Domain.{Candle}
use lp_maker.Strategy.State.{StrategyConfig, wrap64}

pub record Metrics {ℓ} (W : Type ℓ) : Type ℓ where
  pub return_1h : W
  pub vol_ratio : W
  pub recent_vol : W
  pub baseline_vol : W
  pub downtrend : Bool
  pub no_new_low : Bool
  pub ema_fast : W
  pub last_close : W
  pub last_close_ms : ℕ

module _ {ℓ} {W : Type ℓ} where
  -- `(c.vol_long_hours + c.vol_short_hours + 1).max(c.ema_slow_hours * 3)`.
  abbrev pub needed : StrategyConfig W → ℕ
  needed c = max (c.vol_long_hours + c.vol_short_hours + 1) (c.ema_slow_hours * 3)

  -- `returns[split - vol_long_hours..split]` and `returns[split..]`.
  unfoldable pub baseline_window : StrategyConfig W → List W → List W
  baseline_window c returns =
      let split = length returns - c.vol_short_hours in
      take c.vol_long_hours (drop (split - c.vol_long_hours) returns)

  unfoldable pub recent_window : StrategyConfig W → List W → List W
  recent_window c returns = drop (length returns - c.vol_short_hours) returns

  abbrev pub lookback : StrategyConfig W → ℕ → ℕ
  lookback c rows = max (min c.resume_healthy_hours (rows - 1)) 2

  -- `rows[rows.len() - 1 - lookback..rows.len() - 1]`.
  unfoldable pub low_window : StrategyConfig W → List (Candle W) → List (Candle W)
  low_window c rows = let n = lookback c (length rows) in take n (drop (length rows - 1 - n) rows)

  -- `close_ms.checked_sub(open_ms) == Some(3_599_999)`.
  abbrev pub is_hour : Candle W → Bool
  is_hour r = leb r.open_ms r.close_ms && (r.close_ms - r.open_ms == 3599999)

  abbrev pub follows : Candle W → Candle W → Bool
  follows a b = b.open_ms == wrap64 (a.open_ms + 3600000)

  unfoldable pub check_order : List (Candle W) → Result (Unit {0})
  check_order [] = ok tt
  check_order (a ∷ []) = ok tt
  check_order (a ∷ b ∷ rest) = do
    ensure (follows a b) "hourly gap/duplicate/out-of-order"
    check_order (b ∷ rest)

module _ {ℓ} {W : Type ℓ} ⦃f : F64 W⦄ where
  unfoldable pub ema_from : W → W → W → List W → W × W
  ema_from a v prev [] = (v, prev)
  ema_from a v prev (x ∷ xs) = ema_from a (a *f x +f (lit 1 -f a) *f v) v xs

  -- The average and the one before it. The code indexes `xs[0]`: no caller passes an empty list.
  unfoldable pub ema : List W → ℕ → W × W
  unfolding ema_from
  ema [] period = (lit 0, lit 0)
  ema (x ∷ xs) period = ema_from (lit 2 /f (f.from_int period +f lit 1)) x x xs

  unfoldable pub stddev : List W → W
  stddev xs =
      let m = sum xs /f f.from_int (length xs) in
      f.sqrt (sum (map (λ x. f.powi (x -f m) 2) xs) /f f.from_int (length xs))

  abbrev pub is_sound : Candle W → Bool
  is_sound r =
      all (λ x. f.is_finite x && (lit 0 <f x)) (r.opening ∷ r.high ∷ r.low ∷ r.close ∷ [])
      && (f.f64_max r.opening r.close ≤f r.high)
      && (r.low ≤f f.f64_min r.opening r.close)
      && (r.low ≤f r.high)

  unfoldable pub check_rows : List (Candle W) → Result (Unit {0})
  check_rows [] = ok tt
  check_rows (r ∷ rest) = do
    ensure (is_sound r) "invalid candle"
    ensure (is_hour r) "not hourly candles"
    check_rows rest

  unfoldable pub lowest : W → List (Candle W) → W
  lowest acc [] = acc
  lowest acc (r ∷ rest) = lowest (f.f64_min acc r.low) rest

  -- The part of `calculate` behind the checks, on the rows that passed them and the last of them.
  unfoldable pub measure : List (Candle W) → StrategyConfig W → Candle W → Metrics W
  unfolding baseline_window recent_window low_window ema stddev lowest
  measure rows c last = record {
    return_1h = last.close /f unwrap_or (get_elem? closes (length closes - 2)) (lit 0) -f lit 1;
    vol_ratio = recent /f f.f64_max baseline (f.decimal 1 6);
    recent_vol = recent;
    baseline_vol = baseline;
    downtrend =
        (last.close <f fast.0) && (fast.0 <f slow.0) && (fast.0 <f fast.1) && (slow.0 <f slow.1);
    no_new_low = lowest f.infinity (low_window c rows) ≤f last.low;
    ema_fast = fast.0;
    last_close = last.close;
    last_close_ms = last.close_ms;
  }
    where
      closes : List W
      closes = map (λ x. x.close) rows

      returns : List W
      returns = map_pairs (λ a b. f.ln (b /f a)) closes

      baseline : W
      baseline = stddev (baseline_window c returns)

      recent : W
      recent = stddev (recent_window c returns)

      fast : W × W
      fast = ema closes c.ema_fast_hours

      slow : W × W
      slow = ema closes c.ema_slow_hours

  -- The rows that `calculate` reads: the last `needed` completed candles.
  abbrev pub recent_rows : List (Candle W) → StrategyConfig W → ℕ → List (Candle W)
  recent_rows candles c now =
      let rows = select (λ x. ltb x.close_ms now) candles in drop (length rows - needed c) rows

  unfoldable pub calculate : List (Candle W) → StrategyConfig W → ℕ → Result (Metrics W)
  calculate candles c now = do
    ensure (leb (needed c) (length (select (λ x. ltb x.close_ms now) candles)))
        "not enough completed hourly candles"
    let rows = recent_rows candles c now
    check_rows rows
    check_order rows
    last ← context (get_elem? rows (length rows - 1)) "no last row"
    ensure (leb (now - last.close_ms) 3660000) "stale candle history"
    ok (measure rows c last)
