-- ===== src/Solana/Signals.antt =====
-- The settings of src/solana/regime.rs and the signals of the completed hours.
pub mod Latest
use lp_maker.Base.{
  ℕ, ◌+◌, ◌-◌, ◌*◌, max, Bool, ◌&&◌, ◌||◌, not, List, [], ◌∷◌, map, Result, ok, ◌>>=◌, ◌>>◌, ensure,
  context, ltb, leb, length, drop, take, get_elem?, select, map_pairs, all, if◌then◌else◌,
}
use lp_maker.Float.{F64, ◌+f◌, ◌-f◌, ◌*f◌, ◌/f◌, ◌<f◌, ◌≤f◌, lit, sum}
use lp_maker.Domain.{Candle}
use lp_maker.Strategy.State.{
  StrategyConfig, SolReason, sol_high_volatility, sol_downtrend, sol_fast_drop,
  sol_trend_not_confirmed, wrap64,
}
use lp_maker.Strategy.Indicators.{Metrics, calculate, follows}

-- `Config`.
pub record RegimeConfig {ℓ} (W : Type ℓ) : Type ℓ where
  pub ema_entry_hours : ℕ  -- usize
  pub ema_exit_hours : ℕ  -- usize
  pub momentum_hours : ℕ  -- usize
  pub min_momentum : W
  pub max_hourly_vol : W
  pub entry_vol_fraction : W
  pub max_momentum : W
  pub max_bar_range : W
  pub exit_buffer : W
  pub entry_confirm_hours : ℕ  -- u32

pub record Signals {ℓ} (W : Type ℓ) : Type ℓ where
  pub entry : Bool
  pub exit : Bool
  pub last_close : W
  pub last_hour : ℕ
  pub reason : SolReason

-- `(a..=b).contains(x)`.
abbrev between : ℕ → ℕ → ℕ → Bool
between a b x = leb a x && leb x b

module _ {ℓ} {W : Type ℓ} where
  unfoldable pub history_hours : RegimeConfig W → ℕ
  history_hours c =
      max
        (max (wrap64 (max c.ema_entry_hours c.ema_exit_hours * 3)) (wrap64 (c.momentum_hours + 1)))
        25

  unfoldable pub check_gaps : List (Candle W) → Result (Unit {0})
  check_gaps [] = ok tt
  check_gaps (a ∷ []) = ok tt
  check_gaps (a ∷ b ∷ rest) = do ensure (follows a b) "SOL regime hourly gap"; check_gaps (b ∷ rest)

module _ {ℓ} {W : Type ℓ} ⦃f : F64 W⦄ where
  abbrev within : W → W → W → Bool
  within a b x = (a ≤f x) && (x ≤f b)

  unfoldable pub validate_regime : RegimeConfig W → Result (Unit {0})
  validate_regime c = do
    ensure
        (between 2 144 c.ema_entry_hours
          && between 2 144 c.ema_exit_hours
          && between 2 168 c.momentum_hours
          && between 1 72 c.entry_confirm_hours)
        "invalid SOL regime windows"
    ensure
        (within (lit 0) (f.decimal 1 1) c.min_momentum
          && within c.min_momentum (lit 1) c.max_momentum
          && within (f.decimal 1 1) (lit 1) c.entry_vol_fraction
          && within (f.decimal 1 3) (f.decimal 3 2) c.max_hourly_vol
          && within (f.decimal 5 3) (f.decimal 1 1) c.max_bar_range
          && within (lit 0) (f.decimal 2 2) c.exit_buffer)
        "invalid SOL regime risk limits"

  unfoldable pub average_from : W → W → List (Candle W) → W
  average_from a v [] = v
  average_from a v (r ∷ rest) = average_from a (a *f r.close +f (lit 1 -f a) *f v) rest

  -- `ema`; the code indexes the first row, and each caller passes 24 rows at least.
  unfoldable pub average : List (Candle W) → ℕ → W
  unfolding average_from
  average [] n = lit 0
  average (r ∷ rest) n = average_from (lit 2 /f (f.from_int n +f lit 1)) r.close rest

  abbrev pub is_valid_row : Candle W → Bool
  is_valid_row r =
      all (λ v. f.is_finite v && (lit 0 <f v)) (r.opening ∷ r.high ∷ r.low ∷ r.close ∷ [])
      && (f.f64_max r.opening r.close ≤f r.high)
      && (r.low ≤f f.f64_min r.opening r.close)

  -- The logarithms of the last 24 returns, and their deviation.
  abbrev returns_of : List (Candle W) → List W
  returns_of rows = map_pairs (λ a b. f.ln (b.close /f a.close)) (drop (length rows - 25) rows)

  unfoldable pub deviation : List W → W
  deviation returns =
      let mean = sum returns /f f.from_int (length returns) in
      f.sqrt (sum (map (λ r. f.powi (r -f mean) 2) returns) /f f.from_int (length returns))

  -- What the rows show, from the last of them and the one that the momentum starts at.
  unfoldable pub read_signals :
      RegimeConfig W
      → StrategyConfig W
      → Metrics W
      → List (Candle W)
      → Candle W
      → Candle W
      → Signals W
  read_signals c s m rows last first = record {
    entry =
        not high_vol
        && not down
        && not fast
        && (entry_ema <f last.close)
        && (c.min_momentum ≤f momentum)
        && (momentum ≤f c.max_momentum)
        && (vol ≤f c.max_hourly_vol *f c.entry_vol_fraction)
        && (prev_exit_ema ≤f exit_ema);
    exit = high_vol || down || fast;
    last_close = last.close;
    last_hour = last.close_ms;
    reason =
        if high_vol
        then sol_high_volatility
        else if down
        then sol_downtrend
        else if fast
        then sol_fast_drop
        else sol_trend_not_confirmed;
  }
    where
      entry_ema : W
      entry_ema = average rows c.ema_entry_hours

      exit_ema : W
      exit_ema = average rows c.ema_exit_hours

      prev_exit_ema : W
      prev_exit_ema = average (take (length rows - 1) rows) c.ema_exit_hours

      vol : W
      vol = deviation (returns_of rows)

      momentum : W
      momentum = last.close /f first.close -f lit 1

      high_vol : Bool
      high_vol =
          (c.max_hourly_vol <f vol)
          || (c.max_bar_range <f last.high /f last.low -f lit 1)
          || (s.vol_pause_ratio <f m.vol_ratio)

      down : Bool
      down =
          m.downtrend
          || ((last.close <f exit_ema *f (lit 1 -f c.exit_buffer)) && (exit_ema <f prev_exit_ema))

      fast : Bool
      fast = m.return_1h <f f.neg s.fast_drop_1h

  -- The checks of the rows, and what they show.
  unfoldable pub signals_of :
      RegimeConfig W → StrategyConfig W → Metrics W → List (Candle W) → Result (Signals W)
  unfolding check_gaps
  signals_of c s m rows = do
    ensure (all is_valid_row rows) "invalid SOL regime OHLC"
    check_gaps rows
    last ← context (get_elem? rows (length rows - 1)) "index out of bounds"
    first ← context (get_elem? rows (length rows - 1 - c.momentum_hours)) "index out of bounds"
    ok (read_signals c s m rows last first)

  unfoldable pub signals :
      RegimeConfig W → StrategyConfig W → List (Candle W) → ℕ → Result (Signals W)
  unfolding history_hours signals_of
  signals c s bars now = do
    m ← calculate bars s now
    let completed = select (λ b. ltb b.close_ms now) bars
    ensure (leb (history_hours c) (length completed)) "SOL regime history insufficient"
    signals_of c s m (drop (length completed - history_hours c) completed)
