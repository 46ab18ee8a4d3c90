-- ===== src/Strategy/Eth/Feature.antt =====
-- The hourly features of src/strategy/eth/mod.rs and the guard over them.
use lp_maker.Base.{
  ℕ, zero, suc, ◌+◌, ◌-◌, Bool, ◌&&◌, ◌||◌, Option, none, some, is_none, List, [], ◌∷◌, map, Result,
  ◌>>◌, ensure, context, ltb, leb, if◌then◌else◌, length, drop, get_elem?, select, all,
}
use lp_maker.Float.{F64, ◌-f◌, ◌*f◌, ◌/f◌, ◌<f◌, ◌≤f◌, lit, sum}
use lp_maker.Domain.{Candle}
use lp_maker.Strategy.State.{StrategyConfig, Cause, fast_drop, downtrend, volatility}
use lp_maker.Strategy.Indicators.{is_hour, check_order}
use lp_maker.Strategy.Eth.State.{PersistentConfig}

abbrev pub hour_ms : ℕ
hour_ms = 3600000

pub record Feature {ℓ} (W : Type ℓ) : Type ℓ where
  pub time : ℕ
  pub close : W
  pub r1 : W
  pub r6 : W
  pub r24 : W
  pub r72 : W
  pub vol6 : W

pub record Guard {ℓ} (W : Type ℓ) : Type ℓ where
  pub drop1 : W
  pub drop24 : W
  pub drop72 : W
  pub vol : W

-- `first..=first + count - 1`.
abbrev pub range_from : ℕ → ℕ → List ℕ
range_from first zero = []
range_from first (suc count) = first ∷ range_from (first + 1) count

module _ {ℓ} {W : Type ℓ} where
  unfoldable pub guard_of : PersistentConfig W → StrategyConfig W → Guard W
  guard_of cfg c = record {
    drop1 = c.fast_drop_1h;
    drop24 = cfg.drop_24h;
    drop72 = cfg.drop_72h;
    vol = cfg.max_hourly_vol;
  }

  -- `a[i].close_ms`; every index is in range.
  abbrev pub time_at : List (Candle W) → ℕ → ℕ
  time_at a i = elim (get_elem? a i) [ none ↦ 0 | some r ↦ r.close_ms ]

module _ {ℓ} {W : Type ℓ} ⦃f : F64 W⦄ where
  -- `a[i].close`.
  abbrev pub close_at : List (Candle W) → ℕ → W
  close_at a i = elim (get_elem? a i) [ none ↦ lit 0 | some r ↦ r.close ]

  -- `ret(n)` at the index `i`.
  abbrev pub return_over : List (Candle W) → ℕ → ℕ → W
  return_over a i n = close_at a i /f close_at a (i - n) -f lit 1

  unfoldable pub feature_at : List (Candle W) → ℕ → Feature W
  feature_at a i = record {
    time = time_at a i;
    close = close_at a i;
    r1 = return_over a i 1;
    r6 = return_over a i 6;
    r24 = return_over a i 24;
    r72 = return_over a i 72;
    vol6 = f.sqrt (sum (map (λ x. f.powi (x -f mean) 2) r) /f lit 6);
  }
    where
      r : List W
      r = map (λ j. f.ln (close_at a j /f close_at a (j - 1))) (range_from (i - 5) 6)

      mean : W
      mean = sum r /f lit 6

  unfoldable pub features : List (Candle W) → List (Feature W)
  unfolding feature_at
  features a = map (feature_at a) (range_from 72 (length a - 72))

  abbrev pub is_hourly : Candle W → Bool
  is_hourly x =
      all (λ v. f.is_finite v && (lit 0 <f v)) (x.opening ∷ x.close ∷ x.low ∷ x.high ∷ [])
      && (f.f64_max x.opening x.close ≤f x.high)
      && (x.low ≤f f.f64_min x.opening x.close)
      && is_hour x

  -- The last 73 of the candles that are completed now.
  abbrev pub last_73 : List (Candle W) → ℕ → List (Candle W)
  last_73 candles now = let a = select (λ x. ltb x.close_ms now) candles in drop (length a - 73) a

  unfoldable pub latest_feature : List (Candle W) → ℕ → Result (Feature W)
  latest_feature candles now = do
    ensure (leb 73 (length (select (λ x. ltb x.close_ms now) candles)))
        "need 73 completed hourly candles"
    let a = last_73 candles now
    ensure (all is_hourly a) "invalid hourly candle"
    check_order a
    ensure (leb (now - time_at a 72) (hour_ms + 60000)) "stale candle history"
    context (get_elem? (features a) 0) "no feature"

  module _ (g : Guard W) (x : Feature W) (p : W) where
    unfoldable pub danger : Option Cause
    danger =
        if (x.r1 <f f.neg g.drop1) || (p /f x.close -f lit 1 <f f.neg g.drop1)
        then some fast_drop
        else if (x.r24 <f f.neg g.drop24) || (x.r72 <f f.neg g.drop72)
        then some downtrend
        else if g.vol <f x.vol6
        then some volatility
        else none

    unfoldable pub recovered : Bool
    recovered =
        is_none danger
        && (f.neg (f.decimal 1 2) ≤f x.r6)
        && (f.neg (f.decimal 5 3) ≤f x.r1)
        && (x.vol6 <f g.vol *f f.decimal 8 1)
