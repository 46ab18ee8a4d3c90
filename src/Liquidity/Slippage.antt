-- ===== src/Liquidity/Slippage.antt =====
-- src/liquidity/uniswap_v3/slippage.rs: the price bounds and the least amounts of a position. U256 and U512
-- are natural numbers: a product of two U256 fits a U512, and `narrow` checks the way back. `root` is the
-- integer square root of the library for wide integers, a parameter.
pub mod Bounds
mod Examples
use lp_maker.Base.{
  ℕ, ◌+◌, ◌-◌, ◌*◌, ◌/◌, ◌%◌, ◌^◌, min, max, ℤ, pos, negsuc, Bool, true, false, ◌&&◌, ◌||◌, not,
  List, [], ◌∷◌, Result, ok, err, ◌>>=◌, ◌>>◌, ensure, ltb, leb, ◌==◌, if◌then◌else◌, u128_max,
}

abbrev pub u256_max : ℕ
u256_max = 2 ^ 256 - 1

-- `unsigned_abs`, and whether an integer is positive.
abbrev pub magnitude : ℤ → ℕ
magnitude (pos n) = n
magnitude (negsuc n) = n + 1

abbrev pub is_positive : ℤ → Bool
is_positive (pos n) = ltb 0 n
is_positive (negsuc n) = false

abbrev pub max_tick : ℤ
max_tick = pos 887272

abbrev pub min_tick : ℤ
min_tick = negsuc 887271

abbrev factors : List ℕ
factors =
    340265354078544963557816517032075149313 ∷ 340248342086729790484326174814286782778
    ∷ 340214320654664324051920982716015181260 ∷ 340146287995602323631171512101879684304
    ∷ 340010263488231146823593991679159461444 ∷ 339738377640345403697157401104375502016
    ∷ 339195258003219555707034227454543997025 ∷ 338111622100601834656805679988414885971
    ∷ 335954724994790223023589805789778977700 ∷ 331682121138379247127172139078559817300
    ∷ 323299236684853023288211250268160618739 ∷ 307163716377032989948697243942600083929
    ∷ 277268403626896220162999269216087595045 ∷ 225923453940442621947126027127485391333
    ∷ 149997214084966997727330242082538205943 ∷ 66119101136024775622716233608466517926
    ∷ 12847376061809297530290974190478138313 ∷ 485053260817066172746253684029974020
    ∷ 691415978906521570653435304214168 ∷ 1404880482679654955896180642 ∷ []

-- The loop over the bits of the tick, from the lowest.
unfoldable pub scale : ℕ → List ℕ → ℕ → ℕ
scale tick [] ratio = ratio
scale tick (factor ∷ rest) ratio =
    scale (tick / 2) rest (if tick % 2 == 1 then ratio * factor / 2 ^ 128 else ratio)

unfoldable pub sqrt_at_tick : ℤ → Result ℕ
unfolding scale
sqrt_at_tick tick =
    let below = scale (magnitude tick) factors (2 ^ 128) in
    let ratio = if is_positive tick then u256_max / below else below in
    ensure (leb (magnitude tick) 887272) "invalid V3 tick"
    >> ok (ratio / 2 ^ 32 + (if ratio % 2 ^ 32 == 0 then 0 else 1))

unfoldable pub narrow : ℕ → Result ℕ
narrow n = ensure (leb n u256_max) "V3 amount overflow" >> ok n

unfoldable pub divide : ℕ → ℕ → Bool → Result ℕ
divide n d round_up =
    ensure (ltb 0 d) "invalid V3 denominator"
    >> narrow (n / d + (if round_up && not (n % d == 0) then 1 else 0))

module _ (root : ℕ → ℕ) where
  -- The square root of the price, moved by a factor over 10,000.
  unfoldable pub bound_at : ℕ → ℕ → Result ℕ
  bound_at sqrt factor = narrow (root (sqrt * sqrt * factor / 10000))

  unfoldable pub price_bounds : ℕ → ℕ → Result (ℕ × ℕ)
  price_bounds sqrt bps = do
    least ← sqrt_at_tick min_tick
    most ← sqrt_at_tick max_tick
    ensure (leb least sqrt && ltb sqrt most && ltb bps 10000) "invalid V3 price/slippage"
    low ← bound_at sqrt (10000 - bps)
    high ← bound_at sqrt (10000 + bps)
    ok (max low (least + 1), min high (most - 1))

  unfoldable pub check_price_move : ℕ → ℕ → ℕ → Result (Unit {0})
  check_price_move before after bps = do
    bounds ← price_bounds before bps
    ensure (leb bounds.0 after && leb after bounds.1)
        "LP price moved beyond configured slippage during approvals; no LP transaction sent"

pub record Range : Type 0 where
  pub lower : ℕ
  pub upper : ℕ

abbrev pub tick_lt : ℤ → ℤ → Bool
tick_lt (pos a) (pos b) = ltb a b
tick_lt (pos a) (negsuc b) = false
tick_lt (negsuc a) (pos b) = true
tick_lt (negsuc a) (negsuc b) = ltb b a

-- `Range::new`.
unfoldable pub new_range : ℤ → ℤ → Result Range
new_range lower_tick upper_tick = do
  ensure (tick_lt lower_tick upper_tick) "invalid V3 range"
  lower ← sqrt_at_tick lower_tick
  upper ← sqrt_at_tick upper_tick
  ok (record { lower = lower; upper = upper })

module _ (r : Range) where
  unfoldable pub contains : ℕ → Bool
  contains sqrt = ltb r.lower sqrt && ltb sqrt r.upper

  abbrev liquidity0 : ℕ → ℕ → ℕ → Result ℕ
  liquidity0 amount0 a b = divide (amount0 * (a * b / 2 ^ 96)) (b - a) false

  abbrev liquidity1 : ℕ → ℕ → ℕ → Result ℕ
  liquidity1 amount1 a b = divide (amount1 * 2 ^ 96) (b - a) false

  unfoldable pub liquidity_of : ℕ → ℕ → ℕ → Result ℕ
  liquidity_of sqrt amount0 amount1 =
      if leb sqrt r.lower
      then liquidity0 amount0 r.lower r.upper
      else if leb r.upper sqrt
      then liquidity1 amount1 r.lower r.upper
      else liquidity0 amount0 sqrt r.upper >>= λ l0.
          liquidity1 amount1 r.lower sqrt >>= λ l1. ok (min l0 l1)

  unfoldable pub liquidity : ℕ → ℕ → ℕ → Result ℕ
  liquidity sqrt amount0 amount1 = do
    l ← liquidity_of sqrt amount0 amount1
    ensure (leb l u128_max) "V3 liquidity exceeds uint128"
    ok l

  -- `clamp`, which the code calls on a range that is in order.
  abbrev pub clamp : ℕ → ℕ
  clamp sqrt = min (max sqrt r.lower) r.upper

  unfoldable pub amounts : ℕ → ℕ → Bool → Result (ℕ × ℕ)
  amounts sqrt l round_up = do
    ensure (leb l u128_max) "V3 liquidity exceeds uint128"
    let p = clamp sqrt
    a0 ← divide (l * 2 ^ 96 * (r.upper - p)) (r.upper * p) round_up
    a1 ← divide (l * (p - r.lower)) (2 ^ 96) round_up
    ok (a0, a1)

  module _ (root : ℕ → ℕ) where
    unfoldable pub minimums : ℕ → ℕ → ℕ → Bool → Result (ℕ × ℕ)
    minimums sqrt l bps round_up = do
      bounds ← price_bounds root sqrt bps
      at_high ← amounts bounds.1 l round_up
      at_low ← amounts bounds.0 l round_up
      ok (at_high.0, at_low.1)

    unfoldable pub mint_minimums : ℕ → ℕ → ℕ → ℕ → Result (ℕ × ℕ)
    mint_minimums sqrt amount0 amount1 bps = do
      ensure (contains sqrt) "LP entry price is outside planned ticks"
      l ← liquidity sqrt amount0 amount1
      ensure (ltb 0 l) "zero V3 entry liquidity"
      mins ← minimums sqrt l bps true
      ensure (ltb 0 mins.0 || ltb 0 mins.1) "LP range too narrow for configured slippage"
      ensure (leb mins.0 amount0 && leb mins.1 amount1) "invalid LP minimum amounts"
      ok mins

    unfoldable pub burn_minimums : ℕ → ℕ → ℕ → Result (ℕ × ℕ)
    burn_minimums sqrt l bps = minimums sqrt l bps false
