-- ===== src/Liquidity/Slippage/Bounds.antt =====
-- About the price bounds of src/liquidity/uniswap_v3/slippage.rs.
use lp_maker.Base.{
  ℕ, suc, ◌+◌, ◌-◌, ◌*◌, ◌/◌, ◌≤◌, ◌<◌, ◌≡◌, inl, inr, min, max, ◌&&◌, ok, ltb, leb, ltb→lt, arith,
  Bool-cases, >>=-eq-ok, ensure-eq-ok,
}
use native.Mathlib.Nat.{mul-le-mul}
use lp_maker.Liquidity.Slippage.{
  min_tick, max_tick, sqrt_at_tick, narrow, bound_at, price_bounds, u256_max,
}

-- What the library for wide integers says of its integer square root.
pub record IsRoot (root : ℕ → ℕ) : Type 0 where
  pub low : (n : ℕ) → root n * root n ≤ n
  pub high : (n : ℕ) → n < suc (root n) * suc (root n)

square_lt : (a b : ℕ) → a * a < b * b → a < b
square_lt a b h = elim (Bool-cases (ltb a b)) [
  | inl e ↦ ltb→lt a b e
  | inr e ↦ let back : b ≤ a = ground arith in absurd (omega (arith, mul-le-mul back back))
]

-- A factor of at most 10,000 does not raise a number, and one of at least 10,000 does not lower it.
scaled_down : (n factor : ℕ) → factor ≤ 10000 → n * factor / 10000 ≤ n
scaled_down n factor h = let same : n ≤ n = omega arith in omega (arith, mul-le-mul same h)

scaled_up : (n factor : ℕ) → 10000 ≤ factor → n ≤ n * factor / 10000
scaled_up n factor h = let same : n ≤ n = omega arith in omega (arith, mul-le-mul same h)

module _ (root : ℕ → ℕ) (is_root : IsRoot root) where
  bound_low : (sqrt bps low : ℕ) → bound_at root sqrt (10000 - bps) ≡ ok low → low ≤ sqrt
  unfolding bound_at narrow
  bound_low sqrt bps low h =
      let n = sqrt * sqrt * (10000 - bps) / 10000 in
      let (_, h₁) = ensure-eq-ok (leb (root n) u256_max) _ _ h in
      let same : root n ≡ low = cc in
      omega (
        arith,
        same,
        square_lt (root n) (suc sqrt)
            (omega (arith, is_root.low n, scaled_down (sqrt * sqrt) (10000 - bps) (omega arith))),
      )

  bound_high : (sqrt bps high : ℕ) → bound_at root sqrt (10000 + bps) ≡ ok high → sqrt ≤ high
  unfolding bound_at narrow
  bound_high sqrt bps high h =
      let n = sqrt * sqrt * (10000 + bps) / 10000 in
      let (_, h₁) = ensure-eq-ok (leb (root n) u256_max) _ _ h in
      let same : root n ≡ high = cc in
      omega (
        arith,
        same,
        square_lt sqrt (suc (root n))
            (omega (arith, is_root.high n, scaled_up (sqrt * sqrt) (10000 + bps) (omega arith))),
      )

  -- The bounds around a price between the least and the greatest that a pool can have, the ends left out,
  -- hold that price and stay between those two.
  pub price_bounds_lem :
      (sqrt bps least most low high : ℕ)
      → sqrt_at_tick min_tick ≡ ok least
      → sqrt_at_tick max_tick ≡ ok most
      → least < sqrt
      → price_bounds root sqrt bps ≡ ok (low, high)
      → (least < low) × (low ≤ sqrt) × (sqrt ≤ high) × (high < most)
  unfolding price_bounds
  price_bounds_lem sqrt bps least most low high at_min at_max inner h =
      let (least', e₀, h₁) = >>=-eq-ok (sqrt_at_tick min_tick) _ h in
      let (most', e₁, h₂) = >>=-eq-ok (sqrt_at_tick max_tick) _ h₁ in
      let (inside, h₃) = ensure-eq-ok (leb least' sqrt && ltb sqrt most' && ltb bps 10000) _ _ h₂ in
      let (l, e₂, h₄) = >>=-eq-ok (bound_at root sqrt (10000 - bps)) _ h₃ in
      let (u, e₃, h₅) = >>=-eq-ok (bound_at root sqrt (10000 + bps)) _ h₄ in
      let same₀ : least' ≡ least = cc in
      let same₁ : most' ≡ most = cc in
      let low_is : max l (least' + 1) ≡ low = cc in
      let high_is : min u (most' - 1) ≡ high = cc in
      ground (arith, bound_low sqrt bps l e₂, bound_high sqrt bps u e₃)
