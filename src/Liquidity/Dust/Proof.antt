-- ===== src/Liquidity/Dust/Proof.antt =====
-- What an assessment of dust proves.
use lp_maker.Base.{
  ℕ, ◌+◌, ◌*◌, ◌/◌, ◌%◌, ◌^◌, ◌≡◌, sym, ◌≤◌, ◌<◌, refl, Bool, true, false, ◌&&◌, ◌||◌, not, Option,
  none, some, ok, ltb, leb, ◌==◌, ==_iff, leb→le, if◌then◌else◌, arith, ensure-eq-ok, >>=-eq-ok,
  if_cases, ok-injective,
}
use mathlib.Core.Path.{subst}
use text.Mathlib.TextEquality.{eq_iff}
use native.Mathlib.Nat.{div-add-mod', mod-lt}
use lp_maker.Domain.{PoolSnapshot}
use lp_maker.Liquidity.Dust.{
  Decimals, BaseDust, within_limit, assess, validate, dust_if, dust_of, parse_sqrt, base_limit,
  quote_atoms, quote_ceiling, round_up, multiply, value_of,
}
use lp_maker.Liquidity.Slippage.{sqrt_at_tick, min_tick, max_tick}

-- What `to_string` writes, `from_str_radix` reads.
pub record RoundTrips (t : Decimals) : Type 0 where
  pub read-show : (n : ℕ) → t.read (t.show n) ≡ some n

same_number : (n : ℕ) → (n == n) ≡ true
same_number n = ground arith

dust_of-validates :
    {W : Type 0} (t : Decimals) (base_decimals quote_decimals : ℕ) (snapshot : PoolSnapshot W)
    (balance ceiling sqrt : ℕ)
    → RoundTrips t
    → parse_sqrt t snapshot.sqrt_price_x96 ≡ ok sqrt
    → within_limit balance base_decimals sqrt snapshot.base_is_token0 ≡ ok (some ceiling)
    → validate t (dust_of t base_decimals quote_decimals snapshot balance ceiling) balance ≡ ok tt
unfolding validate
dust_of-validates t base_decimals quote_decimals snapshot balance ceiling sqrt trips parsed
      limited =
    rw
      (
        trips.read-show balance,
        same_number balance,
        parsed,
        limited,
        (eq_iff (t.show ceiling) (t.show ceiling)).1 refl,
      )
      refl

-- A remainder that is assessed as dust passes the final check of the same balance.
pub validate-assess :
    {W : Type 0} (t : Decimals) (base_decimals quote_decimals : ℕ) (snapshot : PoolSnapshot W)
    (balance : ℕ) (d : BaseDust)
    → RoundTrips t
    → assess t base_decimals quote_decimals snapshot balance ≡ ok (some d)
    → validate t d balance ≡ ok tt
unfolding assess
validate-assess t base_decimals quote_decimals snapshot balance d trips e =
    let (sqrt, parsed, e₁) = >>=-eq-ok (parse_sqrt t snapshot.sqrt_price_x96) _ e in
    let (within, limited, e₂) =
      >>=-eq-ok (within_limit balance base_decimals sqrt snapshot.base_is_token0) _ e₁ in
    dusty within sqrt parsed limited e₂
  where
    dusty :
        (within : Option ℕ) (sqrt : ℕ)
        → parse_sqrt t snapshot.sqrt_price_x96 ≡ ok sqrt
        → within_limit balance base_decimals sqrt snapshot.base_is_token0 ≡ ok within
        → ok (dust_if t base_decimals quote_decimals snapshot balance within) ≡ ok (some d)
        → validate t d balance ≡ ok tt
    dusty none sqrt parsed limited q = cc
    dusty (some ceiling) sqrt parsed limited q =
        let same : dust_of t base_decimals quote_decimals snapshot balance ceiling ≡ d = cc in
        subst (λ x. validate t x balance ≡ ok tt) same
          (dust_of-validates t base_decimals quote_decimals snapshot balance ceiling sqrt trips
            parsed limited)

zero-is : (d : ℕ) → not (d == 0) ≡ true → 0 < d
zero-is d h = ground arith

covers : (n d : ℕ) → 0 < d → n ≤ round_up n d * d
covers n d h =
    if_cases (λ x. n ≤ (n / d + x) * d) (n % d == 0)
      (λ e. omega (arith, div-add-mod' n d, (==_iff (n % d) 0).0 e))
      (λ e. omega (arith, div-add-mod' n d, mod-lt n h))

-- A rounded value that is small enough, of a fraction.
few_atoms :
    (n d c : ℕ)
    → not (d == 0) ≡ true
    → (if leb (round_up n d) quote_atoms then some (round_up n d) else none) ≡ some c
    → (c ≤ 2) × (n ≤ c * d)
few_atoms n d c positive e =
    if_cases (λ o. o ≡ some c → (c ≤ 2) × (n ≤ c * d)) (leb (round_up n d) quote_atoms)
      (λ small q.
        let same : round_up n d ≡ c = cc in
        (rw (← same) (leb→le _ _ small), rw (← same) (covers n d (zero-is d positive))))
      (λ _ q. cc) e

quote_ceiling-covers :
    (raw sqrt : ℕ) (base0 : Bool) (c : ℕ)
    → quote_ceiling raw sqrt base0 ≡ ok (some c)
    → (c ≤ 2)
      × (if base0 then raw * (sqrt * sqrt) ≤ c * 2 ^ 192 else raw * 2 ^ 192 ≤ c * (sqrt * sqrt))
unfolding quote_ceiling
quote_ceiling-covers raw sqrt base0 c e =
    let (least, _, e₁) = >>=-eq-ok (sqrt_at_tick min_tick) _ e in
    let (most, _, e₂) = >>=-eq-ok (sqrt_at_tick max_tick) _ e₁ in
    let (_, e₃) = ensure-eq-ok (leb least sqrt && ltb sqrt most) _ _ e₂ in
    let (squared, m, e₄) = >>=-eq-ok (multiply sqrt sqrt "dust price overflow") _ e₃ in
    let (_, m₁) = ensure-eq-ok (ltb (sqrt * sqrt) (2 ^ 512)) _ _ m in
    let square : sqrt * sqrt ≡ squared = ok-injective m₁ in
    let (value, v, e₅) = >>=-eq-ok (value_of raw squared base0) _ e₄ in
    let (positive, e₆) = ensure-eq-ok (not (value.1 == 0)) _ _ e₅ in
    let (few, covered) = few_atoms value.0 value.1 c positive (ok-injective e₆) in
    (few, valued base0 squared value square v covered)
  where
    valued :
        (b : Bool) (squared : ℕ) (value : ℕ × ℕ)
        → sqrt * sqrt ≡ squared
        → value_of raw squared b ≡ ok value
        → value.0 ≤ c * value.1
        → if b then raw * (sqrt * sqrt) ≤ c * 2 ^ 192 else raw * 2 ^ 192 ≤ c * (sqrt * sqrt)
    valued true squared value square v h =
        let (n, m, v₁) = >>=-eq-ok (multiply raw squared "dust amount overflow") _ v in
        let (_, m₁) = ensure-eq-ok (ltb (raw * squared) (2 ^ 512)) _ _ m in
        let first : raw * squared ≡ n = ok-injective m₁ in
        let second : (n, 2 ^ 192) ≡ value = ok-injective v₁ in
        rw (square) (rw first (subst (λ p. p.0 ≤ c * p.1) (sym second) h))
    valued false squared value square v h =
        let (n, m, v₁) = >>=-eq-ok (multiply raw (2 ^ 192) "dust amount overflow") _ v in
        let (_, m₁) = ensure-eq-ok (ltb (raw * 2 ^ 192) (2 ^ 512)) _ _ m in
        let first : raw * 2 ^ 192 ≡ n = ok-injective m₁ in
        let second : (n, squared) ≡ value = ok-injective v₁ in
        rw (square) (rw first (subst (λ p. p.0 ≤ c * p.1) (sym second) h))

-- What counts as dust is not nothing, is at most a hundred millionth of the base asset, and is worth at
-- most two units of the quote asset, rounded up, at this price.
pub within_limit-covers :
    (raw decimals sqrt : ℕ) (base0 : Bool) (c : ℕ)
    → within_limit raw decimals sqrt base0 ≡ ok (some c)
    → (0 < raw)
      × (raw ≤ 10 ^ decimals / 100000000)
      × (c ≤ 2)
      × (if base0 then raw * (sqrt * sqrt) ≤ c * 2 ^ 192 else raw * 2 ^ 192 ≤ c * (sqrt * sqrt))
unfolding within_limit
within_limit-covers raw decimals sqrt base0 c e =
    let (_, e₁) = ensure-eq-ok (leb decimals 36) _ _ e in
    if_cases
      (λ r.
        r ≡ ok (some c)
        → (0 < raw)
          × (raw ≤ 10 ^ decimals / 100000000)
          × (c ≤ 2)
          × (if base0
              then raw * (sqrt * sqrt) ≤ c * 2 ^ 192
              else raw * 2 ^ 192 ≤ c * (sqrt * sqrt)))
      ((raw == 0) || ltb (base_limit decimals) raw) (λ _ q. cc)
      (λ t q.
        let (few, covered) = quote_ceiling-covers raw sqrt base0 c q in
        (some_left t, small t, few, covered))
      e₁
  where
    some_left : ((raw == 0) || ltb (base_limit decimals) raw) ≡ false → 0 < raw
    some_left t = ground arith

    small : ((raw == 0) || ltb (base_limit decimals) raw) ≡ false → raw ≤ base_limit decimals
    small t = ground arith
