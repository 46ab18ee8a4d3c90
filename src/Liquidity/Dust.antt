-- ===== src/Liquidity/Dust.antt =====
-- src/liquidity/uniswap_v3/dust.rs: how little of the base asset may stay behind after an exit. U256 and
-- U512 are natural numbers with the checks of the code; their decimal texts are a parameter.
pub mod Proof
mod Examples
use lp_maker.Base.{
  ℕ, ◌+◌, ◌*◌, ◌/◌, ◌%◌, ◌^◌, Bool, true, false, ◌&&◌, ◌||◌, not, Option, none, some, String,
  Result, ok, err, ◌>>=◌, ◌>>◌, ensure, context, ltb, leb, ◌==◌, if◌then◌else◌,
}
use text.Mathlib.Text.{◌==◌ as str_eq}
use lp_maker.Domain.{PoolSnapshot}
use lp_maker.Liquidity.Slippage.{sqrt_at_tick, min_tick, max_tick}

-- `to_string` and `from_str_radix(_, 10)` of U256.
pub record Decimals : Type 0 where
  pub show : ℕ → String
  pub read : String → Option ℕ

pub record BaseDust : Type 0 where
  pub raw_base : String
  pub raw_quote_ceiling : String
  pub base_decimals : ℕ  -- u8
  pub quote_decimals : ℕ  -- u8
  pub sqrt_price_x96 : String
  pub base_is_token0 : Bool
  pub block : ℕ
  pub block_hash : String
  pub time_ms : ℕ

abbrev pub quote_atoms : ℕ
quote_atoms = 2

-- `checked_mul` of two U512.
abbrev pub multiply : ℕ → ℕ → String → Result ℕ
multiply a b message = ensure (ltb (a * b) (2 ^ 512)) message >> ok (a * b)

abbrev pub base_limit : ℕ → ℕ
base_limit decimals = 10 ^ decimals / 100000000

-- The numerator and the denominator of the value in the quote asset.
abbrev pub value_of : ℕ → ℕ → Bool → Result (ℕ × ℕ)
value_of raw squared true = multiply raw squared "dust amount overflow" >>= λ n. ok (n, 2 ^ 192)
value_of raw squared false = multiply raw (2 ^ 192) "dust amount overflow" >>= λ n. ok (n, squared)

abbrev pub round_up : ℕ → ℕ → ℕ
round_up n d = n / d + (if n % d == 0 then 0 else 1)

unfoldable pub quote_ceiling : ℕ → ℕ → Bool → Result (Option ℕ)
quote_ceiling raw sqrt base0 = do
  least ← sqrt_at_tick min_tick
  most ← sqrt_at_tick max_tick
  ensure (leb least sqrt && ltb sqrt most) "invalid dust pool price"
  squared ← multiply sqrt sqrt "dust price overflow"
  value ← value_of raw squared base0
  ensure (not (value.1 == 0)) "invalid dust price"
  let ceiling = round_up value.0 value.1
  ok (if leb ceiling quote_atoms then some ceiling else none)

unfoldable pub within_limit : ℕ → ℕ → ℕ → Bool → Result (Option ℕ)
unfolding quote_ceiling
within_limit raw decimals sqrt base0 =
    ensure (leb decimals 36) "unsupported dust token decimals"
    >> (if (raw == 0) || ltb (base_limit decimals) raw
        then ok none
        else quote_ceiling raw sqrt base0)

module _ (t : Decimals) where
  -- `parse_sqrt` of slippage.rs.
  abbrev pub parse_sqrt : String → Result ℕ
  parse_sqrt raw = context (t.read raw) "invalid pool sqrtPriceX96"

  module _ {ℓ} {W : Type ℓ} where
    abbrev pub dust_of : ℕ → ℕ → PoolSnapshot W → ℕ → ℕ → BaseDust
    dust_of base_decimals quote_decimals snapshot balance ceiling = record {
      raw_base = t.show balance;
      raw_quote_ceiling = t.show ceiling;
      base_decimals = base_decimals;
      quote_decimals = quote_decimals;
      sqrt_price_x96 = snapshot.sqrt_price_x96;
      base_is_token0 = snapshot.base_is_token0;
      block = snapshot.block;
      block_hash = snapshot.block_hash;
      time_ms = snapshot.time_ms;
    }

    abbrev pub dust_if : ℕ → ℕ → PoolSnapshot W → ℕ → Option ℕ → Option BaseDust
    dust_if base_decimals quote_decimals snapshot balance none = none
    dust_if base_decimals quote_decimals snapshot balance (some ceiling) =
        some (dust_of base_decimals quote_decimals snapshot balance ceiling)

    -- `BaseDust::assess`, with the decimals of the pool's configuration.
    unfoldable pub assess : ℕ → ℕ → PoolSnapshot W → ℕ → Result (Option BaseDust)
    assess base_decimals quote_decimals snapshot balance = do
      sqrt ← parse_sqrt snapshot.sqrt_price_x96
      ceiling ← within_limit balance base_decimals sqrt snapshot.base_is_token0
      ok (dust_if base_decimals quote_decimals snapshot balance ceiling)

  -- `BaseDust::validate`: the proof is computed again.
  unfoldable pub validate : BaseDust → ℕ → Result (Unit {0})
  validate d balance = do
    raw ← context (t.read d.raw_base) "invalid digits"
    ensure (raw == balance) "dust proof balance changed"
    sqrt ← parse_sqrt d.sqrt_price_x96
    within ← within_limit balance d.base_decimals sqrt d.base_is_token0
    ceiling ← context within "base remainder exceeds exit dust limit"
    ensure (str_eq (t.show ceiling) d.raw_quote_ceiling) "dust valuation proof mismatch"
