-- ===== src/Liquidity/Dust/Examples.antt =====
-- Dust at concrete inputs. A text for the root of the price 1, and strokes for the other numbers.
use Prim.Native.Char.{Char, code}
use Prim.Native.String.{[], ◌∷◌}
use lp_maker.Base.{
  ℕ, zero, suc, ◌≡◌, refl, ap, sym, ◌<◌, ◌≤◌, ◌*◌, ◌/◌, ==_iff, true, none, some, String, ok, ◌==◌,
  if◌then◌else◌, ◌^◌, pos, Bool-cases, inl, inr,
}
use lp_maker.Domain.{PoolSnapshot}
use lp_maker.Liquidity.Slippage.{sqrt_at_tick}
use lp_maker.Liquidity.Dust.{Decimals, BaseDust, assess, validate, within_limit, quote_ceiling}
use lp_maker.Liquidity.Dust.Proof.{validate-assess, within_limit-covers}

abbrev price_one : ℕ
price_one = 2 ^ 96

abbrev one : Char
one = "i"

strokes : ℕ → String
strokes zero = []
strokes (suc n) = one ∷ strokes n

count : String → ℕ
count [] = zero
count (c ∷ rest) = suc (count rest)

abbrev texts : Decimals
texts = record {
  show = λ n. if n == price_one then "p" else one ∷ strokes n;
  read =
      λ s. elim s [ [] ↦ none | c ∷ rest ↦ some (if code c == 112 then price_one else count rest) ];
}

count-strokes : (n : ℕ) → count (strokes n) ≡ n
unfolding count strokes
count-strokes zero = refl
count-strokes (suc n) = ap suc (count-strokes n)

read-show : (n : ℕ) → texts.read (texts.show n) ≡ some n
unfolding count strokes
read-show n = elim (Bool-cases (n == price_one)) [
  | inl e ↦ rw e (ap some (sym ((==_iff n price_one).0 e)))
  | inr e ↦ rw e (ap some (count-strokes n))
]

abbrev snapshot : PoolSnapshot ℕ
snapshot = record {
  block = 1;
  block_hash = "0x1";
  time_ms = 1;
  price = 1;
  tick = pos 0;
  tick_spacing = pos 1;
  liquidity = "1";
  sqrt_price_x96 = "p";
  base_is_token0 = true;
}

abbrev proof : BaseDust
proof = record {
  raw_base = texts.show 2;
  raw_quote_ceiling = texts.show 2;
  base_decimals = 18;
  quote_decimals = 6;
  sqrt_price_x96 = "p";
  base_is_token0 = true;
  block = 1;
  block_hash = "0x1";
  time_ms = 1;
}

two_left : within_limit 2 18 price_one true ≡ ok (some 2)
unfolding within_limit quote_ceiling sqrt_at_tick
two_left = refl

assessed : assess texts 18 6 snapshot 2 ≡ ok (some proof)
unfolding assess
assessed = rw two_left refl

validate-assess_example : validate texts proof 2 ≡ ok tt
validate-assess_example =
    validate-assess texts 18 6 snapshot 2 proof (record { read-show = read-show }) assessed

within_limit-covers_example :
    (0 < 2) × (2 ≤ 10 ^ 18 / 100000000) × (2 ≤ 2) × (2 * (price_one * price_one) ≤ 2 * 2 ^ 192)
within_limit-covers_example = within_limit-covers 2 18 price_one true 2 two_left
