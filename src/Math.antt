-- ===== src/Math.antt =====
-- src/math.rs: the amounts of a range of concentrated liquidity. The ticks of that file are not modelled.
use lp_maker.Base.{◌&&◌, [], ◌∷◌, Result, ok, ◌>>◌, ensure, all, if◌then◌else◌}
use lp_maker.Float.{F64, ◌+f◌, ◌-f◌, ◌*f◌, ◌/f◌, ◌<f◌, lit}

module _ {ℓ} {W : Type ℓ} ⦃f : F64 W⦄ where
  -- `clamp`.
  abbrev clamp : W → W → W → W
  clamp x lower upper = if x <f lower then lower else if upper <f x then upper else x

  unfoldable pub amounts : W → W → W → W → W × W
  amounts liquidity lower upper price =
      let p = f.sqrt (clamp price lower upper) in
      (liquidity *f (lit 1 /f p -f lit 1 /f f.sqrt upper), liquidity *f (p -f f.sqrt lower))

  unfoldable pub liquidity_for_value : W → W → W → W → Result W
  unfolding amounts
  liquidity_for_value value lower upper price = do
    ensure
        (all (λ x. f.is_finite x && (lit 0 <f x)) (value ∷ lower ∷ upper ∷ price ∷ [])
          && (lower <f upper))
        "invalid liquidity inputs"
    let (b, q) = amounts (lit 1) lower upper price
    ok (value /f (b *f price +f q))

  unfoldable pub range : W → W → W × W
  range price width = (price /f (lit 1 +f width), price *f (lit 1 +f width))
