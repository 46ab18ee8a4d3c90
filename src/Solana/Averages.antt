-- ===== src/Solana/Averages.antt =====
-- The averages of src/solana/regime.rs beside those of src/strategy/indicators.rs, which also return the
-- average of the hour before.
use lp_maker.Base.{ℕ, suc, ◌-◌, ◌≡◌, refl, List, [], ◌∷◌, map, length, take, arith, ap, ◌∙◌}
use lp_maker.Float.{F64, ◌+f◌, ◌/f◌, lit}
use lp_maker.Domain.{Candle}
use lp_maker.Strategy.Indicators.{ema, ema_from}
use lp_maker.Solana.Signals.{average, average_from}

module _ {W : Type 0} ⦃f : F64 W⦄ where
  abbrev pub closes : List (Candle W) → List W
  closes rows = map (λ x. x.close) rows

  average_from-ema :
      (a : W) (rows : List (Candle W)) (v p : W)
      → average_from a v rows ≡ (ema_from a v p (closes rows)).0
  unfolding average_from ema_from
  average_from-ema a [] v p = refl
  average_from-ema a (r ∷ rest) v p = average_from-ema a rest _ v

  average_from-ema_before :
      (a : W) (rest : List (Candle W)) (r : Candle W) (v p : W)
      → average_from a v (take (length rest) (r ∷ rest)) ≡ (ema_from a v p (closes (r ∷ rest))).1
  unfolding average_from ema_from
  average_from-ema_before a [] r v p = refl
  average_from-ema_before a (q ∷ rest) r v p = average_from-ema_before a rest q _ v

  -- The average of the Solana signals is, over two or more candles, that of the indicators; and over all of
  -- them but the last one, the average that the indicators give for the hour before.
  pub average-ema :
      (a b : Candle W) (rest : List (Candle W)) (n : ℕ)
      → let rows = a ∷ b ∷ rest in
        (average rows n ≡ (ema (closes rows) n).0)
        × (average (take (length rows - 1) rows) n ≡ (ema (closes rows) n).1)
  unfolding average ema
  average-ema a b rest n =
      let w = lit 2 /f (f.from_int n +f lit 1) in
      (
        average_from-ema w (b ∷ rest) a.close a.close,
        ap (λ (k : ℕ). average (take k (a ∷ b ∷ rest)) n) (less_one (length rest))
            ∙ average_from-ema_before w rest b a.close a.close,
      )
    where
      less_one : (k : ℕ) → suc (suc k) - 1 ≡ suc k
      less_one k = omega arith
