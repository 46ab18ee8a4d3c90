-- ===== src/Float.antt =====
-- `f64`: all that the code does with a floating point number. There are no floating point numbers
-- here, so the type and its operations are an argument. Each theorem that needs a law names it.
use lp_maker.Base.{ℕ, Bool, List, [], ◌∷◌}

pub record F64 {ℓ} (W : Type ℓ) : Type ℓ where
  -- The literal n · 10^-k, rounded as the compiler does; `from_int` is `as f64`.
  pub decimal : ℕ → ℕ → W
  pub from_int : ℕ → W
  pub infinity : W
  pub add : W → W → W
  pub sub : W → W → W
  pub mul : W → W → W
  pub div : W → W → W
  pub neg : W → W
  pub abs : W → W
  pub ln : W → W
  pub sqrt : W → W
  pub powi : W → ℕ → W
  pub f64_max : W → W → W
  pub f64_min : W → W → W
  -- The operators `<`, `<=` and `==`, which are false at NaN.
  pub lt : W → W → Bool
  pub le : W → W → Bool
  pub eq : W → W → Bool
  pub is_finite : W → Bool

module _ {ℓ} {W : Type ℓ} ⦃f : F64 W⦄ where
  infixl 65 ◌+f◌ ◌-f◌
  infixl 70 ◌*f◌ ◌/f◌
  infix 50 ◌<f◌ ◌≤f◌
  abbrev pub ◌+f◌ : W → W → W
  a +f b = f.add a b

  abbrev pub ◌-f◌ : W → W → W
  a -f b = f.sub a b

  abbrev pub ◌*f◌ : W → W → W
  a *f b = f.mul a b

  abbrev pub ◌/f◌ : W → W → W
  a /f b = f.div a b

  abbrev pub ◌<f◌ : W → W → Bool
  a <f b = f.lt a b

  abbrev pub ◌≤f◌ : W → W → Bool
  a ≤f b = f.le a b

  -- The literal n.0.
  abbrev pub lit : ℕ → W
  lit n = f.decimal n 0

  unfoldable pub sum_from : W → List W → W
  sum_from acc [] = acc
  sum_from acc (x ∷ xs) = sum_from (acc +f x) xs

  -- `iter().sum()`.
  unfoldable pub sum : List W → W
  unfolding sum_from
  sum xs = sum_from (lit 0) xs
