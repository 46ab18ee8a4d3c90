-- ===== src/Liquidity/Slippage/Examples.antt =====
-- The price bounds at concrete inputs.
use lp_maker.Base.{
  ℕ, zero, suc, ◌+◌, ◌*◌, ◌/◌, leb, leb→le, inl, inr, if◌then◌else◌, Bool-cases, ◌≡◌, ◌≤◌, ◌<◌, ◌^◌,
  refl, ok, arith,
}
use lp_maker.Liquidity.Slippage.Bounds.{IsRoot, price_bounds_lem}
use lp_maker.Liquidity.Slippage.{sqrt_at_tick, min_tick, max_tick, narrow, bound_at, price_bounds}

least_is : sqrt_at_tick min_tick ≡ ok 4295128739
unfolding sqrt_at_tick
least_is = refl

most_is : sqrt_at_tick max_tick ≡ ok 1461446703485210103287273052203988822378723970342
unfolding sqrt_at_tick
most_is = refl

-- A square root by its binary digits, with enough fuel.
grow : ℕ → ℕ → ℕ
grow n r = if leb ((2 * r + 1) * (2 * r + 1)) n then 2 * r + 1 else 2 * r

root_from : ℕ → ℕ → ℕ
unfolding grow
root_from zero n = 0
root_from (suc k) n = elim n [ zero ↦ 0 | suc m ↦ grow (suc m) (root_from k (suc m / 4)) ]

IsRootAt : ℕ → ℕ → Type 0
IsRootAt n r = (r * r ≤ n) × (n < suc r * suc r)

grow-IsRootAt : (n r : ℕ) → IsRootAt (n / 4) r → IsRootAt n (grow n r)
unfolding grow IsRootAt
grow-IsRootAt n r h = elim (Bool-cases (leb ((2 * r + 1) * (2 * r + 1)) n)) [
  | inl e ↦ rw e (leb→le _ n e, omega (arith, h.1))
  | inr e ↦ rw e (omega (arith, h.0), ground (arith, h.1))
]

root_from-IsRootAt : (k n : ℕ) → n ≤ k → IsRootAt n (root_from k n)
unfolding root_from IsRootAt
root_from-IsRootAt zero n h = omega arith
root_from-IsRootAt (suc k) zero h = omega arith
root_from-IsRootAt (suc k) (suc m) h =
    grow-IsRootAt (suc m) (root_from k (suc m / 4)) (root_from-IsRootAt k (suc m / 4) (omega arith))

abbrev digits_root : ℕ → ℕ
digits_root n = root_from n n

digits_root-IsRoot : IsRoot digits_root
unfolding IsRootAt
digits_root-IsRoot = record {
  low = λ n. (root_from-IsRootAt n n (omega arith)).0;
  high = λ n. (root_from-IsRootAt n n (omega arith)).1;
}

price_bounds_lem_example :
    (4295128739 < 78831026366734652303669917531)
    × (78831026366734652303669917531 ≤ 2 ^ 96)
    × (2 ^ 96 ≤ 79623317895830914510639640423)
    × (79623317895830914510639640423 < 1461446703485210103287273052203988822378723970342)
price_bounds_lem_example =
    price_bounds_lem digits_root digits_root-IsRoot (2 ^ 96) 100 4295128739
      1461446703485210103287273052203988822378723970342 78831026366734652303669917531
      79623317895830914510639640423 least_is most_is (omega arith)
      (unfold price_bounds bound_at narrow sqrt_at_tick root_from in refl)
