-- ===== src/Engine/Paper/Payments.antt =====
-- `apply_funding` of src/engine/paper.rs, and `num` of src/hyperliquid/mod.rs.
use lp_maker.Base.{
  ℕ, Option, none, some, List, [], ◌∷◌, String, Result, ok, ◌>>=◌, ◌>>◌, ensure, context, ltb,
  if◌then◌else◌,
}
use lp_maker.Float.{F64, ◌+f◌, ◌*f◌}
use lp_maker.Hyperliquid.Json.{Json}
use lp_maker.Engine.Paper.{Paper}

-- `num`: a text that is parsed, or a number; it must be finite.
pub record Numbers {ℓ κ} (V : Type ℓ) (W : Type κ) : Type (ℓ ⊔ κ) where
  pub parse : String → Option W
  pub as_f64 : V → Option W

module _ {V W : Type 0} ⦃f : F64 W⦄ ⦃j : Json V⦄ (n : Numbers V W) where
  abbrev read_number : V → Option String → Option W
  read_number v (some s) = n.parse s
  read_number v none = n.as_f64 v

  unfoldable pub num : V → Result W
  num v = do
    x ← context (read_number v (j.as_str v)) "expected number"
    ensure (f.is_finite x) "non-finite exchange number"
    ok x

  abbrev pub book_row : ℕ → V → Paper W → Result (Paper W)
  book_row time row b = num (j.at row "fundingRate") >>= λ rate.
      let p = b.portfolio in
      let pnl = p.short_base *f b.last_hedge_price *f rate in
      ok (record b {
        portfolio = record p { hedge_equity = p.hedge_equity +f pnl };
        funding_pnl = b.funding_pnl +f pnl;
        last_funding_ms = time;
      })

  unfoldable pub funding_row : V → Paper W → Result (Paper W)
  unfolding num
  funding_row row b = context (j.as_u64 (j.at row "time")) "funding timestamp" >>= λ time.
      if ltb b.last_funding_ms time then book_row time row b else ok b

  unfoldable pub funding_rows : List V → Paper W → Result (Paper W)
  unfolding funding_row
  funding_rows [] b = ok b
  funding_rows (row ∷ rest) b = funding_row row b >>= funding_rows rest

  unfoldable pub apply_funding : V → Paper W → Result (Paper W)
  unfolding funding_rows
  apply_funding rows b = context (j.as_array rows) "funding history" >>= λ list. funding_rows list b
