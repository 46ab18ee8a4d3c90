-- ===== src/Engine/Paper/Funding.antt =====
-- Which payments of funding the book of src/engine/paper.rs takes when a list is given again.
use lp_maker.Base.{
  ℕ, ◌≤◌, ◌≡◌, refl, some, List, [], ◌∷◌, ok, All, if_cases, ltb, arith, >>=-eq-ok, context-eq-ok,
  ok-injective, ap,
}
use lp_maker.Float.{F64}
use lp_maker.Hyperliquid.Json.{Json}
use lp_maker.Engine.Paper.{Paper}
use lp_maker.Engine.Paper.Payments.{Numbers, num, funding_row, funding_rows, apply_funding}

module _ {V W : Type 0} ⦃f : F64 W⦄ ⦃j : Json V⦄ (n : Numbers V W) where
  -- The time of a payment, not later than some time.
  abbrev Past : ℕ → V → Type 0
  Past last row = (time : ℕ) × (j.as_u64 (j.at row "time") ≡ some time) × (time ≤ last)

  funding_row-Past :
      (row : V) (b b' : Paper W)
      → funding_row n row b ≡ ok b'
      → Past b'.last_funding_ms row × (b.last_funding_ms ≤ b'.last_funding_ms)
  unfolding funding_row
  funding_row-Past row b b' e =
      let (time, known, e₁) = context-eq-ok (j.as_u64 (j.at row "time")) _ _ e in
      if_cases
        (λ r. r ≡ ok b' → Past b'.last_funding_ms row × (b.last_funding_ms ≤ b'.last_funding_ms))
        (ltb b.last_funding_ms time)
        (λ newer e₂.
          let (rate, _, e₃) = >>=-eq-ok (num n (j.at row "fundingRate")) _ e₂ in
          let now : time ≡ b'.last_funding_ms = ap (λ x. x.last_funding_ms) (ok-injective e₃) in
          ((time, known, ground (arith, now)), ground (arith, now, newer)))
        (λ older e₂.
          let same : b.last_funding_ms ≡ b'.last_funding_ms =
            ap (λ x. x.last_funding_ms) (ok-injective e₂) in
          ((time, known, ground (arith, same, older)), ground (arith, same)))
        e₁

  Past-later : (last later : ℕ) (row : V) → last ≤ later → Past last row → Past later row
  Past-later last later row h (time, known, p) = (time, known, omega (arith, h, p))

  funding_rows-Past :
      (rows : List V) (b b' : Paper W)
      → funding_rows n rows b ≡ ok b'
      → All (Past b'.last_funding_ms) rows × (b.last_funding_ms ≤ b'.last_funding_ms)
  unfolding funding_rows
  funding_rows-Past [] b b' e =
      let same : b.last_funding_ms ≡ b'.last_funding_ms =
        ap (λ x. x.last_funding_ms) (ok-injective e) in
      (tt, omega (arith, same))
  funding_rows-Past (row ∷ rest) b b' e =
      let (b₁, e₁, e₂) = >>=-eq-ok (funding_row n row b) (funding_rows n rest) e in
      let (past, up) = funding_row-Past row b b₁ e₁ in
      let (others, further) = funding_rows-Past rest b₁ b' e₂ in
      ((Past-later _ _ row further past, others), omega (arith, up, further))

  Past-funding_row :
      (row : V) (b : Paper W) → Past b.last_funding_ms row → funding_row n row b ≡ ok b
  unfolding funding_row
  Past-funding_row row b (time, known, past) = rw known (
      if_cases (λ r. r ≡ ok b) (ltb b.last_funding_ms time) (λ newer. ground (arith, newer, past))
        (λ _. refl))

  Past-funding_rows :
      (rows : List V) (b : Paper W)
      → All (Past b.last_funding_ms) rows
      → funding_rows n rows b ≡ ok b
  unfolding funding_rows
  Past-funding_rows [] b h = refl
  Past-funding_rows (row ∷ rest) b h =
      rw (Past-funding_row row b h.0) (Past-funding_rows rest b h.1)

  -- Once a history of funding was booked, in whatever order its payments stand, booking it again changes
  -- nothing.
  pub apply_funding_twice :
      (rows : V) (b b' : Paper W) → apply_funding n rows b ≡ ok b' → apply_funding n rows b' ≡ ok b'
  unfolding apply_funding
  apply_funding_twice rows b b' e =
      let (list, known, e₁) = context-eq-ok (j.as_array rows) _ (λ l. funding_rows n l b) e in
      rw known (Past-funding_rows list b' (funding_rows-Past list b b' e₁).0)
