-- ===== src/Evm/Fees/Bounds.antt =====
-- What src/evm/fees.rs promises of the fees that it computes.
use lp_maker.Base.{
  ℕ, ◌+◌, ◌*◌, ◌/◌, ◌≤◌, ◌<◌, ◌≡◌, Option, none, some, List, Result, ok, err, arith, u128_max,
  >>=-eq-ok, ensure, unwrap_or,
}
use lp_maker.Evm.Fees.{
  Fees, RpcReplies, Reply, Block, buffer_in_range, not_object, no_base_fee, base_fee, buffered,
  bump, replacement, estimate, estimate_block, estimate_eip1559, estimate_legacy, quantity, need,
}

-- A buffered value is the value raised by the basis points, rounded up to a whole unit, and fits.
buffered_ceil :
    (value bps q : ℕ)
    → buffered value bps ≡ ok q
    → (value * (10000 + bps) ≤ q * 10000)
      × (q * 10000 < value * (10000 + bps) + 10000)
      × (q ≤ u128_max)
unfolding buffered
buffered_ceil value bps q h = ground arith

-- A buffered value is computed whenever the buffer is from 1 to 40,000 basis points and the product leaves room for
-- the rounding; it exceeds the value unless that is 0.
pub buffered_total :
    (value bps : ℕ)
    → 1 ≤ bps
    → bps ≤ 40000
    → value * (10000 + bps) + 9999 ≤ u128_max
    → (q : ℕ) × (buffered value bps ≡ ok q) × (0 < value → value < q)
unfolding buffered
buffered_total value bps lo hi room =
    ((value * (10000 + bps) + 9999) / 10000, ground arith, grind arith)

-- What `buffered` and `bump` give where they succeed, in the form that their callers use.
abbrev Above : ℕ → Result ℕ → Type 0
Above low (ok q) = low ≤ q * 10000
Above low (err e) = Unit

buffered-Above : (value bps : ℕ) → Above (value * (10000 + bps)) (buffered value bps)
unfolding buffered
buffered-Above value bps = ground arith

abbrev Raises : ℕ → Result ℕ → Type 0
Raises value (ok q) = q ≡ value + value / 4 + 1
Raises value (err e) = Unit

bump-Raises : (value : ℕ) → Raises value (bump value)
unfolding bump
bump-Raises value = ground arith

-- Base fee and tip are known together or not at all, and the cap covers the buffered base fee and the
-- tip.
abbrev pub Covers : Option ℕ → Option ℕ → ℕ → ℕ → Type 0
Covers none none bps cap = Unit
Covers none (some tip) bps cap = ⊥
Covers (some base) none bps cap = ⊥
Covers (some base) (some tip) bps cap = base * (10000 + bps) + tip * 10000 ≤ cap * 10000

abbrev pub IsFunded : Fees → Type 0
IsFunded f = Covers f.base_fee_per_gas f.max_priority_fee_per_gas f.fee_buffer_bps f.max_fee_per_gas

estimate_legacy-IsFunded :
    (bps gas_price : ℕ) (f : Fees) → estimate_legacy bps gas_price ≡ ok f → IsFunded f
unfolding estimate_legacy
estimate_legacy-IsFunded bps gas_price f h = ground arith

estimate_eip1559-IsFunded :
    (reply : Reply (Option (List ℕ))) (bps gas_price base : ℕ) (f : Fees)
    → estimate_eip1559 reply bps gas_price base ≡ ok f
    → IsFunded f
unfolding estimate_eip1559
estimate_eip1559-IsFunded reply bps gas_price base f h = ground (arith, buffered-Above base bps)

estimate_block-IsFunded :
    (block : Block) (replies : RpcReplies) (bps gas_price : ℕ) (f : Fees)
    → estimate_block block replies bps gas_price ≡ ok f
    → IsFunded f
unfolding estimate_block
estimate_block-IsFunded not_object replies bps gas_price f h = cc
estimate_block-IsFunded no_base_fee replies bps gas_price f h =
    estimate_legacy-IsFunded bps gas_price f h
estimate_block-IsFunded (base_fee value) replies bps gas_price f h =
    let (base, _, h') = >>=-eq-ok (quantity value) _ h in
    estimate_eip1559-IsFunded replies.priority_fee bps gas_price base f h'

-- Whatever the node answers, an estimate that succeeds knows both the base fee and the tip or neither,
-- and its cap then covers the buffered base fee and the tip.
estimate-IsFunded :
    (replies : RpcReplies) (bps : ℕ) (f : Fees) → estimate replies bps ≡ ok f → IsFunded f
unfolding estimate
estimate-IsFunded replies bps f h =
    let (_, _, h₁) = >>=-eq-ok (ensure (buffer_in_range bps) _) _ h in
    let (price, _, h₂) = >>=-eq-ok (need replies.gas_price) _ h₁ in
    let (gas_price, _, h₃) = >>=-eq-ok (quantity price) _ h₂ in
    let (block, _, h₄) = >>=-eq-ok (need replies.latest_block) _ h₃ in
    estimate_block-IsFunded block replies bps gas_price f h₄

abbrev pub Outbids : ℕ → Option ℕ → Option ℕ → Type 0
Outbids old_tip none none = Unit
Outbids old_tip none (some t) = ⊥
Outbids old_tip (some s) none = ⊥
Outbids old_tip (some s) (some t) = (s ≤ t) × (old_tip + old_tip / 4 < t)

-- The fees of a replacement leave the base fee and the buffer as they were, never lower the cap, and
-- outbid the transaction that is replaced: the cap is above the old one raised by a quarter, and so is
-- the tip, where there is one.
replacement-Outbids :
    (f : Fees) (old_cap old_tip : ℕ) (g : Fees)
    → replacement f old_cap old_tip ≡ ok g
    → (g.base_fee_per_gas ≡ f.base_fee_per_gas)
      × (g.fee_buffer_bps ≡ f.fee_buffer_bps)
      × (f.max_fee_per_gas ≤ g.max_fee_per_gas)
      × (old_cap + old_cap / 4 < g.max_fee_per_gas)
      × Outbids old_tip f.max_priority_fee_per_gas g.max_priority_fee_per_gas
unfolding replacement
replacement-Outbids f old_cap old_tip g h = ground (arith, bump-Raises old_cap, bump-Raises old_tip)

-- A replacement of funded fees is funded.
replacement-IsFunded :
    (f : Fees) (old_cap old_tip : ℕ) (g : Fees)
    → IsFunded f
    → replacement f old_cap old_tip ≡ ok g
    → IsFunded g
unfolding replacement
replacement-IsFunded f old_cap old_tip g v h = ground (
  arith,
  bump-Raises old_cap,
  bump-Raises old_tip,
  buffered-Above (unwrap_or f.base_fee_per_gas 0) f.fee_buffer_bps,
)
