-- ===== src/Evm/Fees.antt =====
-- src/evm/fees.rs. A `u128` is a number up to `u128_max`; every overflow is the error of the source.
-- What the node answers (`RpcReplies`) is an argument of `estimate`.
pub mod Bounds
mod Examples
use lp_maker.Base.{
  ℕ, ◌+◌, ◌-◌, ◌*◌, ◌/◌, max, Bool, true, false, ◌&&◌, not, Option, none, some, List, [], ◌∷◌,
  String, Result, ok, err, ◌>>=◌, ◌>>◌, ensure, context, leb, ltb, ◌==◌, if◌then◌else◌, checked,
  checked_add, checked_mul, u128_max, is_empty,
}

pub record Fees : Type 0 where
  pub fee_buffer_bps : ℕ  -- u32
  pub base_fee_per_gas : Option ℕ
  pub max_fee_per_gas : ℕ
  pub max_priority_fee_per_gas : Option ℕ

-- `(1..=40_000).contains(&bps)`.
abbrev pub buffer_in_range : ℕ → Bool
buffer_in_range bps = leb 1 bps && leb bps 40000

-- Rounds up.
unfoldable pub buffered : ℕ → ℕ → Result ℕ
buffered value extra_bps = do
  ensure (buffer_in_range extra_bps) "invalid gas buffer"
  scaled ← context (checked_mul u128_max value (10000 + extra_bps)) "gas buffer overflow"
  padded ← context (checked_add u128_max scaled 9999) "gas buffer overflow"
  ok (padded / 10000)

unfoldable pub bump : ℕ → Result ℕ
bump value = do
  raised ← context (checked_add u128_max value (value / 4)) "replacement fee overflow"
  context (checked_add u128_max raised 1) "replacement fee overflow"

-- The characters of a `quantity`, by their codes: one hexadecimal digit.
abbrev pub hex_digit : ℕ → Option ℕ
hex_digit c =
    if leb b'0' c && leb c b'9'
    then some (c - b'0')
    else if leb b'a' c && leb c b'f'
    then some (c - b'a' + 10)
    else if leb b'A' c && leb c b'F'
    then some (c - b'A' + 10)
    else none

-- `trim_start_matches("0x")` takes the prefix off as often as it stands there.
unfoldable pub trim_0x : List ℕ → List ℕ
trim_0x [] = []
trim_0x (a ∷ []) = a ∷ []
trim_0x (a ∷ b ∷ rest) =
    let trimmed = trim_0x rest in if a == b'0' && b == b'x' then trimmed else a ∷ b ∷ rest

unfoldable pub digits_from : ℕ → List ℕ → Result ℕ
digits_from acc [] = ok acc
digits_from acc (c ∷ rest) = do
  d ← context (hex_digit c) "invalid digit found in string"
  shifted ← context (checked_mul u128_max acc 16) "number too large to fit in target type"
  next ← context (checked_add u128_max shifted d) "number too large to fit in target type"
  digits_from next rest

-- `u128::from_str_radix(_, 16)`: a leading plus is allowed, an empty text or a lone sign is not.
unfoldable pub from_hex : List ℕ → Result ℕ
unfolding digits_from
from_hex [] = err "cannot parse integer from empty string"
from_hex (c ∷ rest) =
    if c == b'+'
    then ensure (not (is_empty rest)) "invalid digit found in string" >> digits_from 0 rest
    else digits_from 0 (c ∷ rest)

-- A reply that is a text, by its codes; `none` is any other JSON value.
unfoldable pub quantity : Option (List ℕ) → Result ℕ
unfolding trim_0x from_hex
quantity value = do text ← context value "fee must be hex"; from_hex (trim_0x text)

-- A failed call: the node's own error with its code (given by the size of the negative number), or
-- any other failure.
pub data RpcFailure : Type 0 where
  rpc_error : ℕ → RpcFailure
  transport : String → RpcFailure

pub data Reply {ℓ} (A : Type ℓ) : Type ℓ where
  answer : A → Reply A
  failure : RpcFailure → Reply A

-- The latest block: no object, an object with no base fee (or null), or one with a base fee.
pub data Block : Type 0 where
  not_object : Block
  no_base_fee : Block
  base_fee : Option (List ℕ) → Block

pub record RpcReplies : Type 0 where
  pub gas_price : Reply (Option (List ℕ))
  pub latest_block : Reply Block
  pub priority_fee : Reply (Option (List ℕ))

abbrev pub describe : RpcFailure → String
describe (rpc_error code) = "RPC error"
describe (transport e) = e

abbrev pub need {ℓ} : {A : Type ℓ} → Reply A → Result A
need (answer a) = ok a
need (failure e) = err (describe e)

-- `matches!(r.code, -32601 | -32004)`, where the node has no such method.
abbrev pub is_unsupported : RpcFailure → Bool
is_unsupported (rpc_error code) = if code == 32601 then true else code == 32004
is_unsupported (transport e) = false

unfoldable pub tip_of : Reply (Option (List ℕ)) → ℕ → ℕ → Result ℕ
tip_of (answer value) gas_price base = quantity value
tip_of (failure e) gas_price base =
    if is_unsupported e then ok (gas_price - base) else err (describe e)

-- The two cases of the `match` on the block's base fee.
unfoldable pub estimate_eip1559 : Reply (Option (List ℕ)) → ℕ → ℕ → ℕ → Result Fees
estimate_eip1559 priority_fee bps gas_price base = do
  tip ← tip_of priority_fee gas_price base
  padded ← buffered base bps
  capped ← context (checked_add u128_max padded tip) "fee overflow"
  legacy ← buffered gas_price bps
  ok (record {
    fee_buffer_bps = bps;
    base_fee_per_gas = some base;
    max_fee_per_gas = max capped legacy;
    max_priority_fee_per_gas = some tip;
  })

unfoldable pub estimate_legacy : ℕ → ℕ → Result Fees
estimate_legacy bps gas_price = do
  padded ← buffered gas_price bps
  ok (record {
    fee_buffer_bps = bps;
    base_fee_per_gas = none;
    max_fee_per_gas = padded;
    max_priority_fee_per_gas = none;
  })

estimate_block : Block → RpcReplies → ℕ → ℕ → Result Fees
estimate_block not_object replies bps gas_price = err "latest block unavailable for fee estimation"
estimate_block no_base_fee replies bps gas_price = estimate_legacy bps gas_price
estimate_block (base_fee value) replies bps gas_price = do
  base ← quantity value
  estimate_eip1559 replies.priority_fee bps gas_price base

unfoldable pub estimate : RpcReplies → ℕ → Result Fees
unfolding estimate_block
estimate replies bps = do
  ensure (buffer_in_range bps) "invalid gas fee buffer"
  price ← need replies.gas_price
  gas_price ← quantity price
  block ← need replies.latest_block
  estimate_block block replies bps gas_price

-- The part of `replacement` under `if let Some(tip)`.
raise_tip : Fees → ℕ → Option ℕ → Result Fees
raise_tip fees old_tip none = ok fees
raise_tip fees old_tip (some tip) = do
  bumped ← bump old_tip
  base ← context fees.base_fee_per_gas "missing base fee"
  padded ← buffered base fees.fee_buffer_bps
  capped ← context (checked_add u128_max padded (max tip bumped)) "fee overflow"
  ok (record fees {
    max_fee_per_gas = max fees.max_fee_per_gas capped;
    max_priority_fee_per_gas = some (max tip bumped);
  })

unfoldable pub replacement : Fees → ℕ → ℕ → Result Fees
unfolding raise_tip
replacement fees old_cap old_tip = do
  bumped ← bump old_cap
  raise_tip (record fees { max_fee_per_gas = max fees.max_fee_per_gas bumped }) old_tip
      fees.max_priority_fee_per_gas
