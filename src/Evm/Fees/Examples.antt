-- ===== src/Evm/Fees/Examples.antt =====
-- Tests of the fees and the theorems at concrete inputs.
use lp_maker.Base.{ℕ, ◌<◌, ◌≡◌, refl, some, ok, err, arith, u128_max, List}
use Prim.Native.Char.{code}
use Prim.Native.String.{String}
use lp_maker.Evm.Fees.{
  Fees, RpcReplies, answer, failure, rpc_error, base_fee, buffered, bump, quantity, estimate,
  replacement, tip_of, estimate_eip1559,
}
use lp_maker.Evm.Fees.Bounds.{buffered_total}

abbrev codes : String → List ℕ
codes String.[] = List.[]
codes (String.◌∷◌ c s) = List.◌∷◌ (code c) (codes s)

-- A node without the priority fee method: the tip is the gas price above the base fee.
abbrev node : RpcReplies
node = record {
  gas_price = answer (some (codes "0x64"));
  latest_block = answer (base_fee (some (codes "0x50")));
  priority_fee = failure (rpc_error 32601);
}

abbrev estimated : Fees
estimated = record {
  fee_buffer_bps = 2500;
  base_fee_per_gas = some 80;
  max_fee_per_gas = 125;
  max_priority_fee_per_gas = some 20;
}

estimate_test : estimate node 2500 ≡ ok estimated
unfolding estimate quantity tip_of estimate_eip1559 buffered
estimate_test = refl

overflow_test : buffered u128_max 1 ≡ err "gas buffer overflow"
unfolding buffered
overflow_test = refl

buffered_total_example : (q : ℕ) × (buffered 7 1 ≡ ok q) × (0 < 7 → 7 < q)
buffered_total_example = buffered_total 7 1 (omega arith) (omega arith) (omega arith)

abbrev replaced : Fees
replaced = record {
  fee_buffer_bps = 2500;
  base_fee_per_gas = some 80;
  max_fee_per_gas = 151;
  max_priority_fee_per_gas = some 51;
}

replacement_test : replacement estimated 120 40 ≡ ok replaced
unfolding replacement bump buffered
replacement_test = refl
