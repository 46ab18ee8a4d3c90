-- ===== src/Liquidity/Chains.antt =====
-- src/liquidity/chains: the chains and pools that the program knows, and the check of a configuration
-- that names one of them.
use lp_maker.Base.{
  ℕ, Bool, ◌&&◌, Option, none, some, List, [], ◌∷◌, String, Result, ok, ◌>>◌, ensure, ◌==◌,
  if◌then◌else◌,
}
use lp_maker.Config.State.{LiquidityConfig}
use lp_maker.Hyperliquid.Json.{eq_ignore_ascii_case}

pub record Chain : Type 0 where
  pub id : ℕ  -- u64
  pub name : String
  pub factory : String
  pub position_manager : String
  pub swap_router : String
  pub quoter_v2 : Option String

pub record Pool : Type 0 where
  pub chain : Chain
  pub id : String
  pub address : String
  pub base_token : String
  pub quote_token : String
  pub base_symbol : String
  pub quote_symbol : String
  pub hedge_coin : String
  pub base_decimals : ℕ  -- u8
  pub quote_decimals : ℕ  -- u8
  pub fee : ℕ  -- u32
  pub tick_spacing : ℕ  -- i32, positive here

abbrev pub robinhood_chain : Chain
robinhood_chain = record {
  id = 4663;
  name = "Robinhood";
  factory = "0x1f7d7550b1b028f7571e69a784071f0205fd2efa";
  position_manager = "0x73991a25c818bf1f1128deaab1492d45638de0d3";
  swap_router = "0xcaf681a66d020601342297493863e78c959e5cb2";
  quoter_v2 = none;
}

abbrev pub base_chain : Chain
base_chain = record {
  id = 8453;
  name = "Base";
  factory = "0x33128a8fC17869897dcE68Ed026d694621f6FDfD";
  position_manager = "0x03a520b32C04BF3bEEf7BEb72E919cf822Ed34f1";
  swap_router = "0x2626664c2603336E57B271c5C0b26F421741e481";
  quoter_v2 = some "0x3d4e44Eb1374240CE5F1B871ab261CD16335B76a";
}

abbrev pub weth_usdg : Pool
weth_usdg = record {
  chain = robinhood_chain;
  id = "robinhood/weth-usdg-100";
  address = "0x52e65B17fB6E5BA00Ed806f37Afcd2DaA50271Ca";
  base_token = "0x0Bd7D308f8E1639FAb988df18A8011f41EAcAD73";
  quote_token = "0x5fc5360d0400a0fd4f2af552add042d716f1d168";
  base_symbol = "WETH";
  quote_symbol = "USDG";
  hedge_coin = "ETH";
  base_decimals = 18;
  quote_decimals = 6;
  fee = 100;
  tick_spacing = 1;
}

abbrev pub weth_usdc : Pool
weth_usdc = record {
  chain = base_chain;
  id = "base/weth-usdc-3000";
  address = "0x6c561B446416E1A00E8E93E221854d6eA4171372";
  base_token = "0x4200000000000000000000000000000000000006";
  quote_token = "0x833589fCD6eDb6E08f4c7C32D4f71b54bdA02913";
  base_symbol = "WETH";
  quote_symbol = "USDC";
  hedge_coin = "ETH";
  base_decimals = 18;
  quote_decimals = 6;
  fee = 3000;
  tick_spacing = 60;
}

unfoldable pub chain : ℕ → Option Chain
chain id = if id == 4663 then some robinhood_chain else if id == 8453 then some base_chain else none

unfoldable pub same_contracts : List (String × String) → Result (Unit {0})
same_contracts [] = ok tt
same_contracts ((actual, expected) ∷ rest) = do
  ensure (eq_ignore_ascii_case actual expected) "registered pool contract mismatch"
  same_contracts rest

module _ {ℓ} {W : Type ℓ} where
  -- The test of the `find` in `pool`.
  abbrev pub is_pool : LiquidityConfig W → Pool → Bool
  is_pool c p = (p.chain.id == c.chain_id) && eq_ignore_ascii_case p.address c.pool

  unfoldable pub pool : LiquidityConfig W → Option Pool
  pool c =
      if is_pool c weth_usdg
      then some weth_usdg
      else if is_pool c weth_usdc
      then some weth_usdc
      else none

  abbrev pub contracts : LiquidityConfig W → Pool → List (String × String)
  contracts c p =
      (c.factory, p.chain.factory)
      ∷ (c.position_manager, p.chain.position_manager)
      ∷ (c.swap_router, p.chain.swap_router)
      ∷ (c.base_token, p.base_token)
      ∷ (c.quote_token, p.quote_token)
      ∷ []

  unfoldable pub validate_known : LiquidityConfig W → Option Pool → Result (Unit {0})
  unfolding same_contracts
  validate_known c none = ok tt
  validate_known c (some p) = do
    same_contracts (contracts c p)
    ensure
        ((c.fee == p.fee)
          && (c.base_decimals == p.base_decimals)
          && (c.quote_decimals == p.quote_decimals))
        "registered pool fee/decimals mismatch"

  unfoldable pub validate_pool : LiquidityConfig W → Result (Unit {0})
  unfolding pool validate_known
  validate_pool c = validate_known c (pool c)

  unfoldable pub monitor_file : LiquidityConfig W → String
  monitor_file c =
      if c.chain_id == robinhood_chain.id
      then "monitor_robinhood.json"
      else "monitor_liquidity.json"
