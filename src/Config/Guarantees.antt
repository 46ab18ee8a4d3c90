-- ===== src/Config/Guarantees.antt =====
-- What the rest of the program may rely on once `Config::validate` of src/config.rs has passed.
use lp_maker.Base.{
  ℕ, ◌+◌, ◌-◌, ◌*◌, ◌/◌, ◌^◌, ◌≤◌, ◌<◌, ◌≡◌, ◌≢◌, ◌↔◌, ◌⊎◌, refl, true, false, some, List, [], ◌∷◌,
  String, ok, arith, any, is_some, All,
}
use lp_maker.Float.{F64}
use lp_maker.Domain.{MarketFrame, deploy}
use lp_maker.Strategy.State.{LayerConfig, Strategy, StrategyConfig, Cause}
use lp_maker.Strategy.Indicators.{needed}
use lp_maker.Strategy.Eth.State.{PersistentConfig, BandConfig}
use lp_maker.Strategy.Eth.Feature.{Feature}
use lp_maker.Strategy.Eth.Steps.{has_lp, danger_now}
use lp_maker.Strategy.Eth.Cases.{Seen}
use lp_maker.Strategy.Eth.Evaluate.{evaluate_eth}
use lp_maker.Strategy.Eth.Reentry.{exit_waits}
use lp_maker.Engine.Feed.{history_count, history_start}
use lp_maker.Liquidity.Chains.{pool, weth_usdg}
use lp_maker.Hyperliquid.Json.{eq_ignore_ascii_case, eq_ignore_ascii_case_sym}
use lp_maker.Config.State.{Config}
use lp_maker.Config.Profile.{pinned_pool}
use lp_maker.Config.Endpoints.{Parsers}
use lp_maker.Config.Validate.{all_new, validate}
use lp_maker.Config.Passed.{
  Matches, validate-Passed, windows-Windowed, execution-profile, profile-Clocked, profile-band,
  band-pinned, deployment-Matches,
}
use text.Mathlib.Text.{◌==◌ as str_eq}
use text.Mathlib.TextEquality.{eq_iff}

module _ {W : Type 0} where
  -- No two layers have the same name.
  abbrev NamesDiffer : List (LayerConfig W) → Type 0
  NamesDiffer [] = Unit
  NamesDiffer (l ∷ rest) = All (λ x. x.name ≢ l.name) rest × NamesDiffer rest

  -- The names of the layers are not among some names.
  abbrev Fresh : List String → List (LayerConfig W) → Type 0
  Fresh names layers = All (λ x. any (str_eq x.name) names ≡ false) layers

  Fresh-∷ :
      (name : String) (names : List String) (layers : List (LayerConfig W))
      → Fresh (name ∷ names) layers ↔ (All (λ x. x.name ≢ name) layers × Fresh names layers)
  Fresh-∷ name names [] = (λ _. (tt, tt), λ _. tt)
  Fresh-∷ name names (l ∷ rest) =
      let (there, back) = Fresh-∷ name names rest in
      let (same, equal) = eq_iff l.name name in
      (
        λ h. ((ground (arith, h.0, equal), (there h.1).0), (ground (arith, h.0), (there h.1).1)),
        λ h. (ground (arith, h.0.0, h.1.0, same), back (h.0.1, h.1.1)),
      )

  all_new-Fresh :
      (names : List String) (layers : List (LayerConfig W))
      → (all_new names layers ≡ true) ↔ (Fresh names layers × NamesDiffer layers)
  unfolding all_new
  all_new-Fresh names [] = (λ _. (tt, tt), λ _. refl)
  all_new-Fresh names (l ∷ rest) =
      let (there, back) = all_new-Fresh (l.name ∷ names) rest in
      let (apart, join) = Fresh-∷ l.name names rest in
      (
        λ h.
            let first : any (str_eq l.name) names ≡ false = ground (arith, h) in
            let others : all_new (l.name ∷ names) rest ≡ true = ground (arith, h) in
            let (fresh, differ) = there others in
            let (far, new) = apart fresh in ((first, new), (far, differ)),
        λ h. let others = back (join (h.1.0, h.0.1), h.1.1) in rw (h.0.0) others,
      )

  empty-Fresh : (layers : List (LayerConfig W)) → Fresh [] layers
  empty-Fresh [] = tt
  empty-Fresh (l ∷ rest) = (refl, empty-Fresh rest)

  -- The test of the layers' names by insertion into a set accepts exactly the lists in which no two
  -- layers have the same name.
  all_new-NamesDiffer :
      (layers : List (LayerConfig W)) → (all_new [] layers ≡ true) ↔ NamesDiffer layers
  all_new-NamesDiffer layers =
      let (there, back) = all_new-Fresh [] layers in
      (λ h. (there h).1, λ h. back (empty-Fresh layers, h))

module _ {W : Type 0} ⦃f : F64 W⦄ ⦃p : Parsers⦄ where
  pinned-pool : (c : Config W) → pinned_pool c ≡ true → pool c.liquidity ≡ some weth_usdg
  unfolding pool
  pinned-pool c h =
      let same : (c.liquidity.chain_id ≡ 4663)
          × (eq_ignore_ascii_case c.liquidity.pool weth_usdg.address ≡ true) =
        ground arith in
      let there = eq_ignore_ascii_case_sym c.liquidity.pool weth_usdg.address same.1 in
      rw (same.0, there) refl

  -- A configuration that passes with a band profile trades the registered WETH/USDG pool of Robinhood,
  -- with that pool's contracts, tokens, fee and decimals, and hedges it with ETH.
  validate-Matches :
      (c : Config W) (profile : PersistentConfig W) (b : BandConfig W)
      → validate c ≡ ok tt
      → c.strategy.eth_persistent ≡ some profile
      → profile.band ≡ some b
      → (pool c.liquidity ≡ some weth_usdg)
        × Matches c.liquidity weth_usdg
        × (c.hyperliquid.hedge_coin ≡ "ETH")
  validate-Matches c profile b h e banded =
      let passed = validate-Passed c h in
      let checked = execution-profile c profile passed.execution e in
      let (ok_band, _) = profile-band c profile b checked banded in
      let found = pinned-pool c (band-pinned c b ok_band) in
      let (matches, coin) = deployment-Matches c weth_usdg passed.deployment found in
      (found, matches, coin)

  -- After a configuration that passes and has a profile in ETH has left a position in danger on a fresh
  -- observation, no next decision enters one before its whole cooldown is over, which is an hour at
  -- least; a week after the exit must still be a time that a `u64` holds.
  pub validated_exit_waits :
      (c : Config W) (profile : PersistentConfig W) (y : Feature W) (cause : Cause) (s : Strategy W)
      (frame later : MarketFrame W) (x : W)
      → validate c ≡ ok tt
      → c.strategy.eth_persistent ≡ some profile
      → Seen c.strategy frame y
      → has_lp frame ≡ true
      → danger_now c.strategy profile frame y ≡ some cause
      → frame.now_ms + 168 * 3600000 < 2 ^ 64
      → (let t = (evaluate_eth c.strategy frame profile s).strategy in
          (evaluate_eth c.strategy later profile t).decision.lp ≡ deploy x)
      → (frame.now_ms + 3600000 ≤ later.now_ms)
        × (frame.now_ms + c.strategy.cooldown_hours * 3600000 ≤ later.now_ms)
  validated_exit_waits c profile y cause s frame later x h e seen held danger room entered =
      let passed = validate-Passed c h in
      let checked = execution-profile c profile passed.execution e in
      let clocks = profile-Clocked c profile checked in
      let lower = clocks.cooldown in
      let upper = clocks.week in
      let waited =
        exit_waits c.strategy profile y cause s frame later x seen held danger
          (omega (arith, lower, upper, room)) entered in
      (omega (arith, lower, waited), waited)

  -- The candle that opened so many hours before the last completed one lies within the request.
  abbrev pub Asked : StrategyConfig W → ℕ → ℕ → Type 0
  Asked s now i =
      let opening = now / 3600000 * 3600000 - (i + 1) * 3600000 in
      (history_start s now ≤ opening) × (opening + 3599999 < now)

  -- With a configuration that passes, and later than 12001 hours after the epoch, the request for candles
  -- covers all the completed hours that the indicators need; and the last 73 hours that a profile needs.
  pub history_covers :
      (c : Config W) (now i : ℕ)
      → validate c ≡ ok tt
      → 12001 * 3600000 ≤ now
      → (i < needed c.strategy) ⊎ ((is_some c.strategy.eth_persistent ≡ true) × (i < 73))
      → Asked c.strategy now i
  unfolding history_start history_count
  history_covers c now i h late wanted =
      let windows = windows-Windowed c (validate-Passed c h).windows in
      let long = windows.long in
      let short = windows.short in let slow = windows.slow in (ground arith, ground arith)
