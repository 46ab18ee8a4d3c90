-- ===== src/Strategy/Eth/Examples.antt =====
-- Tests of src/strategy/eth and the theorems at concrete inputs, over the decimals of `Samples`.
use lp_maker.Base.{ℕ, ◌+◌, ◌-◌, ◌≡◌, ◌⊎◌, refl, some, [], ◌∷◌}
use lp_maker.Domain.{MarketFrame, hold, exit_to_quote, deploy, recenter, equity}
use lp_maker.Strategy.State.{Strategy, paused, halted, active, initial, pool_perp_basis_limit}
use lp_maker.Strategy.Eth.Feature.{Feature}
use lp_maker.Strategy.Eth.Steps.{danger_now}
use lp_maker.Strategy.Eth.Account.{band_of}
use lp_maker.Strategy.Eth.Evaluate.{evaluate_eth, evaluate_with_continuity}
use lp_maker.Strategy.Eth.Cases.{Seen}
use lp_maker.Strategy.Eth.Entries.{Entry, evaluate_eth-Entry}
use lp_maker.Strategy.Eth.Withdrawals.{Withdraws, evaluate_eth-Withdraws}
use lp_maker.Strategy.Eth.Lasting.{after_frames, every_profile_stays_halted}
use lp_maker.Strategy.Eth.Origin.{origin_of, eth_losses_count_from_origin}
use lp_maker.Strategy.Eth.Samples.{
  fixed, eth_settings, profile, band, eth_frame, invested, cash, calm, in_eth, evaluated_eth,
}

abbrev flat_frame : MarketFrame ℕ
flat_frame = eth_frame 100000 cash

abbrev left_frame : MarketFrame ℕ
left_frame = eth_frame 100000 invested

-- The basis to the perpetual is wide.
abbrev wide_frame : MarketFrame ℕ
wide_frame = eth_frame 104000 invested

abbrev permitted : Strategy ℕ
permitted = record (in_eth paused) { entry_history = initial }

flat-Seen : Seen eth_settings flat_frame calm
unfolding evaluated_eth
flat-Seen = record { computed = refl; observed = refl }

wide-Seen : Seen eth_settings wide_frame calm
unfolding evaluated_eth
wide-Seen = record { computed = refl; observed = refl }

wide_danger : danger_now eth_settings profile wide_frame calm ≡ some pool_perp_basis_limit
unfolding evaluated_eth
wide_danger = refl

enters : (evaluate_eth eth_settings flat_frame profile permitted).decision.lp ≡ deploy 10000
unfolding evaluated_eth
enters = refl

moves :
    (evaluate_eth eth_settings left_frame profile (in_eth active)).decision.lp
    ≡ recenter ("core" ∷ [])
unfolding evaluated_eth
moves = refl

evaluate_eth-Entry_example :
    (y : Feature ℕ) × Seen eth_settings flat_frame y
    × Entry eth_settings flat_frame profile y 10000 permitted
        (evaluate_eth eth_settings flat_frame profile permitted).strategy
evaluate_eth-Entry_example =
    evaluate_eth-Entry eth_settings flat_frame profile 10000 permitted enters

evaluate_eth-Withdraws_example :
    Withdraws eth_settings wide_frame (evaluate_eth eth_settings wide_frame profile (in_eth active))
evaluate_eth-Withdraws_example =
    evaluate_eth-Withdraws eth_settings wide_frame profile calm pool_perp_basis_limit
      (in_eth active) wide-Seen wide_danger

every_profile_stays_halted_example :
    ((after_frames eth_settings (in_eth halted) (flat_frame ∷ [])).phase ≡ halted)
    × (((evaluate_with_continuity eth_settings left_frame
            (after_frames eth_settings (in_eth halted) (flat_frame ∷ []))).decision.lp
          ≡ hold)
        ⊎ ((evaluate_with_continuity eth_settings left_frame
              (after_frames eth_settings (in_eth halted) (flat_frame ∷ []))).decision.lp
            ≡ exit_to_quote))
every_profile_stays_halted_example =
    every_profile_stays_halted eth_settings (in_eth halted) (flat_frame ∷ []) left_frame refl

eth_losses_count_from_origin_example :
    (origin_of (after_frames eth_settings (in_eth active) (wide_frame ∷ [])) ≡ some 1000000)
    × ((band_of
          (evaluate_with_continuity eth_settings flat_frame (
            after_frames eth_settings
              (in_eth active)
              (wide_frame ∷ []))).strategy.eth_persistent).risk_equity
        ≡ 1000000 + equity flat_frame.portfolio flat_frame.pool.price - 1000000)
eth_losses_count_from_origin_example =
    eth_losses_count_from_origin eth_settings profile band (in_eth active) 1000000 (wide_frame ∷ [])
      flat_frame calm refl refl refl flat-Seen
