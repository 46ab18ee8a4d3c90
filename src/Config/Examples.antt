-- ===== src/Config/Examples.antt =====
-- Tests of src/config.rs and the theorems at concrete inputs.
use lp_maker.Base.{◌+◌, ◌*◌, ◌≤◌, ◌≡◌, refl, inl, ok, err, arith, some}
use lp_maker.Domain.{deploy}
use lp_maker.Strategy.State.{pool_perp_basis_limit}
use lp_maker.Strategy.Eth.Steps.{danger_now}
use lp_maker.Strategy.Eth.Cases.{Seen}
use lp_maker.Strategy.Eth.Evaluate.{evaluate_eth}
use lp_maker.Strategy.Eth.Samples.{evaluated_eth}
use lp_maker.Config.Validate.{validate}
use lp_maker.Config.Guarantees.{Asked, validated_exit_waits, history_covers}
use lp_maker.Config.Samples.{config, validated, eight, readers, profile}
use lp_maker.Config.Frames.{frame_at, invested, cash, running, calm}

config_passes : validate config ≡ ok tt
unfolding validated
config_passes = refl

-- Higher leverage is refused.
leverage_refused :
    validate
      (record config { hyperliquid = (let h = config.hyperliquid in record h { leverage = 4 }) })
    ≡ err "strategy leverage capped at 3x"
unfolding validated
leverage_refused = refl

wide-Seen : Seen config.strategy (frame_at 100 104000000 invested) calm
unfolding evaluated_eth
wide-Seen = record { computed = refl; observed = refl }

wide_danger :
    danger_now config.strategy profile (frame_at 100 104000000 invested) calm
    ≡ some pool_perp_basis_limit
unfolding evaluated_eth
wide_danger = refl

enters :
    (evaluate_eth config.strategy
      (frame_at 107 100000000 cash)
      profile
      (evaluate_eth config.strategy
        (frame_at 100 104000000 invested)
        profile
        running).strategy).decision.lp
    ≡ deploy 100000000
unfolding evaluated_eth
enters = refl

validated_exit_waits_example :
    (100 * 3600000 + 60000 + 3600000 ≤ 107 * 3600000 + 60000)
    × (100 * 3600000 + 60000 + 6 * 3600000 ≤ 107 * 3600000 + 60000)
validated_exit_waits_example =
    validated_exit_waits config profile calm pool_perp_basis_limit running
      (frame_at 100 104000000 invested) (frame_at 107 100000000 cash) 100000000 config_passes refl
      wide-Seen refl wide_danger (ground arith) enters

history_covers_example : Asked config.strategy (500000 * 3600000 + 5) 71
history_covers_example =
    history_covers config (500000 * 3600000 + 5) 71 config_passes (ground arith)
      (inl (ground arith))
