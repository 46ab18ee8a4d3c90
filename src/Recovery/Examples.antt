-- ===== src/Recovery/Examples.antt =====
-- The restart at concrete inputs.
use lp_maker.Base.{ℕ, ◌*◌, ◌≡◌, ◌≢◌, [], ◌∷◌, ◌⊎◌, refl, true, false, arith}
use lp_maker.Strategy.State.{
  Strategy, warmup, active, paused, halted, initial, established, legacy_unknown,
}
use lp_maker.Domain.{deploy}
use lp_maker.Strategy.Halting.{after_all}
use lp_maker.Strategy.Evaluate.{evaluate_inner}
use lp_maker.Strategy.Samples.{whole, settings, frame_at, at_rest}
use lp_maker.Recovery.{
  unmarked, opened, RecoveryStore, record_lp_history, restore_entry_history,
  finish_workflow_recovery,
}
use lp_maker.Recovery.Restart.{restore_lem, finish_workflow_recovery-waits}

abbrev clean : RecoveryStore
clean = record { marker = unmarked; nfts = false; pending = false; workflow = false }

restore_lem_example :
    ((established ≡ established) × (opened ≡ opened))
    ⊎ ((true ≡ false)
        × (unmarked ≡ unmarked)
        × (opened ≡ unmarked)
        × ((established ≡ legacy_unknown)
            ⊎ ((established ≡ initial) × (legacy_unknown ≡ legacy_unknown) × (warmup ≡ warmup)))
        × (false ≡ false))
restore_lem_example =
    restore_lem (record clean { nfts = true }) legacy_unknown warmup
      (record { history = established; marker = opened })
      (unfold restore_entry_history record_lp_history in refl)

finish_workflow_recovery-waits_example :
    let t =
      after_all settings true
        (finish_workflow_recovery (4 * 3600000) (at_rest active))
        (frame_at 10 ∷ []) in
    let r = evaluate_inner settings (frame_at 10) true t in
    ((r.strategy.phase ≡ paused) ⊎ (r.strategy.phase ≡ halted))
    × ((x : ℕ) → r.decision.lp ≢ deploy x)
finish_workflow_recovery-waits_example =
    finish_workflow_recovery-waits settings true (4 * 3600000) (at_rest active) (frame_at 10 ∷ [])
      (frame_at 10) refl refl ((omega arith, omega arith), tt) (omega arith, omega arith)

abbrev old_record : Strategy ℕ
old_record = record (at_rest paused) { entry_history = legacy_unknown }
