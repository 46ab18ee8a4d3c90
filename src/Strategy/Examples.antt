-- ===== src/Strategy/Examples.antt =====
-- Tests of the strategy and the theorems at concrete inputs, over the whole numbers of `Samples`.
use lp_maker.Base.{ℕ, ◌+◌, ◌-◌, ◌*◌, ◌≡◌, ◌⊎◌, refl, true, false, some, [], ◌∷◌, arith}
use lp_maker.Domain.{MarketFrame, deploy}
use lp_maker.Strategy.State.{Strategy, paused, recovering, halted, default, fresh_progress}
use lp_maker.Strategy.Indicators.{Metrics, recent_rows, measure}
use lp_maker.Strategy.Evaluate.{evaluate_inner}
use lp_maker.Strategy.Cases.{checked_equity, Withdraws}
use lp_maker.Strategy.Deployment.{Cleared, deploy-Cleared, unsafe-Withdraws}
use lp_maker.Strategy.Resumption.{Leaves, paused-Leaves}
use lp_maker.Strategy.Windows.{IsMeasured, calculate-IsMeasured}
use lp_maker.Strategy.Hours.{Proven, recheck-Proven}
use lp_maker.Strategy.Samples.{whole, settings, hour, snapshot, frame_at, evaluated, at_rest}

first_entry : (evaluate_inner settings (frame_at 10) true default).decision.lp ≡ deploy 1
unfolding evaluated
first_entry = refl

deploy-Cleared_example :
    Cleared settings (frame_at 10) default 1 (evaluate_inner settings (frame_at 10) true default)
deploy-Cleared_example = deploy-Cleared settings (frame_at 10) true default 1 first_entry

abbrev stopped : Strategy ℕ
stopped = at_rest halted

-- A pause since time 1 with one healthy hour behind it, after the first two hours were seen.
abbrev resting : Strategy ℕ
resting = at_rest paused

resumed : (evaluate_inner settings (frame_at 10) false resting).strategy.phase ≡ recovering
unfolding evaluated
resumed = refl

paused-Leaves_example :
    ((evaluate_inner settings (frame_at 10) false resting).strategy.phase ≡ halted)
    ⊎ Leaves settings (frame_at 10) resting (evaluate_inner settings (frame_at 10) false resting)
paused-Leaves_example = paused-Leaves settings (frame_at 10) false resting refl

-- The metrics of the four hours.
abbrev measured_hours : Metrics ℕ
measured_hours = measure (hour 0 ∷ hour 1 ∷ hour 2 ∷ hour 3 ∷ []) settings (hour 3)

-- The pool stands at three times the price of the perpetual.
unsafe-Withdraws_example :
    Withdraws settings
      (frame_at 30)
      (checked_equity settings (frame_at 30) resting)
      (evaluate_inner settings (frame_at 30) true resting)
unsafe-Withdraws_example =
    unsafe-Withdraws settings (frame_at 30) true measured_hours resting (unfold evaluated in refl)
      (unfold evaluated in refl) (unfold evaluated in refl) (unfold evaluated in refl)

-- Half the equity is gone.
abbrev wealthy : Strategy ℕ
wealthy = record resting { peak_equity = 200 }

-- The clock of the pool is more than a minute behind.
abbrev late_frame : MarketFrame ℕ
late_frame = record (frame_at 10) { pool = snapshot (4 * 3600000 - 1) 10 }

-- The observations stopped after the third hour, two minutes ago.
abbrev interrupted : Strategy ℕ
interrupted = record resting {
  recovery_progress = record fresh_progress {
    observed_ms = 4 * 3600000 - 60000;
    anchor = some (hour 2);
    pending_revalidation = true;
  };
}

abbrev flat_metrics : Metrics ℕ
flat_metrics = record {
  return_1h = 0;
  vol_ratio = 0;
  recent_vol = 0;
  baseline_vol = 0;
  downtrend = false;
  no_new_low = true;
  ema_fast = 10;
  last_close = 10;
  last_close_ms = 4 * 3600000 - 1;
}

recheck-Proven_example : Proven settings (frame_at 10) flat_metrics interrupted
recheck-Proven_example =
    recheck-Proven settings (frame_at 10) flat_metrics interrupted (unfold evaluated in refl) refl
      (unfold evaluated in omega arith)

calculate-IsMeasured_example :
    IsMeasured settings
      (4 * 3600000 + 60000)
      measured_hours
      (recent_rows (hour 0 ∷ hour 1 ∷ hour 2 ∷ hour 3 ∷ []) settings (4 * 3600000 + 60000))
calculate-IsMeasured_example =
    calculate-IsMeasured (hour 0 ∷ hour 1 ∷ hour 2 ∷ hour 3 ∷ []) settings (4 * 3600000 + 60000)
      measured_hours (unfold evaluated in refl)
