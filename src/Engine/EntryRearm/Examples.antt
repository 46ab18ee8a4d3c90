-- ===== src/Engine/EntryRearm/Examples.antt =====
-- The permit at concrete inputs.
use lp_maker.Base.{ℕ, ◌*◌, ◌≡◌, refl, true, false, some, [], ◌∷◌, Result, ok, is_ok}
use lp_maker.Domain.{deploy}
use lp_maker.Strategy.State.{
  Strategy, paused, active, initial, established, Decision, manual_entry_rearm,
}
use lp_maker.Strategy.Samples.{whole, settings, frame_at, at_rest, evaluated}
use lp_maker.Engine.EntryRearm.{
  Permit, armed, consumed, RearmStore, read_permit, settled, write_permit, set_status, use_permit,
  consume, flat, named, trial, evaluate_armed, ask, Asked, ordinary,
}
use lp_maker.Strategy.Eth.Evaluate.{evaluate_with_continuity}
use lp_maker.Engine.EntryRearm.Once.{consume-Used}
use lp_maker.Engine.EntryRearm.Passes.{Passes, ask-Passes}

abbrev granted : Permit
granted = record {
  schema = 1;
  id = "7f";
  binding = "config";
  requested_ms = 1;
  status = armed;
  updated_ms = 1;
}

abbrev store : RearmStore
store = record {
  permit = some granted;
  pending = false;
  workflow = false;
  hedge_order = false;
  orders = true ∷ [];
}

-- A long pause is still to come.
abbrev waiting : Strategy ℕ
waiting = record (at_rest paused) { pause_since = 4 * 3600000; healthy_hours = 0 }

abbrev entering : Decision ℕ
entering = record {
  state = active;
  reasons = manual_entry_rearm "7f" ∷ [];
  lp = deploy 1;
  target_short_base = 0;
  emergency = false;
}

abbrev after_entry : RearmStore
after_entry = record store { permit = some (record granted { status = consumed; updated_ms = 5 }) }

consume-Used_example :
    (is_ok (consume "config" 6 after_entry entering) ≡ false)
    × (ask settings (frame_at 10) true "config" 6 after_entry waiting
        ≡ ok (ordinary settings (frame_at 10) after_entry waiting))
consume-Used_example =
    consume-Used "config" "7f" "7f" 5 6 store after_entry entering entering settings (frame_at 10)
      true waiting refl refl (unfold consume use_permit read_permit write_permit set_status in refl)
      refl refl

-- What is asked with the permit.
asked : Result (Asked ℕ)
unfolding ask read_permit evaluate_armed flat settled trial evaluate_with_continuity evaluated
asked = ask settings (frame_at 10) true "config" 5 store waiting

ask-Passes_example : Passes settings (frame_at 10) waiting
ask-Passes_example =
    ask-Passes settings (frame_at 10) true "config" 5 store waiting
      (record {
        store = store;
        strategy =
            record (evaluate_with_continuity settings (frame_at 10)
              (record waiting { entry_history = initial })).strategy {
                entry_history = established;
              };
        decision =
            named "7f"
              (evaluate_with_continuity settings (frame_at 10)
                (record waiting { entry_history = initial })).decision;
      })
      1 (unfold asked in refl) (unfold asked in refl)
