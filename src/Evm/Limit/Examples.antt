-- ===== src/Evm/Limit/Examples.antt =====
-- Tests of the gate and the theorems at concrete inputs.
use lp_maker.Base.{ℕ, ◌≡◌, refl, some, none, List, [], ◌∷◌, arith}
use lp_maker.Evm.Limit.{Gate, new, check_cooldown, backoff, limited, succeeded, start, share}
use lp_maker.Evm.Limit.Queue.{
  World, Event, sending, waits, takes, wakes, limits, succeeds, step, run,
}
use lp_maker.Evm.Limit.Queue.Spacing.{Apart, initial, starts-Apart, limits-blocks}

abbrev spacing : ℕ
spacing = 250000000

abbrev busy : Gate
busy = record { spacing = spacing; next = 0; cooldown = none; failures = 2; healthy_since = some 5 }

-- Two requests, the second of which the node limits, and a caller that comes too early.
abbrev script : List Event
script =
    takes
    ∷ wakes
    ∷ succeeds
    ∷ takes
    ∷ wakes
    ∷ waits spacing
    ∷ wakes
    ∷ limits none
    ∷ takes
    ∷ waits spacing
    ∷ wakes
    ∷ []

script_test : (run (initial 0 spacing) script).starts ≡ spacing ∷ 0 ∷ []
unfolding run step new check_cooldown limited succeeded start share backoff
script_test = refl

starts-Apart_example : Apart spacing (run (initial 0 spacing) script).starts
starts-Apart_example = starts-Apart 0 spacing script

abbrev in_flight : World
in_flight = record { gate = busy; permit = sending; now = 7; starts = 7 ∷ [] }

limits-blocks_example :
    (run (step in_flight (limits none)) (takes ∷ waits 5 ∷ wakes ∷ [])).starts ≡ 7 ∷ []
unfolding run step limited backoff check_cooldown
limits-blocks_example =
    limits-blocks in_flight none (takes ∷ waits 5 ∷ wakes ∷ []) refl (omega arith)
