-- ===== src/Evm/Limit/Queue/Spacing.antt =====
-- When the requests of `Queue` start.
use lp_maker.Base.{ℕ, ◌+◌, ◌≤◌, ◌<◌, ◌≡◌, List, [], ◌⊎◌, inl, inr, ◌∷◌, Option, none, some, arith}
use lp_maker.Evm.Limit.{check_cooldown, limited, succeeded, start, share, new}
use lp_maker.Evm.Limit.Queue.{
  Permit, free, sleeping, sending, World, Event, waits, takes, wakes, drops, limits, succeeds,
  shares, step, run,
}

-- Each time is at least `d` after the one before it.
abbrev pub Apart : ℕ → List ℕ → Type 0
Apart d [] = Unit
Apart d (t ∷ []) = Unit
Apart d (t ∷ u ∷ rest) = (u + d ≤ t) × Apart d (u ∷ rest)

-- The next start is due `d` or more after the last.
abbrev pub Due : ℕ → ℕ → List ℕ → Type 0
Due d next [] = Unit
Due d next (t ∷ rest) = t + d ≤ next

abbrev pub Waits : ℕ → Permit → Type 0
Waits next free = Unit
Waits next (sleeping u) = u ≡ next
Waits next sending = Unit

pub record Inv (d : ℕ) (w : World) : Type 0 where
  pub strict : d ≤ w.gate.spacing
  pub due : Due d w.gate.next w.starts
  pub apart : Apart d w.starts
  pub sleeps : Waits w.gate.next w.permit

step-Inv : (d : ℕ) (w : World) (e : Event) → Inv d w → Inv d (step w e)
unfolding step check_cooldown limited succeeded start share
step-Inv d w (waits n) v = ground arith
step-Inv d w takes v = ground arith
step-Inv d w wakes v = ground arith
step-Inv d w drops v = ground arith
step-Inv d w (limits hint) v = ground arith
step-Inv d w succeeds v = ground arith
step-Inv d w (shares s) v = ground arith

run-Inv : (d : ℕ) (w : World) (es : List Event) → Inv d w → Inv d (run w es)
unfolding run
run-Inv d w [] v = v
run-Inv d w (e ∷ es) v = run-Inv d (step w e) es (step-Inv d w e v)

abbrev pub initial : ℕ → ℕ → World
initial now spacing = record { gate = new now spacing; permit = free; now = now; starts = [] }

-- Whatever the callers of a gate do, and in whatever order, two requests start at least the spacing
-- that the gate was made with apart.
pub starts-Apart :
    (now spacing : ℕ) (es : List Event) → Apart spacing (run (initial now spacing) es).starts
unfolding new
starts-Apart now spacing es =
    (run-Inv spacing (initial now spacing) es
      (record { strict = omega arith; due = tt; apart = tt; sleeps = tt })).apart

-- Nobody sends, and the gate refuses every caller until `until` or later.
abbrev Blocks : Permit → Type 0
Blocks free = Unit
Blocks (sleeping u) = Unit
Blocks sending = ⊥

abbrev Reaches : ℕ → Option ℕ → Type 0
Reaches until none = ⊥
Reaches until (some u) = until ≤ u

abbrev Cooling : ℕ → List ℕ → World → Type 0
Cooling until old w =
    (until ≤ w.now) ⊎ (Blocks w.permit × Reaches until w.gate.cooldown × (w.starts ≡ old))

step-Cooling :
    (until : ℕ) (old : List ℕ) (w : World) (e : Event)
    → Cooling until old w
    → Cooling until old (step w e)
unfolding step check_cooldown limited succeeded start share
step-Cooling until old w (waits n) v = ground arith
step-Cooling until old w takes v = ground arith
step-Cooling until old w wakes v = ground arith
step-Cooling until old w drops v = ground arith
step-Cooling until old w (limits hint) v = ground arith
step-Cooling until old w succeeds v = ground arith
step-Cooling until old w (shares s) v = ground arith

run-Cooling :
    (until : ℕ) (old : List ℕ) (w : World) (es : List Event)
    → Cooling until old w
    → Cooling until old (run w es)
unfolding run
run-Cooling until old w [] v = v
run-Cooling until old w (e ∷ es) v =
    run-Cooling until old (step w e) es (step-Cooling until old w e v)

limits-Cooling :
    (w : World) (hint : Option ℕ)
    → w.permit ≡ sending
    → Cooling (limited w.gate w.now hint).1 w.starts (step w (limits hint))
unfolding step limited
limits-Cooling w hint h = inr (ground arith, ground arith, ground arith)

Cooling-same :
    (until : ℕ) (old : List ℕ) (w : World) → Cooling until old w → w.now < until → w.starts ≡ old
Cooling-same until old w (inl over) early = absurd (omega arith)
Cooling-same until old w (inr v) early = v.2

-- Once a request under way is limited, no caller starts another one before the time that `limited`
-- returned, whatever the callers do in the meantime.
pub limits-blocks :
    (w : World) (hint : Option ℕ) (es : List Event)
    → w.permit ≡ sending
    → (run (step w (limits hint)) es).now < (limited w.gate w.now hint).1
    → (run (step w (limits hint)) es).starts ≡ w.starts
limits-blocks w hint es h early =
    Cooling-same _ w.starts (run (step w (limits hint)) es)
      (run-Cooling _ w.starts _ es (limits-Cooling w hint h)) early
