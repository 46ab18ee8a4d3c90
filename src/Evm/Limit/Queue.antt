-- ===== src/Evm/Limit/Queue.antt =====
-- `Gate::acquire` of src/evm/rpc/limit.rs under any interleaving of its callers. One permit exists;
-- whoever has none yet changes nothing, so the waiting callers need no state of their own.
pub mod Spacing
use lp_maker.Base.{ℕ, ◌+◌, List, [], ◌∷◌, Option, none, some, leb, if◌then◌else◌}
use lp_maker.Evm.Limit.{
  Gate, Pass, pass, retry_after, check_cooldown, limited, succeeded, start, share,
}

-- Who has the permit: nobody, a caller of `acquire` that sleeps until a time, or one whose request
-- is under way.
pub data Permit : Type 0 where
  free : Permit
  sleeping : ℕ → Permit
  sending : Permit

-- `starts` records when each request started, the latest first.
pub record World : Type 0 where
  pub gate : Gate
  pub permit : Permit
  pub now : ℕ
  pub starts : List ℕ

pub data Event : Type 0 where
  -- time passes
  waits : ℕ → Event
  -- a caller that passed the first check gets the permit
  takes : Event
  -- the sleeping caller comes back from `sleep_until`
  wakes : Event
  -- the future or the permit is dropped
  drops : Event
  -- the node limits the request under way, or answers it
  limits : Option ℕ → Event
  succeeds : Event
  -- another client of the endpoint is made
  shares : ℕ → Event

-- Behind the permit the cooldown is checked again; then the caller sleeps until `next`.
take : Permit → World → World
take free w = elim (check_cooldown w.gate w.now) [
  | pass ↦ record w { permit = sleeping w.gate.next }
  | retry_after until ↦ w
]
take (sleeping u) w = w
take sending w = w

wake : Permit → World → World
wake free w = w
wake (sleeping u) w =
    if leb u w.now
    then elim (check_cooldown w.gate w.now) [
      | pass ↦ record w { gate = start w.gate w.now; permit = sending; starts = w.now ∷ w.starts }
      | retry_after until ↦ record w { permit = free }
    ]
    else w
wake sending w = w

-- `Rpc::request` calls `limited` and `succeeded` while it holds the permit, and returns.
limit : Permit → Option ℕ → World → World
limit free hint w = w
limit (sleeping u) hint w = w
limit sending hint w = record w { gate = (limited w.gate w.now hint).0; permit = free }

succeed : Permit → World → World
succeed free w = w
succeed (sleeping u) w = w
succeed sending w = record w { gate = succeeded w.gate w.now; permit = free }

unfoldable pub step : World → Event → World
unfolding take wake limit succeed
step w (waits d) = record w { now = w.now + d }
step w takes = take w.permit w
step w wakes = wake w.permit w
step w drops = record w { permit = free }
step w (limits hint) = limit w.permit hint w
step w succeeds = succeed w.permit w
step w (shares spacing) = record w { gate = share w.gate spacing }

unfoldable pub run : World → List Event → World
run w [] = w
run w (e ∷ es) = run (step w e) es
