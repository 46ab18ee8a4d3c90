-- ===== src/Evm/Nonce/Examples.antt =====
-- Tests of the nonces and the theorems at concrete inputs.
use lp_maker.Base.{ℕ, ◌≡◌, refl, none, some, List, [], ◌∷◌, ok, err}
use lp_maker.Evm.Nonce.{
  NonceManager, NonceState, unresolved, Disk, Operation, listed, Replies, hashes, load, observe,
  recover, check_inflight, available, refresh, save, next, prepared, check_reserved, confirmed,
  begin_operation, finish_operation,
}
use lp_maker.Evm.Nonce.Sender.{
  World, Event, refreshes, allocates, begins, reserves, broadcasts, confirms, finishes, restarts,
  operation_of, step, run,
}
use lp_maker.Evm.Nonce.Serial.{Rising, unsent, run-Rising}
use lp_maker.Evm.Nonce.Recovery.{Stuck, restarts-Stuck}

abbrev wallet : NonceManager
wallet = record { chain_id = 8453; owner = 77 }

abbrev answers : ℕ → Replies
answers latest = record {
  chain_id = ok 8453;
  latest = ok latest;
  pending = ok latest;
  receipt = ok tt;
  now = 1000;
}

abbrev empty_disk : Disk
empty_disk = record { nonce_file = none; pending_file = none }

-- Two sends, the first of them confirmed; then the process stops.
abbrev script : List Event
script =
    allocates (answers 5)
    ∷ begins 101 1000
    ∷ refreshes (answers 5)
    ∷ reserves 1000
    ∷ broadcasts
    ∷ confirms 101
    ∷ finishes
    ∷ allocates (answers 6)
    ∷ begins 102 2000
    ∷ reserves 2000
    ∷ broadcasts
    ∷ restarts
    ∷ []

world_after : List Event → World
unfolding run step refresh load observe recover check_inflight available save next prepared
    check_reserved confirmed hashes begin_operation finish_operation
world_after es = run wallet (unsent empty_disk) es

sent_twice :
    (world_after script).sent
    ≡ (record { nonce = 6; hash = 102 }) ∷ (record { nonce = 5; hash = 101 }) ∷ []
unfolding world_after
sent_twice = refl

run-Rising_example : Rising (run wallet (unsent empty_disk) script).sent
run-Rising_example = run-Rising wallet empty_disk script

abbrev left_behind : Operation
left_behind = operation_of wallet 6 102 2000

-- The process stopped after it wrote the operation.
abbrev half_done : Disk
half_done = record { nonce_file = none; pending_file = some left_behind }

abbrev recovered : NonceState
recovered = record {
  chain_id = 8453;
  owner = 77;
  latest = 6;
  pending = 6;
  next_floor = 7;
  checked_ms = 1000;
  inflight = some (record { nonce = 6; hash = some 102; prepared_ms = 2000; status = unresolved });
}

abbrev stopped : World
stopped = record (unsent half_done) { sent = (record { nonce = 5; hash = 101 }) ∷ [] }

restarts-Stuck_example : Stuck left_behind stopped.sent (
    run wallet
      (step wallet stopped restarts)
      (refreshes (answers 6) ∷ allocates (answers 7) ∷ begins 103 3000 ∷ broadcasts ∷ []))
restarts-Stuck_example =
    restarts-Stuck wallet stopped left_behind
      (refreshes (answers 6) ∷ allocates (answers 7) ∷ begins 103 3000 ∷ broadcasts ∷ []) refl refl

duplicate_refused :
    hashes (record left_behind { replacements = listed (some 103 ∷ some 102 ∷ []) })
    ≡ err "duplicate transaction hash in pending state"
unfolding hashes
duplicate_refused = refl
