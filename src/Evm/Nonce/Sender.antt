-- ===== src/Evm/Nonce/Sender.antt =====
-- How src/liquidity/uniswap_v3/tx.rs sends a transaction with a nonce: `send` and `wait_receipt`, write
-- by write. Another task refreshes at any time, and the process may stop between any two writes and start
-- again. One flow sends at a time, as the executor does.
use lp_maker.Base.{
  ℕ, Bool, true, false, ◌&&◌, Option, none, some, List, [], ◌∷◌, Result, ok, err, ◌==◌, any,
  if◌then◌else◌,
}
use lp_maker.Evm.Nonce.{
  NonceManager, NonceState, Disk, Operation, absent, Replies, hashes, refresh, save, next, prepared,
  confirmed, begin_operation, finish_operation,
}

-- Where `send` stands: nowhere, or it has a nonce, has written the operation, has written the reserved
-- nonce, or has written that the nonce is confirmed and has not yet removed the operation.
pub data Stage : Type 0 where
  idle confirming : Stage
  allocated : ℕ → Stage
  begun reserved : (nonce hash : ℕ) → Stage

pub record Sent : Type 0 where
  pub nonce : ℕ
  pub hash : ℕ

-- `sent` has what the node was given, the latest first.
pub record World : Type 0 where
  pub disk : Disk
  pub stage : Stage
  pub sent : List Sent

pub data Event : Type 0 where
  -- any task refreshes
  refreshes : Replies → Event
  -- `next`
  allocates : Replies → Event
  -- `Store::begin` with the hash of the signed transaction, or the checks before it fail
  begins : (hash now : ℕ) → Event
  gives_up : Event
  -- `prepared`
  reserves : (now : ℕ) → Event
  -- the transaction goes to the node, which may or may not answer
  broadcasts : Event
  -- a confirmed receipt is seen; then `confirmed` makes its two writes
  confirms : (hash : ℕ) → Event
  finishes : Event
  -- the process stops and starts again
  restarts : Event

abbrev pub operation_of : NonceManager → (nonce hash now : ℕ) → Operation
operation_of m nonce hash now = record {
  evm = true;
  owner = some m.owner;
  nonce = some nonce;
  hash = some hash;
  prepared_ms = some now;
  replacements = absent;
}

-- The node has a receipt only for what it was given, and `wait_receipt` looks only for the hashes of the
-- pending operation.
abbrev pub has_receipt : ℕ → List Sent → Bool
has_receipt hash sent = any (λ s. s.hash == hash) sent

abbrev pub found : ℕ → Result (List ℕ) → Bool
found hash (ok known) = any (λ h. h == hash) known
found hash (err message) = false

abbrev pub looked_for : ℕ → Option Operation → Bool
looked_for hash none = true
looked_for hash (some op) = found hash (hashes op)

-- A step of the flow, by where it stands; a step out of order changes nothing.
abbrev pub allocated_by : Result ℕ → Stage
allocated_by (ok nonce) = allocated nonce
allocated_by (err message) = idle

abbrev pub allocate : NonceManager → Replies → Stage → World → World
allocate m replies idle w =
    let (disk, nonce) = next m replies w.disk in
    record w { disk = disk; stage = allocated_by nonce }
allocate m replies _ w = w

abbrev pub started : World → ℕ → ℕ → Result Disk → World
started w nonce hash (ok disk) = record w { disk = disk; stage = begun nonce hash }
started w nonce hash (err message) = record w { stage = idle }

abbrev pub begin_send : NonceManager → ℕ → ℕ → Stage → World → World
begin_send m hash now (allocated nonce) w =
    started w nonce hash (begin_operation (operation_of m nonce hash now) w.disk)
begin_send m hash now _ w = w

abbrev pub give_up : Stage → World → World
give_up (allocated nonce) w = record w { stage = idle }
give_up _ w = w

abbrev pub reserved_with : World → ℕ → ℕ → Result NonceState → World
reserved_with w nonce hash (ok state) = record w {
  disk = save w.disk (ok state);
  stage = reserved nonce hash;
}
reserved_with w nonce hash (err message) = record w { stage = idle }

abbrev pub reserve : NonceManager → ℕ → Stage → World → World
reserve m now (begun nonce hash) w = reserved_with w nonce hash (prepared m nonce hash now w.disk)
reserve m now _ w = w

abbrev pub broadcast : Stage → World → World
broadcast (reserved nonce hash) w = record w {
  stage = idle;
  sent = (record { nonce = nonce; hash = hash }) ∷ w.sent;
}
broadcast _ w = w

abbrev pub confirmed_with : World → Result NonceState → World
confirmed_with w (ok state) = record w { disk = save w.disk (ok state); stage = confirming }
confirmed_with w (err message) = w

abbrev pub confirm : NonceManager → ℕ → Stage → World → World
confirm m hash idle w =
    if has_receipt hash w.sent && looked_for hash w.disk.pending_file
    then confirmed_with w (confirmed m hash w.disk)
    else w
confirm m hash _ w = w

abbrev pub finish_confirm : Stage → World → World
finish_confirm confirming w = record w { disk = finish_operation w.disk; stage = idle }
finish_confirm _ w = w

unfoldable pub step : NonceManager → World → Event → World
step m w (refreshes replies) = record w { disk = save w.disk (refresh m replies w.disk) }
step m w (allocates replies) = allocate m replies w.stage w
step m w (begins hash now) = begin_send m hash now w.stage w
step m w gives_up = give_up w.stage w
step m w (reserves now) = reserve m now w.stage w
step m w broadcasts = broadcast w.stage w
step m w (confirms hash) = confirm m hash w.stage w
step m w finishes = finish_confirm w.stage w
step m w restarts = record w { stage = idle }

unfoldable pub run : NonceManager → World → List Event → World
run m w [] = w
run m w (e ∷ es) = run m (step m w e) es
