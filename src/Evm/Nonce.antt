-- ===== src/Evm/Nonce.antt =====
-- src/evm/nonce.rs: the life of a nonce, from the node's answer to the confirmed receipt. Addresses and
-- hashes, which the code compares as hexadecimal text, are the numbers that the text denotes. A field of
-- a JSON value that the code reads with `as_str` or `as_u64` is an `Option`.
pub mod Sender
pub mod Floor
pub mod Serial
pub mod Recovery
mod Examples
use lp_maker.Base.{
  ℕ, ◌+◌, max, Bool, true, false, ◌&&◌, not, Option, none, some, List, [], ◌∷◌, ◌++◌, Result, ok,
  err, ◌>>=◌, ◌>>◌, ensure, context, leb, ◌==◌, any, is_none, checked_add, u64_max, if◌then◌else◌,
  unwrap_or,
}

pub data Status : Type 0 where
  prepared_status unresolved : Status

-- The record of `inflight`.
pub record Inflight : Type 0 where
  pub nonce : ℕ
  pub hash : Option ℕ
  pub prepared_ms : ℕ
  pub status : Status

pub record NonceState : Type 0 where
  pub chain_id : ℕ
  pub owner : ℕ
  pub latest : ℕ
  pub pending : ℕ
  pub next_floor : ℕ
  pub checked_ms : ℕ
  pub inflight : Option Inflight

-- The field `replacements` of a pending operation: the hashes of its elements.
pub data Replacements : Type 0 where
  absent not_an_array : Replacements
  listed : List (Option ℕ) → Replacements

-- The fields of `pending.json` that are read here; `evm` says that the venue is.
pub record Operation : Type 0 where
  pub evm : Bool
  pub owner : Option ℕ
  pub nonce : Option ℕ
  pub hash : Option ℕ
  pub prepared_ms : Option ℕ
  pub replacements : Replacements

-- The two files of the store.
pub record Disk : Type 0 where
  pub nonce_file : Option NonceState
  pub pending_file : Option Operation

-- The node's answers to one refresh, decoded; `receipt` is whether the request for it went through.
pub record Replies : Type 0 where
  pub chain_id : Result ℕ
  pub latest : Result ℕ
  pub pending : Result ℕ
  pub receipt : Result (Unit {0})
  pub now : ℕ

pub record NonceManager : Type 0 where
  pub chain_id : ℕ
  pub owner : ℕ

replacement_hashes : Replacements → Result (List (Option ℕ))
replacement_hashes absent = ok []
replacement_hashes not_an_array = err "invalid replacements"
replacement_hashes (listed hashes) = ok hashes

-- Every value has to be a hash; `message` is for the first of them.
all_hashes : List (Option ℕ) → Result (List ℕ)
all_hashes [] = ok []
all_hashes (value ∷ rest) = do
  hash ← context value "replacement hash"
  others ← all_hashes rest
  ok (hash ∷ others)

distinct : List ℕ → List ℕ → Result (List ℕ)
distinct out [] = ok out
distinct out (hash ∷ rest) = do
  ensure (not (any (λ h. h == hash) out)) "duplicate transaction hash in pending state"
  distinct (out ++ hash ∷ []) rest

unfoldable pub hashes : Operation → Result (List ℕ)
unfolding replacement_hashes all_hashes distinct
hashes op = do
  root ← context op.hash "pending hash"
  extra ← replacement_hashes op.replacements
  others ← all_hashes extra
  distinct [] (root ∷ others)

unfoldable pub observe : NonceState → ℕ → ℕ → ℕ → Result NonceState
observe s latest pending now = do
  ensure (leb latest pending) "inconsistent RPC nonce snapshot"
  ok (record s {
    latest = latest;
    pending = pending;
    next_floor = max s.next_floor latest;
    checked_ms = now;
  })

unfoldable pub available : NonceState → Result ℕ
available s = do
  ensure (is_none s.inflight) "local transaction unresolved; reconcile before sending"
  ensure (s.pending == s.latest) "external pending transactions; nonce allocation blocked"
  ensure (leb s.next_floor s.latest)
      "RPC nonce regressed or submitted nonce unresolved; do not reuse nonce"
  ok s.latest

abbrev pub fresh_state : NonceManager → NonceState
fresh_state m = record {
  chain_id = m.chain_id;
  owner = m.owner;
  latest = 0;
  pending = 0;
  next_floor = 0;
  checked_ms = 0;
  inflight = none;
}

unfoldable pub load : NonceManager → Disk → Result NonceState
load m disk =
    let s = unwrap_or disk.nonce_file (fresh_state m) in
    ensure ((s.chain_id == m.chain_id) && (s.owner == m.owner))
      "nonce state belongs to another chain/wallet"
    >> ok s

abbrev pub is_owner : NonceManager → Option ℕ → Bool
is_owner m none = false
is_owner m (some owner) = owner == m.owner

-- An operation of the EVM that is on disk raises the floor, and is in flight.
unfoldable pub recover : NonceManager → ℕ → Option Operation → NonceState → Result NonceState
recover m now none s = ok s
recover m now (some op) s =
    if op.evm
    then ensure (is_owner m op.owner) "pending signer mismatch"
      >> (context op.nonce "pending nonce" >>= λ n.
          context (checked_add u64_max n 1) "nonce overflow" >>= λ next. ok (record s {
            next_floor = max s.next_floor next;
            inflight =
                if is_none s.inflight
                then some (record {
                  nonce = n;
                  hash = op.hash;
                  prepared_ms = unwrap_or op.prepared_ms now;
                  status = unresolved;
                })
                else s.inflight;
          }))
    else ok s

-- The receipt of what is in flight is asked for, to log its age.
unfoldable pub check_inflight : Replies → Option Inflight → Result (Unit {0})
check_inflight replies none = ok tt
check_inflight replies (some op) = context op.hash "inflight hash" >>= λ _. replies.receipt

-- The state that is written and returned.
unfoldable pub refresh : NonceManager → Replies → Disk → Result NonceState
refresh m replies disk = do
  chain_id ← replies.chain_id
  ensure (chain_id == m.chain_id) "nonce refresh chain mismatch"
  latest ← replies.latest
  pending ← replies.pending
  loaded ← load m disk
  observed ← observe loaded latest pending replies.now
  state ← recover m replies.now disk.pending_file observed
  check_inflight replies state.inflight
  ok state

-- The file as a call leaves it.
unfoldable pub save : Disk → Result NonceState → Disk
save disk (ok state) = record disk { nonce_file = some state }
save disk (err message) = disk

abbrev pub refreshed : Disk → Result NonceState → Disk × Result ℕ
refreshed disk state = (save disk state, (state >>= available))

-- The files as a call leaves them, and the nonce.
unfoldable pub next : NonceManager → Replies → Disk → Disk × Result ℕ
unfolding available
next m replies disk =
    if is_none disk.pending_file
    then refreshed disk (refresh m replies disk)
    else (disk, err "unresolved operation; reconcile before nonce allocation")

abbrev pub reserved_by : ℕ → Option Inflight → Bool
reserved_by hash none = true
reserved_by hash (some op) = same_hash op.hash
  where
    same_hash : Option ℕ → Bool
    same_hash none = false
    same_hash (some h) = h == hash

-- The state that is written.
unfoldable pub prepared : NonceManager → ℕ → ℕ → ℕ → Disk → Result NonceState
prepared m nonce hash now disk = do
  state ← load m disk
  ensure (reserved_by hash state.inflight) "another nonce already reserved"
  above ← context (checked_add u64_max nonce 1) "nonce overflow"
  ok (record state {
    next_floor = max state.next_floor above;
    inflight =
        some
          (record { nonce = nonce; hash = some hash; prepared_ms = now; status = prepared_status });
  })

abbrev pub same_number : Option ℕ → Option ℕ → Bool
same_number none none = true
same_number none (some b) = false
same_number (some a) none = false
same_number (some a) (some b) = a == b

unfoldable pub check_reserved : Option Inflight → Option Operation → ℕ → Result (Unit {0})
check_reserved none file hash = ok tt
check_reserved (some op) file hash = do
  pending ← context file "missing pending operation"
  ensure (same_number pending.hash op.hash && same_number pending.nonce (some op.nonce))
      "reserved operation mismatch"
  known ← hashes pending
  ensure (any (λ h. h == hash) known) "receipt does not match reserved nonce"

-- The state that is written before the pending operation is removed.
unfoldable pub confirmed : NonceManager → ℕ → Disk → Result NonceState
confirmed m hash disk = do
  state ← load m disk
  check_reserved state.inflight disk.pending_file hash
  ok (record state { inflight = none })

-- `Store::begin`, on a disk with room.
unfoldable pub begin_operation : Operation → Disk → Result Disk
begin_operation op disk = do
  ensure (is_none disk.pending_file) "unresolved operation: run reconcile before any new mutation"
  ok (record disk { pending_file = some op })

-- `Store::finish`.
unfoldable pub finish_operation : Disk → Disk
finish_operation disk = record disk { pending_file = none }
