-- ===== src/Evm/Nonce/Recovery.antt =====
-- What an operation on disk means for the flow of `Sender`.
use lp_maker.Base.{
  ℕ, ◌<◌, ◌≡◌, refl, Bool, true, false, some, List, [], ◌∷◌, Result, ok, err, is_ok, ◌==◌, any,
  arith, >>=-eq-ok, >>-eq-ok, ensure-eq-ok, if_cases, is_none, ap,
}
use lp_maker.Evm.Nonce.{
  NonceManager, NonceState, Disk, Operation, Replies, load, observe, recover, check_inflight,
  available, refresh, save, next,
}
use lp_maker.Evm.Nonce.Sender.{
  idle, Sent, World, Event, refreshes, allocates, begins, gives_up, reserves, broadcasts, confirms,
  finishes, restarts, step, run,
}

abbrev Refuses : NonceState → Type 0
Refuses s = is_ok (available s) ≡ false

recover-Refuses :
    (m : NonceManager) (now n : ℕ) (op : Operation) (s t : NonceState)
    → op.evm ≡ true
    → op.nonce ≡ some n
    → recover m now (some op) s ≡ ok t
    → (is_ok (available t) ≡ false) × (n < t.next_floor)
unfolding recover available
recover-Refuses m now n op s t e k h = ground arith

-- The writes of a send may stop between the operation and the reserved nonce. A refresh that succeeds with
-- an EVM operation on disk puts the floor above the nonce of that operation, and its state gives no
-- nonce.
refresh-recovers :
    (m : NonceManager) (r : Replies) (disk : Disk) (op : Operation) (n : ℕ) (t : NonceState)
    → disk.pending_file ≡ some op
    → op.evm ≡ true
    → op.nonce ≡ some n
    → refresh m r disk ≡ ok t
    → (is_ok (available t) ≡ false) × (n < t.next_floor)
unfolding refresh
refresh-recovers m r disk op n t there evm k h =
    let (chain, _, h₁) = >>=-eq-ok r.chain_id _ h in
    let (_, h₂) = ensure-eq-ok (chain == m.chain_id) _ _ h₁ in
    let (latest, _, h₃) = >>=-eq-ok r.latest _ h₂ in
    let (pending, _, h₄) = >>=-eq-ok r.pending _ h₃ in
    let (loaded, _, h₅) = >>=-eq-ok (load m disk) _ h₄ in
    let (observed, _, h₆) = >>=-eq-ok (observe loaded latest pending r.now) _ h₅ in
    let (state, p, h₇) = >>=-eq-ok (recover m r.now disk.pending_file observed) _ h₆ in
    let (_, h₈) = >>-eq-ok (check_inflight r state.inflight) _ h₇ in
    let same : state ≡ t = cc in
    let p' : recover m r.now (some op) observed ≡ ok t = cc in
    recover-Refuses m r.now n op observed t evm k p'

abbrev pub is_confirm : Event → Bool
is_confirm (confirms hash) = true
is_confirm _ = false

-- Nothing was sent since, the operation is still there, and no send is under way.
pub record Stuck (op : Operation) (old : List Sent) (w : World) : Type 0 where
  pub there : w.disk.pending_file ≡ some op
  pub resting : w.stage ≡ idle
  pub unsent : w.sent ≡ old

pending_file-save :
    (disk : Disk) (r : Result NonceState) → (save disk r).pending_file ≡ disk.pending_file
unfolding save
pending_file-save disk (ok t) = refl
pending_file-save disk (err message) = refl

at_rest :
    {op : Operation} {old : List Sent} {w : World}
    → Stuck op old w
    → Stuck op old (record w { stage = idle })
at_rest v = record { there = v.there; resting = refl; unsent = v.unsent }

-- With an operation on disk, no nonce is given, and nothing is written.
next-refuses :
    (m : NonceManager) (r : Replies) (disk : Disk) (op : Operation)
    → disk.pending_file ≡ some op
    → next m r disk ≡ (disk, err "unresolved operation; reconcile before nonce allocation")
unfolding next
next-refuses m r disk op there =
    if_cases
      (λ (o : Disk × Result ℕ).
        o ≡ (disk, err "unresolved operation; reconcile before nonce allocation"))
      (is_none disk.pending_file) (λ e. cc (ap is_none there)) (λ _. refl)

step-Stuck :
    (m : NonceManager) (op : Operation) (old : List Sent) (w : World) (e : Event)
    → is_confirm e ≡ false
    → Stuck op old w
    → Stuck op old (step m w e)
unfolding step
step-Stuck m op old w (refreshes r) n v = record {
  there = cc (pending_file-save w.disk (refresh m r w.disk), v.there);
  resting = v.resting;
  unsent = v.unsent;
}
step-Stuck m op old w (allocates r) n v =
    rw (v.resting, next-refuses m r w.disk op v.there)
      (record { there = v.there; resting = refl; unsent = v.unsent })
step-Stuck m op old w (begins hash now) n v = rw v.resting (at_rest v)
step-Stuck m op old w gives_up n v = rw v.resting (at_rest v)
step-Stuck m op old w (reserves now) n v = rw v.resting (at_rest v)
step-Stuck m op old w broadcasts n v = rw v.resting (at_rest v)
step-Stuck m op old w (confirms hash) n v = cc
step-Stuck m op old w finishes n v = rw v.resting (at_rest v)
step-Stuck m op old w restarts n v = at_rest v

run-Stuck :
    (m : NonceManager) (op : Operation) (old : List Sent) (w : World) (es : List Event)
    → any is_confirm es ≡ false
    → Stuck op old w
    → Stuck op old (run m w es)
unfolding run
run-Stuck m op old w [] n v = v
run-Stuck m op old w (e ∷ es) n v =
    run-Stuck m op old (step m w e) es (ground arith) (step-Stuck m op old w e (ground arith) v)

-- After a restart with an operation on disk, and as long as no receipt is confirmed, the flow of `send`
-- sends nothing more and the operation stays, however often the node is asked and the process starts
-- again; the operator's replacement of an approval, which sends the same call again, is not part of it.
pub restarts-Stuck :
    (m : NonceManager) (w : World) (op : Operation) (es : List Event)
    → w.disk.pending_file ≡ some op
    → any is_confirm es ≡ false
    → Stuck op w.sent (run m (step m w restarts) es)
unfolding step
restarts-Stuck m w op es there none_confirmed =
    run-Stuck m op w.sent _ es none_confirmed
      (record { there = there; resting = refl; unsent = refl })
