-- ===== src/Evm/Nonce/Serial.antt =====
-- The nonces that the flow of `Sender` sends, in their order.
mod Invariant
pub use Invariant.*
use lp_maker.Base.{
  ℕ, ◌≤◌, ◌<◌, ◌≡◌, refl, inl, inr, ◌&&◌, List, [], ◌∷◌, Result, ok, err, ◌>>=◌, is_none, arith,
  Bool-cases,
}
use lp_maker.Evm.Nonce.{
  NonceManager, NonceState, Disk, Replies, refresh, available, save, next, prepared, confirmed,
  begin_operation, finish_operation,
}
use lp_maker.Evm.Nonce.Sender.{
  Stage, idle, confirming, allocated, begun, reserved, Sent, World, Event, refreshes, allocates,
  begins, gives_up, reserves, broadcasts, confirms, finishes, restarts, step, run, allocated_by,
  has_receipt, looked_for, allocate, begin_send, give_up, reserve, broadcast, finish_confirm,
  confirm, confirmed_with, reserved_with,
}
use lp_maker.Evm.Nonce.Floor.{
  floor_of, refresh_floor, next_floor_of, prepared_floor, confirmed_floor,
}

at_stage :
    (w : World) (s : Stage)
    → Inv w
    → StageHolds (floor_of w.disk.nonce_file) w.sent s
    → Inv (record w { stage = s })
at_stage w s v h = record { rising = v.rising; below = v.below; stage = h }

allocate-Inv :
    (m : NonceManager) (r : Replies) (s : Stage) (w : World) → Inv w → Inv (allocate m r s w)
unfolding next
allocate-Inv m r idle w v = elim (Bool-cases (is_none w.disk.pending_file)) [
  | inr e ↦ rw e (at_stage w idle v tt)
  | inl e ↦ rw e (
      at_stage (record w { disk = save w.disk (refresh m r w.disk) }) _
        (save-Inv w (refresh m r w.disk) (refresh_floor m r w.disk) v)
        (got (refresh m r w.disk >>= available) (λ k h. next_floor_of m r w.disk k (rw e h))))
]
  where
    got :
        (n : Result ℕ)
        → ((k : ℕ) → n ≡ ok k → floor_of w.disk.nonce_file ≤ k)
        → StageHolds
            (floor_of (save w.disk (refresh m r w.disk)).nonce_file)
            w.sent
            (allocated_by n)
    got (err message) h = tt
    got (ok k) h = Below-≤ _ k w.sent (h k refl) v.below
allocate-Inv m r confirming w v = v
allocate-Inv m r (allocated nonce) w v = v
allocate-Inv m r (begun nonce hash) w v = v
allocate-Inv m r (reserved nonce hash) w v = v

begin_send-Inv :
    (m : NonceManager) (hash now : ℕ) (s : Stage) (w : World)
    → StageHolds (floor_of w.disk.nonce_file) w.sent s
    → Inv w
    → Inv (begin_send m hash now s w)
unfolding begin_operation
begin_send-Inv m hash now (allocated nonce) w h v =
    elim (Bool-cases (is_none w.disk.pending_file)) [
      | inl e ↦ rw e (record { rising = v.rising; below = v.below; stage = h })
      | inr e ↦ rw e (at_stage w idle v tt)
    ]
begin_send-Inv m hash now idle w h v = v
begin_send-Inv m hash now confirming w h v = v
begin_send-Inv m hash now (begun nonce hash') w h v = v
begin_send-Inv m hash now (reserved nonce hash') w h v = v

give_up-Inv : (s : Stage) (w : World) → Inv w → Inv (give_up s w)
give_up-Inv (allocated nonce) w v = at_stage w idle v tt
give_up-Inv idle w v = v
give_up-Inv confirming w v = v
give_up-Inv (begun nonce hash) w v = v
give_up-Inv (reserved nonce hash) w v = v

reserved_with-Inv :
    (w : World) (nonce hash : ℕ) (r : Result NonceState)
    → ((t : NonceState)
        → r ≡ ok t
        → (floor_of w.disk.nonce_file ≤ t.next_floor) × (nonce < t.next_floor))
    → Below nonce w.sent
    → Inv w
    → Inv (reserved_with w nonce hash r)
unfolding save
reserved_with-Inv w nonce hash (err message) h b v = at_stage w idle v tt
reserved_with-Inv w nonce hash (ok t) h b v = record {
  rising = v.rising;
  below = Below-≤ _ t.next_floor w.sent (h t refl).0 v.below;
  stage = (b, (h t refl).1);
}

reserve-Inv :
    (m : NonceManager) (now : ℕ) (s : Stage) (w : World)
    → StageHolds (floor_of w.disk.nonce_file) w.sent s
    → Inv w
    → Inv (reserve m now s w)
reserve-Inv m now (begun nonce hash) w h v =
    reserved_with-Inv w nonce hash (prepared m nonce hash now w.disk)
      (prepared_floor m nonce hash now w.disk) h v
reserve-Inv m now idle w h v = v
reserve-Inv m now confirming w h v = v
reserve-Inv m now (allocated nonce) w h v = v
reserve-Inv m now (reserved nonce hash) w h v = v

Rising-∷ : (x : Sent) (sent : List Sent) → Below x.nonce sent → Rising sent → Rising (x ∷ sent)
Rising-∷ x [] b v = tt
Rising-∷ x (y ∷ rest) b v = (b, v)

broadcast-Inv :
    (s : Stage) (w : World)
    → StageHolds (floor_of w.disk.nonce_file) w.sent s
    → Inv w
    → Inv (broadcast s w)
broadcast-Inv (reserved nonce hash) w h v = record {
  rising = Rising-∷ (record { nonce = nonce; hash = hash }) w.sent h.0 v.rising;
  below = h.1;
  stage = tt;
}
broadcast-Inv idle w h v = v
broadcast-Inv confirming w h v = v
broadcast-Inv (allocated nonce) w h v = v
broadcast-Inv (begun nonce hash) w h v = v

confirmed_with-Inv :
    (w : World) (r : Result NonceState)
    → ((t : NonceState) → r ≡ ok t → floor_of w.disk.nonce_file ≤ t.next_floor)
    → Inv w
    → Inv (confirmed_with w r)
confirmed_with-Inv w (err message) h v = v
confirmed_with-Inv w (ok t) h v = at_stage _ confirming (save-Inv w (ok t) h v) tt

confirm-Inv :
    (m : NonceManager) (hash : ℕ) (s : Stage) (w : World) → Inv w → Inv (confirm m hash s w)
confirm-Inv m hash idle w v =
    elim (Bool-cases (has_receipt hash w.sent && looked_for hash w.disk.pending_file)) [
      | inl e ↦
          rw e (confirmed_with-Inv w (confirmed m hash w.disk) (confirmed_floor m hash w.disk) v)
      | inr e ↦ rw e v
    ]
confirm-Inv m hash confirming w v = v
confirm-Inv m hash (allocated nonce) w v = v
confirm-Inv m hash (begun nonce hash') w v = v
confirm-Inv m hash (reserved nonce hash') w v = v

finish_confirm-Inv : (s : Stage) (w : World) → Inv w → Inv (finish_confirm s w)
unfolding finish_operation
finish_confirm-Inv confirming w v = record { rising = v.rising; below = v.below; stage = tt }
finish_confirm-Inv idle w v = v
finish_confirm-Inv (allocated nonce) w v = v
finish_confirm-Inv (begun nonce hash) w v = v
finish_confirm-Inv (reserved nonce hash) w v = v

step-Inv : (m : NonceManager) (w : World) (e : Event) → Inv w → Inv (step m w e)
unfolding step
step-Inv m w (refreshes r) v = save-Inv w (refresh m r w.disk) (refresh_floor m r w.disk) v
step-Inv m w (allocates r) v = allocate-Inv m r w.stage w v
step-Inv m w (begins hash now) v = begin_send-Inv m hash now w.stage w v.stage v
step-Inv m w gives_up v = give_up-Inv w.stage w v
step-Inv m w (reserves now) v = reserve-Inv m now w.stage w v.stage v
step-Inv m w broadcasts v = broadcast-Inv w.stage w v.stage v
step-Inv m w (confirms hash) v = confirm-Inv m hash w.stage w v
step-Inv m w finishes v = finish_confirm-Inv w.stage w v
step-Inv m w restarts v = at_stage w idle v tt

run-Inv : (m : NonceManager) (w : World) (es : List Event) → Inv w → Inv (run m w es)
unfolding run
run-Inv m w [] v = v
run-Inv m w (e ∷ es) v = run-Inv m (step m w e) es (step-Inv m w e v)

-- A wallet that has sent nothing yet, whatever its files hold.
abbrev pub unsent : Disk → World
unsent disk = record { disk = disk; stage = idle; sent = [] }

-- Whatever the node answers, however the refreshes fall between the writes of a send, and wherever the
-- process stops and starts again: each transaction that is sent has a higher nonce than every one sent
-- before it, so no nonce is used twice.
pub run-Rising :
    (m : NonceManager) (disk : Disk) (es : List Event) → Rising (run m (unsent disk) es).sent
run-Rising m disk es =
    (run-Inv m (unsent disk) es (record { rising = tt; below = tt; stage = tt })).rising
