-- ===== src/Evm/Nonce/Serial/Invariant.antt =====
-- What holds of the nonces that were sent, between any two writes of the flow of `Sender`.
use lp_maker.Base.{ℕ, ◌≤◌, ◌<◌, ◌≡◌, refl, List, [], ◌∷◌, Result, ok, err, arith}
use lp_maker.Evm.Nonce.{NonceState, save}
use lp_maker.Evm.Nonce.Sender.{Stage, idle, confirming, allocated, begun, reserved, Sent, World}
use lp_maker.Evm.Nonce.Floor.{floor_of}

-- Each nonce is above the one before it.
abbrev pub Rising : List Sent → Type 0
Rising [] = Unit
Rising (x ∷ []) = Unit
Rising (x ∷ y ∷ rest) = (y.nonce < x.nonce) × Rising (y ∷ rest)

-- What is sent is below a nonce.
abbrev pub Below : ℕ → List Sent → Type 0
Below n [] = Unit
Below n (x ∷ rest) = x.nonce < n

abbrev pub StageHolds : ℕ → List Sent → Stage → Type 0
StageHolds low sent (allocated nonce) = Below nonce sent
StageHolds low sent (begun nonce hash) = Below nonce sent
StageHolds low sent (reserved nonce hash) = Below nonce sent × (nonce < low)
StageHolds low sent _ = Unit

pub record Inv (w : World) : Type 0 where
  pub rising : Rising w.sent
  pub below : Below (floor_of w.disk.nonce_file) w.sent
  pub stage : StageHolds (floor_of w.disk.nonce_file) w.sent w.stage

pub Below-≤ : (a b : ℕ) (sent : List Sent) → a ≤ b → Below a sent → Below b sent
Below-≤ a b [] h v = tt
Below-≤ a b (x ∷ rest) h v = omega arith

pub StageHolds-≤ :
    (a b : ℕ) (sent : List Sent) (s : Stage) → a ≤ b → StageHolds a sent s → StageHolds b sent s
StageHolds-≤ a b sent idle h v = tt
StageHolds-≤ a b sent confirming h v = tt
StageHolds-≤ a b sent (allocated nonce) h v = v
StageHolds-≤ a b sent (begun nonce hash) h v = v
StageHolds-≤ a b sent (reserved nonce hash) h v = (v.0, omega arith)

-- A new state with a floor that is no lower keeps the invariant.
pub save-Inv :
    (w : World) (r : Result NonceState)
    → ((t : NonceState) → r ≡ ok t → floor_of w.disk.nonce_file ≤ t.next_floor)
    → Inv w
    → Inv (record w { disk = save w.disk r })
unfolding save
save-Inv w (err message) h v = v
save-Inv w (ok t) h v = record {
  rising = v.rising;
  below = Below-≤ _ t.next_floor w.sent (h t refl) v.below;
  stage = StageHolds-≤ _ t.next_floor w.sent w.stage (h t refl) v.stage;
}
