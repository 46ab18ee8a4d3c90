-- ===== src/Evm/Nonce/Floor.antt =====
-- What the calls of src/evm/nonce.rs do to the floor that is on disk.
use lp_maker.Base.{
  ℕ, ◌≤◌, ◌<◌, ◌≡◌, ap, Bool, true, false, Option, none, some, ok, err, ◌>>=◌, if◌then◌else◌, leb,
  leb→le, ◌==◌, is_none, checked_add, u64_max, arith, >>=-eq-ok, >>-eq-ok, ensure-eq-ok,
  context-eq-ok,
}
use lp_maker.Evm.Nonce.{
  NonceManager, NonceState, Disk, Operation, Replies, load, observe, recover, check_inflight,
  available, refresh, next, refreshed, prepared, confirmed, check_reserved, reserved_by,
}

-- The floor on disk.
abbrev pub floor_of : Option NonceState → ℕ
floor_of none = 0
floor_of (some s) = s.next_floor

load_floor :
    (m : NonceManager) (disk : Disk) (s : NonceState)
    → load m disk ≡ ok s
    → s.next_floor ≡ floor_of disk.nonce_file
unfolding load
load_floor m disk s h = ground arith

observe_floor :
    (s : NonceState) (latest pending now : ℕ) (t : NonceState)
    → observe s latest pending now ≡ ok t
    → (s.next_floor ≤ t.next_floor) × (latest ≤ t.next_floor) × (t.latest ≡ latest)
unfolding observe
observe_floor s latest pending now t h = ground arith

recover_floor :
    (m : NonceManager) (now : ℕ) (op : Option Operation) (s t : NonceState)
    → recover m now op s ≡ ok t
    → s.next_floor ≤ t.next_floor
unfolding recover
recover_floor m now op s t h = ground arith

-- A refresh never lowers the floor.
pub refresh_floor :
    (m : NonceManager) (r : Replies) (disk : Disk) (t : NonceState)
    → refresh m r disk ≡ ok t
    → floor_of disk.nonce_file ≤ t.next_floor
unfolding refresh
refresh_floor m r disk t h =
    let (chain, _, h₁) = >>=-eq-ok r.chain_id _ h in
    let (_, h₂) = ensure-eq-ok (chain == m.chain_id) _ _ h₁ in
    let (latest, _, h₃) = >>=-eq-ok r.latest _ h₂ in
    let (pending, _, h₄) = >>=-eq-ok r.pending _ h₃ in
    let (loaded, l, h₅) = >>=-eq-ok (load m disk) _ h₄ in
    let (observed, o, h₆) = >>=-eq-ok (observe loaded latest pending r.now) _ h₅ in
    let (state, p, h₇) = >>=-eq-ok (recover m r.now disk.pending_file observed) _ h₆ in
    let (_, h₈) = >>-eq-ok (check_inflight r state.inflight) _ h₇ in
    let same : state ≡ t = cc in
    omega (
      arith,
      ap (λ x. x.next_floor) same,
      load_floor m disk loaded l,
      observe_floor loaded latest pending r.now observed o,
      recover_floor m r.now disk.pending_file observed state p,
    )

pub next_floor_of :
    (m : NonceManager) (r : Replies) (disk : Disk) (n : ℕ)
    → (next m r disk).1 ≡ ok n
    → floor_of disk.nonce_file ≤ n
unfolding next available
next_floor_of m r disk n h =
    let (t, e, h₂) = >>=-eq-ok (refresh m r disk) _ (nonce_of (is_none disk.pending_file) h) in
    let (_, h₃) = ensure-eq-ok (is_none t.inflight) _ _ h₂ in
    let (_, h₄) = ensure-eq-ok (t.pending == t.latest) _ _ h₃ in
    let (covers, h₅) = ensure-eq-ok (leb t.next_floor t.latest) _ _ h₄ in
    let same : t.latest ≡ n = cc in
    omega (arith, same, leb→le _ _ covers, refresh_floor m r disk t e)
  where
    nonce_of :
        (b : Bool)
        → (if b
            then refreshed disk (refresh m r disk)
            else (disk, err "unresolved operation; reconcile before nonce allocation")).1
          ≡ ok n
        → (refresh m r disk >>= available) ≡ ok n
    nonce_of true h = h
    nonce_of false h = cc

pub prepared_floor :
    (m : NonceManager) (nonce hash now : ℕ) (disk : Disk) (t : NonceState)
    → prepared m nonce hash now disk ≡ ok t
    → (floor_of disk.nonce_file ≤ t.next_floor) × (nonce < t.next_floor)
unfolding prepared
prepared_floor m nonce hash now disk t h =
    let (s, l, h₁) = >>=-eq-ok (load m disk) _ h in
    let (_, h₂) = ensure-eq-ok (reserved_by hash s.inflight) _ _ h₁ in
    let (above, a, h₃) = context-eq-ok (checked_add u64_max nonce 1) _ _ h₂ in
    ground (arith, load_floor m disk s l)

pub confirmed_floor :
    (m : NonceManager) (hash : ℕ) (disk : Disk) (t : NonceState)
    → confirmed m hash disk ≡ ok t
    → floor_of disk.nonce_file ≤ t.next_floor
unfolding confirmed
confirmed_floor m hash disk t h =
    let (s, l, h₁) = >>=-eq-ok (load m disk) _ h in
    let (_, h₂) = >>-eq-ok (check_reserved s.inflight disk.pending_file hash) _ h₁ in
    ground (arith, load_floor m disk s l)
