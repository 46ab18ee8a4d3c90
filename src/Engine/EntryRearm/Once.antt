-- ===== src/Engine/EntryRearm/Once.antt =====
-- What a used permit of src/engine/entry_rearm.rs still does.
use lp_maker.Base.{
  ℕ, String, ◌≡◌, refl, Bool, true, false, ◌&&◌, some, ok, is_ok, arith, >>=-eq-ok, ensure-eq-ok,
  context-eq-ok,
}
use text.Mathlib.Text.{◌==◌ as str_eq}
use lp_maker.Float.{F64}
use lp_maker.Domain.{MarketFrame}
use lp_maker.Strategy.State.{Strategy, StrategyConfig, Decision}
use lp_maker.Engine.EntryRearm.{
  consumed, Permit, RearmStore, is_armed, is_deploy, read_permit, write_permit, set_status,
  permit_of, use_permit, consume, ordinary, ask,
}

-- The permit on disk is one of this configuration, and used.
pub record Used (bound : String) (store : RearmStore) : Type 0 where
  pub permit : Permit
  pub there : read_permit bound store ≡ ok (some permit)
  pub used : is_armed permit.status ≡ false

read_permit-consumed :
    (bound : String) (now : ℕ) (store : RearmStore) (p : Permit)
    → read_permit bound store ≡ ok (some p)
    → read_permit bound (write_permit store (set_status p consumed now))
      ≡ ok (some (set_status p consumed now))
unfolding read_permit write_permit set_status
read_permit-consumed bound now store p h = ground arith

use_permit-Used :
    (bound id : String) (now : ℕ) (store after : RearmStore)
    → use_permit bound id now store ≡ ok after
    → Used bound after
unfolding use_permit
use_permit-Used bound id now store after h =
    let (found, r, h₁) = >>=-eq-ok (read_permit bound store) _ h in
    let (p, there, h₂) = context-eq-ok found _ _ h₁ in
    let (_, h₃) = ensure-eq-ok (str_eq p.id id && is_armed p.status) _ _ h₂ in
    let same : write_permit store (set_status p consumed now) ≡ after = cc in
    let read : read_permit bound store ≡ ok (some p) = cc in
    record {
      permit = set_status p consumed now;
      there = cc (same, read_permit-consumed bound now store p read);
      used = unfold set_status in refl;
    }

Used-use_permit :
    (bound id : String) (now : ℕ) (store : RearmStore)
    → Used bound store
    → is_ok (use_permit bound id now store) ≡ false
unfolding use_permit
Used-use_permit bound id now store u = rw u.there (ground arith)

-- Once a permit is used, no decision that names a permit can be carried out, and the strategy is asked
-- in the ordinary way, so its waiting is waived no more. The store alone decides that, so it holds after
-- a restart too.
pub consume-Used :
    {W : Type 0} ⦃f : F64 W⦄ (bound id id' : String) (now later : ℕ) (store after : RearmStore)
    (d d' : Decision W) (c : StrategyConfig W) (frame : MarketFrame W) (live : Bool)
    (s : Strategy W)
    → is_deploy d.lp ≡ true
    → permit_of d.reasons ≡ some id
    → consume bound now store d ≡ ok after
    → is_deploy d'.lp ≡ true
    → permit_of d'.reasons ≡ some id'
    → (is_ok (consume bound later after d') ≡ false)
      × (ask c frame live bound later after s ≡ ok (ordinary c frame after s))
unfolding consume ask
consume-Used bound id id' now later store after d d' c frame live s enters names h enters' names' =
    let h₀ : use_permit bound id now store ≡ ok after = rw (← h) (rw (enters, names) refl) in
    let u = use_permit-Used bound id now store after h₀ in
    (rw (enters', names') (Used-use_permit bound id' later after u), rw (u.there, u.used) refl)
