-- ===== src/Engine/EntryRearm.antt =====
-- src/engine/entry_rearm.rs: the permit with which an operator waives the waiting of one entry. `bound` is
-- the hash of this configuration, `live` its mode.
pub mod Once
pub mod Passes
mod Examples
use lp_maker.Base.{
  ℕ, String, Bool, true, false, ◌&&◌, ◌||◌, not, Option, none, some, List, [], ◌∷◌, ◌++◌, Result,
  ok, err, ◌>>=◌, ◌>>◌, ensure, context, ◌==◌, all, is_empty, if◌then◌else◌, select,
}
use text.Mathlib.Text.{◌==◌ as str_eq}
use lp_maker.Float.{F64, ◌≤f◌}
use lp_maker.Domain.{MarketFrame, Portfolio, LpIntent, hold, exit_to_quote, deploy, recenter}
use lp_maker.Strategy.State.{
  Strategy, StrategyConfig, Phase, EntryHistory, initial, Decision, Reason, initial_entry_waived,
  initial_entry_passed, manual_entry_rearm, is_paused, is_halted,
}
use lp_maker.Strategy.Eth.Evaluate.{evaluate_with_continuity}

pub data Status : Type 0 where
  armed consumed canceled : Status

pub record Permit : Type 0 where
  pub schema : ℕ  -- u32
  pub id : String
  pub binding : String
  pub requested_ms : ℕ
  pub status : Status
  pub updated_ms : ℕ

-- The files: the permit; whether `pending.json`, `workflow.json` and `hedge_order.json` hold something; the
-- field `terminal` of each order.
pub record RearmStore : Type 0 where
  pub permit : Option Permit
  pub pending : Bool
  pub workflow : Bool
  pub hedge_order : Bool
  pub orders : List Bool

abbrev pub is_armed : Status → Bool
is_armed armed = true
is_armed _ = false

abbrev pub is_deploy {ℓ} : {W : Type ℓ} → LpIntent W → Bool
is_deploy (deploy fraction) = true
is_deploy _ = false

-- The reason does not start with `initial_entry:`.
abbrev pub is_kept : Reason → Bool
is_kept initial_entry_waived = false
is_kept initial_entry_passed = false
is_kept _ = true

pub record Asked {ℓ} (W : Type ℓ) : Type ℓ where
  pub store : RearmStore
  pub strategy : Strategy W
  pub decision : Decision W

unfoldable pub read_permit : String → RearmStore → Result (Option Permit)
read_permit bound store = elim store.permit [
  | none ↦ ok none
  | some p ↦
      ensure ((p.schema == 1) && str_eq p.binding bound)
        "entry rearm belongs to another configuration or schema"
      >> ok (some p)
]

unfoldable pub settled : RearmStore → Result (Unit {0})
settled store = do
  ensure (not store.pending && not store.workflow && not store.hedge_order) "unresolved workflow"
  ensure (all (λ terminal. terminal) store.orders) "unresolved orders"

unfoldable pub write_permit : RearmStore → Permit → RearmStore
write_permit store p = record store { permit = some p }

unfoldable pub set_status : Permit → Status → ℕ → Permit
set_status p status now = record p { status = status; updated_ms = now }

-- The first reason that names a permit.
abbrev pub permit_of : List Reason → Option String
permit_of [] = none
permit_of (manual_entry_rearm id ∷ rest) = some id
permit_of (_ ∷ rest) = permit_of rest

-- The permit with this identifier, used up.
unfoldable pub use_permit : String → String → ℕ → RearmStore → Result RearmStore
unfolding write_permit set_status
use_permit bound id now store = do
  found ← read_permit bound store
  p ← context found "missing entry rearm permit"
  ensure (str_eq p.id id && is_armed p.status) "entry rearm already consumed or replaced"
  ok (write_permit store (set_status p consumed now))

-- The store after `consume`.
unfoldable pub consume {ℓ} : {W : Type ℓ} → String → ℕ → RearmStore → Decision W → Result RearmStore
consume bound now store d =
    if is_deploy d.lp
    then elim (permit_of d.reasons) [ none ↦ ok store | some id ↦ use_permit bound id now store ]
    else ok store

-- What the trial decides, with the permit in place of the reason of a first entry.
abbrev pub named {ℓ} : {W : Type ℓ} → String → Decision W → Decision W
named id d =
    if is_deploy d.lp
    then record d { reasons = select is_kept d.reasons ++ manual_entry_rearm id ∷ [] }
    else d

module _ {ℓ} {W : Type ℓ} ⦃f : F64 W⦄ where
  unfoldable pub flat : Portfolio W → Bool
  flat p =
      is_empty p.positions
      && f.is_finite p.wallet_base
      && f.is_finite p.short_base
      && (f.abs p.wallet_base ≤f f.decimal 1 8)
      && (f.abs p.short_base ≤f f.decimal 1 8)

  -- `arm`; `id` is the new identifier. The backup of the checkpoint is not written here.
  unfoldable pub arm :
      Bool
      → String
      → String
      → ℕ
      → Bool
      → RearmStore
      → Strategy W
      → Portfolio W
      → Result (RearmStore × Permit)
  unfolding write_permit
  arm live bound id now checkpoint_valid store s actual = do
    ensure live "entry rearm is an EVM live operator action"
    ensure (is_paused s.phase) "entry rearm requires Paused; Halted is never reset"
    ensure (flat actual) "inventory is not flat"
    settled store
    found ← read_permit bound store
    rearm found
    where
      fresh : Permit
      fresh = record {
        schema = 1;
        id = id;
        binding = bound;
        requested_ms = now;
        status = armed;
        updated_ms = now;
      }

      issue : Result (RearmStore × Permit)
      issue =
          ensure checkpoint_valid "invalid live checkpoint" >> ok (write_permit store fresh, fresh)

      rearm : Option Permit → Result (RearmStore × Permit)
      rearm none = issue
      rearm (some p) = if is_armed p.status then ok (store, p) else issue

  module _ (c : StrategyConfig W) (frame : MarketFrame W) where
    abbrev pub ordinary : RearmStore → Strategy W → Asked W
    ordinary store s =
        let r = evaluate_with_continuity c frame s in
        record { store = store; strategy = r.strategy; decision = r.decision }

    -- The strategy is asked as if it had never entered, and gets its history back.
    unfoldable pub trial : Permit → ℕ → RearmStore → Strategy W → Asked W
    unfolding write_permit set_status
    trial p now store s =
        let r = evaluate_with_continuity c frame (record s { entry_history = initial }) in
        record {
          store =
              if is_halted r.strategy.phase
              then write_permit store (set_status p canceled now)
              else store;
          strategy = record r.strategy { entry_history = s.entry_history };
          decision = named p.id r.decision;
        }

    unfoldable pub evaluate_armed : Bool → ℕ → RearmStore → Strategy W → Permit → Result (Asked W)
    unfolding write_permit set_status
    evaluate_armed live now store s p =
        ensure live "entry rearm cannot be used in paper mode"
        >> (if not (is_paused s.phase) || not (flat frame.portfolio)
            then ok (ordinary (write_permit store (set_status p canceled now)) s)
            else settled store >> ok (trial p now store s))

    abbrev pub with_permit : Bool → ℕ → RearmStore → Strategy W → Option Permit → Result (Asked W)
    with_permit live now store s none = ok (ordinary store s)
    with_permit live now store s (some p) =
        if is_armed p.status then evaluate_armed live now store s p else ok (ordinary store s)

    unfoldable pub ask : Bool → String → ℕ → RearmStore → Strategy W → Result (Asked W)
    ask live bound now store s =
        read_permit bound store >>= λ found. with_permit live now store s found
