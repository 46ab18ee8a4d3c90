-- ===== src/Recovery.antt =====
-- src/recovery.rs: the entry history that a restart restores, and the waiting that an interrupted workflow
-- starts. The files are a record; a time is an argument.
pub mod Restart
mod Examples
use lp_maker.Base.{
  ℕ, String, Bool, true, false, ◌&&◌, ◌||◌, not, Option, none, some, List, [], ◌∷◌, Result, ok, err,
  ◌>>=◌, ◌>>◌, ensure, any, is_empty, if◌then◌else◌,
}
use text.Mathlib.Text.{◌==◌ as str_eq}
use lp_maker.Float.{F64, ◌≤f◌, lit}
use lp_maker.Domain.{Portfolio}
use lp_maker.Strategy.State.{
  Strategy, EntryHistory, initial, established, legacy_unknown, Phase, paused, active, recovering,
  is_halted, is_warmup, is_recovering, observe_lp, clear_streaks, workflow_or_inventory_changed,
}
use lp_maker.Strategy.Progress.{freeze_recovery_progress, reset_healthy_progress}

-- `lp_history.json`: absent, or the field `ever_opened` is `true` or something else.
pub data Marker : Type 0 where
  unmarked opened broken : Marker

-- `nfts` says that `nfts.json` holds an entry; the others that the file holds something.
pub record RecoveryStore : Type 0 where
  pub marker : Marker
  pub nfts : Bool
  pub pending : Bool
  pub workflow : Bool

-- The entry history and the marker.
pub record Restored : Type 0 where
  pub history : EntryHistory
  pub marker : Marker

abbrev pub is_established : EntryHistory → Bool
is_established established = true
is_established _ = false

abbrev pub is_legacy : EntryHistory → Bool
is_legacy legacy_unknown = true
is_legacy _ = false

unfoldable pub record_lp_history : Marker → Result Marker
record_lp_history unmarked = ok opened
record_lp_history opened = ok opened
record_lp_history broken = err "invalid LP history marker"

-- The history by the marker on disk.
abbrev pub history_by : Marker → EntryHistory → Phase → Result Restored
history_by opened history phase = ok (record { history = established; marker = opened })
history_by broken history phase = err "invalid LP history marker"
history_by unmarked history phase = ok (record {
  history = if is_legacy history && is_warmup phase then initial else history;
  marker = unmarked;
})

unfoldable pub restore_entry_history : RecoveryStore → EntryHistory → Phase → Result Restored
restore_entry_history store history phase = do
  marker ←
      if store.nfts || is_established history
      then record_lp_history store.marker
      else ok store.marker
  history_by marker history phase

abbrev pub is_missing : List String → String → Bool
is_missing actual_layers name = not (any (λ layer. str_eq layer name) actual_layers)

abbrev pub is_running : Phase → Bool
is_running active = true
is_running recovering = true
is_running _ = false

module _ {ℓ} {W : Type ℓ} where
  unfoldable pub invalidate_observation_streaks : ℕ → Strategy W → Strategy W
  invalidate_observation_streaks now s =
      let reset = reset_healthy_progress s now workflow_or_inventory_changed in
      let progress = reset.recovery_progress in
      record reset {
        recovery_progress = record progress { anchor = none; observed_ms = 0 };
        layers = clear_streaks reset.layers;
      }

  unfoldable pub prepare_observation_revalidation : Strategy W → Strategy W
  prepare_observation_revalidation s =
      let frozen = freeze_recovery_progress s in
      record frozen { layers = clear_streaks frozen.layers }

module _ {ℓ} {W : Type ℓ} ⦃f : F64 W⦄ where
  unfoldable pub finish_workflow_recovery : ℕ → Strategy W → Strategy W
  finish_workflow_recovery now s =
      let s' = if is_halted s.phase then s else record s { phase = paused; pause_since = now } in
      invalidate_observation_streaks now (record s' { fraction = lit 0 })

  -- `layers` are the names of the configured layers. The strategy, and whether it was paused.
  unfoldable pub pause_incomplete_inventory :
      ℕ → List String → List String → Strategy W → Strategy W × Bool
  pause_incomplete_inventory now actual_layers layers s =
      if is_running s.phase && any (is_missing actual_layers) layers
      then (
        invalidate_observation_streaks now
            (record s { phase = paused; pause_since = now; fraction = lit 0 }),
        true,
      )
      else (s, false)

  unfoldable pub is_flat : Portfolio W → Bool
  is_flat p =
      is_empty p.positions
      && (f.abs p.wallet_base ≤f f.decimal 1 8)
      && (f.abs p.short_base ≤f f.decimal 1 8)

  -- The history after `confirm_first_entry`, and what it returns.
  unfoldable pub confirm_restored :
      RecoveryStore → Phase → Portfolio W → Restored → Result (Restored × Bool)
  confirm_restored store phase p restored =
      if not (is_legacy restored.history) || is_halted phase
      then ok (restored, false)
      else ensure (not store.pending && not store.workflow)
          "first entry requires completed transaction/workflow reconciliation"
        >> (ensure (is_flat p) "first entry confirmation requires flat reconciled inventory"
            >> ok (record restored { history = initial }, true))

  unfoldable pub confirm_first_entry :
      RecoveryStore → Strategy W → Portfolio W → Result (Restored × Bool)
  confirm_first_entry store s p =
      restore_entry_history store (observe_lp s (not (is_empty p.positions))).entry_history s.phase
      >>= confirm_restored store s.phase p
