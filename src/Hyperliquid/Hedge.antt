-- ===== src/Hyperliquid/Hedge.antt =====
-- src/hyperliquid/hedge.rs: open orders are cancelled and looked after, and an operation that was
-- interrupted is reconciled. What the exchange answers at each call is an argument; records of events and
-- log lines are left out.
pub mod Settled
pub mod Synced
use lp_maker.Base.{
  ℕ, zero, suc, Bool, true, false, ◌&&◌, ◌||◌, not, Option, none, some, is_none, is_some, List, [],
  ◌∷◌, String, Result, ok, err, ◌>>=◌, ◌>>◌, ensure, context, is_empty, if◌then◌else◌, unwrap_or,
  any,
}
use text.Mathlib.Text.{◌==◌ as str_eq}
use lp_maker.Hyperliquid.Json.{Json, is_text, is_number, names}
use lp_maker.Hyperliquid.Store.{Files, ArchivePolicy, Done}
use lp_maker.Hyperliquid.Journal.{terminal_status, prepare, intents, cloid_of}
use lp_maker.Hyperliquid.Journal.Reconcile.{is_found, managed_open_orders, not_submitted, compact}
use lp_maker.Hyperliquid.Recovery.{Answers, resolve, refresh, is_open}
use lp_maker.Hyperliquid.Exchange.{
  Disk, Gateway, Answer, accepted, rejected, failed, Course, exchange_inner, cancel_action,
  set_files, set_pending,
}

-- A step that may have written before it fails.
pub record Ran {ℓ} (V : Type ℓ) : Type ℓ where
  pub disk : Disk V
  pub result : Result (Unit {0})

-- What the exchange answers while one order is cancelled: before and after the cancellation, the number of
-- the asset, and what the cancellation itself meets.
pub record Cancelling {ℓ} (V : Type ℓ) : Type ℓ where
  pub before : Answers V
  pub asset : Result ℕ
  pub gateway : Gateway V
  pub later : Answers V
  pub now : ℕ

-- What one synchronization meets: three lists of open orders, what is answered about each order, and
-- about each that is cancelled.
pub record Syncing {ℓ} (V : Type ℓ) : Type ℓ where
  pub first_list : Result V
  pub second_list : Result V
  pub last_list : Result V
  pub status_of : String → Answers V
  pub cancelling : String → Cancelling V
  pub user : String
  pub coin : String
  pub now : ℕ
  pub policy : ArchivePolicy V

module _ {ℓ} {V : Type ℓ} where
  abbrev pub stop : String → Disk V → Ran V
  stop message d = record { disk = d; result = err message }

  abbrev pub finished : Disk V → Ran V
  finished d = record { disk = d; result = ok tt }

  -- `?` on a step.
  abbrev pub and_next : Disk V → Result (Unit {0}) → (Disk V → Ran V) → Ran V
  and_next d (err message) next = stop message d
  and_next d (ok _) next = next d

module _ {ℓ} {V : Type ℓ} ⦃j : Json V⦄ where
  abbrev pub is_final : V → Bool
  is_final after = elim (j.as_str (j.at (j.at after "order") "status")) [
    | none ↦ false
    | some status ↦ terminal_status status
  ]

  module _ (c : Cancelling V) (cloid : String) where
    abbrev pub confirm_final : Disk V → Result V → Ran V
    confirm_final d (err message) = stop message d
    confirm_final d (ok response) = record {
      disk = d;
      result = ensure (is_final response) "cancel/fill not confirmed";
    }

    unfoldable pub resolve_final : Disk V → Ran V
    unfolding resolve terminal_status
    resolve_final d =
        let r = resolve c.later c.now cloid true d.files in
        confirm_final (set_files d r.files) r.result

    -- A rejection may have raced a fill, unless an operation is left on disk.
    abbrev pub after_cancel : Disk V → Answer V → Ran V
    after_cancel d (accepted response) = resolve_final d
    after_cancel d (rejected message) =
        if is_some d.files.pending then stop message d else resolve_final d
    after_cancel d (failed message) = stop message d

    abbrev pub cancel : Disk V → Result ℕ → Ran V
    cancel d (err message) = stop message d
    cancel d (ok asset) =
        let course = exchange_inner c.gateway (cancel_action asset cloid) none d in
        after_cancel course.disk course.answer

    abbrev pub when_resolved : Disk V → Result V → Ran V
    when_resolved d (err message) = stop message d
    when_resolved d (ok status) =
        if is_found status && is_open status then cancel d c.asset else finished d

    unfoldable pub cancel_if_open : Disk V → Ran V
    unfolding resolve resolve_final exchange_inner
    cancel_if_open d =
        let r = resolve c.before c.now cloid false d.files in
        when_resolved (set_files d r.files) r.result

  module _ (e : Syncing V) where
    abbrev pub write_open : V → Disk V → Disk V
    write_open orders d = set_files d (
        let files = d.files in
        record files {
          open_orders = some (
              j.object (
                ("observed_ms", j.number e.now)
                ∷ ("user", j.text e.user)
                ∷ ("orders", orders)
                ∷ []));
        })

    unfoldable pub cancel_each : List String → Disk V → Ran V
    unfolding cancel_if_open
    cancel_each [] d = finished d
    cancel_each (id ∷ rest) d =
        let r = cancel_if_open (e.cancelling id) id d in and_next r.disk r.result (cancel_each rest)

    abbrev pub clear_and_compact : Disk V → Ran V
    clear_and_compact d =
        let cleared = set_files d (let files = d.files in record files { hedge_order = none }) in
        let after = compact e.policy cleared.files in
        record { disk = set_files cleared after.files; result = after.result }

    -- The list after the cancellations must be empty.
    abbrev pub check_rows : V → Disk V → Option (List V) → Ran V
    check_rows listed d none = stop "open orders response" d
    check_rows listed d (some rows) = if is_empty rows then clear_and_compact d else record {
      disk = d;
      result = managed_open_orders d.files listed e.coin >>= λ _.
          err "open orders remain after reconciliation; retry reads before further trading";
    }

    abbrev pub check_last : Disk V → Result V → Ran V
    check_last d (err message) = stop message d
    check_last d (ok listed) = check_rows listed (write_open listed d) (j.as_array listed)

    abbrev pub cancel_listed : Bool → Disk V → Result (List String) → Ran V
    cancel_listed recover_managed d (err message) = stop message d
    cancel_listed recover_managed d (ok ids) =
        if recover_managed || is_empty ids
        then (let r = cancel_each ids d in
            and_next r.disk r.result (λ d'. check_last d' e.last_list))
        else stop "unexpected outstanding strategy order; restart reconciliation required" d

    abbrev pub with_second : Bool → Disk V → Result V → Ran V
    with_second recover_managed d (err message) = stop message d
    with_second recover_managed d (ok listed) =
        let d' = write_open listed d in
        cancel_listed recover_managed d' (managed_open_orders d'.files listed e.coin)

    abbrev pub with_first : Bool → Disk V → Result V → Ran V
    with_first recover_managed d (err message) = stop message d
    with_first recover_managed d (ok listed) =
        let d' = write_open listed d in
        let r = refresh e.status_of e.user e.now d'.files in
        and_next (set_files d' r.files) r.result
          (λ d''. with_second recover_managed d'' e.second_list)

    unfoldable pub sync_orders : Bool → Disk V → Ran V
    unfolding refresh managed_open_orders cancel_each compact
    sync_orders recover_managed d = with_first recover_managed d e.first_list
