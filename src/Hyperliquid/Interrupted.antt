-- ===== src/Hyperliquid/Interrupted.antt =====
-- `reconcile` of src/hyperliquid/hedge.rs: what becomes of an operation that was interrupted. What the
-- exchange answers is an argument; the client is taken to be set up.
pub mod Retained
use lp_maker.Base.{
  ℕ, Bool, true, false, ◌&&◌, ◌||◌, not, Option, none, some, List, [], ◌∷◌, ◌++◌, String, Result,
  ok, err, ◌>>=◌, ◌>>◌, ensure, context, is_empty, if◌then◌else◌, any, is_some,
}
use lp_maker.Hyperliquid.Json.{Json, is_text, is_number, names, eq_ignore_ascii_case}
use lp_maker.Hyperliquid.Store.{Files, ArchivePolicy}
use lp_maker.Hyperliquid.Journal.{prepare, intents, cloid_of}
use lp_maker.Hyperliquid.Journal.Reconcile.{not_submitted}
use lp_maker.Hyperliquid.Recovery.{Answers, Resolved, resolve}

pub record Inquiry {ℓ} (V : Type ℓ) : Type ℓ where
  pub user : String
  pub hedge_coin : String
  pub now : ℕ
  pub policy : ArchivePolicy V
  -- About an order, all open orders, the number of the asset, and the data of the active asset.
  pub answers : String → Answers V
  pub open_orders : Result V
  pub asset : Result ℕ
  pub active : Result V

module _ {ℓ} {V : Type ℓ} ⦃j : Json V⦄ where
  abbrev pub returns : Result V → Files V → Resolved V
  returns result s = record { files = s; result = result }

  -- `store.finish(&v)`, and `Ok(v)`.
  abbrev pub settled : V → Files V → Resolved V
  settled v s = returns (ok v) (record s { pending = none })

  -- `Client::active_asset`.
  unfoldable pub active_asset : Inquiry V → Result V
  active_asset q = do
    v ← q.active
    ensure (is_text (j.at v "coin") q.hedge_coin && names (j.at v "user") q.user)
        "active asset response identity mismatch"
    ensure
        (is_some (j.as_u64 (j.at (j.at v "leverage") "value"))
          && any (is_text (j.at (j.at v "leverage") "type")) ("cross" ∷ "isolated" ∷ []))
        "invalid asset leverage response"
    ok v

  module _ (q : Inquiry V) where
    -- `prepare` under the nonce of the request.
    abbrev pub prepare_again : V → Files V → Result (Files V)
    prepare_again pending s =
        context (j.as_u64 (j.at (j.at pending "request") "nonce")) "pending nonce" >>= λ nonce.
        prepare q.policy (j.at (j.at pending "request") "action") q.user nonce s

    abbrev pub when_withdrawn : Files V → Result (Files V) → Resolved V
    when_withdrawn s (err message) = returns (err message) s
    when_withdrawn s (ok s') =
        settled
          (j.object (
            ("status", j.text "not_submitted")
            ∷ ("reason", j.text "durable pre-dispatch state; no network write began")
            ∷ []))
          s'

    abbrev pub when_unsent : V → Files V → Result (Files V) → Resolved V
    when_unsent action s (err message) = returns (err message) s
    when_unsent action s (ok s') = when_withdrawn s' (not_submitted q.now action s')

    -- The status of each order of the operation, in turn.
    abbrev pub when_found :
        List V → (List V → Files V → Resolved V) → Files V → Result V → Resolved V
    when_found found next s (err message) = returns (err message) s
    when_found found next s (ok status) = next (found ++ status ∷ []) s

    abbrev pub when_named :
        List V → (List V → Files V → Resolved V) → Files V → Result String → Resolved V
    when_named found next s (err message) = returns (err message) s
    when_named found next s (ok id) =
        let r = resolve (q.answers id) q.now id false s in when_found found next r.files r.result

    unfoldable pub resolve_each : List V → List V → Files V → Resolved V
    unfolding resolve
    resolve_each [] found s =
        settled
          (j.object (
            ("statuses", j.array found)
            ∷ (
              "note",
              j.text
                  "known strategy orders and actual positions are reconciled at startup; no order replay",
            )
            ∷ []))
          s
    resolve_each (order ∷ rest) found s =
        when_named found (resolve_each rest) s
          (context (j.as_str (j.at order "c")) "pending order has no client ID")

    abbrev pub when_listed : Files V → Result (List V) → Resolved V
    when_listed s (err message) = returns (err message) s
    when_listed s (ok orders) = resolve_each orders [] s

    abbrev pub when_order : V → Files V → Result (Files V) → Resolved V
    when_order action s (err message) = returns (err message) s
    when_order action s (ok s') =
        when_listed s' (context (j.as_array (j.at action "orders")) "pending orders")

    abbrev pub no_rows : Option (List V) → Bool
    no_rows none = false
    no_rows (some rows) = is_empty rows

    -- A cancellation is over when nothing is open.
    unfoldable pub check_cancelled : Result V
    check_cancelled = q.open_orders >>= λ listed.
        ensure (no_rows (j.as_array listed))
          "open orders remain; inspect before clearing cancellation"
        >> ok listed

    abbrev pub margin_name : V → String
    margin_name action =
        if j.same (j.at action "isCross") (j.boolean true) then "cross" else "isolated"

    -- A change of the leverage is over when the account shows it.
    unfoldable pub check_leverage : V → Result V
    unfolding active_asset
    check_leverage action = do
      asset ← q.asset
      ensure (is_number (j.at action "asset") asset) "different leverage asset"
      state ← active_asset q
      ensure
          (j.same (j.at (j.at state "leverage") "value") (j.at action "leverage")
            && is_text (j.at (j.at state "leverage") "type") (margin_name action))
          "cannot verify leverage change; inspect account configuration"
      ok state

    abbrev pub when_checked : Files V → Result V → Resolved V
    when_checked s (err message) = returns (err message) s
    when_checked s (ok v) = settled v s

    unfoldable pub check_effect : V → Files V → Resolved V
    unfolding check_cancelled check_leverage
    check_effect action s =
        if any (is_text (j.at action "type")) ("cancel" ∷ "cancelByCloid" ∷ "scheduleCancel" ∷ [])
        then when_checked s check_cancelled
        else if is_text (j.at action "type") "updateLeverage"
        then when_checked s (check_leverage action)
        else returns (err "pending non-order action requires checking its effect") s

    unfoldable pub continue_with : V → Files V → Resolved V
    unfolding prepare not_submitted resolve_each check_effect
    continue_with pending s =
        let action = j.at (j.at pending "request") "action" in
        if is_text (j.at pending "dispatch_state") "prepared"
        then when_unsent action s (prepare_again pending s)
        else if is_text (j.at action "type") "order"
        then when_order action s (prepare_again pending s)
        else check_effect action s

    abbrev pub check_owner : V → Result (Unit {0})
    check_owner pending = do
      ensure (is_text (j.at pending "venue") "hyperliquid")
          "unknown pending venue; operation retained"
      ensure (names (j.at pending "user") q.user)
          "pending operation belongs to another Hyperliquid account"

    abbrev pub when_owned : V → Files V → Result (Unit {0}) → Resolved V
    when_owned pending s (err message) = returns (err message) s
    when_owned pending s (ok _) = continue_with pending s

    abbrev pub reconcile_pending : Option V → Files V → Resolved V
    reconcile_pending none s =
        returns (ok (j.object (("status", j.text "no_pending_operation") ∷ []))) s
    reconcile_pending (some pending) s = when_owned pending s (check_owner pending)

    unfoldable pub reconcile : Files V → Resolved V
    unfolding continue_with
    reconcile s = reconcile_pending s.pending s
