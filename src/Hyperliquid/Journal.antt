-- ===== src/Hyperliquid/Journal.antt =====
-- src/hyperliquid/journal.rs: which orders were sent, and what the exchange said of them.
pub mod Reconcile
use Prim.Native.Nat.{Ordering, lt, eq, gt}
use Prim.Native.String.{compare as str_compare}
use lp_maker.Base.{
  ℕ, zero, suc, ◌-◌, Bool, true, false, ◌&&◌, ◌||◌, not, Option, none, some, is_some, is_none, List,
  [], ◌∷◌, map, String, Result, ok, err, ◌>>=◌, ◌>>◌, ensure, context, ◌==◌, ltb, if◌then◌else◌,
  any, all, select, length, take, get_elem?, unwrap_or, is_ok,
}
use text.Mathlib.Text.{◌==◌ as str_eq}
use lp_maker.Hyperliquid.Json.{Json, eq_ignore_ascii_case, is_text, is_number, names}
use lp_maker.Hyperliquid.Store.{
  Order, Orders, Files, ArchivePolicy, Done, lookup, insert, remove, change, archived_order,
  archive_order,
}

unfoldable pub terminal_status : String → Bool
terminal_status status = any (str_eq status) (
    "filled" ∷ "not_submitted" ∷ "canceled" ∷ "rejected" ∷ "marginCanceled"
    ∷ "vaultWithdrawalCanceled" ∷ "openInterestCapCanceled" ∷ "selfTradeCanceled"
    ∷ "reduceOnlyCanceled" ∷ "siblingFilledCanceled" ∷ "delistedCanceled" ∷ "liquidatedCanceled"
    ∷ "scheduledCancel" ∷ "tickRejected" ∷ "minTradeNtlRejected" ∷ "perpMarginRejected"
    ∷ "reduceOnlyRejected" ∷ "badAloPxRejected" ∷ "iocCancelRejected" ∷ "badTriggerPxRejected"
    ∷ "marketOrderNoLiquidityRejected" ∷ "positionIncreaseAtOpenInterestCapRejected"
    ∷ "positionFlipAtOpenInterestCapRejected" ∷ "tooAggressiveAtOpenInterestCapRejected"
    ∷ "openInterestIncreaseRejected" ∷ "insufficientSpotBalanceRejected" ∷ "oracleRejected"
    ∷ "perpMaxPositionRejected" ∷ [])

-- A loop over a list that stops at the first error.
abbrev pub each {ℓ κ} : {A : Type ℓ} {S : Type κ} → (A → S → Result S) → List A → S → Result S
each f [] s = ok s
each f (x ∷ rest) s = f x s >>= each f rest

module _ {ℓ} {V : Type ℓ} ⦃j : Json V⦄ where
  -- `store.update("orders.json", change)`: nothing is written if the change fails.
  abbrev pub update_orders : Files V → Result (Orders V) → Result (Files V)
  update_orders s changed = changed >>= λ orders. ok (record s { orders = orders })

  abbrev pub is_order : V → Bool
  is_order action = is_text (j.at action "type") "order"

  abbrev pub intents : V → Result (List V)
  intents action = context (j.as_array (j.at action "orders")) "order intents missing"

  abbrev pub cloid_of : V → Result String
  cloid_of wire = context (j.as_str (j.at wire "c")) "client ID"

  -- The field `cloid` of a value names this order.
  abbrev pub points_to : V → String → Bool
  points_to v id = is_text (j.at v "cloid") id

  -- An order that is known already: the same submission again, or one without details so far.
  unfoldable pub prepare_known : String → ℕ → V → Order V → Result (Order V)
  prepare_known user nonce wire old =
      if j.is_null old.wire && eq_ignore_ascii_case old.user user
      then ok (record old { wire = wire; submitted_ms = nonce })
      else (ensure
            (eq_ignore_ascii_case old.user user
              && j.same old.wire wire
              && (old.submitted_ms == nonce))
            "client order ID already used; do not resubmit"
          >> ok old)

  abbrev pub new_order : Bool → String → ℕ → V → String → Order V
  new_order managed user nonce wire id = record {
    cloid = id;
    oid = none;
    user = user;
    managed_hedge = managed;
    submitted_ms = nonce;
    observed_ms = 0;
    wire = wire;
    status = "prepared";
    terminal = false;
    exchange = j.null;
  }

  abbrev pub put_wire :
      Order V
      → (Order V → Result (Order V))
      → String
      → Orders V
      → Option (Order V)
      → Result (Orders V)
  put_wire fresh known id ledger none = ok (insert id fresh ledger)
  put_wire fresh known id ledger (some old) = change id known ledger

  abbrev pub is_managed : Files V → String → Bool
  is_managed s id =
      points_to (unwrap_or s.hedge_order j.null) id
      || points_to (j.at (unwrap_or s.pending j.null) "hedge_intent") id

  unfoldable pub prepare_wire : Files V → String → ℕ → V → Orders V → Result (Orders V)
  unfolding prepare_known
  prepare_wire s user nonce wire ledger = cloid_of wire >>= λ id.
      put_wire (new_order (is_managed s id) user nonce wire id) (prepare_known user nonce wire) id
        ledger (lookup id ledger)

  -- The identifier of a new mutation is nowhere in use, whatever the case of its letters.
  abbrev pub is_fresh : ArchivePolicy V → Files V → List String → String → Result (Unit {0})
  is_fresh p s seen id = archived_order p s id >>= λ archived.
      ensure
        (not (any (eq_ignore_ascii_case id) seen)
          && not (any (λ entry. eq_ignore_ascii_case entry.0 id) s.orders)
          && is_none archived)
        "client order ID already used; reject before preparing a new mutation"

  unfoldable pub validate_new_ids : ArchivePolicy V → Files V → V → Result (List String)
  validate_new_ids p s action =
      if not (is_order action)
      then ok []
      else (intents action >>= λ wires.
          each (λ wire seen. cloid_of wire >>= λ id. is_fresh p s seen id >> ok (id ∷ seen)) wires
            [])

  abbrev pub is_unarchived : ArchivePolicy V → Files V → V → Result (Unit {0})
  is_unarchived p s wire = do
    id ← cloid_of wire
    archived ← archived_order p s id
    ensure (is_none archived) "client order ID already archived; do not reuse or resubmit"

  unfoldable pub prepare : ArchivePolicy V → V → String → ℕ → Files V → Result (Files V)
  unfolding prepare_wire
  prepare p action user nonce s =
      if not (is_order action)
      then ok s
      else (intents action >>= λ wires.
          each (λ wire _. is_unarchived p s wire) wires tt
          >> update_orders s (each (prepare_wire s user nonce) wires s.orders))

  -- The strategy order of an older release, without details.
  abbrev pub legacy_order : String → String → Order V
  legacy_order user id = record (new_order true user 0 j.null id) { status = "legacy_unverified" }

  abbrev pub or_insert : String → Order V → Orders V → Option (Order V) → Orders V
  or_insert id fresh ledger none = insert id fresh ledger
  or_insert id fresh ledger (some old) = ledger

  abbrev pub import_pointer : String → Files V → Option V → Result (Files V)
  import_pointer user s none = ok s
  import_pointer user s (some h) =
      context (j.as_str (j.at h "cloid")) "invalid legacy hedge order" >>= λ id.
      ok (record s { orders = or_insert id (legacy_order user id) s.orders (lookup id s.orders) })

  unfoldable pub import_legacy : String → Files V → Result (Files V)
  import_legacy user s = import_pointer user s s.hedge_order

  -- What an acknowledgement says: the status, and the order of the exchange.
  abbrev pub read_ack : Bool → V → Result (String × Bool × Option ℕ)
  read_ack rejected ack =
      if rejected || j.has ack "error"
      then ok ("rejected", true, none)
      else (elim (j.as_u64 (j.at (j.at ack "resting") "oid")) [
        | some oid ↦ ok ("open", false, some oid)
        | none ↦ elim (j.as_u64 (j.at (j.at ack "filled") "oid")) [
          | some oid ↦ ok ("filled", true, some oid)
          | none ↦ err "unrecognized order acknowledgement; pending retained"
        ]
      ])

  abbrev pub acknowledge : ℕ → Bool → V → Order V → Result (Order V)
  acknowledge now rejected ack o = read_ack rejected ack >>= λ (status, terminal, oid).
      ok (record o {
        status = status;
        terminal = terminal;
        oid = oid;
        observed_ms = now;
        exchange = ack;
      })

  -- The loop over the intents, from an index on; an index out of range stops the program.
  unfoldable pub acknowledge_from :
      ℕ → Bool → V → Option (List V) → List V → ℕ → Orders V → Result (Orders V)
  acknowledge_from now rejected response statuses [] i ledger = ok ledger
  acknowledge_from now rejected response statuses (intent ∷ rest) i ledger =
      cloid_of intent >>= λ id.
      (elim statuses [
        | none ↦ ok response
        | some list ↦ context (get_elem? list i) "index out of bounds"
      ])
      >>= λ ack.
          change id (acknowledge now rejected ack) ledger
          >>= acknowledge_from now rejected response statuses rest (suc i)

  unfoldable pub acknowledged : ℕ → V → V → Files V → Result (Files V)
  unfolding acknowledge_from
  acknowledged now action response s =
      if not (is_order action)
      then ok s
      else (intents action >>= λ wires.
          let statuses = j.as_array (j.at (j.at (j.at response "response") "data") "statuses") in
          let rejected = is_text (j.at response "status") "err" in
          ensure
            (rejected || (elim statuses [ none ↦ false | some list ↦ length list == length wires ]))
            "order acknowledgement incomplete; pending retained"
          >> update_orders s (acknowledge_from now rejected response statuses wires 0 s.orders))
