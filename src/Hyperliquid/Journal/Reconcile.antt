-- ===== src/Hyperliquid/Journal/Reconcile.antt =====
-- src/hyperliquid/journal.rs: how the ledger follows the exchange, and what it forgets.
use Prim.Native.Nat.{lt, eq, gt}
use Prim.Native.String.{compare as str_compare}
use lp_maker.Base.{
  ℕ, ◌-◌, Bool, true, false, ◌&&◌, ◌||◌, not, Option, none, some, is_none, List, [], ◌∷◌, map,
  String, Result, ok, err, ◌>>=◌, ◌>>◌, ensure, context, ◌==◌, ltb, if◌then◌else◌, any, all, select,
  length, take, unwrap_or,
}
use text.Mathlib.Text.{◌==◌ as str_eq}
use lp_maker.Hyperliquid.Json.{Json, is_text, names}
use lp_maker.Hyperliquid.Store.{
  Order, Orders, Files, ArchivePolicy, Done, lookup, remove, change, archive_order,
}
use lp_maker.Hyperliquid.Journal.{
  terminal_status, each, update_orders, is_order, intents, cloid_of, points_to,
}

-- The orders of the exchange and the archive while the ledger is pruned.
pub record Pruned {ℓ} (V : Type ℓ) : Type ℓ where
  pub archive : List (String × V)
  pub result : Result (Orders V)

-- By time, then by identifier, as pairs are ordered.
abbrev pub is_before : ℕ × String → ℕ × String → Bool
is_before (t, a) (u, b) =
    ltb t u || ((t == u) && (elim (str_compare a b) [ lt ↦ true | eq ↦ true | gt ↦ false ]))

abbrev pub insert_sorted : ℕ × String → List (ℕ × String) → List (ℕ × String)
insert_sorted x [] = x ∷ []
insert_sorted x (y ∷ rest) =
    let rest' = insert_sorted x rest in if is_before x y then x ∷ y ∷ rest else y ∷ rest'

-- `sort`.
abbrev pub sort : List (ℕ × String) → List (ℕ × String)
sort [] = []
sort (x ∷ rest) = insert_sorted x (sort rest)

module _ {ℓ} {V : Type ℓ} ⦃j : Json V⦄ where
  -- The send never began.
  unfoldable pub withdraw_order : ℕ → Order V → Result (Order V)
  withdraw_order now o =
      ensure (is_none o.oid && (str_eq o.status "prepared" || str_eq o.status "not_submitted"))
        "pre-dispatch order has unexpected exchange evidence"
      >> ok (record o { status = "not_submitted"; terminal = true; observed_ms = now })

  abbrev pub withdraw_known : ℕ → String → Orders V → Option (Order V) → Result (Orders V)
  withdraw_known now id ledger none = ok ledger
  withdraw_known now id ledger (some o) = change id (withdraw_order now) ledger

  abbrev pub withdraw_wire : ℕ → V → Orders V → Result (Orders V)
  withdraw_wire now wire ledger =
      cloid_of wire >>= λ id. withdraw_known now id ledger (lookup id ledger)

  unfoldable pub not_submitted : ℕ → V → Files V → Result (Files V)
  unfolding withdraw_order
  not_submitted now action s =
      (if is_order action
        then (intents action >>= λ wires. update_orders s (each (withdraw_wire now) wires s.orders))
        else ok s)
      >>= λ s'. ok (record s' { hedge_order = none })

  abbrev pub is_found : V → Bool
  is_found response = is_text (j.at response "status") "order"

  unfoldable pub observe_found : ℕ → String → V → Order V → Result (Order V)
  observe_found now id response o = do
    let row = j.at (j.at response "order") "order"
    ensure (j.is_null (j.at row "cloid") || names (j.at row "cloid") id) "order cloid mismatch"
    oid ← context (j.as_u64 (j.at row "oid")) "order oid missing"
    ensure (elim o.oid [ none ↦ true | some old ↦ old == oid ]) "order oid changed unexpectedly"
    status ← context (j.as_str (j.at (j.at response "order") "status")) "order status missing"
    ensure (not o.terminal || str_eq o.status status) "terminal order status cannot regress"
    ok (record o {
      oid = some oid;
      status = status;
      terminal = terminal_status status;
      observed_ms = now;
      exchange = response;
    })

  -- Absence takes no evidence back.
  unfoldable pub observe_missing : ℕ → V → Order V → Order V
  observe_missing now response o =
      if not (is_none o.oid) || o.terminal
      then o
      else record o { status = "unknown"; terminal = false; observed_ms = now; exchange = response }

  -- What an answer about an order says of it.
  abbrev pub observe_order : ℕ → String → V → Order V → Result (Order V)
  observe_order now id response o =
      if is_found response
      then observe_found now id response o
      else ok (observe_missing now response o)

  -- Whether the answer settles the order, after it was recorded.
  unfoldable pub settle_order : V → Result (Unit {0})
  settle_order response = do
    ensure (is_found response) "order unknown; absence/expiry is not proof of no fill"
    status ← context (j.as_str (j.at (j.at response "order") "status")) "order status"
    ensure (str_eq status "open" || terminal_status status)
        "unresolved order status; no automatic replay"

  abbrev pub observed_files : Files V → Result (Orders V) → V → Done V (Unit {0})
  observed_files s (err message) response = record { files = s; result = err message }
  observed_files s (ok orders) response = record {
    files = record s { orders = orders };
    result = settle_order response;
  }

  unfoldable pub observe : ℕ → String → V → Files V → Done V (Unit {0})
  unfolding observe_found observe_missing settle_order
  observe now id response s =
      observed_files s (change id (observe_order now id response) s.orders) response

  -- The order that the exchange has under this number.
  unfoldable pub find_oid : ℕ → Orders V → Option (Order V)
  find_oid oid [] = none
  find_oid oid ((k, o) ∷ rest) =
      let rest' = find_oid oid rest in
      if (elim o.oid [ none ↦ false | some n ↦ n == oid ]) then some o else rest'

  -- An open order of the exchange is one of the strategy's, and not known to be over.
  unfoldable pub own_order : Orders V → String → V → Result String
  own_order ledger coin row = do
    oid ← context (j.as_u64 (j.at row "oid")) "open order oid"
    o ←
        context (find_oid oid ledger)
          "untracked exchange order; recorded but will not cancel/adopt automatically"
    ensure (o.managed_hedge && is_text (j.at row "coin") coin)
        "non-strategy or inconsistent open order; startup blocked"
    ensure (not o.terminal)
        "exchange open orders lag a confirmed terminal order; retry reconciliation"
    ok o.cloid

  unfoldable pub own_orders : Orders V → String → List V → Result (List String)
  unfolding own_order
  own_orders ledger coin [] = ok []
  own_orders ledger coin (row ∷ rest) =
      own_order ledger coin row >>= λ id. own_orders ledger coin rest >>= λ ids. ok (id ∷ ids)

  unfoldable pub managed_open_orders : Files V → V → String → Result (List String)
  unfolding own_orders
  managed_open_orders s listed coin = do
    rows ← context (j.as_array listed) "open orders response"
    ids ← own_orders s.orders coin rows
    ensure (all (λ entry. entry.1.terminal || any (λ id. str_eq id entry.1.cloid) ids) s.orders)
        "local unresolved order absent from exchange open orders"
    ok ids

  module _ (p : ArchivePolicy V) where
    -- The orders that may go, the oldest first.
    unfoldable pub prunable : Files V → List (ℕ × String)
    prunable s =
        let pointer = unwrap_or s.hedge_order j.null in
        sort (
          map (λ entry. (entry.1.observed_ms, entry.1.cloid))
            (select (λ entry. entry.1.terminal && not (points_to pointer entry.1.cloid)) s.orders))

    abbrev pub prune_step : String → List (String × V) → Orders V → Result (List (String × V))
    prune_step id archive ledger = context (lookup id ledger) "terminal order disappeared" >>= λ o.
        archive_order p archive id (p.order_value o)

    -- What is archived stays archived, even if a later order cannot be.
    abbrev pub prune_next :
        (List (String × V) → Pruned V) → List (String × V) → Result (List (String × V)) → Pruned V
    prune_next next archive (err message) = record { archive = archive; result = err message }
    prune_next next archive (ok archive') = next archive'

    unfoldable pub prune : List (ℕ × String) → List (String × V) → Orders V → Pruned V
    prune [] archive ledger = record { archive = archive; result = ok ledger }
    prune ((_, id) ∷ rest) archive ledger =
        prune_next (λ archive'. prune rest archive' (remove id ledger)) archive
          (prune_step id archive ledger)

    abbrev pub pruned_files : Files V → Result (Orders V) → Done V (Unit {0})
    pruned_files s (err message) = record { files = s; result = err message }
    pruned_files s (ok orders) = record { files = record s { orders = orders }; result = ok tt }

    abbrev pub prune_files : List (ℕ × String) → Files V → Done V (Unit {0})
    prune_files ids s =
        let after = prune ids s.archive s.orders in
        pruned_files (record s { archive = after.archive }) after.result

    abbrev pub is_pending : Files V → Bool
    is_pending s = elim s.pending [ none ↦ false | some v ↦ not (j.is_null v) ]

    -- Nothing is pruned while a mutation is pending.
    unfoldable pub compact : Files V → Done V (Unit {0})
    unfolding prunable prune
    compact s =
        let ids = prunable s in
        if is_pending s
        then record { files = s; result = ok tt }
        else prune_files (take (length ids - p.terminal_orders_keep) ids) s
