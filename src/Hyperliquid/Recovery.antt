-- ===== src/Hyperliquid/Recovery.antt =====
-- src/hyperliquid/order_recovery.rs: the search for an order without an answer. What the exchange answers is
-- an argument; it may answer every question differently.
pub mod Writes
pub mod Final
pub mod Evidence
use lp_maker.Base.{
  ℕ, zero, suc, ◌+◌, Bool, true, false, ◌&&◌, ◌||◌, not, Option, none, some, List, [], ◌∷◌, ◌++◌,
  String, Result, ok, err, ◌>>=◌, ◌>>◌, ensure, context, ◌==◌, leb, if◌then◌else◌, select, length,
  is_empty,
}
use lp_maker.Hyperliquid.Json.{Json, eq_ignore_ascii_case, is_text, is_number, names}
use lp_maker.Hyperliquid.Store.{Order, Orders, Files, Done, lookup}
use lp_maker.Hyperliquid.Journal.{terminal_status, each, import_legacy}
use lp_maker.Hyperliquid.Journal.Reconcile.{observe, is_found}

-- The answers of the exchange about one order: to a query, and about all open orders, per attempt; and the
-- account that the client signs for.
pub record Answers {ℓ} (V : Type ℓ) : Type ℓ where
  pub order_status : ℕ → V → Result V
  pub open_orders : ℕ → Result V
  pub user : String

-- A step of an attempt: it returns, or goes on and knows whether the order is open.
pub data Step {ℓ} (V : Type ℓ) : Type ℓ where
  returned : (files : Files V) → (result : Result V) → Step V
  going_on : (files : Files V) → (known_open : Bool) → Step V

-- What `resolve` returns.
pub record Resolved {ℓ} (V : Type ℓ) : Type ℓ where
  pub files : Files V
  pub result : Result V

module _ {ℓ} {V : Type ℓ} ⦃j : Json V⦄ where
  abbrev pub durable : String → Order V → V
  durable id o = j.object (
      ("status", j.text "order")
      ∷ (
        "order",
        j.object (
            ("status", j.text o.status)
            ∷ (
              "order",
              j.object (
                  ("oid", elim o.oid [ none ↦ j.null | some oid ↦ j.number oid ])
                  ∷ ("cloid", j.text id)
                  ∷ []),
            )
            ∷ []),
      )
      ∷ ("source", j.text "durable_terminal")
      ∷ [])

  -- An open order as an answer about it.
  abbrev pub listed : V → V
  listed row = j.object (
      ("status", j.text "order")
      ∷ ("order", j.object (("status", j.text "open") ∷ ("order", row) ∷ []))
      ∷ ("source", j.text "openOrders")
      ∷ [])

  abbrev pub is_open : V → Bool
  is_open response = is_text (j.at (j.at response "order") "status") "open"

  abbrev pub queries : String → Order V → List V
  queries id o = elim o.oid [ none ↦ j.text id ∷ [] | some oid ↦ j.number oid ∷ j.text id ∷ [] ]

  -- `?` on a step.
  abbrev pub and_then : Step V → (Bool → Files V → Step V) → Step V
  and_then (returned s r) next = returned s r
  and_then (going_on s known_open) next = next known_open s

  -- A step that goes on is followed by another attempt.
  abbrev pub or_again : Step V → (Files V → Resolved V) → Resolved V
  or_again (returned s r) again = record { files = s; result = r }
  or_again (going_on s known_open) again = again s

  abbrev pub answered : Bool → Bool → V → Files V → Result (Unit {0}) → Step V
  answered terminal_only still_open response s (err message) = returned s (err message)
  answered terminal_only still_open response s (ok _) =
      if not terminal_only || not still_open then returned s (ok response) else going_on s true

  -- An answer that names the order is recorded. It is what was asked for, unless a final status is and the
  -- order is still open.
  unfoldable pub record_answer : ℕ → String → Bool → Bool → V → Files V → Step V
  record_answer now id terminal_only still_open response s =
      let seen = observe now id response s in
      answered terminal_only still_open response seen.files seen.result

  module _ (answers : Answers V) (now : ℕ) (id : String) (terminal_only : Bool) where
    abbrev pub after_query : Result V → Bool → Files V → Step V
    after_query (err message) known_open s = returned s (err message)
    after_query (ok response) known_open s =
        if is_found response
        then record_answer now id terminal_only (is_open response) response s
        else if is_text (j.at response "status") "unknownOid"
        then going_on s known_open
        else returned s (err "unexpected order status response; order retained")

    unfoldable pub query_all : ℕ → List V → Bool → Files V → Step V
    unfolding record_answer
    query_all attempt [] known_open s = going_on s known_open
    query_all attempt (q ∷ rest) known_open s =
        and_then (after_query (answers.order_status attempt q) known_open s)
          (query_all attempt rest)

    -- Only the number of the exchange or the own identifier proves whose order it is.
    abbrev pub is_ours : Order V → V → Bool
    is_ours o row =
        (elim o.oid [ none ↦ false | some oid ↦ is_number (j.at row "oid") oid ])
        || names (j.at row "cloid") id

    abbrev pub match_open : List V → Files V → Step V
    match_open [] s = going_on s false
    match_open (row ∷ []) s = record_answer now id terminal_only true (listed row) s
    match_open (row ∷ other ∷ rest) s =
        returned s (err "multiple open orders match one durable intent")

    abbrev pub search_rows : Order V → Option (List V) → Files V → Step V
    search_rows o none s = returned s (err "open orders response")
    search_rows o (some rows) s = match_open (select (is_ours o) rows) s

    abbrev pub with_open_orders : V → Files V → Files V
    with_open_orders answer s = record s {
      open_orders = some (
          j.object (
            ("observed_ms", j.number now)
            ∷ ("user", j.text answers.user)
            ∷ ("orders", answer)
            ∷ []));
    }

    unfoldable pub search_open : Order V → Result V → Files V → Step V
    unfolding record_answer
    search_open o (err message) s = returned s (err message)
    search_open o (ok answer) s = search_rows o (j.as_array answer) (with_open_orders answer s)

    abbrev pub unless_open : ℕ → Order V → Bool → Files V → Step V
    unless_open attempt o true s = going_on s true
    unless_open attempt o false s = search_open o (answers.open_orders attempt) s

    -- The queries, and the open orders unless a query found the order open.
    abbrev pub ask_exchange : ℕ → Order V → Files V → Step V
    ask_exchange attempt o s =
        and_then (query_all attempt (queries id o) false s) (unless_open attempt o)

    -- A status that is final on disk needs no answer.
    abbrev pub known_order : ℕ → Order V → Files V → Step V
    known_order attempt o s =
        if not (eq_ignore_ascii_case o.user answers.user)
        then returned s (err "order ledger belongs to another account")
        else if o.terminal
        then returned s (
            ensure (terminal_status o.status) "invalid durable terminal status"
            >> ok (durable id o))
        else ask_exchange attempt o s

    abbrev pub attempt_on : ℕ → Files V → Option (Order V) → Step V
    attempt_on attempt s none = returned s (err "order recovery requires a durable intent")
    attempt_on attempt s (some o) = known_order attempt o s

    unfoldable pub attempt_once : ℕ → Files V → Step V
    unfolding query_all search_open
    attempt_once attempt s = attempt_on attempt s (lookup id s.orders)

    -- The attempts that are left, from this one on; the pauses between them are not modelled.
    unfoldable pub attempts_from : ℕ → ℕ → Files V → Resolved V
    unfolding attempt_once
    attempts_from zero attempt s = record {
      files = s;
      result = err "order remains unresolved; absence is not proof of no fill";
    }
    attempts_from (suc left) attempt s =
        or_again (attempt_once attempt s) (attempts_from left (suc attempt))

    unfoldable pub resolve : Files V → Resolved V
    unfolding attempts_from
    resolve s = attempts_from 5 0 s

  abbrev pub refresh_order :
      (String → Answers V) → String → ℕ → Order V → Files V → Done V (Unit {0})
  refresh_order answers user now o s =
      if not (eq_ignore_ascii_case o.user user)
      then record { files = s; result = err "order ledger belongs to another account" }
      else if o.terminal
      then record { files = s; result = ok tt }
      else (let after = resolve (answers o.cloid) now o.cloid false s in
          record { files = after.files; result = after.result >>= λ _. ok tt })

  abbrev pub and_go_on :
      Done V (Unit {0}) → (Files V → Done V (Unit {0})) → Result (Unit {0}) → Done V (Unit {0})
  and_go_on d next (err message) = d
  and_go_on d next (ok _) = next d.files

  -- Over the orders as they were read first.
  unfoldable pub refresh_all :
      (String → Answers V) → String → ℕ → Orders V → Files V → Done V (Unit {0})
  unfolding resolve
  refresh_all answers user now [] s = record { files = s; result = ok tt }
  refresh_all answers user now ((_, o) ∷ rest) s =
      let after = refresh_order answers user now o s in
      and_go_on after (refresh_all answers user now rest) after.result

  abbrev pub after_import :
      (String → Answers V) → String → ℕ → Files V → Result (Files V) → Done V (Unit {0})
  after_import answers user now s (err message) = record { files = s; result = err message }
  after_import answers user now s (ok s') = refresh_all answers user now s'.orders s'

  -- `journal::refresh`.
  unfoldable pub refresh : (String → Answers V) → String → ℕ → Files V → Done V (Unit {0})
  unfolding refresh_all
  refresh answers user now s = after_import answers user now s (import_legacy user s)
